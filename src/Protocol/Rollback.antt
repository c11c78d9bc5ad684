-- ===== src/Protocol/Rollback.antt =====
-- A subscribe that the engine refuses leaves the session as it was.
use gentis.Prelude.{
  ◌≡◌, Bool, false, if◌then◌else◌, arith, Bytes, bytes_Eq, bytes_eq_iff, some, Option-cases, inl,
  inr,
}
use gentis.Pattern.{is_pattern}
use gentis.Protocol.Types.{SubscribeRequest, EngineError}
use gentis.Protocol.Session.{Engine, Consumer, Session, Limits, emit}
use gentis.Qos.Window.{Window, new_window}
use gentis.Protocol.Ops as Ops

module _ {E C : Type 0} (eng : Engine E) (con : Consumer C) (limits : Limits) where
  -- What undoing an installation leaves is what was there before it.
  undo-subscribe :
      (c : C) (channel j : Bytes) (w : Window)
      → con.window
          (if (con.subscribe c channel w).1
            then con.unsubscribe (con.subscribe c channel w).0 channel
            else (con.subscribe c channel w).0)
          j
        ≡ con.window c j
  undo-subscribe c channel j w =
      let law = con.window-subscribe c channel j w in
      let flag = con.subscribe_installs c channel w in
      let undo = con.window-unsubscribe (con.subscribe c channel w).0 channel j in
      ground (arith, bytes_eq_iff channel j)

  attach-refused :
      (s : Session E C) (req : SubscribeRequest) (b : Bool) (id : Bytes) (e : EngineError)
      → (eng.subscribe_priority s.engine limits.subscriber req.channel req.priority).1 ≡ some e
      → ((Ops.attach eng con limits s req b id).qos
          ≡ (if b then con.unsubscribe s.qos req.channel else s.qos))
        × ((Ops.attach eng con limits s req b id).state ≡ s.state)
  unfolding Ops.attach Ops.fail emit
  attach-refused s req b id e r = ground arith

  -- Where the engine refuses the subscription of a channel that is no wildcard, every channel has the
  -- window it had (the window that this request put in is gone, and one of an earlier subscribe is
  -- still there) and the client's state, its list of subscriptions included, is unchanged.
  pub subscribe-refused :
      (s : Session E C) (req : SubscribeRequest) (id j : Bytes) (e : EngineError)
      → is_pattern req.channel ≡ false
      → (eng.subscribe_priority s.engine limits.subscriber req.channel req.priority).1 ≡ some e
      → (con.window (Ops.subscribe eng con limits s req id).qos j ≡ con.window s.qos j)
        × ((Ops.subscribe eng con limits s req id).state ≡ s.state)
  unfolding Ops.subscribe Ops.install Ops.fail emit
  subscribe-refused s req id j e p r = elim (Option-cases req.window) [
    | inl absent ↦ ground (arith, attach-refused s req false id e)
    | inr (win, present) ↦
        let policy = eng.qos_policy s.engine req.channel in
        let made =
          new_window win.count (Ops.int64 win.bytes) policy.timeout policy.max_redeliveries in
        let w = Ops.pin made req.recover in
        let put = con.subscribe s.qos req.channel w in
        let s₁ : Session E C = record s { qos = put.0 } in
        let undone = undo-subscribe s.qos req.channel j w in
        let refused = attach-refused s₁ req put.1 id e r in ground arith
  ]
