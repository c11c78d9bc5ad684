-- ===== src/Protocol/Identity.antt =====
-- Who a session speaks for: the subject of the first token that `Connect` accepts.
use gentis.Prelude.{
  ◌≡◌, Bool, true, arith, Bytes, bytes_Eq, bytes_eq_iff, List, [], ◌∷◌, some, Option-cases, inl,
  inr,
}
use gentis.Client.{State, authenticate, subject, add_subscription, remove_subscription}
use gentis.Protocol.Types.{SubscribeRequest}
use gentis.Protocol.Session.{Engine, Consumer, Session, Limits, emit}
use gentis.Auth.Verify as Verify
use gentis.Protocol.Ops as Ops
use gentis.Protocol.Calls.{
  Call, call, calls, connect, refresh, ping, confirm, unknown, subscribe, unsubscribe, publish,
}

abbrev pub SpeaksFor : Bytes → State → Type 0
SpeaksFor who s = (s.authenticated ≡ true) × (subject s ≡ who)

module _ {E C : Type 0} (eng : Engine E) (con : Consumer C) (limits : Limits) where
  -- Installing a window does not touch the client's state.
  pub install-state :
      (s s₁ : Session E C) (req : SubscribeRequest) (put : Bool)
      → Ops.install eng con limits s req ≡ some (s₁, put)
      → s₁.state ≡ s.state
  unfolding Ops.install
  install-state s s₁ req put h = ground arith

module _ {E C : Type 0} (eng : Engine E) (con : Consumer C) (limits : Limits) (who : Bytes) where
  subscribe_pattern-SpeaksFor :
      (s : Session E C) (req : SubscribeRequest) (id : Bytes)
      → SpeaksFor who s.state
      → SpeaksFor who (Ops.subscribe_pattern eng con limits s req id).state
  unfolding Ops.subscribe_pattern Ops.fail emit Ops.hook add_subscription subject
  subscribe_pattern-SpeaksFor s req id h = ground arith

  attach-SpeaksFor :
      (s : Session E C) (req : SubscribeRequest) (b : Bool) (id : Bytes)
      → SpeaksFor who s.state
      → SpeaksFor who (Ops.attach eng con limits s req b id).state
  unfolding Ops.attach Ops.fail emit Ops.hook add_subscription subject
  attach-SpeaksFor s req b id h = ground arith

  subscribe-SpeaksFor :
      (s : Session E C) (req : SubscribeRequest) (id : Bytes)
      → SpeaksFor who s.state
      → SpeaksFor who (Ops.subscribe eng con limits s req id).state
  unfolding Ops.subscribe Ops.fail emit
  subscribe-SpeaksFor s req id h = elim (Option-cases (Ops.install eng con limits s req)) [
    | inl refused ↦ ground (arith, subscribe_pattern-SpeaksFor s req id)
    | inr ((s₁, put), made) ↦
        let same = install-state eng con limits s s₁ req put made in
        ground (arith, subscribe_pattern-SpeaksFor s req id, attach-SpeaksFor s₁ req put id)
  ]

  call-SpeaksFor :
      (s : Session E C) (c : Call)
      → SpeaksFor who s.state
      → SpeaksFor who (call eng con limits s c).state
  unfolding call subject Ops.connect Ops.refresh Ops.ping Ops.confirm Ops.unknown Ops.unsubscribe
      Ops.publish Ops.fail emit Ops.hook remove_subscription authenticate
  call-SpeaksFor s (connect (Verify.err e) n id) h = h
  call-SpeaksFor s (connect (Verify.ok c) n id) h =
      ground (arith, bytes_eq_iff c.subject s.state.claims.subject)
  call-SpeaksFor s (refresh (Verify.err e) id) h = ground arith
  call-SpeaksFor s (refresh (Verify.ok c) id) h =
      ground (arith, bytes_eq_iff c.subject s.state.claims.subject)
  call-SpeaksFor s (ping id) h = h
  call-SpeaksFor s (confirm ch off id) h = ground arith
  call-SpeaksFor s (unknown id) h = ground arith
  call-SpeaksFor s (subscribe req id) h = subscribe-SpeaksFor s req id h
  call-SpeaksFor s (unsubscribe ch id) h = ground arith
  call-SpeaksFor s (publish req id) h = ground arith

  -- Once a session is authenticated for a subject, it stays authenticated for that subject, whatever
  -- sequence of calls follows: no other token can take the session over.
  pub calls-SpeaksFor :
      (s : Session E C) (cs : List Call)
      → SpeaksFor who s.state
      → SpeaksFor who (calls eng con limits s cs).state
  unfolding calls
  calls-SpeaksFor s [] h = h
  calls-SpeaksFor s (c ∷ cs) h = calls-SpeaksFor (call eng con limits s c) cs (call-SpeaksFor s c h)
