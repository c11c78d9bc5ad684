-- ===== src/Protocol/Gate.antt =====
-- The gate of the ops: what they do for a session that is not authenticated.
use gentis.Prelude.{◌≡◌, refl, false}
use gentis.Protocol.Types.{not_authenticated}
use gentis.Protocol.Session.{Engine, Consumer, Session, Limits, emit, failed}
use gentis.Protocol.Ops as Ops
use gentis.Protocol.Calls.{
  Call, call, is_open, id_of, connect, refresh, ping, confirm, unknown, subscribe, unsubscribe,
  publish,
}

module _ {E C : Type 0} (eng : Engine E) (con : Consumer C) (limits : Limits) where
  -- For a session that is not authenticated, every op but connect and ping sends one
  -- NotAuthenticated error under the request's id and changes nothing else.
  pub call-gated :
      (s : Session E C) (c : Call)
      → s.state.authenticated ≡ false
      → is_open c ≡ false
      → call eng con limits s c ≡ emit s (failed not_authenticated (id_of c))
  unfolding call is_open id_of Ops.fail Ops.refresh Ops.confirm Ops.unknown Ops.subscribe
      Ops.unsubscribe Ops.publish
  call-gated s (connect v n id) a o = cc
  call-gated s (refresh v id) a o = rw a refl
  call-gated s (ping id) a o = cc
  call-gated s (confirm ch off id) a o = rw a refl
  call-gated s (unknown id) a o = rw a refl
  call-gated s (subscribe req id) a o = rw a refl
  call-gated s (unsubscribe ch id) a o = rw a refl
  call-gated s (publish req id) a o = rw a refl
