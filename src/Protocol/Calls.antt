-- ===== src/Protocol/Calls.antt =====
-- The calls that a transport makes of the ops for one session, as data, and the sessions that a
-- sequence of them leaves. A session's dispatch loop has one thread.
use gentis.Prelude.{ℕ, Bytes, List, [], ◌∷◌, Bool, true, false}
use gentis.Auth.Verify.{Verified}
use gentis.Protocol.Types.{SubscribeRequest, PublishRequest}
use gentis.Protocol.Session.{Engine, Consumer, Session, Limits}
use gentis.Protocol.Ops as Ops

pub data Call : Type 0 where
  connect : Verified → ℕ → Bytes → Call
  refresh : Verified → Bytes → Call
  ping : Bytes → Call
  confirm : Bytes → ℕ → Bytes → Call
  unknown : Bytes → Call
  subscribe : SubscribeRequest → Bytes → Call
  unsubscribe : Bytes → Bytes → Call
  publish : PublishRequest → Bytes → Call

module _ {E C : Type 0} (eng : Engine E) (con : Consumer C) (limits : Limits) where
  unfoldable pub call : Session E C → Call → Session E C
  call s (connect verified asked req_id) = Ops.connect eng con limits s verified asked req_id
  call s (refresh verified req_id) = Ops.refresh eng con limits s verified req_id
  call s (ping req_id) = Ops.ping eng con limits s req_id
  call s (confirm channel offset req_id) = Ops.confirm eng con limits s channel offset req_id
  call s (unknown req_id) = Ops.unknown eng con limits s req_id
  call s (subscribe req req_id) = Ops.subscribe eng con limits s req req_id
  call s (unsubscribe channel req_id) = Ops.unsubscribe eng con limits s channel req_id
  call s (publish req req_id) = Ops.publish eng con limits s req req_id

  unfoldable pub calls : Session E C → List Call → Session E C
  calls s [] = s
  calls s (c ∷ cs) = calls (call s c) cs

-- `Connect` and `Ping` are open to a session that is not authenticated.
unfoldable pub is_open : Call → Bool
is_open (connect verified asked req_id) = true
is_open (ping req_id) = true
is_open _ = false

unfoldable pub id_of : Call → Bytes
id_of (connect verified asked req_id) = req_id
id_of (refresh verified req_id) = req_id
id_of (ping req_id) = req_id
id_of (confirm channel offset req_id) = req_id
id_of (unknown req_id) = req_id
id_of (subscribe req req_id) = req_id
id_of (unsubscribe channel req_id) = req_id
id_of (publish req req_id) = req_id
