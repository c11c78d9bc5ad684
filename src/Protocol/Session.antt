-- ===== src/Protocol/Session.antt =====
-- What an op reads and changes (internal/protocol/protocol.go): the interfaces `Engine` and
-- `Consumer` as records of operations, and the session with the messages and hooks it ran.
use gentis.Prelude.{
  ℕ, ℤ, Bytes, bytes_Eq, List, [], ◌∷◌, ◌++◌, Option, none, some, Bool, if◌then◌else◌, ◌==◌, ◌≡◌,
  not, ◌&&◌, is_some,
}
use gentis.Client.{State}
use gentis.Qos.Window.{Window}
use gentis.Protocol.Types.{Delivery, PublishResult, EngineError, Code}

-- What `QoSPolicy` returns.
pub record QosPolicy : Type 0 where
  pub enabled : Bool
  pub timeout : ℤ
  pub max_redeliveries : ℤ

-- `Engine`, on a state of type `E`. `publish` also runs the fanout, which is part of that state.
pub record Engine (E : Type 0) : Type 0 where
  pub qos_policy : E → Bytes → QosPolicy
  pub subscribe_priority : E → ℕ → Bytes → ℤ → E × Option EngineError
  pub subscribe_pattern : E → ℕ → Bytes → E × Option EngineError
  pub unsubscribe : E → ℕ → Bytes → E × Bool
  pub unsubscribe_pattern : E → ℕ → Bytes → E × Bool
  pub recover : E → Bytes → ℕ → ℕ → List Delivery × Bool
  pub check_publish : E → Bytes → Option EngineError
  pub publish : E → Bytes → Bytes → ℕ → E × PublishResult

-- `Consumer`, on a state of type `C`. The laws are what the interface's comment asks of
-- `Subscribe` and what `Unsubscribe` does.
pub record Consumer (C : Type 0) : Type 0 where
  pub subscribe : C → Bytes → Window → C × Bool
  pub unsubscribe : C → Bytes → C
  pub confirm : C → Bytes → ℕ → C
  pub deliver : C → Delivery → C
  pub window : C → Bytes → Option Window
  pub subscribe_installs :
      (c : C) (channel : Bytes) (w : Window)
      → (subscribe c channel w).1 ≡ not (is_some (window c channel))
  pub window-subscribe :
      (c : C) (channel j : Bytes) (w : Window)
      → window (subscribe c channel w).0 j
        ≡ (if not (is_some (window c channel)) && channel == j then some w else window c j)
  pub window-unsubscribe :
      (c : C) (channel j : Bytes)
      → window (unsubscribe c channel) j ≡ (if channel == j then none else window c j)

-- The calls of the `Send` methods, of the hooks and of `ScheduleExpiry`, in the order they are made.
-- The texts of the error messages are left out.
pub data Event : Type 0 where
  connected : Bytes → ℕ → Event
  refreshed : Bytes → ℕ → Event
  subscribed : Bytes → Bytes → Bool → Bool → Event
  unsubscribed : Bytes → Bytes → Event
  published : Bytes → Bytes → PublishResult → Event
  pong : Bytes → Event
  failed : Code → Bytes → Event
  on_subscribed on_unsubscribed : Bytes → Event
  forwarded : Bytes → Bytes → Event
  expiry : Option ℤ → Event

-- `Hooks`; a nil `*Hooks` has none of them.
pub record Hooks : Type 0 where
  pub has_on_subscribed : Bool
  pub has_on_unsubscribed : Bool
  pub publish_plan : Option (Bytes → Bool × Bool)

-- The parts of a `Session` that no op changes.
pub record Limits : Type 0 where
  pub subscriber : ℕ
  pub max_subscriptions : ℤ
  pub max_message_size : ℤ
  pub hooks : Hooks

-- The parts of a `Session` that the ops change.
pub record Session (E C : Type 0) : Type 0 where
  pub state : State
  pub engine : E
  pub qos : C
  pub version : ℕ
  pub events : List Event

module _ {E C : Type 0} where
  unfoldable pub emit : Session E C → Event → Session E C
  emit s e = record s { events = s.events ++ (e ∷ []) }
