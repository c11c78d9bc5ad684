-- ===== src/Client.antt =====
-- `client.State`: what one connection knows of its client (internal/client/client.go). The lock makes
-- each method one step.
use gentis.Prelude.{
  ℕ, Bytes, bytes_Eq, List, [], Bool, true, false, if◌then◌else◌, none, length, lookup, insert,
  delete, is_some,
}
use gentis.Auth.Claims.{Claims}
use gentis.Auth.Claims as Claims

-- `AddSubscriptionResult`
pub data AddResult : Type 0 where
  added already_present cap_reached : AddResult

-- `struct{}`, the value of a map that is a set
pub data Mark : Type 0 where
  mark : Mark

pub record State : Type 0 where
  pub authenticated : Bool
  pub claims : Claims
  pub subscriptions : List (Bytes × Mark)

-- `NewState`
unfoldable pub new_state : State
new_state = record {
  authenticated = false;
  claims = record { subject = []; expires_at = none; channels = none; publishes = none };
  subscriptions = [];
}

-- `Authenticate`
unfoldable pub authenticate : State → Claims → State
authenticate s c = record s { authenticated = true; claims = c }

-- `Subject`
unfoldable pub subject : State → Bytes
subject s = s.claims.subject

-- `CanSubscribe`
unfoldable pub can_subscribe : State → Bytes → Bool
can_subscribe s channel = Claims.can_subscribe s.claims channel

-- `CanPublish`
unfoldable pub can_publish : State → Bytes → Bool
can_publish s channel = Claims.can_publish s.claims channel

-- `AddSubscription`
unfoldable pub add_subscription : State → Bytes → State × AddResult
add_subscription s channel =
    if is_some (lookup channel s.subscriptions)
    then (s, already_present)
    else (record s { subscriptions = insert channel mark s.subscriptions }, added)

-- `RemoveSubscription`
unfoldable pub remove_subscription : State → Bytes → State
remove_subscription s channel = record s { subscriptions = delete channel s.subscriptions }

-- `SubscriptionCount`
unfoldable pub subscription_count : State → ℕ
subscription_count s = length s.subscriptions
