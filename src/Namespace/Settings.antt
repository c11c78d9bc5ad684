-- ===== src/Namespace/Settings.antt =====
-- `Settings` and its validation (internal/namespace/namespace.go). Durations are nanoseconds.
use gentis.Prelude.{
  ℤ, pos, ltb_ℤ, ◌≤ℤ◌, ◌<ℤ◌, Bytes, Bool, true, false, not, ◌&&◌, ◌||◌, if◌then◌else◌, Option, none,
  some, ◌≡◌, ◌↔◌, ◌⊎◌, arith,
}

pub data QosLevel : Type 0 where
  at_most_once at_least_once : QosLevel

pub data FanoutMode : Type 0 where
  broadcast round_robin priority : FanoutMode

pub record Settings : Type 0 where
  pub history_size : ℤ
  pub history_ttl : ℤ
  pub allow_publish : Bool
  pub max_subscribers : ℤ
  pub qos : QosLevel
  pub redelivery_timeout : ℤ
  pub max_redeliveries : ℤ
  pub fanout : FanoutMode
  pub allow_wildcard : Bool
  pub idle_reap : ℤ

-- The messages of the errors that wrap `ErrInvalidConfig`.
pub data Reason : Type 0 where
  history_size_negative history_ttl_negative max_subscribers_negative : Reason
  redelivery_timeout_negative max_redeliveries_negative idle_reap_negative : Reason
  ttl_without_history wildcard_without_broadcast qos_without_history : Reason
  redelivery_without_qos unknown_qos unknown_fanout empty_name colon_in_name : Reason

-- An invalid configuration: the namespace at fault and what is wrong with it.
abbrev pub ConfigError : Type 0
ConfigError = Bytes × Reason

abbrev pub is_broadcast : FanoutMode → Bool
is_broadcast broadcast = true
is_broadcast round_robin = false
is_broadcast priority = false

abbrev pub is_at_least_once : QosLevel → Bool
is_at_least_once at_least_once = true
is_at_least_once at_most_once = false

abbrev pub is_negative : ℤ → Bool
is_negative x = ltb_ℤ x (pos 0)

abbrev pub is_positive : ℤ → Bool
is_positive x = ltb_ℤ (pos 0) x

-- `validate`: nothing, or the first thing that is wrong.
unfoldable pub validate : Settings → Bytes → Option ConfigError
validate s name =
    if is_negative s.history_size
    then some (name, history_size_negative)
    else if is_negative s.history_ttl
    then some (name, history_ttl_negative)
    else if is_negative s.max_subscribers
    then some (name, max_subscribers_negative)
    else if is_negative s.redelivery_timeout
    then some (name, redelivery_timeout_negative)
    else if is_negative s.max_redeliveries
    then some (name, max_redeliveries_negative)
    else if is_negative s.idle_reap
    then some (name, idle_reap_negative)
    else if is_positive s.history_ttl && not (is_positive s.history_size)
    then some (name, ttl_without_history)
    else if s.allow_wildcard && not (is_broadcast s.fanout)
    then some (name, wildcard_without_broadcast)
    else if is_at_least_once s.qos && not (is_positive s.history_size)
    then some (name, qos_without_history)
    else if not (is_at_least_once s.qos)
        && (is_positive s.redelivery_timeout || is_positive s.max_redeliveries)
    then some (name, redelivery_without_qos)
    else none

-- What the rest of the program may rely on.
pub record IsValid (s : Settings) : Type 0 where
  pub size : pos 0 ≤ℤ s.history_size
  pub ttl : pos 0 ≤ℤ s.history_ttl
  pub subscribers : pos 0 ≤ℤ s.max_subscribers
  pub timeout : pos 0 ≤ℤ s.redelivery_timeout
  pub redeliveries : pos 0 ≤ℤ s.max_redeliveries
  pub reap : pos 0 ≤ℤ s.idle_reap
  pub ttl_history : (s.history_ttl ≡ pos 0) ⊎ (pos 0 <ℤ s.history_size)
  pub wildcard : (s.allow_wildcard ≡ false) ⊎ (s.fanout ≡ broadcast)
  pub reliable : (s.qos ≡ at_most_once) ⊎ (pos 0 <ℤ s.history_size)
  pub unreliable :
      (s.qos ≡ at_least_once) ⊎ ((s.redelivery_timeout ≡ pos 0) × (s.max_redeliveries ≡ pos 0))

-- `validate` finds nothing exactly when every range and cross-field rule holds.
pub validate_iff : (s : Settings) (name : Bytes) → (validate s name ≡ none) ↔ IsValid s
unfolding validate
validate_iff s name = (λ h. ground arith, λ v. ground arith)
