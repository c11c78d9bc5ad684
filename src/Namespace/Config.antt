-- ===== src/Namespace/Config.antt =====
-- The YAML mirror of the settings, with its defaults, and `Build`
-- (internal/namespace/namespace.go). An absent key is `none`.
pub mod Laws
use gentis.Prelude.{
  ℕ, ℤ, pos, ◌*◌, ◌^◌, Bytes, codes, bytes_Eq, bytes_eq_iff, List, [], ◌∷◌, ◌++◌, Bool, true, false,
  ◌==◌, if◌then◌else◌, Option, none, some, ◌≡◌, refl, arith, contains, nat_Eq, lookup, insert,
  is_empty,
}
use gentis.Namespace.Settings.{
  QosLevel, at_most_once, at_least_once, FanoutMode, broadcast, round_robin, priority, Settings,
  Reason, unknown_qos, unknown_fanout, empty_name, colon_in_name, ConfigError, validate, IsValid,
  validate_iff, is_at_least_once,
}
use gentis.Namespace.Name.{colon}
use gentis.Namespace.Registry.{Registry, RegistryConfig, Checked, ok, err, new_registry}

pub record SettingsYaml : Type 0 where
  pub history_size : Option ℤ
  pub history_ttl : Option ℤ
  pub allow_publish : Option Bool
  pub max_subscribers : Option ℤ
  pub qos : Option Bytes
  pub fanout_mode : Option Bytes
  pub allow_wildcard : Option Bool
  pub redelivery_timeout : Option ℤ
  pub max_redeliveries : Option ℤ
  pub idle_reap : Option ℤ

pub record ConfigYaml : Type 0 where
  pub strict : Bool
  pub default : SettingsYaml
  pub namespaces : List (Bytes × SettingsYaml)

infixl 5 ◌>>=◌
abbrev ◌>>=◌ {ℓ κ} : {A : Type ℓ} {B : Type κ} → Checked A → (A → Checked B) → Checked B
ok a >>= f = f a
err e >>= f = err e

abbrev pub given {ℓ} : {A : Type ℓ} → Option A → A → A
given none d = d
given (some a) d = a

-- The `qos` and `fanout_mode` switches of `toSettings`.
unfoldable pub parse_qos : Bytes → Option Bytes → Checked QosLevel
parse_qos name none = ok at_most_once
parse_qos name (some s) =
    if s == codes "at-most-once"
    then ok at_most_once
    else if s == codes "at-least-once"
    then ok at_least_once
    else err (name, unknown_qos)

unfoldable pub parse_fanout : Bytes → Option Bytes → Checked FanoutMode
parse_fanout name none = ok broadcast
parse_fanout name (some s) =
    if s == codes "broadcast"
    then ok broadcast
    else if s == codes "round_robin"
    then ok round_robin
    else if s == codes "priority"
    then ok priority
    else err (name, unknown_fanout)

-- 30 seconds in nanoseconds
abbrev pub default_timeout : ℤ
default_timeout = pos (30 * 10 ^ 9)

abbrev pub default_redeliveries : ℤ
default_redeliveries = pos 3

abbrev checked : Settings → Bytes → Checked Settings
checked s name = elim (validate s name) [ none ↦ ok s | some e ↦ err e ]

-- `toSettings`
unfoldable pub to_settings : Bytes → SettingsYaml → Checked Settings
unfolding parse_qos parse_fanout
to_settings name raw = do
  qos ← parse_qos name raw.qos
  fanout ← parse_fanout name raw.fanout_mode
  let timeout =
      given raw.redelivery_timeout (if is_at_least_once qos then default_timeout else pos 0)
  let retries =
      given raw.max_redeliveries (if is_at_least_once qos then default_redeliveries else pos 0)
  let s : Settings = record {
    history_size = given raw.history_size (pos 0);
    history_ttl = given raw.history_ttl (pos 0);
    allow_publish = given raw.allow_publish true;
    max_subscribers = given raw.max_subscribers (pos 0);
    qos = qos;
    redelivery_timeout = timeout;
    max_redeliveries = retries;
    fanout = fanout;
    allow_wildcard = given raw.allow_wildcard false;
    idle_reap = given raw.idle_reap (pos 0);
  }
  checked s name

-- The loop of `Build` over the named namespaces.
unfoldable pub build_all :
    List (Bytes × SettingsYaml) → List (Bytes × Settings) → Checked (List (Bytes × Settings))
build_all [] done = ok done
build_all ((name, raw) ∷ rest) done =
    let next = λ (s : Settings). build_all rest (insert name s done) in
    if is_empty name
    then err (name, empty_name)
    else if contains name colon
    then err (name, colon_in_name)
    else to_settings name raw >>= next

-- `Build`
unfoldable pub build : ConfigYaml → Checked Registry
unfolding build_all
build c = do
  def ← to_settings (codes "default") c.default
  named ← build_all c.namespaces []
  new_registry (record { default = def; namespaces = named; strict = c.strict })
