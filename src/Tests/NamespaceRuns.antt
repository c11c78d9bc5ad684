-- ===== src/Tests/NamespaceRuns.antt =====
-- Namespaces at concrete inputs (internal/namespace).
use gentis.Prelude.{
  pos, codes, [], ◌∷◌, ◌++◌, none, some, true, false, ◌≡◌, refl, lookup, insert, bytes_Eq,
  if◌then◌else◌,
}
use gentis.Namespace.Settings.{Settings, at_most_once, at_least_once, broadcast, validate}
use gentis.Namespace.Name.{colon}
use gentis.Namespace.Registry.{
  Registry, RegistryConfig, ok, new_registry, resolve, IsSound, new_registry-IsSound, resolve_lem,
}
use gentis.Namespace.Config.{
  SettingsYaml, ConfigYaml, to_settings, build, default_timeout, default_redeliveries,
}
use gentis.Namespace.Config.Laws.{Governs, build_lem}

abbrev reliable : Settings
reliable = record {
  history_size = pos 8;
  history_ttl = pos 5;
  allow_publish = true;
  max_subscribers = pos 0;
  qos = at_least_once;
  redelivery_timeout = default_timeout;
  max_redeliveries = default_redeliveries;
  fanout = broadcast;
  allow_wildcard = false;
  idle_reap = pos 0;
}

abbrev plain : Settings
plain = record {
  history_size = pos 0;
  history_ttl = pos 0;
  allow_publish = true;
  max_subscribers = pos 0;
  qos = at_most_once;
  redelivery_timeout = pos 0;
  max_redeliveries = pos 0;
  fanout = broadcast;
  allow_wildcard = false;
  idle_reap = pos 0;
}

abbrev chat_config : RegistryConfig
chat_config = record { default = plain; namespaces = (codes "chat", reliable) ∷ []; strict = true }

abbrev chat : Registry
chat = record { namespaces = (codes "chat", reliable) ∷ []; default = plain; strict = true }

new_registry-chat : new_registry chat_config ≡ ok chat
unfolding new_registry validate insert
new_registry-chat = refl

new_registry-IsSound_example : IsSound chat
new_registry-IsSound_example = new_registry-IsSound chat_config new_registry-chat

resolve_lem_example :
    (resolve chat (codes "room") ≡ some plain)
    × (resolve chat (colon ∷ codes "x") ≡ (if true then none else some plain))
    × (resolve chat (codes "chat" ++ colon ∷ codes "x") ≡ some reliable)
unfolding lookup
resolve_lem_example = resolve_lem chat (codes "room") (codes "chat") (codes "x") refl refl refl

abbrev no_keys : SettingsYaml
no_keys = record {
  history_size = none;
  history_ttl = none;
  allow_publish = none;
  max_subscribers = none;
  qos = none;
  fanout_mode = none;
  allow_wildcard = none;
  redelivery_timeout = none;
  max_redeliveries = none;
  idle_reap = none;
}

abbrev chat_keys : SettingsYaml
chat_keys = record no_keys {
  history_size = some (pos 8);
  history_ttl = some (pos 5);
  qos = some (codes "at-least-once");
}

to_settings_chat : to_settings (codes "chat") chat_keys ≡ ok reliable
unfolding to_settings validate
to_settings_chat = refl

abbrev chat_yaml : ConfigYaml
chat_yaml = record { strict = true; default = no_keys; namespaces = (codes "chat", chat_keys) ∷ [] }

build-chat : build chat_yaml ≡ ok chat
unfolding build to_settings validate new_registry insert
build-chat = refl

lookup_chat : lookup (codes "chat") chat.namespaces ≡ some reliable
unfolding lookup
lookup_chat = refl

build_lem_example :
    IsSound chat
    × (chat.strict ≡ true)
    × (to_settings (codes "default") no_keys ≡ ok chat.default)
    × Governs chat_yaml chat (codes "chat") (codes "x") (lookup (codes "chat") chat_yaml.namespaces)
build_lem_example =
    build_lem chat_yaml (codes "chat") (codes "x") (refl, tt) (refl, refl) build-chat
