-- ===== src/Namespace/Config/Laws.antt =====
-- What the loader of the namespace section guarantees.
use gentis.Prelude.{
  Option, refl, true, is_some, ap, ap₂, sym, ◌∙◌, ◌==◌, bytes_eq_iff, lookup-insert, keys, Distinct,
  contains-keys, insert-Distinct, pos, Bytes, codes, bytes_Eq, List, [], ◌∷◌, ◌++◌, false, ◌≡◌,
  arith, none, some, contains, nat_Eq, lookup, insert, is_empty, Option-cases, inl, inr, subst,
  Bool-cases, if◌then◌else◌,
}
use gentis.Namespace.Settings.{Settings, validate, IsValid, validate_iff, is_at_least_once}
use gentis.Namespace.Name.{colon}
use gentis.Namespace.Registry.{
  Registry, ok, IsSound, ok_inj, Checked-cases, copy_valid, new_registry, new_registry_inv,
  new_registry-IsSound, resolve, resolve_lem,
}
use gentis.Namespace.Config.{
  SettingsYaml, ConfigYaml, given, default_timeout, default_redeliveries, parse_qos, parse_fanout,
  to_settings, build, build_all,
}

to_settings_inv :
    (name : Bytes) (raw : SettingsYaml) {s : Settings}
    → to_settings name raw ≡ ok s
    → (validate s name ≡ none)
      × (s.redelivery_timeout
          ≡ given raw.redelivery_timeout
              (if is_at_least_once s.qos then default_timeout else pos 0))
      × (s.max_redeliveries
          ≡ given raw.max_redeliveries
              (if is_at_least_once s.qos then default_redeliveries else pos 0))
      × (parse_qos name raw.qos ≡ ok s.qos)
      × (parse_fanout name raw.fanout_mode ≡ ok s.fanout)
unfolding to_settings
to_settings_inv name raw e = ground arith

-- Settings that `toSettings` accepts are valid. Redelivery values that are given are kept, zero
-- included; absent ones are 30 seconds and 3 with at-least-once delivery, and else 0.
pub to_settings_lem :
    (name : Bytes) (raw : SettingsYaml) {s : Settings}
    → to_settings name raw ≡ ok s
    → IsValid s
      × (s.redelivery_timeout
          ≡ given raw.redelivery_timeout
              (if is_at_least_once s.qos then default_timeout else pos 0))
      × (s.max_redeliveries
          ≡ given raw.max_redeliveries
              (if is_at_least_once s.qos then default_redeliveries else pos 0))
to_settings_lem name raw {s} e =
    let (fine, timeout, retries, _, _) = to_settings_inv name raw e in
    ((validate_iff s name).0 fine, timeout, retries)

-- A name that `Split` can find in front of a colon.
abbrev pub IsName : Bytes → Type 0
IsName ns = (contains ns colon ≡ false) × (is_empty ns ≡ false)

-- What one round of the loop of `Build` has done where it went on.
build_all_inv :
    (name : Bytes) (raw : SettingsYaml) (rest : List (Bytes × SettingsYaml))
    (done : List (Bytes × Settings)) {out : List (Bytes × Settings)}
    → build_all ((name, raw) ∷ rest) done ≡ ok out
    → IsName name
      × ((s : Settings) × (to_settings name raw ≡ ok s)
          × (build_all rest (insert name s done) ≡ ok out))
unfolding build_all
build_all_inv name raw rest done e = elim (Bool-cases (is_empty name)) [
  | inl empty ↦ cc (rw empty at e)
  | inr full ↦ elim (Bool-cases (contains name colon)) [
    | inl bad ↦ cc (rw (full, bad) at e)
    | inr good ↦ elim (Checked-cases (to_settings name raw)) [
      | inr (bad, found) ↦ cc (rw (full, good, found) at e)
      | inl (s, made) ↦ ((good, full), (s, made, rw (full, good, made) at e))
    ]
  ]
]

build_all-Distinct :
    (todo : List (Bytes × SettingsYaml)) (done : List (Bytes × Settings))
    {out : List (Bytes × Settings)}
    → Distinct (keys done)
    → build_all todo done ≡ ok out
    → Distinct (keys out)
unfolding build_all
build_all-Distinct [] done h e = subst (λ l. Distinct (keys l)) (ok_inj e) h
build_all-Distinct ((name, raw) ∷ rest) done h e =
    let (good, (s, made, more)) = build_all_inv name raw rest done e in
    build_all-Distinct rest (insert name s done) (insert-Distinct name s done h) more

build_inv :
    (c : ConfigYaml) {r : Registry}
    → build c ≡ ok r
    → (d : Settings) × (named : List (Bytes × Settings)) × (to_settings (codes "default") c.default
        ≡ ok d)
      × (build_all c.namespaces [] ≡ ok named)
      × (new_registry (record { default = d; namespaces = named; strict = c.strict }) ≡ ok r)
unfolding build
build_inv c e = elim (Checked-cases (to_settings (codes "default") c.default)) [
  | inr (bad, found) ↦ cc (rw found at e)
  | inl (d, made) ↦ elim (Checked-cases (build_all c.namespaces [])) [
    | inr (bad, found) ↦ cc (rw (made, found) at e)
    | inl (named, built) ↦ (d, named, made, built, rw (made, built) at e)
  ]
]

-- A key that is not among the keys is not there.
absent_key {ℓ} :
    {V : Type ℓ} (ns : Bytes) (table : List (Bytes × V))
    → contains (keys table) ns ≡ false
    → lookup ns table ≡ none
absent_key ns table h = ground (arith, contains-keys ns table, Option-cases (lookup ns table))

later_absent {ℓ} :
    {V : Type ℓ} (name ns : Bytes) (first : V) (rest : List (Bytes × V))
    → Distinct (keys ((name, first) ∷ rest))
    → (name == ns) ≡ true
    → lookup ns rest ≡ none
later_absent name ns first rest d here =
    absent_key ns rest
      (subst (λ k. contains (keys rest) k ≡ false) ((bytes_eq_iff name ns).0 here) d.0)

-- Nothing is made of a name that is not in the configuration.
build_all-absent :
    (ns : Bytes) (todo : List (Bytes × SettingsYaml)) (done : List (Bytes × Settings))
    {out : List (Bytes × Settings)}
    → lookup ns todo ≡ none
    → build_all todo done ≡ ok out
    → lookup ns out ≡ lookup ns done
unfolding build_all lookup
build_all-absent ns [] done h e = ap (lookup ns) (sym (ok_inj e))
build_all-absent ns ((name, raw) ∷ rest) done h e =
    let (good, (s, made, more)) = build_all_inv name raw rest done e in
    build_all-absent ns rest (insert name s done) (ground arith) more
    ∙ ground (arith, lookup-insert name ns s done)

first_entry {ℓ} :
    {V : Type ℓ} (name ns : Bytes) (first v : V) (rest : List (Bytes × V))
    → lookup ns ((name, first) ∷ rest) ≡ some v
    → (name == ns) ≡ true
    → first ≡ v
unfolding lookup
first_entry name ns first v rest h here = ground (arith, here)

build_all-found :
    (ns : Bytes) (raw : SettingsYaml) (todo : List (Bytes × SettingsYaml))
    (done : List (Bytes × Settings)) {out : List (Bytes × Settings)}
    → Distinct (keys todo)
    → lookup ns todo ≡ some raw
    → build_all todo done ≡ ok out
    → (s : Settings) × (to_settings ns raw ≡ ok s) × (lookup ns out ≡ some s)
unfolding build_all lookup
build_all-found ns raw [] done d h e = cc
build_all-found ns raw ((name, first) ∷ rest) done d h e =
    let (good, (s, made, more)) = build_all_inv name first rest done e in
    elim (Bool-cases (name == ns)) [
      | inl here ↦ (
        s,
        ap₂ to_settings (sym ((bytes_eq_iff name ns).0 here))
              (sym (first_entry name ns first raw rest h here))
            ∙ made,
        build_all-absent ns rest (insert name s done) (later_absent name ns first rest d here) more
            ∙ ground (arith, lookup-insert name ns s done, here),
      )
      | inr other ↦
          build_all-found ns raw rest (insert name s done) d.1 (ground (arith, other)) more
    ]

-- The copy has what it was made from.
copy_valid-lookup :
    (ns : Bytes) (todo copy : List (Bytes × Settings)) {out : List (Bytes × Settings)}
    → Distinct (keys todo)
    → copy_valid todo copy ≡ ok out
    → lookup ns out ≡ (if is_some (lookup ns todo) then lookup ns todo else lookup ns copy)
unfolding copy_valid lookup
copy_valid-lookup ns [] copy d e = ap (lookup ns) (sym (ok_inj e))
copy_valid-lookup ns ((name, s) ∷ rest) copy d e = elim (Option-cases (validate s name)) [
  | inl fine ↦
      let copied =
        copy_valid-lookup ns rest (insert name s copy) d.1 (rw (fine, copy_valid) at e) in
      let absent = later_absent name ns s rest d in
      ground (arith, copied, lookup-insert name ns s copy, absent)
  | inr (bad, found) ↦ cc (rw (found, copy_valid) at e)
]

-- What governs the channels behind the prefix `ns`, by the configuration alone: its own settings if it
-- is configured, and else the default, unless the configuration is strict.
abbrev pub Governs : ConfigYaml → Registry → Bytes → Bytes → Option SettingsYaml → Type 0
Governs c r ns rest (some raw) =
    (s : Settings) × (to_settings ns raw ≡ ok s) × (resolve r (ns ++ colon ∷ rest) ≡ some s)
Governs c r ns rest none =
    resolve r (ns ++ colon ∷ rest) ≡ (if c.strict then none else some r.default)

build-Governs :
    (c : ConfigYaml) {r : Registry} (ns rest : Bytes) (o : Option SettingsYaml)
    → Distinct (keys c.namespaces)
    → IsName ns
    → build c ≡ ok r
    → lookup ns c.namespaces ≡ o
    → Governs c r ns rest o
unfolding lookup
build-Governs c {r} ns rest o d name e there =
    let (def, named, _, built, made) = build_inv c e in
    let (_, copied, same, strict) = new_registry_inv _ made in
    let once = build_all-Distinct c.namespaces [] tt built in
    let held = copy_valid-lookup ns named [] once copied in
    let (_, _, resolved) = resolve_lem r [] ns rest refl name.0 name.1 in
    by_entry o there held resolved strict built
  where
    by_entry :
        (o : Option SettingsYaml) {named : List (Bytes × Settings)}
        → lookup ns c.namespaces ≡ o
        → lookup ns r.namespaces ≡ (if is_some (lookup ns named) then lookup ns named else none)
        → resolve r (ns ++ colon ∷ rest)
          ≡ (elim (lookup ns r.namespaces) as (λ _. Option Settings) [
            | some s ↦ some s
            | none ↦ if r.strict then none else some r.default
          ])
        → r.strict ≡ c.strict
        → build_all c.namespaces [] ≡ ok named
        → Governs c r ns rest o
    by_entry none absent held resolved strict built =
        let nothing = build_all-absent ns c.namespaces [] absent built in
        ground (arith, held, nothing, resolved, strict)
    by_entry (some raw) there held resolved strict built =
        let (s, made, found) = build_all-found ns raw c.namespaces [] d there built in
        (s, made, ground (arith, held, found, resolved))

-- A registry that `Build` makes of a configuration without repeated names is strict as configured, has
-- the configured default, and holds valid settings only; a name in the configuration governs, with its
-- own settings, the channels that carry it as their prefix, and those behind another prefix are left
-- to the default, or to nothing in a strict registry.
pub build_lem :
    (c : ConfigYaml) {r : Registry} (ns rest : Bytes)
    → Distinct (keys c.namespaces)
    → IsName ns
    → build c ≡ ok r
    → IsSound r
      × (r.strict ≡ c.strict)
      × (to_settings (codes "default") c.default ≡ ok r.default)
      × Governs c r ns rest (lookup ns c.namespaces)
build_lem c {r} ns rest d name e =
    let (def, named, default, built, made) = build_inv c e in
    let (_, copied, same, strict) = new_registry_inv _ made in
    (
      new_registry-IsSound _ made,
      strict,
      default ∙ ap ok (sym same),
      build-Governs c ns rest (lookup ns c.namespaces) d name e refl,
    )
