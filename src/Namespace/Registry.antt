-- ===== src/Namespace/Registry.antt =====
-- `Registry`: its construction and `Resolve` (internal/namespace/namespace.go). The map of settings
-- is a list; its order is the order in which the loop of `NewRegistry` meets the entries.
use gentis.Prelude.{
  sym, ◌∙◌, Bytes, codes, bytes_Eq, List, [], ◌∷◌, ◌++◌, Bool, false, ◌&&◌, if◌then◌else◌, Option,
  none, some, ◌≡◌, refl, arith, contains, nat_Eq, lookup, insert, is_empty, ap, ◌⊎◌, inl, inr,
  Option-cases, lookup-insert_inv, subst,
}
use gentis.Namespace.Settings.{Settings, ConfigError, validate, IsValid, validate_iff}
use gentis.Namespace.Name.{colon, split, split-plain, split-append}

pub record RegistryConfig : Type 0 where
  pub default : Settings
  pub namespaces : List (Bytes × Settings)
  pub strict : Bool

pub record Registry : Type 0 where
  pub namespaces : List (Bytes × Settings)
  pub default : Settings
  pub strict : Bool

-- A value, or the error that a constructor returns.
pub data Checked {ℓ} (A : Type ℓ) : Type ℓ where
  ok : A → Checked A
  err : ConfigError → Checked A

pub ok_inj {ℓ} : {A : Type ℓ} {a b : A} → ok a ≡ ok b → a ≡ b
ok_inj e = cc

-- The loop of `NewRegistry` over the configured namespaces, into the private copy.
unfoldable pub copy_valid :
    List (Bytes × Settings) → List (Bytes × Settings) → Checked (List (Bytes × Settings))
copy_valid [] copy = ok copy
copy_valid ((name, s) ∷ rest) copy =
    let next = copy_valid rest (insert name s copy) in
    elim (validate s name) [ none ↦ next | some e ↦ err e ]

-- `NewRegistry`
unfoldable pub new_registry : RegistryConfig → Checked Registry
unfolding copy_valid
new_registry c = elim (validate c.default (codes "default")) [
  | some e ↦ err e
  | none ↦ elim (copy_valid c.namespaces []) [
    | err e ↦ err e
    | ok copy ↦ ok (record { namespaces = copy; default = c.default; strict = c.strict })
  ]
]

-- `Resolve`; `none` is the result `Settings{}, false`.
unfoldable pub resolve : Registry → Bytes → Option Settings
resolve r channel =
    let (ns, rest, found) = split channel in
    if is_empty ns
    then (if found && r.strict then none else some r.default)
    else elim (lookup ns r.namespaces) [
      | some s ↦ some s
      | none ↦ if r.strict then none else some r.default
    ]

-- Every setting that a registry holds is valid.
pub record IsSound (r : Registry) : Type 0 where
  pub default_valid : IsValid r.default
  pub each_valid : (ns : Bytes) (s : Settings) → lookup ns r.namespaces ≡ some s → IsValid s

abbrev AllValid : List (Bytes × Settings) → Type 0
AllValid m = (ns : Bytes) (s : Settings) → lookup ns m ≡ some s → IsValid s

nothing : AllValid []
unfolding lookup
nothing ns s h = cc

insert-AllValid :
    (name : Bytes) (s : Settings) (m : List (Bytes × Settings))
    → IsValid s
    → AllValid m
    → AllValid (insert name s m)
insert-AllValid name s m v h ns t e = elim (lookup-insert_inv name ns s t m e) [
  | inl (_, same) ↦ subst IsValid same v
  | inr there ↦ h ns t there
]

copy_valid-AllValid :
    (todo copy : List (Bytes × Settings)) {out : List (Bytes × Settings)}
    → AllValid copy
    → copy_valid todo copy ≡ ok out
    → AllValid out
unfolding copy_valid
copy_valid-AllValid [] copy h e = subst AllValid (ok_inj e) h
copy_valid-AllValid ((name, s) ∷ rest) copy h e = elim (Option-cases (validate s name)) [
  | inl fine ↦
      copy_valid-AllValid rest (insert name s copy)
        (insert-AllValid name s copy ((validate_iff s name).0 fine) h) (rw (fine, copy_valid) at e)
  | inr (bad, found) ↦ cc (rw (found, copy_valid) at e)
]

pub Checked-cases {ℓ} :
    {A : Type ℓ} (r : Checked A) → ((a : A) × (r ≡ ok a)) ⊎ ((e : ConfigError) × (r ≡ err e))
Checked-cases (ok a) = inl (a, refl)
Checked-cases (err e) = inr (e, refl)

pub new_registry_inv :
    (c : RegistryConfig) {r : Registry}
    → new_registry c ≡ ok r
    → IsValid c.default
      × (copy_valid c.namespaces [] ≡ ok r.namespaces)
      × (r.default ≡ c.default)
      × (r.strict ≡ c.strict)
unfolding new_registry
new_registry_inv c {r} e = elim (Option-cases (validate c.default (codes "default"))) [
  | inr (bad, found) ↦ cc (rw (found, new_registry) at e)
  | inl fine ↦
      let e' = rw (fine, new_registry) at e in
      elim (Checked-cases (copy_valid c.namespaces [])) [
        | inr (bad, found) ↦ cc (rw (found, new_registry) at e')
        | inl (copy, copied) ↦
            let same = ok_inj (rw (copied, new_registry) at e') in
            (
              (validate_iff c.default (codes "default")).0 fine,
              copied ∙ ap (λ (q : Registry). ok q.namespaces) same,
              ap (λ (q : Registry). q.default) (sym same),
              ap (λ (q : Registry). q.strict) (sym same),
            )
      ]
]

-- Every setting that a registry from `NewRegistry` holds has passed validation.
pub new_registry-IsSound : (c : RegistryConfig) {r : Registry} → new_registry c ≡ ok r → IsSound r
new_registry-IsSound c e =
    let (fine, copied, same, _) = new_registry_inv c e in
    record {
      default_valid = subst IsValid (sym same) fine;
      each_valid = copy_valid-AllValid c.namespaces [] nothing copied;
    }

-- What `Resolve` answers is the default, or the entry of the channel's prefix.
pub resolve_inv :
    (r : Registry) (channel : Bytes) {s : Settings}
    → resolve r channel ≡ some s
    → (r.default ≡ s) ⊎ (lookup (split channel).0 r.namespaces ≡ some s)
unfolding resolve
resolve_inv r channel e = ground arith

pub resolve-entry :
    (r : Registry) (ns rest : Bytes) {s : Settings}
    → contains ns colon ≡ false
    → is_empty ns ≡ false
    → lookup ns r.namespaces ≡ some s
    → resolve r (ns ++ colon ∷ rest) ≡ some s
unfolding resolve
resolve-entry r ns rest named full there = rw (split-append ns rest named, full, there)

-- Without a colon the default governs; behind an empty prefix only a lenient registry answers;
-- any other prefix is looked up, and only a strict registry has no answer for an unknown one.
pub resolve_lem :
    (r : Registry) (plain ns rest : Bytes)
    → contains plain colon ≡ false
    → contains ns colon ≡ false
    → is_empty ns ≡ false
    → (resolve r plain ≡ some r.default)
      × (resolve r (colon ∷ rest) ≡ (if r.strict then none else some r.default))
      × (resolve r (ns ++ colon ∷ rest) ≡ elim (lookup ns r.namespaces) [
        | some s ↦ some s
        | none ↦ if r.strict then none else some r.default
      ])
unfolding resolve
resolve_lem r plain ns rest hp hn he = (
  rw (split-plain plain hp),
  rw (split-append [] rest refl) refl,
  rw (split-append ns rest hn, he) refl,
)

-- A channel is governed by valid settings only.
pub resolve-IsValid :
    (r : Registry) (channel : Bytes) {s : Settings}
    → IsSound r
    → resolve r channel ≡ some s
    → IsValid s
resolve-IsValid r channel v e = elim (resolve_inv r channel e) [
  | inl same ↦ subst IsValid same v.default_valid
  | inr there ↦ v.each_valid _ _ there
]
