-- ===== src/Engine/Patterns/Collect.antt =====
-- The set of identities that a lookup collects: the switch from a scan to a map is invisible.
use gentis.Prelude.{
  ℕ, nat_Eq, nat_eq, Bytes, bytes_Eq, List, [], ◌∷◌, ◌++◌, none, some, Bool, false, ◌&&◌, ◌||◌, ◌≡◌,
  refl, arith, contains, contains-append, append-Distinct, Distinct, lookup, insert, lookup-insert,
  is_some, ltb, length, if_cases, Bool-cases, inl, inr, sym, ◌∙◌,
}
use gentis.Client.{Mark, mark}
use gentis.Engine.Patterns.{
  PatternEntry, Found, mark_all, collect_one, collect_all, collect, is_taken, dedup_map_threshold,
}

-- No identity twice, and the set, where there is one, has the identities.
abbrev Agrees : Found → Type 0
Agrees (ids, none) = Distinct ids
Agrees (ids, some seen) = Distinct ids × ((j : ℕ) → is_some (lookup j seen) ≡ contains ids j)

pub lookup-mark_all :
    (ids : List ℕ) (m : List (ℕ × Mark)) (j : ℕ)
    → is_some (lookup j (mark_all ids m)) ≡ (contains ids j || is_some (lookup j m))
unfolding mark_all
lookup-mark_all [] m j = refl
lookup-mark_all (id ∷ ids) m j =
    ground (arith, lookup-mark_all ids (insert id mark m) j, lookup-insert id j mark m)

pub nothing-marked : (j : ℕ) → ◌≡◌ {A = Bool} (is_some (lookup {V = Mark} j [])) false
unfolding lookup
nothing-marked j = refl

collect_one-contains :
    (f : Found) (id j : ℕ)
    → Agrees f
    → contains (collect_one f id).0 j ≡ (contains f.0 j || nat_eq id j)
unfolding collect_one
collect_one-contains (ids, none) id j a = ground (arith, contains-append ids (id ∷ []) j)
collect_one-contains (ids, some seen) id j a =
    ground (arith, a.1 id, contains-append ids (id ∷ []) j)

collect_one-Agrees : (f : Found) (id : ℕ) → Agrees f → Agrees (collect_one f id)
unfolding collect_one
collect_one-Agrees (ids, none) id a =
    let wider = append-Distinct ids id in
    let marked : (j : ℕ)
        → is_some (lookup j (mark_all (ids ++ (id ∷ [])) [])) ≡ contains (ids ++ (id ∷ [])) j =
      λ j. ground (arith, lookup-mark_all (ids ++ (id ∷ [])) [] j, nothing-marked j) in
    if_cases Agrees (contains ids id) _ _ (λ _. a)
      (λ new.
        if_cases Agrees (ltb dedup_map_threshold (length (ids ++ (id ∷ [])))) _ _
          (λ _. (wider new a, marked)) (λ _. wider new a))
collect_one-Agrees (ids, some seen) id a =
    let wider = append-Distinct ids id in
    let marked : (j : ℕ)
        → is_some (lookup j (insert id mark seen)) ≡ contains (ids ++ (id ∷ [])) j =
      λ j. ground (arith, lookup-insert id j mark seen, a.1 j, contains-append ids (id ∷ []) j) in
    if_cases Agrees (is_some (lookup id seen)) _ _ (λ _. a)
      (λ new. (wider (sym (a.1 id) ∙ new) a.0, marked))

collect_all-contains :
    (f : Found) (ids : List ℕ) (j : ℕ)
    → Agrees f
    → contains (collect_all f ids).0 j ≡ (contains f.0 j || contains ids j)
unfolding collect_all
collect_all-contains f [] j a = ground arith
collect_all-contains f (id ∷ ids) j a = ground (
  arith,
  collect_one-contains f id j a,
  collect_all-contains (collect_one f id) ids j (collect_one-Agrees f id a),
)

collect_all-Agrees : (f : Found) (ids : List ℕ) → Agrees f → Agrees (collect_all f ids)
unfolding collect_all
collect_all-Agrees f [] a = a
collect_all-Agrees f (id ∷ ids) a =
    collect_all-Agrees (collect_one f id) ids (collect_one-Agrees f id a)

-- Whether some entry that is taken has the subscriber.
abbrev pub some_entry : Bool → Bytes → List PatternEntry → ℕ → Bool
some_entry scoped channel [] j = false
some_entry scoped channel (e ∷ es) j =
    (is_taken scoped channel e && contains e.subs j) || some_entry scoped channel es j

collect-contains :
    (scoped : Bool) (channel : Bytes) (f : Found) (es : List PatternEntry) (j : ℕ)
    → Agrees f
    → contains (collect scoped channel f es).0 j
      ≡ (contains f.0 j || some_entry scoped channel es j)
unfolding collect
collect-contains scoped channel f [] j a = ground arith
collect-contains scoped channel f (e ∷ es) j a = elim (Bool-cases (is_taken scoped channel e)) [
  | inl taken ↦ ground (
    arith,
    collect_all-contains f e.subs j a,
    collect-contains scoped channel (collect_all f e.subs) es j (collect_all-Agrees f e.subs a),
  )
  | inr other ↦ ground (arith, collect-contains scoped channel f es j a)
]

collect-Agrees :
    (scoped : Bool) (channel : Bytes) (f : Found) (es : List PatternEntry)
    → Agrees f
    → Agrees (collect scoped channel f es)
unfolding collect
collect-Agrees scoped channel f [] a = a
collect-Agrees scoped channel f (e ∷ es) a =
    if_cases Agrees (is_taken scoped channel e) _ _
      (λ _. collect-Agrees scoped channel (collect_all f e.subs) es (collect_all-Agrees f e.subs a))
      (λ _. collect-Agrees scoped channel f es a)

Agrees-Distinct : (f : Found) → Agrees f → Distinct f.0
Agrees-Distinct (ids, none) a = a
Agrees-Distinct (ids, some seen) a = a.0

-- From nothing, the loops list once each subscriber of an entry that is taken, and nobody else.
pub collect_lem :
    (scoped : Bool) (channel : Bytes) (es : List PatternEntry) (j : ℕ)
    → Distinct (collect scoped channel ([], none) es).0
      × (contains (collect scoped channel ([], none) es).0 j ≡ some_entry scoped channel es j)
collect_lem scoped channel es j = (
  Agrees-Distinct _ (collect-Agrees scoped channel ([], none) es tt),
  collect-contains scoped channel ([], none) es j tt,
)
