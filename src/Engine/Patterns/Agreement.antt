-- ===== src/Engine/Patterns/Agreement.antt =====
-- The snapshot shows the table of subscriptions.
use gentis.Prelude.{
  ℕ, nat_Eq, Bytes, bytes_Eq, bytes_eq_iff, List, [], ◌∷◌, ◌++◌, map, Option, none, some, false,
  if◌then◌else◌, ◌==◌, ◌≡◌, refl, sym, ap, ◌∙◌, arith, contains, append-Distinct, Distinct, All,
  All-append, lookup, keys, is_some, subst, if_cases,
}
use gentis.Namespace.Name.{prefix}
use gentis.Engine.Patterns.{PatternEntry, entry_of, replace_entry, has_entry, next_entries}

-- The subscribers that a snapshot shows for a pattern.
unfoldable pub entry_ids : Bytes → List PatternEntry → Option (List ℕ)
entry_ids q [] = none
entry_ids q (e ∷ es) = if e.pat == q then some e.subs else entry_ids q es

abbrev pub pats : List PatternEntry → List Bytes
pats [] = []
pats (e ∷ es) = e.pat ∷ pats es

pub record IsShown (m : List (Bytes × List ℕ)) (es : List PatternEntry) : Type 0 where
  pub once : Distinct (pats es)
  pub own_ns : All (λ (e : PatternEntry). e.ns ≡ prefix e.pat) es
  pub shown : (q : Bytes) → entry_ids q es ≡ lookup q m

pub pats-entry_ids :
    (q : Bytes) (es : List PatternEntry) → contains (pats es) q ≡ is_some (entry_ids q es)
unfolding entry_ids
pats-entry_ids q [] = refl
pats-entry_ids q (e ∷ es) = ground (arith, pats-entry_ids q es)

has_entry-entry_ids :
    (q : Bytes) (es : List PatternEntry) → has_entry q es ≡ is_some (entry_ids q es)
unfolding has_entry entry_ids
has_entry-entry_ids q [] = refl
has_entry-entry_ids q (e ∷ es) = ground (arith, has_entry-entry_ids q es)

-- A snapshot made from the whole table.
map-entry_ids : (q : Bytes) (m : List (Bytes × List ℕ)) → entry_ids q (map entry_of m) ≡ lookup q m
unfolding entry_ids lookup entry_of
map-entry_ids q [] = refl
map-entry_ids q ((pat, ids) ∷ m) = ground (arith, map-entry_ids q m)

map-pats : (m : List (Bytes × List ℕ)) → pats (map entry_of m) ≡ keys m
unfolding entry_of
map-pats [] = refl
map-pats ((pat, ids) ∷ m) = ap (◌∷◌ pat) (map-pats m)

map-own_ns :
    (m : List (Bytes × List ℕ)) → All (λ (e : PatternEntry). e.ns ≡ prefix e.pat) (map entry_of m)
unfolding entry_of
map-own_ns [] = tt
map-own_ns ((pat, ids) ∷ m) = (refl, map-own_ns m)

pub map-IsShown : (m : List (Bytes × List ℕ)) → Distinct (keys m) → IsShown m (map entry_of m)
map-IsShown m d = record {
  once = subst Distinct (sym (map-pats m)) d;
  own_ns = map-own_ns m;
  shown = λ q. map-entry_ids q m;
}

-- A snapshot with one entry replaced.
replace-entry_ids :
    (q pat : Bytes) (o : Option (List ℕ)) (es : List PatternEntry)
    → entry_ids q (replace_entry pat o es)
      ≡ (if pat == q then (if has_entry pat es then o else none) else entry_ids q es)
unfolding entry_ids replace_entry has_entry
replace-entry_ids q pat none [] = ground arith
replace-entry_ids q pat (some ids) [] = ground arith
replace-entry_ids q pat none (e ∷ es) = ground (
  arith,
  bytes_eq_iff e.pat pat,
  bytes_eq_iff pat q,
  bytes_eq_iff e.pat q,
  replace-entry_ids q pat none es,
)
replace-entry_ids q pat (some ids) (e ∷ es) = ground (
  arith,
  bytes_eq_iff e.pat pat,
  bytes_eq_iff pat q,
  bytes_eq_iff e.pat q,
  replace-entry_ids q pat (some ids) es,
)

replace-own_ns :
    (pat : Bytes) (o : Option (List ℕ)) (es : List PatternEntry)
    → All (λ (e : PatternEntry). e.ns ≡ prefix e.pat) es
    → All (λ (e : PatternEntry). e.ns ≡ prefix e.pat) (replace_entry pat o es)
unfolding replace_entry
replace-own_ns pat o [] a = tt
replace-own_ns pat none (e ∷ es) a = ground (arith, replace-own_ns pat none es a.1)
replace-own_ns pat (some ids) (e ∷ es) a =
    ground (arith, replace-own_ns pat (some ids) es a.1, bytes_eq_iff e.pat pat)

replace-contains :
    (pat q : Bytes) (o : Option (List ℕ)) (es : List PatternEntry)
    → contains (pats es) q ≡ false
    → contains (pats (replace_entry pat o es)) q ≡ false
unfolding replace_entry
replace-contains pat q o [] a = refl
replace-contains pat q none (e ∷ es) a = ground (arith, replace-contains pat q none es)
replace-contains pat q (some ids) (e ∷ es) a = ground (
  arith,
  replace-contains pat q (some ids) es,
  bytes_eq_iff e.pat pat,
  bytes_eq_iff e.pat q,
  bytes_eq_iff pat q,
)

replace-Distinct :
    (pat : Bytes) (o : Option (List ℕ)) (es : List PatternEntry)
    → Distinct (pats es)
    → Distinct (pats (replace_entry pat o es))
unfolding replace_entry
replace-Distinct pat o [] d = tt
replace-Distinct pat none (e ∷ es) d =
    ground (arith, replace-Distinct pat none es d.1, replace-contains pat e.pat none es d.0)
replace-Distinct pat (some ids) (e ∷ es) d = ground (
  arith,
  replace-Distinct pat (some ids) es d.1,
  replace-contains pat e.pat (some ids) es d.0,
  bytes_eq_iff e.pat pat,
)

entry_ids-append :
    (q : Bytes) (es ds : List PatternEntry)
    → entry_ids q (es ++ ds) ≡ (if is_some (entry_ids q es) then entry_ids q es else entry_ids q ds)
unfolding entry_ids
entry_ids-append q [] ds = refl
entry_ids-append q (e ∷ es) ds = ground (arith, entry_ids-append q es ds)

pats-append : (es ds : List PatternEntry) → pats (es ++ ds) ≡ pats es ++ pats ds
pats-append [] ds = refl
pats-append (e ∷ es) ds = ap (◌∷◌ e.pat) (pats-append es ds)

lone-entry_ids :
    (q pat : Bytes) (ids : List ℕ)
    → entry_ids q (entry_of (pat, ids) ∷ []) ≡ (if pat == q then some ids else none)
unfolding entry_ids entry_of
lone-entry_ids q pat ids = refl

next-entry_ids :
    (q pat : Bytes) (o : Option (List ℕ)) (es : List PatternEntry)
    → entry_ids q (next_entries pat o es) ≡ (if pat == q then o else entry_ids q es)
unfolding next_entries
next-entry_ids q pat none es = ground (arith, replace-entry_ids q pat none es)
next-entry_ids q pat (some ids) es = ground (
  arith,
  replace-entry_ids q pat (some ids) es,
  entry_ids-append q (replace_entry pat (some ids) es) (entry_of (pat, ids) ∷ []),
  has_entry-entry_ids q es,
  bytes_eq_iff pat q,
  lone-entry_ids q pat ids,
)

-- A pattern that has no entry still has none after the loop.
replace-missing :
    (pat : Bytes) (o : Option (List ℕ)) (es : List PatternEntry)
    → has_entry pat es ≡ false
    → contains (pats (replace_entry pat o es)) pat ≡ false
replace-missing pat o es new =
    replace-contains pat pat o es (pats-entry_ids pat es ∙ sym (has_entry-entry_ids pat es) ∙ new)

next-Distinct :
    (pat : Bytes) (o : Option (List ℕ)) (es : List PatternEntry)
    → Distinct (pats es)
    → Distinct (pats (next_entries pat o es))
unfolding next_entries entry_of
next-Distinct pat none es d = replace-Distinct pat none es d
next-Distinct pat (some ids) es d =
    let old = replace_entry pat (some ids) es in
    if_cases (λ (ds : List PatternEntry). Distinct (pats ds)) (has_entry pat es) _ _
      (λ _. replace-Distinct pat (some ids) es d)
      (λ new. subst Distinct (sym (pats-append old (entry_of (pat, ids) ∷ []))) (
        append-Distinct (pats old) pat (replace-missing pat (some ids) es new)
          (replace-Distinct pat (some ids) es d)))

next-own_ns :
    (pat : Bytes) (o : Option (List ℕ)) (es : List PatternEntry)
    → All (λ (e : PatternEntry). e.ns ≡ prefix e.pat) es
    → All (λ (e : PatternEntry). e.ns ≡ prefix e.pat) (next_entries pat o es)
unfolding next_entries entry_of
next-own_ns pat none es a = replace-own_ns pat none es a
next-own_ns pat (some ids) es a =
    let Own : PatternEntry → Type 0 = λ (e : PatternEntry). e.ns ≡ prefix e.pat in
    let kept = replace-own_ns pat (some ids) es a in
    if_cases (All Own) (has_entry pat es) _ _ (λ _. kept)
      (λ new.
        All-append Own (replace_entry pat (some ids) es) (entry_of (pat, ids) ∷ []) kept (refl, tt))

-- A table in which one pattern has changed, and the entries that are stored then.
pub next-IsShown :
    (m n : List (Bytes × List ℕ)) (pat : Bytes) (es : List PatternEntry)
    → ((q : Bytes) → lookup q n ≡ (if pat == q then lookup pat n else lookup q m))
    → IsShown m es
    → IsShown n (next_entries pat (lookup pat n) es)
next-IsShown m n pat es only v = record {
  once = next-Distinct pat (lookup pat n) es v.once;
  own_ns = next-own_ns pat (lookup pat n) es v.own_ns;
  shown = λ q. ground (arith, next-entry_ids q pat (lookup pat n) es, only q, v.shown q);
}

pub no-IsShown : IsShown [] []
unfolding entry_ids lookup
no-IsShown = record { once = tt; own_ns = tt; shown = λ q. refl }
