-- ===== src/Engine/Patterns/Coherence.antt =====
-- The caches hold nothing stale: a lookup answers what the table of subscriptions says.
use gentis.Prelude.{
  ℕ, zero, suc, nat_Eq, Bytes, bytes_Eq, bytes_eq_iff, List, [], ◌∷◌, map, Option, none, some, Bool,
  false, not, if◌then◌else◌, ◌==◌, ◌≡◌, refl, sym, ap, ◌∙◌, arith, lookup, length, get_or,
  replicate, subst, if_cases, ltb, delete_first, insert, lookup-insert, lookup-delete, ◌++◌,
}
use gentis.Pattern.Cache.{Cache, get, clear, new_cache}
use gentis.Engine.Patterns.{
  Registry, Snapshot, CachedMatch, new_registry, swap, publish_all, publish_entry, add, remove,
  remove_one, remove_each, remove_all, ids_of, pats_of, put_back, small_cache, pattern_cache_shards,
  collect, next_entries,
}
use gentis.Engine.Patterns.Tables as Tables
use gentis.Engine.Patterns.Tables.{on, slice-put_back, with_both, with_both-IsValid}
use gentis.Engine.Patterns.Changes.{remove_one-IsValid, remove_each-IsValid}
use gentis.Engine.Patterns.Agreement.{pats, IsShown, map-IsShown, next-IsShown, no-IsShown}

abbrev pub answer : Registry → Bytes → List ℕ
answer p channel = (collect p.scoped channel ([], none) p.snap.entries).0

-- Each result of this snapshot's generation is what the loops compute from this snapshot.
abbrev pub IsFresh : Registry → Cache CachedMatch → Type 0
IsFresh p c =
    (channel : Bytes) (m : CachedMatch)
    → get c channel ≡ some m
    → m.gen ≡ p.snap.gen
    → m.ids ≡ answer p channel

pub record IsCoherent (p : Registry) : Type 0 where
  pub tables : Tables.IsValid p
  pub shown : IsShown p.subs p.snap.entries
  pub shards : length p.caches ≡ pattern_cache_shards
  pub fresh : (i : ℕ) → IsFresh p (get_or p.caches i small_cache)

-- A cleared shard answers nothing, and neither does the one read out of range.
cleared :
    (cs : List (Cache CachedMatch)) (i : ℕ) (channel : Bytes)
    → get (get_or (map clear cs) i small_cache) channel ≡ none
unfolding get clear lookup new_cache
cleared [] i channel = refl
cleared (c ∷ cs) zero channel = refl
cleared (c ∷ cs) (suc i) channel = cleared cs i channel

length-clear : (cs : List (Cache CachedMatch)) → length (map clear cs) ≡ length cs
length-clear [] = refl
length-clear (c ∷ cs) = ap suc (length-clear cs)

pub nothing_found : (o : Option CachedMatch) (m : CachedMatch) → o ≡ none → ¬ (o ≡ some m)
nothing_found o m = ground arith

-- Whatever snapshot is stored, the caches agree with it.
swap-IsCoherent :
    (p : Registry) (next : Snapshot)
    → Tables.IsValid p
    → IsShown p.subs next.entries
    → length p.caches ≡ pattern_cache_shards
    → IsCoherent (swap p next)
unfolding swap
swap-IsCoherent p next t v n = record {
  tables = Tables.publish-IsValid p _ refl refl t;
  shown = v;
  shards = length-clear p.caches ∙ n;
  fresh = λ i channel m e _. absurd (nothing_found _ m (cleared p.caches i channel) e);
}

pub new_registry-IsCoherent : (scoped : Bool) → IsCoherent (new_registry scoped)
unfolding new_registry get lookup new_cache
new_registry-IsCoherent scoped = record {
  tables = Tables.new_registry-IsValid scoped;
  shown = no-IsShown;
  shards = refl;
  fresh = λ i channel m e _. absurd (nothing_found _ m (empty pattern_cache_shards i channel) e);
}
  where
    empty :
        (n i : ℕ) (channel : Bytes)
        → get (get_or (replicate n small_cache) i small_cache) channel ≡ none
    empty zero i channel = refl
    empty (suc n) zero channel = refl
    empty (suc n) (suc i) channel = empty n i channel

pub add-IsCoherent :
    (p : Registry) (id : ℕ) (pat : Bytes) → IsCoherent p → IsCoherent (add p id pat).0
unfolding add publish_entry
add-IsCoherent p id pat v =
    let subs = insert pat (ids_of p pat ++ (id ∷ [])) p.subs in
    if_cases (λ (r : Registry × Bool). IsCoherent r.0) (on p id pat) _ _ (λ _. v)
      (λ new.
        swap-IsCoherent (with_both p id pat) _ (with_both-IsValid p id pat new v.tables)
          (next-IsShown p.subs subs pat p.snap.entries
            (λ q. ground (
              arith,
              lookup-insert pat q (ids_of p pat ++ (id ∷ [])) p.subs,
              lookup-insert pat pat (ids_of p pat ++ (id ∷ [])) p.subs,
              bytes_eq_iff pat pat,
            ))
            v.shown)
          v.shards)

-- What the removal of one subscription leaves of the registry.
remove_one-rest :
    (p : Registry) (id : ℕ) (pat : Bytes)
    → ((remove_one p id pat).0.snap ≡ p.snap) × ((remove_one p id pat).0.caches ≡ p.caches)
unfolding remove_one
remove_one-rest p id pat = (ground arith, ground arith)

lookup-put_back :
    (pat q : Bytes) (xs : List ℕ) (m : List (Bytes × List ℕ))
    → lookup q (put_back pat xs m)
      ≡ (if pat == q then lookup pat (put_back pat xs m) else lookup q m)
lookup-put_back pat q [] m =
    ground (arith, lookup-delete pat q m, lookup-delete pat pat m, bytes_eq_iff pat pat)
lookup-put_back pat q (x ∷ xs) m =
    ground (
      arith,
      lookup-insert pat q (x ∷ xs) m,
      lookup-insert pat pat (x ∷ xs) m,
      bytes_eq_iff pat pat,
    )

remove_one-lookup :
    (p : Registry) (id : ℕ) (pat q : Bytes)
    → lookup q (remove_one p id pat).0.subs
      ≡ (if pat == q then lookup pat (remove_one p id pat).0.subs else lookup q p.subs)
unfolding remove_one
remove_one-lookup p id pat q =
    ground
      (arith, lookup-put_back pat q (delete_first (ids_of p pat) id) p.subs, bytes_eq_iff pat q)

pub remove-IsCoherent :
    (p : Registry) (id : ℕ) (pat : Bytes) → IsCoherent p → IsCoherent (remove p id pat).0
unfolding remove publish_entry
remove-IsCoherent p id pat v =
    let left = (remove_one p id pat).0 in
    let rest_of = remove_one-rest p id pat in
    let entries = ap (λ (s : Snapshot). s.entries) rest_of.0 in
    if_cases (λ (r : Registry × Bool). IsCoherent r.0) (not (remove_one p id pat).1) _ _ (λ _. v)
      (λ _.
        swap-IsCoherent left _ (remove_one-IsValid p id pat v.tables)
          (subst (λ es. IsShown left.subs (next_entries pat (lookup pat left.subs) es))
            (sym entries)
            (next-IsShown p.subs left.subs pat p.snap.entries (remove_one-lookup p id pat) v.shown))
          (ap length rest_of.1 ∙ v.shards))

remove_each-caches :
    (p : Registry) (id : ℕ) (pats : List Bytes) → (remove_each p id pats).caches ≡ p.caches
unfolding remove_each
remove_each-caches p id [] = refl
remove_each-caches p id (pat ∷ pats) =
    remove_each-caches (remove_one p id pat).0 id pats ∙ (remove_one-rest p id pat).1

remove_each-none :
    (p : Registry) (id : ℕ) (pats : List Bytes)
    → ltb 0 (length pats) ≡ false
    → remove_each p id pats ≡ p
unfolding remove_each
remove_each-none p id [] h = refl
remove_each-none p id (pat ∷ pats) h = absurd (ground arith)

pub remove_all-IsCoherent : (p : Registry) (id : ℕ) → IsCoherent p → IsCoherent (remove_all p id).0
unfolding remove_all publish_all
remove_all-IsCoherent p id v =
    let left = remove_each p id (pats_of p id) in
    let valid = remove_each-IsValid p id (pats_of p id) v.tables in
    if_cases IsCoherent (ltb 0 (length (pats_of p id))) _ _
      (λ _.
        swap-IsCoherent left _ valid (map-IsShown left.subs valid.keys_once)
          (ap length (remove_each-caches p id (pats_of p id)) ∙ v.shards))
      (λ none_left. subst IsCoherent (sym (remove_each-none p id (pats_of p id) none_left)) v)
