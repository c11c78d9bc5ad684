-- ===== src/Engine/Patterns.antt =====
-- `patternRegistry` (internal/engine/pattern.go): the wildcard subscriptions of the engine, the snapshot
-- that publishers read and the caches of what it matches. The lock makes each method one step. `hash` is
-- the seeded hash of a channel name; `range` over the map meets it in the order of the list.
pub mod Collect
pub mod Tables
pub mod Changes
pub mod Agreement
pub mod Coherence
pub mod Answers
pub mod Total
use gentis.Prelude.{
  ℕ, ◌+◌, ◌%◌, ◌/◌, HasEq, Bytes, bytes_Eq, nat_Eq, List, [], ◌∷◌, ◌++◌, Option, none, some, Bool,
  true, false, not, ◌&&◌, if◌then◌else◌, ◌==◌, nat_eq, ltb, length, is_empty, contains,
  delete_first, lookup, insert, delete, is_some, get_or, set, map, replicate, u64_mod,
}
use gentis.Client.{Mark, mark}
use gentis.Namespace.Name.{prefix}
use gentis.Pattern.{match}
use gentis.Relay.Router.{holds}
use gentis.Pattern.Cache.{Cache, new_cache, clear}
use gentis.Pattern.Cache as Cache

abbrev pub pattern_cache_size : ℕ
pattern_cache_size = 10000

abbrev pub pattern_cache_shards : ℕ
pattern_cache_shards = 32

abbrev pub dedup_map_threshold : ℕ
dedup_map_threshold = 32

-- `patternEntry`
pub record PatternEntry : Type 0 where
  pub pat : Bytes
  pub ns : Bytes
  pub subs : List ℕ

-- `patternSnapshot`
pub record Snapshot : Type 0 where
  pub gen : ℕ
  pub entries : List PatternEntry

-- `cachedMatch`
pub record CachedMatch : Type 0 where
  pub gen : ℕ
  pub ids : List ℕ

-- `patternRegistry`
pub record Registry : Type 0 where
  pub subs : List (Bytes × List ℕ)
  pub by_id : List (ℕ × List Bytes)
  pub scoped : Bool
  pub snap : Snapshot
  pub caches : List (Cache CachedMatch)

abbrev pub small_cache : Cache CachedMatch
small_cache = new_cache (pattern_cache_size / pattern_cache_shards)

-- `newPatternRegistry`
unfoldable pub new_registry : Bool → Registry
new_registry scoped = record {
  subs = [];
  by_id = [];
  scoped = scoped;
  snap = record { gen = 0; entries = [] };
  caches = replicate pattern_cache_shards small_cache;
}

-- What a map of slices holds under a key: nothing where the key is missing.
abbrev pub slice_of {ℓ} : {A : Type ℓ} → Option (List A) → List A
slice_of none = []
slice_of (some xs) = xs

abbrev pub ids_of : Registry → Bytes → List ℕ
ids_of p pat = slice_of (lookup pat p.subs)

abbrev pub pats_of : Registry → ℕ → List Bytes
pats_of p id = slice_of (lookup id p.by_id)

-- `swapLocked`
unfoldable pub swap : Registry → Snapshot → Registry
swap p next = record p { snap = next; caches = map clear p.caches }

unfoldable pub entry_of : Bytes × List ℕ → PatternEntry
entry_of (pat, ids) = record { pat = pat; ns = prefix pat; subs = ids }

-- `publishLocked`
unfoldable pub publish_all : Registry → Registry
unfolding swap entry_of
publish_all p = swap p (record { gen = (p.snap.gen + 1) % u64_mod; entries = map entry_of p.subs })

-- The loop of `publishEntryLocked`, where `ids` is what the map now has for the pattern
unfoldable pub replace_entry : Bytes → Option (List ℕ) → List PatternEntry → List PatternEntry
replace_entry pat ids [] = []
replace_entry pat ids (e ∷ es) =
    let others = replace_entry pat ids es in
    if e.pat == pat
    then elim ids [ none ↦ others | some live ↦ record e { pat = pat; subs = live } ∷ others ]
    else e ∷ others

-- Whether that loop finds an entry of the pattern
unfoldable pub has_entry : Bytes → List PatternEntry → Bool
has_entry pat [] = false
has_entry pat (e ∷ es) = if e.pat == pat then true else has_entry pat es

-- The entries that `publishEntryLocked` stores
unfoldable pub next_entries : Bytes → Option (List ℕ) → List PatternEntry → List PatternEntry
unfolding replace_entry has_entry entry_of
next_entries pat none old = replace_entry pat none old
next_entries pat (some ids) old =
    if has_entry pat old
    then replace_entry pat (some ids) old
    else replace_entry pat (some ids) old ++ (entry_of (pat, ids) ∷ [])

-- `publishEntryLocked`
unfoldable pub publish_entry : Registry → Bytes → Registry
unfolding swap next_entries
publish_entry p pat = swap p (record {
  gen = (p.snap.gen + 1) % u64_mod;
  entries = next_entries pat (lookup pat p.subs) p.snap.entries;
})

-- `add`
unfoldable pub add : Registry → ℕ → Bytes → Registry × Bool
unfolding publish_entry
add p id pat =
    if contains (ids_of p pat) id
    then (p, false)
    else let added = record p {
      subs = insert pat (ids_of p pat ++ (id ∷ [])) p.subs;
      by_id = insert id (pats_of p id ++ (pat ∷ [])) p.by_id;
    } in
      (publish_entry added pat, true)

-- A map of slices with the slice of one key put back, or the key deleted where nothing is left.
abbrev pub put_back {ℓ κ} :
    {A : Type ℓ} {K : Type κ} ⦃e : HasEq K⦄ → K → List A → List (K × List A) → List (K × List A)
put_back k xs m = if is_empty xs then delete k m else insert k xs m

-- `removeLocked`
unfoldable pub remove_one : Registry → ℕ → Bytes → Registry × Bool
remove_one p id pat =
    if not (contains (ids_of p pat) id)
    then (p, false)
    else let subs = put_back pat (delete_first (ids_of p pat) id) p.subs in
      let by_id =
        (if contains (pats_of p id) pat
          then put_back id (delete_first (pats_of p id) pat) p.by_id
          else p.by_id) in
      (record p { subs = subs; by_id = by_id }, true)

-- `remove`
unfoldable pub remove : Registry → ℕ → Bytes → Registry × Bool
unfolding remove_one publish_entry
remove p id pat =
    let (left, found) = remove_one p id pat in
    if not found then (p, false) else (publish_entry left pat, true)

-- The loop of `removeAll`
unfoldable pub remove_each : Registry → ℕ → List Bytes → Registry
unfolding remove_one
remove_each p id [] = p
remove_each p id (pat ∷ pats) = remove_each (remove_one p id pat).0 id pats

-- `removeAll`
unfoldable pub remove_all : Registry → ℕ → Registry × ℕ
unfolding remove_each publish_all
remove_all p id =
    let pats = pats_of p id in
    let left = remove_each p id pats in
    (if ltb 0 (length pats) then publish_all left else left, length pats)

-- The identities found and, past the threshold, the set of them
abbrev pub Found : Type 0
Found = List ℕ × Option (List (ℕ × Mark))

unfoldable pub mark_all : List ℕ → List (ℕ × Mark) → List (ℕ × Mark)
mark_all [] m = m
mark_all (id ∷ ids) m = mark_all ids (insert id mark m)

-- The body of the innermost loop of `subscribersFor`
unfoldable pub collect_one : Found → ℕ → Found
unfolding mark_all
collect_one (ids, some seen) id =
    if is_some (lookup id seen)
    then (ids, some seen)
    else (ids ++ (id ∷ []), some (insert id mark seen))
collect_one (ids, none) id =
    if contains ids id
    then (ids, none)
    else if ltb dedup_map_threshold (length (ids ++ (id ∷ [])))
    then (ids ++ (id ∷ []), some (mark_all (ids ++ (id ∷ [])) []))
    else (ids ++ (id ∷ []), none)

unfoldable pub collect_all : Found → List ℕ → Found
unfolding collect_one
collect_all found [] = found
collect_all found (id ∷ ids) = collect_all (collect_one found id) ids

-- Whether the loop of `subscribersFor` takes the subscribers of an entry
unfoldable pub is_taken : Bool → Bytes → PatternEntry → Bool
is_taken scoped channel e =
    not (scoped && not (e.ns == prefix channel)) && holds (match e.pat channel)

-- The loops of `subscribersFor`
unfoldable pub collect : Bool → Bytes → Found → List PatternEntry → Found
unfolding is_taken collect_all
collect scoped channel found [] = found
collect scoped channel found (e ∷ es) =
    if is_taken scoped channel e
    then collect scoped channel (collect_all found e.subs) es
    else collect scoped channel found es

-- `subscribersFor`, where `order` lists the keys as an eviction from the cache meets them.
unfoldable pub subscribers_for : (Bytes → ℕ) → List Bytes → Registry → Bytes → Registry × List ℕ
unfolding collect
subscribers_for hash order p channel =
    let i = hash channel % pattern_cache_shards in
    let c = get_or p.caches i small_cache in
    let ids = (collect p.scoped channel ([], none) p.snap.entries).0 in
    let stored = record p {
      caches = set p.caches i (Cache.set order c channel (record { gen = p.snap.gen; ids = ids }));
    } in
    if is_empty p.snap.entries then (p, []) else elim (Cache.get c channel) [
      | none ↦ (stored, ids)
      | some m ↦ if nat_eq m.gen p.snap.gen then (p, m.ids) else (stored, ids)
    ]
