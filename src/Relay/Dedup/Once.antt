-- ===== src/Relay/Dedup/Once.antt =====
-- Within the time to live an identity passes once.
use gentis.Prelude.{
  ℕ, zero, suc, ℤ, pos, ◌≤ℤ◌, ◌<ℤ◌, ◌+ℤ◌, ◌-ℤ◌, +ℤ_parts, -ℤ_parts, ◌%◌, ◌<◌, ◌≡◌, ◌∙◌, refl,
  nat_Eq, nat_eq_iff, List, [], ◌∷◌, map, some, Bool, true, false, arith, length, get_or, set,
  length-set, get_or-set_self, get_or-set_ne, lookup, insert, lookup-insert, lookup-insert_self,
  ltb_ℤ, ap, if_cases, subst, sym, false≢true, ◌+◌,
}
use gentis.Relay.Dedup.{
  Deduplicator, DedupShard, empty_shard, num_dedup_shards, check, cleanup, clean_shard, expire,
  maybe_rebuild, is_fresh,
}

-- The calls of one deduplicator, with the times at which they read the clock.
pub data Call : Type 0 where
  checks : ℕ → ℤ → ℤ → Call
  cleans : ℤ → Call

unfoldable pub step : Deduplicator → Call → Deduplicator
step d (checks key now₁ now₂) = (check d key now₁ now₂).0
step d (cleans now) = cleanup d now

unfoldable pub run : Deduplicator → List Call → Deduplicator
run d [] = d
run d (c ∷ cs) = run (step d c) cs

-- All the calls read the clock before `limit`.
abbrev pub Before : ℤ → List Call → Type 0
Before limit [] = Unit
Before limit (checks key now₁ now₂ ∷ cs) = (now₁ <ℤ limit) × (now₂ <ℤ limit) × Before limit cs
Before limit (cleans now ∷ cs) = (now <ℤ limit) × Before limit cs

abbrev pub shard_of : Deduplicator → ℕ → DedupShard
shard_of d key = get_or d.shards (key % num_dedup_shards) empty_shard

-- The key was seen at `since` or later, in a deduplicator with all its shards.
pub record IsSeen (key : ℕ) (since ttl : ℤ) (d : Deduplicator) : Type 0 where
  pub all_shards : length d.shards ≡ num_dedup_shards
  pub same_ttl : d.ttl ≡ ttl
  pub at : ℤ
  pub found : lookup key (shard_of d key).seen ≡ some at
  pub late : since ≤ℤ at

fresh-IsSeen :
    (key : ℕ) (since ttl now at : ℤ)
    → now <ℤ since +ℤ ttl
    → since ≤ℤ at
    → ltb_ℤ (now -ℤ at) ttl ≡ true
fresh-IsSeen key since ttl now at b l = ground (arith, +ℤ_parts since ttl, -ℤ_parts now at)

-- A key that was seen is refused, and stays seen.
check-IsSeen :
    (key : ℕ) (since ttl now₁ now₂ : ℤ) (d : Deduplicator)
    → now₁ <ℤ since +ℤ ttl
    → IsSeen key since ttl d
    → (check d key now₁ now₂).1 ≡ false
unfolding check is_fresh
check-IsSeen key since ttl now₁ now₂ d b s =
    ground (arith, s.found, s.same_ttl, fresh-IsSeen key since ttl now₁ s.at b s.late)

lookup-expire :
    (key : ℕ) (now cutoff at : ℤ) (m : List (ℕ × ℤ))
    → ltb_ℤ cutoff (now -ℤ at) ≡ false
    → lookup key m ≡ some at
    → lookup key (expire now cutoff m) ≡ some at
unfolding lookup expire
lookup-expire key now cutoff at [] k h = cc
lookup-expire key now cutoff at ((j, v) ∷ m) k h =
    ground (arith, lookup-expire key now cutoff at m k)

get_or-map :
    (f : DedupShard → DedupShard) (xs : List DedupShard) (i : ℕ)
    → i < length xs
    → get_or (map f xs) i empty_shard ≡ f (get_or xs i empty_shard)
get_or-map f [] i h = absurd (omega arith)
get_or-map f (x ∷ xs) zero h = refl
get_or-map f (x ∷ xs) (suc i) h = get_or-map f xs i (omega arith)

length-map : (f : DedupShard → DedupShard) (xs : List DedupShard) → length (map f xs) ≡ length xs
length-map f [] = refl
length-map f (x ∷ xs) = ap suc (length-map f xs)

maybe_rebuild-seen : (sh : DedupShard) → (maybe_rebuild sh).seen ≡ sh.seen
unfolding maybe_rebuild
maybe_rebuild-seen sh = ground arith

old-kept :
    (since ttl now at : ℤ)
    → pos 0 ≤ℤ ttl
    → now <ℤ since +ℤ ttl
    → since ≤ℤ at
    → ltb_ℤ (ttl +ℤ ttl) (now -ℤ at) ≡ false
old-kept since ttl now at p b l =
    ground (arith, +ℤ_parts since ttl, +ℤ_parts ttl ttl, -ℤ_parts now at)

cleanup-IsSeen :
    (key : ℕ) (since ttl now : ℤ) (d : Deduplicator)
    → pos 0 ≤ℤ ttl
    → now <ℤ since +ℤ ttl
    → IsSeen key since ttl d
    → IsSeen key since ttl (cleanup d now)
unfolding cleanup clean_shard
cleanup-IsSeen key since ttl now d p b s =
    let old = shard_of d key in
    let cutoff = d.ttl +ℤ d.ttl in
    let swept : DedupShard = record old { seen = expire now cutoff old.seen } in
    let at_key =
      get_or-map (clean_shard now cutoff) d.shards (key % num_dedup_shards)
        (omega (arith, s.all_shards)) in
    let seen = maybe_rebuild-seen swept in
    let kept = old-kept since ttl now s.at p b s.late in
    let there = lookup-expire key now cutoff s.at old.seen in
    record {
      all_shards = length-map (clean_shard now cutoff) d.shards ∙ s.all_shards;
      same_ttl = s.same_ttl;
      at = s.at;
      found = ground (arith, s.found, s.same_ttl);
      late = s.late;
    }

other-IsSeen :
    (key j : ℕ) (since ttl now : ℤ) (d : Deduplicator) (peak misses : ℕ)
    → ¬ (j ≡ key)
    → IsSeen key since ttl d
    → IsSeen key since ttl (record d {
      shards =
          set d.shards
            (j % num_dedup_shards)
            (record { seen = insert j now (shard_of d j).seen; peak = peak });
      misses = misses;
    })
other-IsSeen key j since ttl now d peak misses apart s =
    let next : DedupShard = record { seen = insert j now (shard_of d j).seen; peak = peak } in
    let i = j % num_dedup_shards in
    let here = get_or-set_self d.shards i next empty_shard in
    let there = get_or-set_ne d.shards i (key % num_dedup_shards) next empty_shard in
    let put = lookup-insert j key now (shard_of d j).seen in
    let same : i ≡ key % num_dedup_shards → shard_of d j ≡ shard_of d key =
      λ e. ap (λ n. get_or d.shards n empty_shard) e in
    record {
      all_shards = length-set d.shards i next ∙ s.all_shards;
      same_ttl = s.same_ttl;
      at = s.at;
      found = ground (arith, s.found, s.all_shards, nat_eq_iff j key);
      late = s.late;
    }

check-keeps :
    (key j : ℕ) (since ttl now₁ now₂ : ℤ) (d : Deduplicator)
    → now₁ <ℤ since +ℤ ttl
    → IsSeen key since ttl d
    → IsSeen key since ttl (check d j now₁ now₂).0
unfolding check is_fresh
check-keeps key j since ttl now₁ now₂ d b s =
    let hit : IsSeen key since ttl (record d { hits = d.hits + 1 }) = record {
      all_shards = s.all_shards;
      same_ttl = s.same_ttl;
      at = s.at;
      found = s.found;
      late = s.late;
    } in
    let fresh : is_fresh d.ttl now₁ (lookup key (shard_of d key).seen) ≡ true =
      ground (arith, s.found, s.same_ttl, fresh-IsSeen key since ttl now₁ s.at b s.late) in
    if_cases (λ (r : Deduplicator × Bool). IsSeen key since ttl r.0)
      (is_fresh d.ttl now₁ (lookup j (shard_of d j).seen)) _ _ (λ _. hit)
      (λ stale.
        if_cases (λ (r : Deduplicator × Bool). IsSeen key since ttl r.0)
          (is_fresh d.ttl now₂ (lookup j (shard_of d j).seen)) _ _ (λ _. hit)
          (λ _.
            other-IsSeen key j since ttl now₂ d _ _
              (λ e. false≢true (
                sym stale
                ∙ subst (λ n. is_fresh d.ttl now₁ (lookup n (shard_of d n).seen) ≡ true) (sym e)
                    fresh))
              s))

run-IsSeen :
    (key : ℕ) (since ttl : ℤ) (d : Deduplicator) (cs : List Call)
    → pos 0 ≤ℤ ttl
    → Before (since +ℤ ttl) cs
    → IsSeen key since ttl d
    → IsSeen key since ttl (run d cs)
unfolding run step
run-IsSeen key since ttl d [] p b s = s
run-IsSeen key since ttl d (checks j now₁ now₂ ∷ cs) p b s =
    run-IsSeen key since ttl (check d j now₁ now₂).0 cs p b.2
      (check-keeps key j since ttl now₁ now₂ d b.0 s)
run-IsSeen key since ttl d (cleans now ∷ cs) p b s =
    run-IsSeen key since ttl (cleanup d now) cs p b.1 (cleanup-IsSeen key since ttl now d p b.0 s)

inserted-IsSeen :
    (key : ℕ) (now : ℤ) (d : Deduplicator) (peak misses : ℕ)
    → length d.shards ≡ num_dedup_shards
    → IsSeen key now d.ttl (record d {
      shards =
          set d.shards
            (key % num_dedup_shards)
            (record { seen = insert key now (shard_of d key).seen; peak = peak });
      misses = misses;
    })
inserted-IsSeen key now d peak misses l =
    let next : DedupShard = record { seen = insert key now (shard_of d key).seen; peak = peak } in
    let i = key % num_dedup_shards in
    let here = get_or-set_self d.shards i next empty_shard (omega (arith, l)) in
    let put = lookup-insert_self key now (shard_of d key).seen in
    record {
      all_shards = length-set d.shards i next ∙ l;
      same_ttl = refl;
      at = now;
      found = ground arith;
      late = omega arith;
    }

-- Where a check lets an identity pass, the key has been seen then.
passed-IsSeen :
    (key : ℕ) (now₁ now₂ : ℤ) (d : Deduplicator)
    → length d.shards ≡ num_dedup_shards
    → (check d key now₁ now₂).1 ≡ true
    → IsSeen key now₂ d.ttl (check d key now₁ now₂).0
unfolding check
passed-IsSeen key now₁ now₂ d l h =
    if_cases Passed (is_fresh d.ttl now₁ (lookup key (shard_of d key).seen)) _ _
      (λ _ e. absurd (false≢true e))
      (λ _.
        if_cases Passed (is_fresh d.ttl now₂ (lookup key (shard_of d key).seen)) _ _
          (λ _ e. absurd (false≢true e)) (λ _ _. inserted-IsSeen key now₂ d _ _ l))
      h
  where
    Passed : Deduplicator × Bool → Type 0
    Passed r = r.1 ≡ true → IsSeen key now₂ d.ttl r.0

-- With all shards and a time to live that is not negative: once a check has let an identity pass, every further check of it is refused, whatever other checks
-- and sweeps run in between, as long as each of them reads a clock that is short of one time to live
-- after the pass.
pub check-once :
    (key : ℕ) (now₁ now₂ next₁ next₂ : ℤ) (d : Deduplicator) (cs : List Call)
    → pos 0 ≤ℤ d.ttl
    → length d.shards ≡ num_dedup_shards
    → (check d key now₁ now₂).1 ≡ true
    → Before (now₂ +ℤ d.ttl) cs
    → next₁ <ℤ now₂ +ℤ d.ttl
    → (check (run (check d key now₁ now₂).0 cs) key next₁ next₂).1 ≡ false
check-once key now₁ now₂ next₁ next₂ d cs p l h b n =
    let seen = passed-IsSeen key now₁ now₂ d l h in
    check-IsSeen key now₂ d.ttl next₁ next₂ _ n (run-IsSeen key now₂ d.ttl _ cs p b seen)
