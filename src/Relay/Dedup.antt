-- ===== src/Relay/Dedup.antt =====
-- `Deduplicator` (internal/relay/dedup.go): message identities seen within a time to live. The key of an
-- identity is its hash, which the operations here are given. Each lock makes its section one step; the
-- counters of the shards' peaks only steer when a map is copied.
pub mod Once
use gentis.Prelude.{
  ℕ, ℤ, pos, ◌+◌, ◌*◌, ◌/◌, ◌%◌, ◌-ℤ◌, ◌+ℤ◌, nat_Eq, List, [], ◌∷◌, Option, none, some, Bool, true,
  false, not, ◌&&◌, if◌then◌else◌, ltb, ltb_ℤ, length, get_or, set, map, replicate, lookup, insert,
  is_some, max,
}

abbrev pub num_dedup_shards : ℕ
num_dedup_shards = 16

-- `dedupShard`
pub record DedupShard : Type 0 where
  pub seen : List (ℕ × ℤ)
  pub peak : ℕ

pub record Deduplicator : Type 0 where
  pub shards : List DedupShard
  pub ttl : ℤ
  pub hits : ℕ
  pub misses : ℕ

abbrev pub empty_shard : DedupShard
empty_shard = record { seen = []; peak = 0 }

-- `NewDeduplicator`
unfoldable pub new_deduplicator : ℤ → Deduplicator
new_deduplicator ttl = record {
  shards = replicate num_dedup_shards empty_shard;
  ttl = ttl;
  hits = 0;
  misses = 0;
}

-- `maybeRebuild`: the rebuilt map has the entries of the old one.
unfoldable pub maybe_rebuild : DedupShard → DedupShard
maybe_rebuild sh =
    if ltb 64 sh.peak && ltb (length sh.seen) (sh.peak / 4)
    then record sh { peak = length sh.seen }
    else sh

-- Whether an entry of the map is there and younger than the time to live
unfoldable pub is_fresh : ℤ → ℤ → Option ℤ → Bool
is_fresh ttl now none = false
is_fresh ttl now (some at) = ltb_ℤ (now -ℤ at) ttl

-- `Check`, for one key, with the clock read before and after the write lock is taken. The shard may
-- change in between; `check` is the run in which it does not.
unfoldable pub check : Deduplicator → ℕ → ℤ → ℤ → Deduplicator × Bool
unfolding is_fresh
check d key now₁ now₂ =
    let sh = get_or d.shards (key % num_dedup_shards) empty_shard in
    if is_fresh d.ttl now₁ (lookup key sh.seen)
    then (record d { hits = d.hits + 1 }, false)
    else if is_fresh d.ttl now₂ (lookup key sh.seen)
    then (record d { hits = d.hits + 1 }, false)
    else let seen = insert key now₂ sh.seen in
      let peak = if is_some (lookup key sh.seen) then sh.peak else max sh.peak (length seen) in
      let next : DedupShard = record { seen = seen; peak = peak } in
      (
        record d { shards = set d.shards (key % num_dedup_shards) next; misses = d.misses + 1 },
        true,
      )

-- The loop of `cleanup` over one map
unfoldable pub expire : ℤ → ℤ → List (ℕ × ℤ) → List (ℕ × ℤ)
expire now cutoff [] = []
expire now cutoff ((key, at) ∷ m) =
    if ltb_ℤ cutoff (now -ℤ at) then expire now cutoff m else (key, at) ∷ expire now cutoff m

unfoldable pub clean_shard : ℤ → ℤ → DedupShard → DedupShard
unfolding expire maybe_rebuild
clean_shard now cutoff sh = maybe_rebuild (record sh { seen = expire now cutoff sh.seen })

-- One tick of `cleanup`
unfoldable pub cleanup : Deduplicator → ℤ → Deduplicator
unfolding clean_shard
cleanup d now = record d { shards = map (clean_shard now (d.ttl +ℤ d.ttl)) d.shards }
