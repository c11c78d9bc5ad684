-- ===== src/Engine/Fanout.antt =====
-- How a publication reaches its recipients (internal/engine/engine.go and fanout.go): one after the
-- other, in chunks, in rotation, or by wildcard. `deliver` says whether a recipient accepts. `tried`
-- lists the calls of `deliver`, in an order that the workers of a parallel fan-out need not keep.
pub mod Chunks
pub mod Wildcard
pub mod Rotation
use gentis.Prelude.{
  ℕ, zero, suc, ◌+◌, ◌-◌, ◌/◌, ◌%◌, min, Bytes, List, [], ◌∷◌, ◌++◌, Option, none, some, Bool, true,
  false, not, ◌&&◌, ◌||◌, if◌then◌else◌, length, is_empty, take, drop, contains, get_or, nat_eq,
  nat_Eq, ltb, is_some, lookup, u64_mod,
}
use gentis.Engine.Patterns.{mark_all}

-- `Delivery`; `framed` says whether it has a shared frame.
pub record Delivery : Type 0 where
  pub channel : Bytes
  pub payload : Bytes
  pub offset : ℕ
  pub epoch : ℕ
  pub framed : Bool

-- The two counts of a fan-out (`fanoutResult`), and who was tried.
pub record Counts : Type 0 where
  pub delivered : ℕ
  pub dropped : ℕ
  pub tried : List ℕ

abbrev pub no_counts : Counts
no_counts = record { delivered = 0; dropped = 0; tried = [] }

abbrev pub plus : Counts → Counts → Counts
plus a b = record {
  delivered = a.delivered + b.delivered;
  dropped = a.dropped + b.dropped;
  tried = a.tried ++ b.tried;
}

abbrev pub one_call : ℕ → Bool → Counts
one_call id true = record { delivered = 1; dropped = 0; tried = id ∷ [] }
one_call id false = record { delivered = 0; dropped = 1; tried = id ∷ [] }

module _ (deliver : ℕ → Delivery → Bool) (d : Delivery) (exclude : ℕ) where
  -- The loop of `Publish`, of the workers and of `parallelFanout` over subscribers
  unfoldable pub deliver_each : List ℕ → Counts
  deliver_each [] = no_counts
  deliver_each (id ∷ ids) =
      let others = deliver_each ids in
      if nat_eq id exclude then others else plus (one_call id (deliver id d)) others

  -- The chunks of `parallelFanout` from the one that begins at `start` on
  unfoldable pub deliver_chunks : ℕ → ℕ → ℕ → List ℕ → Counts
  unfolding deliver_each
  deliver_chunks zero chunk_size start subs = no_counts
  deliver_chunks (suc chunks) chunk_size start subs =
      let end = min (start + chunk_size) (length subs) in
      plus (deliver_each (take (end - start) (drop start subs)))
        (deliver_chunks chunks chunk_size (start + chunk_size) subs)

  -- `parallelFanout`; `none` is the panic of a division by zero, or of `scratch.results[:numChunks]`,
  -- which has one place for each worker.
  unfoldable pub parallel_fanout : ℕ → List ℕ → Option Counts
  unfolding deliver_chunks
  parallel_fanout workers subs =
      let n = length subs in
      let chunk_size = (n + workers - 1) / workers in
      let num_chunks = (n + chunk_size - 1) / chunk_size in
      if nat_eq chunk_size 0
      then none
      else if ltb workers num_chunks
      then none
      else some (deliver_chunks num_chunks chunk_size 0 subs)

  -- The loop of `roundRobinDeliver` from its round `i` on, where `tried` are those that refused.
  unfoldable pub rotate : ℕ → ℕ → ℕ → List ℕ → List ℕ → Counts
  rotate zero i start subs tried = record {
    delivered = 0;
    dropped = if is_empty tried then 0 else 1;
    tried = tried;
  }
  rotate (suc rounds) i start subs tried =
      let id = get_or subs ((start + i) % u64_mod % length subs) 0 in
      let skipped = nat_eq id exclude in
      let now_tried = if skipped then tried else tried ++ (id ∷ []) in
      let more = rotate rounds (i + 1) start subs now_tried in
      if not skipped && deliver id d
      then record { delivered = 1; dropped = 0; tried = now_tried }
      else more

  -- `roundRobinDeliver` with the rotation cursor `rr`: the counts and the cursor after it.
  unfoldable pub round_robin_deliver : ℕ → List ℕ → Counts × ℕ
  unfolding rotate
  round_robin_deliver rr subs =
      let n = length subs in
      let next = (rr + 1) % u64_mod in
      let start = (next + (u64_mod - 1)) % u64_mod in
      if nat_eq n 0 then (no_counts, rr) else (rotate n 0 start subs [], next)

  -- The test `reached` of `deliverPatterns`
  unfoldable pub reached : List ℕ → List ℕ → ℕ → Bool
  unfolding mark_all
  reached exact pattern_ids id =
      if ltb 32 (length exact) && ltb 1 (length pattern_ids)
      then is_some (lookup id (mark_all exact []))
      else contains exact id

  -- The loop of `deliverPatterns`
  unfoldable pub deliver_unreached : (ℕ → Bool) → List ℕ → Counts
  deliver_unreached is_reached [] = no_counts
  deliver_unreached is_reached (id ∷ ids) =
      let others = deliver_unreached is_reached ids in
      if nat_eq id exclude || is_reached id
      then others
      else plus (one_call id (deliver id d)) others

  -- `deliverPatterns`
  unfoldable pub deliver_patterns : List ℕ → List ℕ → Counts
  unfolding reached deliver_unreached
  deliver_patterns exact pattern_ids =
      if nat_eq (length pattern_ids) 0
      then no_counts
      else deliver_unreached (reached exact pattern_ids) pattern_ids
