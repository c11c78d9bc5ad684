-- ===== src/Tests/DedupRuns.antt =====
-- A deduplicator at concrete inputs (internal/relay/dedup.go).
use gentis.Prelude.{
  pos, ◌+ℤ◌, ◌<ℤ◌, ◌≤ℤ◌, List, [], ◌∷◌, true, false, ◌≡◌, refl, arith, length, lookup,
}
use gentis.Relay.Dedup.{new_deduplicator, check, num_dedup_shards}
use gentis.Relay.Dedup.Once.{Call, checks, cleans, Before, run, check-once}

abbrev calls : List Call
calls = checks 19 (pos 5) (pos 5) ∷ cleans (pos 8) ∷ checks 4 (pos 8) (pos 9) ∷ []

all_there : length (new_deduplicator (pos 10)).shards ≡ num_dedup_shards
unfolding new_deduplicator
all_there = refl

first_passes : (check (new_deduplicator (pos 10)) 3 (pos 1) (pos 2)).1 ≡ true
unfolding check new_deduplicator lookup
first_passes = refl

in_time : Before (pos 2 +ℤ pos 10) calls
unfolding ◌+ℤ◌
in_time = (omega arith, omega arith, (omega arith, (omega arith, omega arith, tt)))

again_in_time : pos 11 <ℤ pos 2 +ℤ pos 10
unfolding ◌+ℤ◌
again_in_time = omega arith

not_negative : pos 0 ≤ℤ (new_deduplicator (pos 10)).ttl
unfolding new_deduplicator
not_negative = omega arith

in_time_ttl : Before (pos 2 +ℤ (new_deduplicator (pos 10)).ttl) calls
unfolding new_deduplicator
in_time_ttl = in_time

again_in_time_ttl : pos 11 <ℤ pos 2 +ℤ (new_deduplicator (pos 10)).ttl
unfolding new_deduplicator
again_in_time_ttl = again_in_time

check-once_example :
    (check
      (run (check (new_deduplicator (pos 10)) 3 (pos 1) (pos 2)).0 calls)
      3
      (pos 11)
      (pos 11)).1
    ≡ false
check-once_example =
    check-once 3 (pos 1) (pos 2) (pos 11) (pos 11) (new_deduplicator (pos 10)) calls not_negative
      all_there first_passes in_time_ttl again_in_time_ttl
