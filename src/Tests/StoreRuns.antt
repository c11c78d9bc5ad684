-- ===== src/Tests/StoreRuns.antt =====
-- A session store at concrete inputs (internal/transport/transport.go).
use gentis.Prelude.{
  List, ◌-◌, ℕ, zero, suc, ◌<◌, ◌≡◌, [], ◌∷◌, none, some, refl, arith, get_or, u32_mod,
}
use gentis.Transport.{Store, slot_for, alloc_id, register, target}
use gentis.Transport.Stale.{IsValid, target-register}
use gentis.Transport.Reuse.{Call, allocates, registers, unregisters, run, allocations, target-reuse}

-- Two slots, for the identities 100 and 101; the second has been given out once.
abbrev two_slots : Store ℕ
two_slots = record { base_id = 100; arr = none ∷ none ∷ []; gen = 0 ∷ 1 ∷ []; overflow = [] }

counters-words : (i : ℕ) → get_or two_slots.gen i 0 < u32_mod
counters-words zero = omega arith
counters-words (suc zero) = omega arith
counters-words (suc (suc i)) = omega arith

two_slots-IsValid : IsValid two_slots
two_slots-IsValid = record { lengths = refl; words = counters-words }

slot_one : slot_for two_slots 101 ≡ some 1
unfolding slot_for
slot_one = refl

-- The slot is given out, its occupant goes, and it is given out again; the other slot is in use as well.
abbrev busy : List (Call ℕ)
busy = allocates 101 ∷ registers 101 (some 3) ∷ allocates 100 ∷ unregisters 101 ∷ allocates 101 ∷ []

busy_allocations : allocations two_slots 1 busy < u32_mod - 2
unfolding slot_for
busy_allocations = omega arith

target-reuse_example :
    target
      (register
        (alloc_id (run (alloc_id two_slots 101).0 busy) 101).0
        (alloc_id (run (alloc_id two_slots 101).0 busy) 101).1
        (some 7))
      (alloc_id two_slots 101).1
    ≡ none
target-reuse_example =
    target-reuse busy two_slots 101 1 7 two_slots-IsValid slot_one busy_allocations

target-register_example : target (register two_slots 4294967397 (some 7)) 4294967397 ≡ some 7
target-register_example = target-register two_slots 4294967397 7
