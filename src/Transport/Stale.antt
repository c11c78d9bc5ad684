-- ===== src/Transport/Stale.antt =====
-- Generations: a delivery under a stale identity never reaches the next occupant of the slot.
use gentis.Prelude.{
  ℕ, zero, suc, ◌+◌, ◌-◌, ◌*◌, ◌<◌, ◌≡◌, ◌≢◌, refl, Option, none, some, arith, length, get_or, set,
  length-set, get_or-set_self, insert, delete, lookup-insert_self, lookup-delete, nat_Eq,
  nat_eq_iff, leb, if◌then◌else◌, Option-cases, inl, inr, u32_mod,
}
use gentis.Transport.{
  Store, Entry, slot_for, alloc_id, register, unregister, target, fresh_gen, low, high,
}

-- The arrays have one length, and the counters are 32-bit words.
pub record IsValid {ℓ} {S : Type ℓ} (s : Store S) : Type 0 where
  pub lengths : length s.gen ≡ length s.arr
  pub words : (i : ℕ) → get_or s.gen i 0 < u32_mod

pub fresh_gen-bounds :
    (g : ℕ) → g < u32_mod → (0 < fresh_gen g) × (fresh_gen g < u32_mod) × (fresh_gen g ≢ g)
unfolding fresh_gen
fresh_gen-bounds g h = ground arith

pub low-id : (g l : ℕ) → low (g * u32_mod + low l) ≡ low l
low-id g l = omega arith

pub high-id : (g l : ℕ) → g < u32_mod → high (g * u32_mod + low l) ≡ g
high-id g l h = omega arith

-- The generation that `n` more allocations give.
unfoldable pub later : ℕ → ℕ → ℕ
later zero g = g
later (suc n) g = fresh_gen (later n g)

-- Generations run through the words from 1 on, and start again after the last.
later_lem :
    (n g : ℕ)
    → 0 < g
    → g < u32_mod
    → n < u32_mod - 1
    → later n g ≡ (if leb u32_mod (g + n) then g + n - (u32_mod - 1) else g + n)
unfolding later fresh_gen
later_lem zero g lo hi m = ground arith
later_lem (suc n) g lo hi m = let before = later_lem n g lo hi (omega arith) in ground arith

pub later-word : (n g : ℕ) → g < u32_mod → later n g < u32_mod
unfolding later
later-word zero g h = h
later-word (suc n) g h = (fresh_gen-bounds (later n g) (later-word n g h)).1

-- Within the 2^32 - 2 allocations that follow, the generation does not come back.
pub later-fresh : (n g : ℕ) → 0 < g → g < u32_mod → n < u32_mod - 2 → later (suc n) g ≢ g
later-fresh n g lo hi m = ground (arith, later_lem (suc n) g lo hi)

module _ {ℓ} {S : Type ℓ} where
  pub slot-bound : (s : Store S) (id i : ℕ) → slot_for s id ≡ some i → i < length s.arr
  unfolding slot_for
  slot-bound s id i h = ground arith

  -- The slot depends on the lower half of an identity, and on parts that no allocation changes.
  pub slot-low :
      (s t : Store S) (id₁ id₂ : ℕ)
      → low id₁ ≡ low id₂
      → s.base_id ≡ t.base_id
      → length s.arr ≡ length t.arr
      → slot_for s id₁ ≡ slot_for t id₂
  unfolding slot_for
  slot-low s t id₁ id₂ l b a = ground arith

  -- What `AllocID` does for a slot of the array.
  pub alloc_lem :
      (s : Store S) (slot i : ℕ)
      → slot_for s slot ≡ some i
      → alloc_id s slot ≡ (
        record s { gen = set s.gen i (fresh_gen (get_or s.gen i 0)) },
        fresh_gen (get_or s.gen i 0) * u32_mod + low slot,
      )
  unfolding alloc_id
  alloc_lem s slot i h = ground arith

  -- A delivery under an identity whose generation is not the occupant's finds no sender.
  pub target-stale :
      (s : Store S) (a b i : ℕ) (x : S)
      → low a ≡ low b
      → slot_for s a ≡ some i
      → high a ≢ 0
      → high a ≢ high b
      → target (register s b (some x)) a ≡ none
  unfolding target register
  target-stale s a b i x l h z d =
      let e : Option (Entry S) = some (record { gen = high b; sender = x }) in
      let t : Store S = record s { arr = set s.arr i e } in
      let same = slot-low s s a b l refl refl in
      let moved = slot-low t s a a refl refl (length-set s.arr i e) in
      let held = get_or-set_self s.arr i e none (slot-bound s a i h) in ground arith

  -- A delivery under the identity that `Register` was given finds the sender registered.
  pub target-register : (s : Store S) (a : ℕ) (x : S) → target (register s a (some x)) a ≡ some x
  unfolding target register
  target-register s a x = elim (Option-cases (slot_for s a)) [
    | inl outside ↦
        let t : Store S = record s { overflow = insert a x s.overflow } in
        let moved = slot-low t s a a refl refl refl in
        ground (arith, lookup-insert_self a x s.overflow)
    | inr (i, h) ↦
        let e : Option (Entry S) = some (record { gen = high a; sender = x }) in
        let t : Store S = record s { arr = set s.arr i e } in
        let moved = slot-low t s a a refl refl (length-set s.arr i e) in
        let held = get_or-set_self s.arr i e none (slot-bound s a i h) in ground arith
  ]

  -- After `Unregister` no delivery under that identity finds a sender.
  pub target-unregister : (s : Store S) (a : ℕ) → target (unregister s a) a ≡ none
  unfolding target unregister
  target-unregister s a = elim (Option-cases (slot_for s a)) [
    | inl outside ↦
        let t : Store S = record s { overflow = delete a s.overflow } in
        let moved = slot-low t s a a refl refl refl in
        ground (arith, lookup-delete a a s.overflow, nat_eq_iff a a)
    | inr (i, h) ↦
        let t : Store S = record s { arr = set s.arr i none } in
        let moved = slot-low t s a a refl refl (length-set s.arr i none) in
        let held = get_or-set_self s.arr i none none (slot-bound s a i h) in ground arith
  ]
