-- ===== src/Transport.antt =====
-- `SessionStore` (internal/transport/transport.go): the senders of one transport by identity, with
-- generations that tell the occupants of a slot apart. Each method is one step.
pub mod Stale
pub mod Reuse
use gentis.Prelude.{
  ℕ, ◌+◌, ◌-◌, ◌*◌, ◌/◌, ◌%◌, ◌^◌, List, [], ◌∷◌, Option, none, some, Bool, true, false, not, ◌&&◌,
  if◌then◌else◌, nat_Eq, ltb, leb, leb_ℤ, ltb_ℤ, ℤ, pos, pos_part, nat_eq, length, get_or, set,
  replicate, lookup, insert, delete, u32_mod, u64_mod,
}

-- `entry`
pub record Entry {ℓ} (S : Type ℓ) : Type ℓ where
  pub gen : ℕ
  pub sender : S

-- `SessionStore`; in the map mode both arrays are empty.
pub record Store {ℓ} (S : Type ℓ) : Type ℓ where
  pub base_id : ℕ
  pub arr : List (Option (Entry S))
  pub gen : List ℕ
  pub overflow : List (ℕ × S)

-- `uint64(id) & idMask`, the lower half of an identity
abbrev pub low : ℕ → ℕ
low id = id % u32_mod

-- `uint32(uint64(id) >> genShift)`, the generation in the upper half
abbrev pub high : ℕ → ℕ
high id = (id / u32_mod) % u32_mod

-- `uint32` addition of one
abbrev pub next_gen : ℕ → ℕ
next_gen g = (g + 1) % u32_mod

-- The generation that `AllocID` gives after `g`: never 0.
unfoldable pub fresh_gen : ℕ → ℕ
fresh_gen g = if nat_eq (next_gen g) 0 then next_gen (next_gen g) else next_gen g

module _ {ℓ} {S : Type ℓ} where
  -- `NewSessionStore`
  unfoldable pub new_store : Store S
  new_store = record { base_id = 0; arr = []; gen = []; overflow = [] }

  -- `NewFlatSessionStore`
  unfoldable pub new_flat_store : ℕ → ℤ → Store S
  new_flat_store base_id capacity = if leb_ℤ capacity (pos 0) then new_store else record {
    base_id = base_id;
    arr = replicate (pos_part capacity) none;
    gen = replicate (pos_part capacity) 0;
    overflow = [];
  }

  -- `slotFor`; the difference wraps around.
  unfoldable pub slot_for : Store S → ℕ → Option ℕ
  slot_for s id =
      let n = (low id + u64_mod - s.base_id) % u64_mod in
      if nat_eq (length s.arr) 0 then none else if leb (length s.arr) n then none else some n

  -- `AllocID`
  unfoldable pub alloc_id : Store S → ℕ → Store S × ℕ
  unfolding fresh_gen
  alloc_id s slot_id = elim (slot_for s slot_id) [
    | none ↦ (s, slot_id)
    | some i ↦
        let g = fresh_gen (get_or s.gen i 0) in
        (record s { gen = set s.gen i g }, g * u32_mod + low slot_id)
  ]

  -- `Register`; a nil sender is `none`.
  unfoldable pub register : Store S → ℕ → Option S → Store S
  register s id none = s
  register s id (some sender) = elim (slot_for s id) [
    | some i ↦ record s { arr = set s.arr i (some (record { gen = high id; sender = sender })) }
    | none ↦ record s { overflow = insert id sender s.overflow }
  ]

  -- `Unregister`
  unfoldable pub unregister : Store S → ℕ → Store S
  unregister s id = elim (slot_for s id) [
    | some i ↦ record s { arr = set s.arr i none }
    | none ↦ record s { overflow = delete id s.overflow }
  ]

  -- The sender to which `Deliver` hands a delivery for `id`, or `none` where it returns false at once.
  unfoldable pub target : Store S → ℕ → Option S
  target s id = elim (slot_for s id) [
    | none ↦ lookup id s.overflow
    | some i ↦ elim (get_or s.arr i none) [
      | none ↦ none
      | some e ↦
          if not (nat_eq (high id) 0) && not (nat_eq (high id) e.gen) then none else some e.sender
    ]
  ]

  -- `Deliver`, where `send` is the sender's `DeliverMessage`.
  unfoldable pub deliver {κ} : {D : Type κ} → (S → D → Bool) → Store S → ℕ → D → Bool
  deliver send s id d = elim (target s id) [ none ↦ false | some sender ↦ send sender d ]
