-- ===== src/Prelude/Maps.antt =====
-- Go maps as association lists with one entry for each key. The order of the list is the order in
-- which `range` meets the entries; Go leaves it open, so no theorem may rest on it.
use Prim.Native.Nat.{◌+◌, ◌≤◌}
use mathlib.Core.Path.{◌≡◌, refl}
use mathlib.Core.Logic.{◌⊎◌}
use mathlib.Core.Bool.{Bool, true, false}
use mathlib.Core.Option.{Option, none, some}
use mathlib.Core.List.{List, [], ◌∷◌}
use native.Mathlib.Omega.{arith}
use gentis.Prelude.Tests.{if◌then◌else◌, HasEq, ◌==◌}
use gentis.Prelude.Lists.{All, length, contains, Distinct}

abbrev pub is_some {ℓ} : {A : Type ℓ} → Option A → Bool
is_some none = false
is_some (some a) = true

module _ {ℓ κ} {K : Type ℓ} {V : Type κ} ⦃e : HasEq K⦄ where
  unfoldable pub lookup : K → List (K × V) → Option V
  lookup key [] = none
  lookup key ((other, val) ∷ table) = if other == key then some val else lookup key table

  unfoldable pub insert : K → V → List (K × V) → List (K × V)
  insert key val [] = (key, val) ∷ []
  insert key val ((other, held) ∷ table) =
      if other == key then (key, val) ∷ table else (other, held) ∷ insert key val table

  unfoldable pub delete : K → List (K × V) → List (K × V)
  delete key [] = []
  delete key ((other, held) ∷ table) =
      if other == key then delete key table else (other, held) ∷ delete key table

  abbrev pub keys : List (K × V) → List K
  keys [] = []
  keys ((other, held) ∷ table) = other ∷ keys table

  pub lookup-insert :
      (key other : K) (val : V) (table : List (K × V))
      → lookup other (insert key val table)
        ≡ (if key == other then some val else lookup other table)
  unfolding lookup insert
  lookup-insert key other val [] = refl
  lookup-insert key other val ((first, held) ∷ table) = ground (
    arith,
    e.equal_iff key other,
    e.equal_iff first key,
    e.equal_iff first other,
    lookup-insert key other val table,
  )

  pub lookup-delete :
      (key other : K) (table : List (K × V))
      → lookup other (delete key table) ≡ (if key == other then none else lookup other table)
  unfolding lookup delete
  lookup-delete key other [] = ground arith
  lookup-delete key other ((first, held) ∷ table) = ground (
    arith,
    e.equal_iff key other,
    e.equal_iff first key,
    e.equal_iff first other,
    lookup-delete key other table,
  )

  pub length-insert :
      (key : K) (val : V) (table : List (K × V))
      → length (insert key val table)
        ≡ (if is_some (lookup key table) then length table else length table + 1)
  unfolding lookup insert
  length-insert key val [] = refl
  length-insert key val ((first, held) ∷ table) = ground (arith, length-insert key val table)

  pub length-delete-le : (key : K) (table : List (K × V)) → length (delete key table) ≤ length table
  unfolding delete
  length-delete-le key [] = omega arith
  length-delete-le key ((first, held) ∷ table) = ground (arith, length-delete-le key table)

  pub contains-keys :
      (key : K) (table : List (K × V)) → contains (keys table) key ≡ is_some (lookup key table)
  unfolding lookup
  contains-keys key [] = refl
  contains-keys key ((first, held) ∷ table) = ground (arith, contains-keys key table)

  pub delete-absent :
      (key : K) (table : List (K × V))
      → contains (keys table) key ≡ false
      → delete key table ≡ table
  unfolding delete
  delete-absent key [] h = refl
  delete-absent key ((first, held) ∷ table) h = ground (arith, delete-absent key table)

  -- In a map, deleting a key that is there takes away one entry.
  pub length-delete :
      (key : K) (table : List (K × V))
      → Distinct (keys table)
      → contains (keys table) key ≡ true
      → length (delete key table) + 1 ≡ length table
  unfolding delete
  length-delete key [] d h = cc
  length-delete key ((first, held) ∷ table) d h =
      ground (arith, e.equal_iff first key, delete-absent first table, length-delete key table)

  pub contains-keys-delete :
      (key other : K) (table : List (K × V))
      → contains (keys (delete key table)) other
        ≡ (if key == other then false else contains (keys table) other)
  unfolding delete
  contains-keys-delete key other [] = ground arith
  contains-keys-delete key other ((first, held) ∷ table) = ground (
    arith,
    e.equal_iff key other,
    e.equal_iff first key,
    e.equal_iff first other,
    contains-keys-delete key other table,
  )

  pub contains-keys-insert :
      (key other : K) (val : V) (table : List (K × V))
      → contains (keys (insert key val table)) other
        ≡ (if key == other then true else contains (keys table) other)
  unfolding insert
  contains-keys-insert key other val [] = ground arith
  contains-keys-insert key other val ((first, held) ∷ table) = ground (
    arith,
    e.equal_iff key other,
    e.equal_iff first key,
    e.equal_iff first other,
    contains-keys-insert key other val table,
  )

  pub delete-Distinct :
      (key : K) (table : List (K × V)) → Distinct (keys table) → Distinct (keys (delete key table))
  unfolding delete
  delete-Distinct key [] d = tt
  delete-Distinct key ((first, held) ∷ table) d =
      ground (arith, delete-Distinct key table, contains-keys-delete key first table)

  pub insert-Distinct :
      (key : K) (val : V) (table : List (K × V))
      → Distinct (keys table)
      → Distinct (keys (insert key val table))
  unfolding insert
  insert-Distinct key val [] d = (refl, tt)
  insert-Distinct key val ((first, held) ∷ table) d = ground (
    arith,
    insert-Distinct key val table,
    contains-keys-insert key first val table,
    e.equal_iff first key,
    e.equal_iff key first,
  )

  -- What a map with one more entry holds was put in now, or was there.
  pub lookup-insert_inv :
      (key other : K) (val held : V) (table : List (K × V))
      → lookup other (insert key val table) ≡ some held
      → ((key ≡ other) × (val ≡ held)) ⊎ (lookup other table ≡ some held)
  lookup-insert_inv key other val held table h =
      ground (arith, lookup-insert key other val table, e.equal_iff key other)

  pub lookup-delete_inv :
      (key other : K) (held : V) (table : List (K × V))
      → lookup other (delete key table) ≡ some held
      → (¬ (key ≡ other)) × (lookup other table ≡ some held)
  lookup-delete_inv key other held table h =
      ground (arith, lookup-delete key other table, e.equal_iff key other)

  pub lookup-insert_self :
      (key : K) (val : V) (table : List (K × V)) → lookup key (insert key val table) ≡ some val
  lookup-insert_self key val table =
      ground (arith, lookup-insert key key val table, e.equal_iff key key)

module _ {ℓ κ μ} {K : Type ℓ} {V : Type κ} ⦃e : HasEq K⦄ (P : K × V → Type μ) where
  pub insert-All :
      (key : K) (val : V) (table : List (K × V))
      → P (key, val)
      → All P table
      → All P (insert key val table)
  unfolding insert
  insert-All key val [] p h = (p, tt)
  insert-All key val ((first, held) ∷ table) p h = ground (arith, insert-All key val table)

  pub lookup-All :
      (key : K) (val : V) (table : List (K × V))
      → All P table
      → lookup key table ≡ some val
      → P (key, val)
  unfolding lookup
  lookup-All key val [] h q = cc
  lookup-All key val ((first, held) ∷ table) h q =
      ground (arith, e.equal_iff first key, lookup-All key val table h.1)
