-- ===== src/Pattern/Cache/Bound.antt =====
-- The cache stays within its size, and a full one gives up a quarter of its entries.
use gentis.Prelude.{
  ℕ, ◌+◌, ◌≤◌, ◌/◌, Bytes, bytes_Eq, bytes_eq_iff, List, [], ◌∷◌, ◌≡◌, true, false, arith, length,
  take, contains, Distinct, keys, lookup, delete, is_some, max, min, length-take, take-Distinct,
  take-All, All-of-contains, sym, ◌∙◌, leb, not, ◌&&◌, none, length-insert, length-delete,
  lookup-delete, delete-Distinct, insert-Distinct, contains-keys-delete, All, Bool-cases, inl, inr,
}
use gentis.Pattern.Cache.{Cache, set, delete_all, to_evict}

-- The keys of a cache, in the order in which a loop meets them: each once.
pub record IsOrder {ℓ} {V : Type ℓ} (order : List Bytes) (c : Cache V) : Type 0 where
  pub once : Distinct order
  pub all : length order ≡ length c.entries
  pub live : (k : Bytes) → contains order k ≡ contains (keys c.entries) k

pub record IsValid {ℓ} {V : Type ℓ} (c : Cache V) : Type 0 where
  pub distinct : Distinct (keys c.entries)
  pub bounded : length c.entries ≤ c.max_size
  pub positive : 1 ≤ c.max_size

module _ {ℓ} {V : Type ℓ} where
  abbrev Live : List Bytes → List (Bytes × V) → Type 0
  Live ks m = All (λ k. contains (keys m) k ≡ true) ks

  Live-delete :
      (k : Bytes) (ks : List Bytes) (m : List (Bytes × V))
      → contains ks k ≡ false
      → Live ks m
      → Live ks (delete k m)
  Live-delete k [] m d h = tt
  Live-delete k (j ∷ ks) m d h =
      ground
        (arith, contains-keys-delete k j m, bytes_eq_iff k j, bytes_eq_iff j k, Live-delete k ks m)

  length-delete_all :
      (ks : List Bytes) (m : List (Bytes × V))
      → Distinct (keys m)
      → Distinct ks
      → Live ks m
      → (length (delete_all ks m) + length ks ≡ length m) × Distinct (keys (delete_all ks m))
  unfolding delete_all
  length-delete_all [] m dm dk h = (omega arith, dm)
  length-delete_all (k ∷ ks) m dm dk h = ground (
    arith,
    length-delete k m dm h.0,
    delete-Distinct k m dm,
    Live-delete k ks m dk.0 h.1,
    length-delete_all ks (delete k m),
  )

  IsOrder-Live : (order : List Bytes) (c : Cache V) → IsOrder order c → Live order c.entries
  IsOrder-Live order c o =
      All-of-contains (λ k. contains (keys c.entries) k ≡ true) order (λ k h. sym (o.live k) ∙ h)

  -- What a call of `delete_all` for the first keys of the order leaves.
  evicted :
      (order : List Bytes) (c : Cache V) (n : ℕ)
      → IsValid c
      → IsOrder order c
      → let m = delete_all (take n order) c.entries in
        (length m + min n (length c.entries) ≡ length c.entries) × Distinct (keys m)
  evicted order c n v o =
      let left =
        length-delete_all (take n order) c.entries v.distinct (take-Distinct n order o.once)
          (take-All _ n order (IsOrder-Live order c o)) in
      (omega (arith, left.0, length-take n order, o.all), left.1)

  lookup-delete_all :
      (ks : List Bytes) (j : Bytes) (m : List (Bytes × V))
      → lookup j m ≡ none
      → lookup j (delete_all ks m) ≡ none
  unfolding delete_all
  lookup-delete_all [] j m h = h
  lookup-delete_all (k ∷ ks) j m h =
      lookup-delete_all ks j (delete k m) (ground (arith, lookup-delete k j m))

  -- `Set` keeps the cache valid whatever the order in which it evicts: one entry for a key, and
  -- never more entries than its size.
  pub set-IsValid :
      (order : List Bytes) (c : Cache V) (key : Bytes) (v : V)
      → IsOrder order c
      → IsValid c
      → IsValid (set order c key v)
  unfolding set
  set-IsValid order c key v o i =
      elim (Bool-cases
        (not (is_some (lookup key c.entries)) && leb c.max_size (length c.entries))) [
          | inl full ↦
              let left = evicted order c (to_evict c) i o in
              rw full (record {
                distinct = insert-Distinct key v _ left.1;
                bounded = ground (
                  arith,
                  length-insert key v (delete_all (take (to_evict c) order) c.entries),
                  left.0,
                );
                positive = i.positive;
              })
          | inr room ↦ rw room (record {
            distinct = insert-Distinct key v _ i.distinct;
            bounded = ground (arith, length-insert key v c.entries);
            positive = i.positive;
          })
        ]

  -- A `Set` of a new key in a full cache evicts a quarter of the entries, and at least one.
  pub length-set_full :
      (order : List Bytes) (c : Cache V) (key : Bytes) (v : V)
      → IsOrder order c
      → IsValid c
      → lookup key c.entries ≡ none
      → length c.entries ≡ c.max_size
      → length (set order c key v).entries + max (c.max_size / 4) 1 ≡ c.max_size + 1
  unfolding set
  length-set_full order c key v o i fresh full =
      let left = evicted order c (to_evict c) i o in
      let gone = lookup-delete_all (take (to_evict c) order) key c.entries fresh in
      ground (
        arith,
        i.positive,
        left.0,
        length-insert key v (delete_all (take (to_evict c) order) c.entries),
      )
