-- ===== src/Pattern/Cache/Content.antt =====
-- What the cache answers after a `Set`: the new value, and else only what was there.
use gentis.Prelude.{
  Bytes, bytes_Eq, bytes_eq_iff, List, [], ◌∷◌, ◌≡◌, refl, ◌⊎◌, inl, none, some, true, arith,
  length, take, leb, lookup, delete, lookup-insert, lookup-insert_self, lookup-delete,
}
use gentis.Pattern.Cache.{Cache, get, set, delete_all, to_evict}

module _ {ℓ} {V : Type ℓ} where
  delete_all-keeps :
      (ks : List Bytes) (j : Bytes) (m : List (Bytes × V))
      → (lookup j (delete_all ks m) ≡ lookup j m) ⊎ (lookup j (delete_all ks m) ≡ none)
  unfolding delete_all
  delete_all-keeps [] j m = inl refl
  delete_all-keeps (k ∷ ks) j m =
      ground (arith, lookup-delete k j m, delete_all-keeps ks j (delete k m))

  -- After `Set` the key has the value given, also where the cache was full.
  pub get-set_self :
      (order : List Bytes) (c : Cache V) (key : Bytes) (v : V)
      → get (set order c key v) key ≡ some v
  unfolding set get
  get-set_self order c key v =
      let evicted = delete_all (take (to_evict c) order) c.entries in
      ground (arith, lookup-insert_self key v evicted, lookup-insert_self key v c.entries)

  -- After `Set` the key has the value given. Any other key has the value it had, or, after an
  -- eviction from a full cache, none.
  pub get-set :
      (order : List Bytes) (c : Cache V) (key j : Bytes) (v : V)
      → ¬ (key ≡ j)
      → (get (set order c key v) key ≡ some v)
        × ((get (set order c key v) j ≡ get c j)
            ⊎ ((get (set order c key v) j ≡ none) × (leb c.max_size (length c.entries) ≡ true)))
  unfolding set get
  get-set order c key j v other =
      let evicted = delete_all (take (to_evict c) order) c.entries in
      ground (
        arith,
        bytes_eq_iff key key,
        bytes_eq_iff key j,
        lookup-insert key key v evicted,
        lookup-insert key j v evicted,
        lookup-insert key key v c.entries,
        lookup-insert key j v c.entries,
        delete_all-keeps (take (to_evict c) order) j c.entries,
      )
