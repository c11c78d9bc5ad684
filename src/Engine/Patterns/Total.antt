-- ===== src/Engine/Patterns/Total.antt =====
-- How many subscriptions to patterns there are.
use gentis.Prelude.{
  ℕ, ◌+◌, ◌≡◌, refl, sym, ◌∙◌, Bytes, bytes_Eq, bytes_eq_iff, nat_Eq, List, [], ◌∷◌, ◌++◌, true,
  false, if◌then◌else◌, length, length-append, contains, delete_first, Distinct, lookup, insert,
  delete, delete-absent, keys, arith,
}
use gentis.Engine.Patterns.{
  Registry, ids_of, pats_of, slice_of, put_back, add, remove, remove_one, remove_each, remove_all,
  publish_entry, publish_all, swap,
}
use gentis.Engine.Patterns.Tables.{on, IsValid}
use gentis.Engine.Patterns.Changes.{
  remove_one-IsValid, remove_one-found, remove_one-without, on-remove_one,
}

abbrev pub total : List (Bytes × List ℕ) → ℕ
total [] = 0
total ((pat, ids) ∷ m) = length ids + total m

total-insert :
    (k : Bytes) (xs : List ℕ) (m : List (Bytes × List ℕ))
    → total (insert k xs m) + length (slice_of (lookup k m)) ≡ total m + length xs
unfolding insert lookup
total-insert k xs [] = omega arith
total-insert k xs ((pat, ids) ∷ m) = ground (arith, total-insert k xs m)

total-delete :
    (k : Bytes) (m : List (Bytes × List ℕ))
    → Distinct (keys m)
    → total (delete k m) + length (slice_of (lookup k m)) ≡ total m
unfolding delete lookup
total-delete k [] d = refl
total-delete k ((pat, ids) ∷ m) d =
    ground (arith, total-delete k m d.1, delete-absent pat m d.0, bytes_eq_iff pat k)

total-put_back :
    (k : Bytes) (xs : List ℕ) (m : List (Bytes × List ℕ))
    → Distinct (keys m)
    → total (put_back k xs m) + length (slice_of (lookup k m)) ≡ total m + length xs
total-put_back k [] m d = let e = total-delete k m d in omega (arith, e)
total-put_back k (x ∷ xs) m d = total-insert k (x ∷ xs) m

length-delete_first :
    (xs : List ℕ) (a : ℕ) → contains xs a ≡ true → length (delete_first xs a) + 1 ≡ length xs
length-delete_first [] a h = absurd (ground arith)
length-delete_first (x ∷ xs) a h = ground (arith, length-delete_first xs a)

-- Nobody is on a pattern where the total is 0.
nobody_in : (xs : List ℕ) (id : ℕ) → length xs ≡ 0 → contains xs id ≡ false
nobody_in [] id h = refl
nobody_in (x ∷ xs) id h = absurd (omega arith)

total-nobody :
    (m : List (Bytes × List ℕ)) (id : ℕ) (pat : Bytes)
    → total m ≡ 0
    → contains (slice_of (lookup pat m)) id ≡ false
unfolding lookup
total-nobody [] id pat h = refl
total-nobody ((q, ids) ∷ m) id pat h = ground (arith, total-nobody m id pat, nobody_in ids id)

pub total-zero : (p : Registry) (id : ℕ) (pat : Bytes) → total p.subs ≡ 0 → on p id pat ≡ false
total-zero p id pat h = total-nobody p.subs id pat h

pub total-add :
    (p : Registry) (id : ℕ) (pat : Bytes)
    → total (add p id pat).0.subs ≡ (if (add p id pat).1 then total p.subs + 1 else total p.subs)
unfolding add publish_entry swap
total-add p id pat = ground (
  arith,
  total-insert pat (ids_of p pat ++ (id ∷ [])) p.subs,
  length-append (ids_of p pat) (id ∷ []),
)

total-remove_one :
    (p : Registry) (id : ℕ) (pat : Bytes)
    → IsValid p
    → on p id pat ≡ true
    → total (remove_one p id pat).0.subs + 1 ≡ total p.subs
total-remove_one p id pat v there =
    rw (remove_one-without p id pat v, there)
      (ground (
        arith,
        total-put_back pat (delete_first (ids_of p pat) id) p.subs v.keys_once,
        length-delete_first (ids_of p pat) id there,
      ))

pub total-remove :
    (p : Registry) (id : ℕ) (pat : Bytes)
    → IsValid p
    → (if (remove p id pat).1
        then total (remove p id pat).0.subs + 1
        else total (remove p id pat).0.subs)
      ≡ total p.subs
unfolding remove publish_entry swap
total-remove p id pat v = ground (arith, remove_one-found p id pat, total-remove_one p id pat v)

total-remove_each :
    (p : Registry) (id : ℕ) (pats : List Bytes)
    → IsValid p
    → Distinct pats
    → ((q : Bytes) → contains pats q ≡ true → on p id q ≡ true)
    → total (remove_each p id pats).subs + length pats ≡ total p.subs
unfolding remove_each
total-remove_each p id [] v d h = omega arith
total-remove_each p id (pat ∷ pats) v d h =
    let there : on p id pat ≡ true = h pat (ground (arith, bytes_eq_iff pat pat)) in
    let one = total-remove_one p id pat v there in
    let others =
      total-remove_each (remove_one p id pat).0 id pats (remove_one-IsValid p id pat v) d.1
        (λ q i. ground (arith, on-remove_one p id id pat q v, h q, d.0, bytes_eq_iff pat q)) in
    omega (arith, one, others)

pub total-remove_all :
    (p : Registry) (id : ℕ)
    → IsValid p
    → total (remove_all p id).0.subs + (remove_all p id).1 ≡ total p.subs
unfolding remove_all publish_all swap
total-remove_all p id v =
    let e =
      total-remove_each p id (pats_of p id) v (v.pats_once id) (λ q i. sym (v.agree id q) ∙ i) in
    ground (arith, e)
