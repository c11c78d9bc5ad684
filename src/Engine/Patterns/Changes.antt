-- ===== src/Engine/Patterns/Changes.antt =====
-- What the changes of the registry do to the relation between subscribers and patterns.
use gentis.Prelude.{
  ℕ, nat_Eq, nat_eq, Bytes, bytes_Eq, bytes_eq_iff, List, [], ◌∷◌, Bool, not, ◌&&◌, ◌||◌,
  if◌then◌else◌, ◌==◌, ◌≡◌, refl, sym, arith, contains, contains-delete_first,
  delete_first-Distinct, Distinct, delete_first, subst, if_cases, length, ltb,
}
use gentis.Engine.Patterns.{
  Registry, ids_of, pats_of, put_back, add, remove, remove_one, remove_each, remove_all,
  publish_entry, publish_all, swap,
}
use gentis.Engine.Patterns.Tables.{
  on, IsValid, slice-put_back, put_back-Distinct, publish-IsValid, on-with_both, with_both,
  with_both-IsValid,
}

pub remove_one-found : (p : Registry) (id : ℕ) (pat : Bytes) → (remove_one p id pat).1 ≡ on p id pat
unfolding remove_one
remove_one-found p id pat = ground arith

-- The registry without one subscription that both tables have.
abbrev pub without : Registry → ℕ → Bytes → Registry
without p id pat = record p {
  subs = put_back pat (delete_first (ids_of p pat) id) p.subs;
  by_id = put_back id (delete_first (pats_of p id) pat) p.by_id;
}

pub remove_one-without :
    (p : Registry) (id : ℕ) (pat : Bytes)
    → IsValid p
    → (remove_one p id pat).0 ≡ (if on p id pat then without p id pat else p)
unfolding remove_one
remove_one-without p id pat v = ground (arith, v.agree id pat)

on-without :
    (p : Registry) (id j : ℕ) (pat q : Bytes)
    → IsValid p
    → on (without p id pat) j q ≡ (on p j q && not (nat_eq id j && pat == q))
on-without p id j pat q v = ground (
  arith,
  slice-put_back pat q (delete_first (ids_of p pat) id) p.subs,
  contains-delete_first (ids_of p pat) id j (v.ids_once pat),
  bytes_eq_iff pat q,
)

without-IsValid : (p : Registry) (id : ℕ) (pat : Bytes) → IsValid p → IsValid (without p id pat)
without-IsValid p id pat v = record {
  keys_once = put_back-Distinct pat (delete_first (ids_of p pat) id) p.subs v.keys_once;
  ids_once = λ q.
      let fewer = delete_first-Distinct (ids_of p pat) id (v.ids_once pat) in
      subst Distinct (sym (slice-put_back pat q (delete_first (ids_of p pat) id) p.subs))
        (if_cases Distinct (pat == q) _ _ (λ _. fewer) (λ _. v.ids_once q));
  pats_once = λ j.
      let fewer = delete_first-Distinct (pats_of p id) pat (v.pats_once id) in
      subst Distinct (sym (slice-put_back id j (delete_first (pats_of p id) pat) p.by_id))
        (if_cases Distinct (nat_eq id j) _ _ (λ _. fewer) (λ _. v.pats_once j));
  agree = λ j q. ground (
    arith,
    v.agree j q,
    on-without p id j pat q v,
    slice-put_back id j (delete_first (pats_of p id) pat) p.by_id,
    contains-delete_first (pats_of p id) pat q (v.pats_once id),
    bytes_eq_iff pat q,
  );
}

pub remove_one-IsValid :
    (p : Registry) (id : ℕ) (pat : Bytes) → IsValid p → IsValid (remove_one p id pat).0
remove_one-IsValid p id pat v =
    subst IsValid (sym (remove_one-without p id pat v))
      (if_cases IsValid (on p id pat) _ _ (λ _. without-IsValid p id pat v) (λ _. v))

pub on-remove_one :
    (p : Registry) (id j : ℕ) (pat q : Bytes)
    → IsValid p
    → on (remove_one p id pat).0 j q ≡ (on p j q && not (nat_eq id j && pat == q))
on-remove_one p id j pat q v = rw (remove_one-without p id pat v) (
    if_cases (λ r. on r j q ≡ (on p j q && not (nat_eq id j && pat == q))) (on p id pat) _ _
      (λ _. on-without p id j pat q v) (λ absent. ground (arith, bytes_eq_iff pat q)))

pub remove_each-IsValid :
    (p : Registry) (id : ℕ) (pats : List Bytes) → IsValid p → IsValid (remove_each p id pats)
unfolding remove_each
remove_each-IsValid p id [] v = v
remove_each-IsValid p id (pat ∷ pats) v =
    remove_each-IsValid (remove_one p id pat).0 id pats (remove_one-IsValid p id pat v)

on-remove_each :
    (p : Registry) (id j : ℕ) (pats : List Bytes) (q : Bytes)
    → IsValid p
    → on (remove_each p id pats) j q ≡ (on p j q && not (nat_eq id j && contains pats q))
unfolding remove_each
on-remove_each p id j [] q v = ground arith
on-remove_each p id j (pat ∷ pats) q v = ground (
  arith,
  on-remove_each (remove_one p id pat).0 id j pats q (remove_one-IsValid p id pat v),
  on-remove_one p id j pat q v,
)

-- `add` reports whether the subscription is new, and afterwards that one is there besides those that
-- were.
pub on-add :
    (p : Registry) (id j : ℕ) (pat q : Bytes)
    → ((add p id pat).1 ≡ not (on p id pat))
      × (on (add p id pat).0 j q ≡ (on p j q || (nat_eq id j && pat == q)))
unfolding add publish_entry swap
on-add p id j pat q = ground (arith, on-with_both p id j pat q, bytes_eq_iff pat q)

-- `remove` reports whether the subscription was there, and afterwards those that were are there but
-- for that one.
pub on-remove :
    (p : Registry) (id j : ℕ) (pat q : Bytes)
    → IsValid p
    → ((remove p id pat).1 ≡ on p id pat)
      × (on (remove p id pat).0 j q ≡ (on p j q && not (nat_eq id j && pat == q)))
unfolding remove publish_entry swap
on-remove p id j pat q v =
    ground (arith, on-remove_one p id j pat q v, remove_one-found p id pat, bytes_eq_iff pat q)

-- After `removeAll` the subscriptions of one subscriber are gone, and no other.
pub on-remove_all :
    (p : Registry) (id j : ℕ) (q : Bytes)
    → IsValid p
    → on (remove_all p id).0 j q ≡ (on p j q && not (nat_eq id j))
unfolding remove_all publish_all swap
on-remove_all p id j q v = ground (arith, on-remove_each p id j (pats_of p id) q v, v.agree id q)

pub add-IsValid : (p : Registry) (id : ℕ) (pat : Bytes) → IsValid p → IsValid (add p id pat).0
unfolding add publish_entry swap
add-IsValid p id pat v =
    if_cases (λ (r : Registry × Bool). IsValid r.0) (on p id pat) _ _ (λ _. v)
      (λ new. publish-IsValid (with_both p id pat) _ refl refl (with_both-IsValid p id pat new v))

pub remove-IsValid : (p : Registry) (id : ℕ) (pat : Bytes) → IsValid p → IsValid (remove p id pat).0
unfolding remove publish_entry swap
remove-IsValid p id pat v =
    if_cases (λ (r : Registry × Bool). IsValid r.0) (not (remove_one p id pat).1) _ _ (λ _. v)
      (λ _. publish-IsValid (remove_one p id pat).0 _ refl refl (remove_one-IsValid p id pat v))

pub remove_all-IsValid : (p : Registry) (id : ℕ) → IsValid p → IsValid (remove_all p id).0
unfolding remove_all publish_all swap
remove_all-IsValid p id v =
    let left = remove_each-IsValid p id (pats_of p id) v in
    if_cases IsValid (ltb 0 (length (pats_of p id))) _ _
      (λ _. publish-IsValid (remove_each p id (pats_of p id)) _ refl refl left) (λ _. left)
