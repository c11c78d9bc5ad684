-- ===== src/Engine/Patterns/Tables.antt =====
-- The two tables of the registry, by pattern and by subscriber, say the same.
use gentis.Prelude.{
  ℕ, nat_Eq, nat_eq, HasEq, Bytes, bytes_Eq, bytes_eq_iff, List, [], ◌∷◌, ◌++◌, Bool, false, ◌&&◌,
  ◌||◌, if◌then◌else◌, ◌==◌, ◌≡◌, refl, sym, ◌∙◌, arith, contains, contains-append, append-Distinct,
  Distinct, lookup, insert, lookup-insert, lookup-delete, keys, insert-Distinct, delete-Distinct,
  subst, if_cases,
}
use gentis.Engine.Patterns.{Registry, new_registry, ids_of, pats_of, slice_of, put_back}

-- Whether a subscriber is on a pattern.
abbrev pub on : Registry → ℕ → Bytes → Bool
on p id pat = contains (ids_of p pat) id

pub record IsValid (p : Registry) : Type 0 where
  pub keys_once : Distinct (keys p.subs)
  pub ids_once : (pat : Bytes) → Distinct (ids_of p pat)
  pub pats_once : (id : ℕ) → Distinct (pats_of p id)
  pub agree : (id : ℕ) (pat : Bytes) → contains (pats_of p id) pat ≡ on p id pat

module _ {ℓ κ} {K : Type ℓ} {A : Type κ} ⦃e : HasEq K⦄ where
  slice-insert :
      (k j : K) (xs : List A) (m : List (K × List A))
      → slice_of (lookup j (insert k xs m)) ≡ (if k == j then xs else slice_of (lookup j m))
  slice-insert k j xs m = ground (arith, lookup-insert k j xs m)

  pub slice-put_back :
      (k j : K) (xs : List A) (m : List (K × List A))
      → slice_of (lookup j (put_back k xs m)) ≡ (if k == j then xs else slice_of (lookup j m))
  slice-put_back k j [] m = ground (arith, lookup-delete k j m)
  slice-put_back k j (x ∷ xs) m = slice-insert k j (x ∷ xs) m

  pub put_back-Distinct :
      (k : K) (xs : List A) (m : List (K × List A))
      → Distinct (keys m)
      → Distinct (keys (put_back k xs m))
  put_back-Distinct k [] m d = delete-Distinct k m d
  put_back-Distinct k (x ∷ xs) m d = insert-Distinct k (x ∷ xs) m d

-- Publishing a snapshot leaves the tables alone.
pub publish-IsValid : (p q : Registry) → q.subs ≡ p.subs → q.by_id ≡ p.by_id → IsValid p → IsValid q
publish-IsValid p q s b v = record {
  keys_once = subst (λ m. Distinct (keys m)) (sym s) v.keys_once;
  ids_once = λ pat. subst (λ m. Distinct (slice_of (lookup pat m))) (sym s) (v.ids_once pat);
  pats_once = λ id. subst (λ m. Distinct (slice_of (lookup id m))) (sym b) (v.pats_once id);
  agree = λ id pat. rw (s, b) (v.agree id pat);
}

pub new_registry-IsValid : (scoped : Bool) → IsValid (new_registry scoped)
unfolding new_registry lookup
new_registry-IsValid scoped = record {
  keys_once = tt;
  ids_once = λ pat. tt;
  pats_once = λ id. tt;
  agree = λ id pat. refl;
}

-- The tables after a subscription has gone into both.
abbrev pub with_both : Registry → ℕ → Bytes → Registry
with_both p id pat = record p {
  subs = insert pat (ids_of p pat ++ (id ∷ [])) p.subs;
  by_id = insert id (pats_of p id ++ (pat ∷ [])) p.by_id;
}

pub on-with_both :
    (p : Registry) (id j : ℕ) (pat q : Bytes)
    → on (with_both p id pat) j q ≡ (on p j q || (nat_eq id j && pat == q))
on-with_both p id j pat q = ground (
  arith,
  slice-insert pat q (ids_of p pat ++ (id ∷ [])) p.subs,
  contains-append (ids_of p pat) (id ∷ []) j,
  bytes_eq_iff pat q,
)

pub with_both-IsValid :
    (p : Registry) (id : ℕ) (pat : Bytes)
    → on p id pat ≡ false
    → IsValid p
    → IsValid (with_both p id pat)
with_both-IsValid p id pat new v = record {
  keys_once = insert-Distinct pat (ids_of p pat ++ (id ∷ [])) p.subs v.keys_once;
  ids_once = λ q.
      let wider = append-Distinct (ids_of p pat) id new (v.ids_once pat) in
      subst Distinct (sym (slice-insert pat q (ids_of p pat ++ (id ∷ [])) p.subs))
        (if_cases Distinct (pat == q) _ _ (λ _. wider) (λ _. v.ids_once q));
  pats_once = λ j.
      let wider = append-Distinct (pats_of p id) pat (v.agree id pat ∙ new) (v.pats_once id) in
      subst Distinct (sym (slice-insert id j (pats_of p id ++ (pat ∷ [])) p.by_id))
        (if_cases Distinct (nat_eq id j) _ _ (λ _. wider) (λ _. v.pats_once j));
  agree = λ j q. ground (
    arith,
    v.agree j q,
    on-with_both p id j pat q,
    slice-insert id j (pats_of p id ++ (pat ∷ [])) p.by_id,
    contains-append (pats_of p id) (pat ∷ []) q,
    bytes_eq_iff pat q,
  );
}
