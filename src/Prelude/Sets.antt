-- ===== src/Prelude/Sets.antt =====
-- Lists without repetition as sets, and writes in a list of shards.
use Prim.Native.Nat.{ℕ, ◌<◌}
use mathlib.Core.Path.{◌≡◌, refl}
use mathlib.Core.List.{List, [], ◌∷◌, ◌++◌}
use mathlib.Core.Bool.{true, false, not, ◌&&◌}
use native.Mathlib.Omega.{arith}
use gentis.Prelude.Tests.{if◌then◌else◌, HasEq, ◌==◌, nat_eq, eq_refl}
use gentis.Prelude.Lists.{
  length, get_or, set, contains, delete_first, Distinct, is_empty, contains-append, get_or-set_self,
  get_or-set_ne,
}

module _ {ℓ} {A : Type ℓ} ⦃e : HasEq A⦄ where
  pub append-Distinct :
      (xs : List A) (a : A) → contains xs a ≡ false → Distinct xs → Distinct (xs ++ (a ∷ []))
  append-Distinct [] a h d = (refl, tt)
  append-Distinct (x ∷ xs) a h d =
      ground (
        arith,
        append-Distinct xs a,
        contains-append xs (a ∷ []) x,
        e.equal_iff a x,
        e.equal_iff x a,
      )

  pub contains-delete_first :
      (xs : List A) (a b : A)
      → Distinct xs
      → contains (delete_first xs a) b ≡ (contains xs b && not (a == b))
  contains-delete_first [] a b d = refl
  contains-delete_first (x ∷ xs) a b d =
      ground
        (arith, contains-delete_first xs a b d.1, e.equal_iff x a, e.equal_iff a b, e.equal_iff x b)

  pub delete_first-Distinct : (xs : List A) (a : A) → Distinct xs → Distinct (delete_first xs a)
  delete_first-Distinct [] a d = d
  delete_first-Distinct (x ∷ xs) a d =
      ground (arith, delete_first-Distinct xs a d.1, contains-delete_first xs a x d.1)

  pub contains-nothing : (xs : List A) (a : A) → is_empty xs ≡ true → contains xs a ≡ false
  contains-nothing [] a h = refl
  contains-nothing (x ∷ xs) a h = cc

  -- What holds of all members of two lists that have the same ones.
  pub contains-is_empty : (xs : List A) → ((a : A) → contains xs a ≡ false) → is_empty xs ≡ true
  contains-is_empty [] h = refl
  contains-is_empty (x ∷ xs) h = ground (arith, h x, eq_refl x)

-- A write in a list of shards, seen from any index.
module _ {A : Type 0} where
  pub get_or-set_if :
      (xs : List A) (i j : ℕ) (v d : A)
      → i < length xs
      → get_or (set xs i v) j d ≡ (if nat_eq i j then v else get_or xs j d)
  get_or-set_if xs i j v d h = ground (arith, get_or-set_self xs i v d, get_or-set_ne xs i j v d)
