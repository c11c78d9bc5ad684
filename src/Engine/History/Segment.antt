-- ===== src/Engine/History/Segment.antt =====
-- The entries of a ring from an index on, going round its end.
use native.Mathlib.Nat.{mod-eq_of_lt, mod-eq-sub-mod}
use gentis.Prelude.{
  ℕ, zero, suc, ◌+◌, ◌-◌, ◌%◌, ◌<◌, ◌≤◌, ◌≡◌, refl, sym, ◌∙◌, ap, ap₂, List, [], ◌∷◌, ◌++◌, length,
  get_or, set, ltb, if◌then◌else◌, arith, Bool-cases, ◌⊎◌, inl, inr, get_or-set_ne, drop, take, min,
  drop-cons, append-nil,
}
use gentis.Engine.History.{Item, no_item, copy_round}

-- Up to twice the capacity a remainder is one subtraction.
pub mod_twice : (x n : ℕ) → x < n + n → x % n ≡ (if ltb x n then x else x - n)
mod_twice x n h = elim (Bool-cases (ltb x n)) [
  | inl lt ↦ rw lt (mod-eq_of_lt (ground arith))
  | inr ge ↦ rw ge (
      mod-eq-sub-mod {n = x} {m = n} (ground arith)
      ∙ mod-eq_of_lt {n = x - n} {m = n} (ground arith))
]

abbrev pub index : ℕ → ℕ → ℕ
index n t = if ltb t n then t else t - n

module _ (es : List Item) (n : ℕ) where
  -- The `k` entries from index `t` on, for `t + k` up to twice the capacity `n`.
  unfoldable pub segment : ℕ → ℕ → List Item
  segment t zero = []
  segment t (suc k) = get_or es (index n t) no_item ∷ segment (suc t) k

  pub length-segment : (t k : ℕ) → length (segment t k) ≡ k
  unfolding segment
  length-segment t zero = refl
  length-segment t (suc k) = ap suc (length-segment (suc t) k)

  pub segment-snoc :
      (t k : ℕ) → segment t (suc k) ≡ segment t k ++ (get_or es (index n (t + k)) no_item ∷ [])
  unfolding segment
  segment-snoc t zero = ap (λ i. get_or es (index n i) no_item ∷ []) (omega arith)
  segment-snoc t (suc k) = ap (◌∷◌ (get_or es (index n t) no_item)) (
      segment-snoc (suc t) k
      ∙ ap (λ i. segment (suc t) k ++ (get_or es (index n i) no_item ∷ [])) (omega arith))

  -- Once round the ring and no further is the same segment.
  pub segment-round : (t k : ℕ) → t + k ≤ n → segment (n + t) k ≡ segment t k
  unfolding segment
  segment-round t zero h = refl
  segment-round t (suc k) h =
      ap₂ (λ i l. get_or es i no_item ∷ l) same
        (ap (λ i. segment i k) (omega arith) ∙ segment-round (suc t) k (omega arith))
    where
      same : index n (n + t) ≡ index n t
      same = ground arith

  -- Any number of steps into a segment.
  pub drop-segment : (j t k : ℕ) → j ≤ k → drop j (segment t k) ≡ segment (t + j) (k - j)
  unfolding segment
  drop-segment zero t k h = ap₂ segment (omega arith) (omega arith)
  drop-segment (suc j) t zero h = absurd (omega arith)
  drop-segment (suc j) t (suc k) h =
      drop-segment j (suc t) k (omega arith) ∙ ap₂ segment (omega arith) (omega arith)

  pub take-segment : (j t k : ℕ) → j ≤ k → take j (segment t k) ≡ segment t j
  unfolding segment
  take-segment zero t k h = refl
  take-segment (suc j) t zero h = absurd (omega arith)
  take-segment (suc j) t (suc k) h =
      ap (◌∷◌ (get_or es (index n t) no_item)) (take-segment j (suc t) k (omega arith))

-- A write outside a segment leaves it.
pub segment-set :
    (es : List Item) (n p : ℕ) (x : Item) (t k : ℕ)
    → p < n
    → (t + k ≤ p) ⊎ ((p < t) × (t + k ≤ p + n))
    → segment (set es p x) n t k ≡ segment es n t k
unfolding segment
segment-set es n p x t zero hp e = refl
segment-set es n p x t (suc k) hp e =
    ap₂ ◌∷◌ (get_or-set_ne es p (index n t) x no_item (ground arith))
      (segment-set es n p x (suc t) k hp (ground arith))

-- A segment may start past the end of the ring.
pub segment-index :
    (es : List Item) (n t k : ℕ) → t + k ≤ n + n → segment es n (index n t) k ≡ segment es n t k
segment-index es n t k h = elim (Bool-cases (ltb t n)) [
  | inl inside ↦ rw inside
  | inr over ↦ rw over (
      sym (segment-round es n (t - n) k (ground arith)) ∙ ap (λ i. segment es n i k) (ground arith))
]

segment-append :
    (es : List Item) (n t a b : ℕ)
    → segment es n t (a + b) ≡ segment es n t a ++ segment es n (t + a) b
unfolding segment
segment-append es n t zero b = ap₂ (segment es n) (omega arith) (omega arith)
segment-append es n t (suc a) b =
    ap (segment es n t) split
    ∙ ap (◌∷◌ (get_or es (index n t) no_item)) (
        segment-append es n (suc t) a b
        ∙ ap (λ i. segment es n (suc t) a ++ segment es n i b) (omega arith))
  where
    split : suc a + b ≡ suc (a + b)
    split = omega arith

take-drop-segment :
    (es : List Item) (t k : ℕ) → t + k ≤ length es → take k (drop t es) ≡ segment es (length es) t k
unfolding segment
take-drop-segment es t zero h = refl
take-drop-segment es t (suc k) h = rw (drop-cons es t no_item (omega arith)) (
    ap₂ (λ i l. get_or es i no_item ∷ l) (ground arith)
      (take-drop-segment es (suc t) k (omega arith)))

-- The two copies of `replayN` make up the segment.
pub copy_round-segment :
    (es : List Item) (t k : ℕ)
    → t < length es
    → k ≤ length es
    → copy_round es t k ≡ segment es (length es) t k
copy_round-segment es t k ht hk = elim (Bool-cases (ltb (length es) (t + k))) [
  | inr fits ↦
      let one : min (t + k) (length es) - t ≡ k = ground arith in
      let none_left : k - k - 0 ≡ 0 = omega arith in
      rw (one, none_left) (append-nil _ ∙ take-drop-segment es t k (ground arith))
  | inl over ↦
      let a = length es - t in
      let b = k - a in
      let first : min (t + k) (length es) - t ≡ a = ground arith in
      let second : k - a - 0 ≡ b = omega arith in
      rw (first, second)
        (ap₂ ◌++◌ (take-drop-segment es t a (omega arith)) (wrapped a b (omega arith) (omega arith))
          ∙ sym (segment-append es (length es) t a b)
          ∙ ap (segment es (length es) t) (ground arith))
]
  where
    wrapped :
        (a b : ℕ) → t + a ≡ length es → b ≤ length es → take b es ≡ segment es (length es) (t + a) b
    wrapped a b ha hb =
        take-drop-segment es 0 b (omega arith)
        ∙ sym (segment-round es (length es) 0 b (omega arith))
        ∙ ap (λ i. segment es (length es) i b) (omega arith)
