-- ===== src/Engine/Channel/Cohort.antt =====
-- The cached cohort is that of the best rank.
use gentis.Prelude.{
  ℕ, ℤ, ◌≤ℤ◌, ◌≤◌, ◌≡◌, ◌↔◌, refl, List, [], ◌∷◌, none, some, true, ◌||◌, if◌then◌else◌, nat_eq,
  nat_Eq, contains, All, arith, eq_of_parts, ltb_ℤ, sym, ap, subst, ◌∙◌, Option-cases, inl, inr,
  lookup, keys, Distinct, contains-keys,
}
use gentis.Engine.Channel.{best_of, with_rank, put_sorted, sort, cohort}

contains-put_sorted :
    (x j : ℕ) (xs : List ℕ) → contains (put_sorted x xs) j ≡ (nat_eq x j || contains xs j)
unfolding put_sorted
contains-put_sorted x j [] = refl
contains-put_sorted x j (y ∷ ys) = ground (arith, contains-put_sorted x j ys)

contains-sort : (xs : List ℕ) (j : ℕ) → contains (sort xs) j ≡ contains xs j
unfolding sort
contains-sort [] j = refl
contains-sort (x ∷ xs) j = ground (arith, contains-put_sorted x j (sort xs), contains-sort xs j)

-- Each element is at most the next.
abbrev pub IsSorted : List ℕ → Type 0
IsSorted [] = Unit
IsSorted (x ∷ xs) = All (λ y. x ≤ y) xs × IsSorted xs

All-le : (x y : ℕ) (xs : List ℕ) → x ≤ y → All (λ z. y ≤ z) xs → All (λ z. x ≤ z) xs
All-le x y [] h a = tt
All-le x y (z ∷ zs) h a = (omega (arith, a.0), All-le x y zs h a.1)

put_sorted-All :
    (w x : ℕ) (xs : List ℕ) → w ≤ x → All (λ z. w ≤ z) xs → All (λ z. w ≤ z) (put_sorted x xs)
unfolding put_sorted
put_sorted-All w x [] h a = (h, tt)
put_sorted-All w x (y ∷ ys) h a = ground (arith, put_sorted-All w x ys)

put_sorted-IsSorted : (x : ℕ) (xs : List ℕ) → IsSorted xs → IsSorted (put_sorted x xs)
unfolding put_sorted
put_sorted-IsSorted x [] s = (tt, tt)
put_sorted-IsSorted x (y ∷ ys) s =
    ground (arith, put_sorted-IsSorted x ys, put_sorted-All y x ys, All-le x y ys)

sort-IsSorted : (xs : List ℕ) → IsSorted (sort xs)
unfolding sort
sort-IsSorted [] = tt
sort-IsSorted (x ∷ xs) = put_sorted-IsSorted x (sort xs) (sort-IsSorted xs)

-- No rank is above `q`.
abbrev pub AtMost : ℤ → List (ℕ × ℤ) → Type 0
AtMost q [] = Unit
AtMost q ((id, p) ∷ m) = (p ≤ℤ q) × AtMost q m

AtMost-le : (p q : ℤ) (m : List (ℕ × ℤ)) → p ≤ℤ q → AtMost p m → AtMost q m
AtMost-le p q [] h a = tt
AtMost-le p q ((id, r) ∷ m) h a = (omega (arith, a.0), AtMost-le p q m h a.1)

best_of-upper :
    (b best : ℤ) (m : List (ℕ × ℤ)) → best_of (some b) m ≡ some best → (b ≤ℤ best) × AtMost best m
unfolding best_of
best_of-upper b best [] h = ground arith
best_of-upper b best ((id, p) ∷ m) h =
    let more = best_of-upper (if ltb_ℤ b p then p else b) best m h in ground arith

best_of-least :
    (b best q : ℤ) (m : List (ℕ × ℤ))
    → best_of (some b) m ≡ some best
    → b ≤ℤ q
    → AtMost q m
    → best ≤ℤ q
unfolding best_of
best_of-least b best q [] h l a = ground arith
best_of-least b best q ((id, p) ∷ m) h l a =
    best_of-least (if ltb_ℤ b p then p else b) best q m h (ground arith) a.1

contains-with_rank :
    (best : ℤ) (m : List (ℕ × ℤ)) (j : ℕ)
    → Distinct (keys m)
    → (contains (with_rank best m) j ≡ true) ↔ (lookup j m ≡ some best)
unfolding with_rank lookup
contains-with_rank best [] j d = ground arith
contains-with_rank best ((id, p) ∷ m) j d =
    ground (arith, contains-with_rank best m j d.1, contains-keys j m, eq_of_parts p best)

-- Ranked `p`, and no other rank is above.
pub record IsTop (m : List (ℕ × ℤ)) (j : ℕ) : Type 0 where
  pub rank : ℤ
  pub ranked : lookup j m ≡ some rank
  pub highest : AtMost rank m

best_of-found : (b : ℤ) (m : List (ℕ × ℤ)) → ¬ (best_of (some b) m ≡ none)
unfolding best_of
best_of-found b [] h = cc
best_of-found b ((id, p) ∷ m) h = best_of-found (if ltb_ℤ b p then p else b) m h

pub AtMost-lookup : (q p : ℤ) (j : ℕ) (m : List (ℕ × ℤ)) → AtMost q m → lookup j m ≡ some p → p ≤ℤ q
unfolding lookup
AtMost-lookup q p j [] a h = cc
AtMost-lookup q p j ((id, r) ∷ m) a h = ground (arith, AtMost-lookup q p j m a.1)

best_of-bounds :
    (id : ℕ) (p best : ℤ) (m : List (ℕ × ℤ))
    → best_of none ((id, p) ∷ m) ≡ some best
    → AtMost best ((id, p) ∷ m)
unfolding best_of
best_of-bounds id p best m h = best_of-upper p best m h

-- The cached cohort lists exactly the subscribers of the highest rank, in ascending order.
pub cohort_lem :
    (m : List (ℕ × ℤ)) (j : ℕ)
    → Distinct (keys m)
    → IsSorted (cohort m) × ((contains (cohort m) j ≡ true) ↔ IsTop m j)
unfolding cohort best_of lookup
cohort_lem [] j d = ground arith
cohort_lem ((id, p) ∷ m) j d = elim (Option-cases (best_of (some p) m)) [
  | inl e ↦ absurd (best_of-found p m e)
  | inr (best, e) ↦
      let whole : List (ℕ × ℤ) = (id, p) ∷ m in
      let same = contains-sort (with_rank best whole) j in
      let (sound, complete) = contains-with_rank best whole j d in
      let bounds = best_of-bounds id p best m e in
      let found : cohort whole ≡ sort (with_rank best whole) = ground arith in
      subst (λ xs. IsSorted xs × ((contains xs j ≡ true) ↔ IsTop whole j)) (sym found)
        (
          sort-IsSorted (with_rank best whole),
          (
            λ h. record { rank = best; ranked = sound (sym same ∙ h); highest = bounds },
            λ t.
                let below = AtMost-lookup best t.rank j whole bounds t.ranked in
                let above = best_of-least p best t.rank m e t.highest.0 t.highest.1 in
                let equal : t.rank ≡ best = eq_of_parts t.rank best (omega arith) in
                same ∙ complete (t.ranked ∙ ap some equal),
          ),
        )
]
