-- ===== src/Pattern/Decides.antt =====
-- `Match` answers, and answers true exactly on the names that match the pattern.
use gentis.Prelude.{
  ℕ, zero, suc, ◌+◌, ◌*◌, ◌≤◌, ◌<◌, Bytes, [], ◌∷◌, ◌≡◌, refl, Option, none, some, Bool, true,
  false, arith, length, rest, nat_eq, subst, if_cases, nat_eq_iff, ◌⊎◌, inl, inr, Bool-cases, ◌↔◌,
}
use gentis.Pattern.{star, match}
use gentis.Pattern.Spec.{
  Matches, done, byte, leave, Later, here, skip, Later→Matches, Matches→Later, byte_inv, Later-byte,
  Later-nil, Later-star, Later-cases, Later-rest,
}
use gentis.Pattern.Suffix.{only_stars, suffix_loop, match_loop-suffix_loop}

only_stars→Matches : (p : Bytes) → only_stars p ≡ true → Matches p []
unfolding only_stars
only_stars→Matches [] h = done
only_stars→Matches (c ∷ p) h = leave (ground arith) (only_stars→Matches p (ground arith))

Matches→only_stars : (p : Bytes) → Matches p [] → only_stars p ≡ true
unfolding only_stars
Matches→only_stars [] m = refl
Matches→only_stars (c ∷ p) (leave e m) = ground (arith, Matches→only_stars p m)

-- What the saved star can still reach: `p` after the star, at a later place.
abbrev Again : Option (Bytes × Bytes) → Type 0
Again none = ⊥
Again (some (bp, bs)) = Later bp (rest bs)

-- The answer of a run: it is there, and it is right about `G`.
abbrev Answers : Type 0 → Option Bool → Type 0
Answers G none = ⊥
Answers G (some true) = G
Answers G (some false) = ¬ G

Answers-iff : (G H : Type 0) (r : Option Bool) → G ↔ H → Answers G r → Answers H r
Answers-iff G H none e a = a
Answers-iff G H (some true) e a = e.0 a
Answers-iff G H (some false) e a = λ h. a (e.1 h)

-- The saved text bounds the text that is left, and the saved pattern is shorter than `k`.
abbrev Bounded : ℕ → ℕ → Bytes → Option (Bytes × Bytes) → Type 0
Bounded k n s none = length s ≤ n
Bounded k n s (some (bp, bs)) = (length s ≤ length bs) × (length bs ≤ n) × (length bp < k)

-- After a mismatch the saved star takes one more byte.
retry_iff :
    (p s bp bs : Bytes)
    → ¬ Matches p s
    → (Matches bp (rest bs) ⊎ Later bp (rest (rest bs))) ↔ (Matches p s ⊎ Later bp (rest bs))
retry_iff p s bp bs miss = (forth, back)
  where
    forth : Matches bp (rest bs) ⊎ Later bp (rest (rest bs)) → Matches p s ⊎ Later bp (rest bs)
    forth (inl m) = inr (here m)
    forth (inr l) = inr (Later-rest (rest bs) l)

    back : Matches p s ⊎ Later bp (rest bs) → Matches bp (rest bs) ⊎ Later bp (rest (rest bs))
    back (inl m) = absurd (miss m)
    back (inr l) = Later-cases (rest bs) l

-- A new star forgets the old one, which could reach nothing more.
star_iff :
    (G : Type 0) {c d : ℕ} {p s : Bytes}
    → c ≡ star
    → (G → Later (c ∷ p) (d ∷ s))
    → (Matches p (d ∷ s) ⊎ Later p s) ↔ (Matches (c ∷ p) (d ∷ s) ⊎ G)
star_iff G {c} {d} {p} {s} e greedy = (forth, back)
  where
    forth : Matches p (d ∷ s) ⊎ Later p s → Matches (c ∷ p) (d ∷ s) ⊎ G
    forth (inl m) = inl (leave e m)
    forth (inr l) = inl (Later→Matches e (skip l))

    back : Matches (c ∷ p) (d ∷ s) ⊎ G → Matches p (d ∷ s) ⊎ Later p s
    back (inl m) = Later-cases (d ∷ s) (Matches→Later e m)
    back (inr g) = Later-cases (d ∷ s) (Later-star e (greedy g))

byte_iff :
    (G : Type 0) {c d : ℕ} {p s : Bytes}
    → ¬ (c ≡ star)
    → c ≡ d
    → (Matches p s ⊎ G) ↔ (Matches (c ∷ p) (d ∷ s) ⊎ G)
byte_iff G {c} {d} {p} {s} n e = (forth, back)
  where
    forth : Matches p s ⊎ G → Matches (c ∷ p) (d ∷ s) ⊎ G
    forth (inl m) = inl (subst (λ x. Matches (c ∷ p) (x ∷ s)) e (byte n m))
    forth (inr g) = inr g

    back : Matches (c ∷ p) (d ∷ s) ⊎ G → Matches p s ⊎ G
    back (inl m) = inl (byte_inv n m).1
    back (inr g) = inr g

nil-ne-cons : {d : ℕ} {s : Bytes} → ¬ Matches [] (d ∷ s)
nil-ne-cons m = elim m [ ]

module _ (k : ℕ) where
  Claim : ℕ → Type 0
  Claim f =
      (n : ℕ) (p s : Bytes) (back : Option (Bytes × Bytes))
      → (Again back → Later p s)
      → Bounded k n s back
      → length p < k
      → n * k + length p < f
      → Answers (Matches p s ⊎ Again back) (suffix_loop f p s back)

  retry-Answers :
      (f n : ℕ) (p : Bytes) (d : ℕ) (s : Bytes) (back : Option (Bytes × Bytes))
      → Claim f
      → Bounded k n (d ∷ s) back
      → n * k < suc f
      → ¬ Matches p (d ∷ s)
      → Answers (Matches p (d ∷ s) ⊎ Again back) (elim back [
        | none ↦ some false
        | some (bp, bs) ↦ suffix_loop f bp (rest bs) (some (bp, rest bs))
      ])
  unfolding Claim
  retry-Answers f n p d s none ih hb hf miss = λ g. elim g [ inl m ↦ miss m | inr a ↦ a ]
  retry-Answers f n p d s (some (bp, [])) ih hb hf miss = absurd (omega arith)
  retry-Answers f zero p d s (some (bp, x ∷ bs)) ih hb hf miss = absurd (omega arith)
  retry-Answers f (suc n) p d s (some (bp, x ∷ bs)) ih hb hf miss =
      Answers-iff _ _ (suffix_loop f bp bs (some (bp, bs))) (retry_iff p (d ∷ s) bp (x ∷ bs) miss)
        (ih n bp bs (some (bp, bs)) (Later-rest bs) (omega arith) (omega arith) (grind arith))

  suffix_loop-Answers : (f : ℕ) → Claim f
  unfolding suffix_loop Claim
  suffix_loop-Answers zero n p s back greedy hb hp hf = absurd (omega arith)
  suffix_loop-Answers (suc f) n p [] back greedy hb hp hf = elim (Bool-cases (only_stars p)) [
    | inl e ↦ rw e (inl (only_stars→Matches p e))
    | inr e ↦ rw e (λ g. elim g [
      | inl m ↦ cc (Matches→only_stars p m)
      | inr a ↦ cc (Matches→only_stars p (Later-nil (greedy a)))
    ])
  ]
  suffix_loop-Answers (suc f) n [] (d ∷ s) back greedy hb hp hf =
      retry-Answers f n [] d s back (suffix_loop-Answers f) hb (omega arith) nil-ne-cons
  suffix_loop-Answers (suc f) n (c ∷ p) (d ∷ s) back greedy hb hp hf =
      if_cases (Answers (Matches (c ∷ p) (d ∷ s) ⊎ Again back)) (nat_eq c star) _ _
        (λ e. Answers-iff _ _ _ (star_iff (Again back) ((nat_eq_iff c star).0 e) greedy) (
          suffix_loop-Answers f n p (d ∷ s) (some (p, d ∷ s)) skip (text_bound back hb)
            (omega arith) (omega arith)))
        (λ n_star.
          if_cases (Answers (Matches (c ∷ p) (d ∷ s) ⊎ Again back)) (nat_eq c d) _ _
            (λ e.
              Answers-iff _ _ _ (byte_iff (Again back) (not_star n_star) ((nat_eq_iff c d).0 e)) (
                suffix_loop-Answers f n p s back (λ g. Later-byte s (not_star n_star) (greedy g))
                  (byte_bound back hb) (omega arith) (omega arith)))
            (λ e.
              retry-Answers f n (c ∷ p) d s back (suffix_loop-Answers f) hb (omega arith)
                (λ m. cc ((nat_eq_iff c d).1 (byte_inv (not_star n_star) m).0))))
    where
      text_bound :
          (b : Option (Bytes × Bytes))
          → Bounded k n (d ∷ s) b
          → Bounded k n (d ∷ s) (some (p, d ∷ s))
      text_bound none h = (omega arith, omega arith, omega arith)
      text_bound (some (bp, bs)) h = (omega arith, omega arith, omega arith)

      byte_bound : (b : Option (Bytes × Bytes)) → Bounded k n (d ∷ s) b → Bounded k n s b
      byte_bound none h = omega arith
      byte_bound (some (bp, bs)) h = (omega arith, h.1, h.2)

      not_star : nat_eq c star ≡ false → ¬ (c ≡ star)
      not_star h e = cc ((nat_eq_iff c star).1 e)

match-Answers : (pattern name : Bytes) → Answers (Matches pattern name) (match pattern name)
unfolding match Claim
match-Answers pattern name =
    rw (match_loop-suffix_loop pattern name fuel 0 0 none (omega arith) tt) (
      Answers-iff _ _ _ only (
        suffix_loop-Answers (suc (length pattern)) fuel (length name) pattern name none
          (λ a. absurd a) (omega arith) (omega arith) (grind arith)))
  where
    fuel : ℕ
    fuel = suc (length name * suc (length pattern) + length pattern)

    only : (Matches pattern name ⊎ ⊥) ↔ Matches pattern name
    only = (λ g. elim g [ inl m ↦ m | inr a ↦ absurd a ], inl)

-- For every pattern and every name `Match` ends, and its answer is true exactly when the name
-- matches the pattern, a star standing for any run of bytes and each other byte for itself.
pub match_iff :
    (pattern name : Bytes)
    → (b : Bool) × (match pattern name ≡ some b) × ((b ≡ true) ↔ Matches pattern name)
match_iff pattern name = decide (match pattern name) refl (match-Answers pattern name)
  where
    decide :
        (r : Option Bool)
        → match pattern name ≡ r
        → Answers (Matches pattern name) r
        → (b : Bool) × (match pattern name ≡ some b) × ((b ≡ true) ↔ Matches pattern name)
    decide none e a = absurd a
    decide (some true) e a = (true, e, (λ h. a, λ m. refl))
    decide (some false) e a = (false, e, (λ h. cc, λ m. absurd (a m)))
