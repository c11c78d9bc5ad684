-- ===== src/Auth/Grants.antt =====
-- A claim that passes validation grants exactly the channels that the pattern grammar of the
-- engine and the relay gives it.
use gentis.Prelude.{
  ℕ, Bytes, bytes_Eq, bytes_eq, [], ◌∷◌, Bool, true, false, ◌&&◌, ◌≡◌, refl, ◌↔◌, arith, nat_eq,
  nat_eq_iff, length, none, some, is_empty, ◌⊎◌, inl, inr, Bool-cases, Option-cases, ap, subst, sym,
  ◌∙◌,
}
use gentis.Pattern.{star, match}
use gentis.Pattern.Spec.{Matches, done, byte, leave, take_one, byte_inv, byte_end}
use gentis.Pattern.Decides.{match_iff}
use gentis.Namespace.Name.{index_byte}
use gentis.Auth.Claims.{cut_star, match_pattern, valid_entry}

-- A star stands at the end only.
abbrev StarLast : Bytes → Type 0
StarLast [] = Unit
StarLast (c ∷ []) = Unit
StarLast (c ∷ d ∷ s) = (nat_eq c star ≡ false) × StarLast (d ∷ s)

index-StarLast :
    (c : ℕ) (s : Bytes)
    → (index_byte (c ∷ s) star ≡ none) ⊎ (index_byte (c ∷ s) star ≡ some (length s))
    → StarLast (c ∷ s)
unfolding index_byte
index-StarLast c [] h = tt
index-StarLast c (d ∷ s) h =
    (ground arith, index-StarLast d s (ground (arith, Option-cases (index_byte (d ∷ s) star))))

star-Matches : {c : ℕ} (s : Bytes) → c ≡ star → Matches (c ∷ []) s
star-Matches [] e = leave e done
star-Matches (d ∷ s) e = take_one e (star-Matches s e)

match_pattern-cons :
    (c x : ℕ) (p : Bytes) (d : ℕ) (s : Bytes)
    → match_pattern (c ∷ x ∷ p) (d ∷ s) ≡ (nat_eq c d && match_pattern (x ∷ p) s)
unfolding match_pattern
match_pattern-cons c x p d s = ground (arith, Option-cases (cut_star (x ∷ p)))

match_pattern-nil : (c x : ℕ) (p : Bytes) → match_pattern (c ∷ x ∷ p) [] ≡ false
unfolding match_pattern
match_pattern-nil c x p = ground (arith, Option-cases (cut_star (x ∷ p)))

match_pattern-star : (c : ℕ) (s : Bytes) → c ≡ star → match_pattern (c ∷ []) s ≡ true
unfolding match_pattern
match_pattern-star c s e = ground arith

match_pattern-byte :
    (c : ℕ) (s : Bytes) → nat_eq c star ≡ false → match_pattern (c ∷ []) s ≡ bytes_eq (c ∷ []) s
unfolding match_pattern
match_pattern-byte c s n = rw (n, match_pattern) refl

not_star : {c : ℕ} → nat_eq c star ≡ false → ¬ (c ≡ star)
not_star {c} h e = cc ((nat_eq_iff c star).1 e)

one_byte :
    (c : ℕ) (s : Bytes) → nat_eq c star ≡ false → (bytes_eq (c ∷ []) s ≡ true) ↔ Matches (c ∷ []) s
one_byte c [] n = (λ e. cc, λ m. absurd (byte_end (not_star n) m))
one_byte c (d ∷ []) n = (
  λ e.
      subst (λ x. Matches (c ∷ []) (x ∷ [])) ((nat_eq_iff c d).0 (ground arith))
        (byte (not_star n) done),
  λ m. ground (arith, byte_inv (not_star n) m),
)
one_byte c (d ∷ x ∷ s) n = (λ e. ground arith, λ m. elim (byte_inv (not_star n) m).1 [ ])

match_pattern-empty : (s : Bytes) → match_pattern [] s ≡ is_empty s
unfolding match_pattern
match_pattern-empty [] = refl
match_pattern-empty (d ∷ s) = refl

match_pattern-StarLast : (p s : Bytes) → StarLast p → (match_pattern p s ≡ true) ↔ Matches p s
match_pattern-StarLast [] [] h = (λ e. done, λ m. match_pattern-empty [])
match_pattern-StarLast [] (d ∷ s) h = (λ e. cc (match_pattern-empty (d ∷ s)), λ m. elim m [ ])
match_pattern-StarLast (c ∷ []) s h = elim (Bool-cases (nat_eq c star)) [
  | inl e ↦
      let is_star = (nat_eq_iff c star).0 e in
      (λ _. star-Matches s is_star, λ _. match_pattern-star c s is_star)
  | inr n ↦ rw (match_pattern-byte c s n) (one_byte c s n)
]
match_pattern-StarLast (c ∷ x ∷ p) [] h =
    rw (match_pattern-nil c x p) (λ e. cc, λ m. absurd (byte_end (not_star h.0) m))
match_pattern-StarLast (c ∷ x ∷ p) (d ∷ s) h =
    let (sound, complete) = match_pattern-StarLast (x ∷ p) s h.1 in
    let n : ¬ (c ≡ star) = not_star h.0 in
    rw (match_pattern-cons c x p d s) (
      λ e.
          let same : c ≡ d = (nat_eq_iff c d).0 (ground arith) in
          subst (λ y. Matches (c ∷ x ∷ p) (y ∷ s)) same (byte n (sound (ground arith))),
      λ m. let (same, tail) = byte_inv n m in ground (arith, complete tail),
    )

valid_entry-StarLast : (e : Bytes) → valid_entry e ≡ true → StarLast e
unfolding valid_entry
valid_entry-StarLast [] h = tt
valid_entry-StarLast (c ∷ s) h = index-StarLast c s (ground arith)

-- For a claim entry that passes validation, the literal or trailing-star test of the claims and
-- the pattern matcher of the engine and the relay give the same answer on every channel.
pub match_pattern-match :
    (entry channel : Bytes)
    → valid_entry entry ≡ true
    → match entry channel ≡ some (match_pattern entry channel)
match_pattern-match entry channel v =
    let (b, found, right) = match_iff entry channel in
    let (sound, complete) = match_pattern-StarLast entry channel (valid_entry-StarLast entry v) in
    found ∙ ap some (agree b right sound complete)
  where
    agree :
        (b : Bool)
        → (b ≡ true) ↔ Matches entry channel
        → (match_pattern entry channel ≡ true → Matches entry channel)
        → (Matches entry channel → match_pattern entry channel ≡ true)
        → b ≡ match_pattern entry channel
    agree true right sound complete = sym (complete (right.0 refl))
    agree false right sound complete = elim (Bool-cases (match_pattern entry channel)) [
      | inl e ↦ cc (right.1 (sound e))
      | inr e ↦ sym e
    ]
