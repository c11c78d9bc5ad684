-- ===== src/Pattern/Suffix.antt =====
-- `Match` over the suffixes that its indices point to, and that both runs agree.
use gentis.Prelude.{
  ℕ, zero, suc, ◌+◌, ◌≤◌, ◌<◌, Bytes, [], ◌∷◌, ◌≡◌, refl, Option, none, some, Bool, true, false,
  arith, ◌&&◌, if◌then◌else◌, length, drop, rest, ltb, nat_eq, drop-cons, drop-nil, drop-rest, inl,
  inr, Bool-cases,
}
use gentis.Pattern.{star, skip_stars, match_loop}

unfoldable pub only_stars : Bytes → Bool
only_stars [] = true
only_stars (c ∷ p) = nat_eq c star && only_stars p

unfoldable pub suffix_loop : ℕ → Bytes → Bytes → Option (Bytes × Bytes) → Option Bool
suffix_loop zero p s back = none
suffix_loop (suc f) p [] back = some (only_stars p)
suffix_loop (suc f) [] (d ∷ s) back = elim back [
  | none ↦ some false
  | some (bp, bs) ↦ suffix_loop f bp (rest bs) (some (bp, rest bs))
]
suffix_loop (suc f) (c ∷ p) (d ∷ s) back =
    let at_star = suffix_loop f p (d ∷ s) (some (p, d ∷ s)) in
    let at_byte = suffix_loop f p s back in
    let retry : Option Bool = elim back [
      | none ↦ some false
      | some (bp, bs) ↦ suffix_loop f bp (rest bs) (some (bp, rest bs))
    ] in
    if nat_eq c star then at_star else if nat_eq c d then at_byte else retry

-- The suffixes that a saved star position stands for.
abbrev pub saved : Bytes → Bytes → Option (ℕ × ℕ) → Option (Bytes × Bytes)
saved pattern name none = none
saved pattern name (some (s, m)) = some (drop (suc s) pattern, drop m name)

module _ (pattern : Bytes) where
  skip_stars-only_stars :
      (rounds i : ℕ)
      → length pattern ≤ i + rounds
      → i ≤ length pattern
      → nat_eq (skip_stars rounds pattern i) (length pattern) ≡ only_stars (drop i pattern)
  unfolding skip_stars only_stars
  skip_stars-only_stars zero i hr hi = rw (drop-nil pattern i (omega arith)) (ground arith)
  skip_stars-only_stars (suc rounds) i hr hi = elim (Bool-cases (ltb i (length pattern))) [
    | inl lt ↦
        rw (drop-cons pattern i 0 (ground arith))
          (ground (arith, skip_stars-only_stars rounds (suc i)))
    | inr ge ↦ rw (drop-nil pattern i (ground arith)) (ground arith)
  ]

  -- A saved star lies inside the pattern.
  abbrev pub InPattern : Option (ℕ × ℕ) → Type 0
  InPattern none = Unit
  InPattern (some (s, m)) = s < length pattern

  module _ (name : Bytes) where
    -- The two runs agree, round by round.
    pub match_loop-suffix_loop :
        (f i j : ℕ) (back : Option (ℕ × ℕ))
        → i ≤ length pattern
        → InPattern back
        → match_loop f pattern name i j back
          ≡ suffix_loop f (drop i pattern) (drop j name) (saved pattern name back)
    unfolding match_loop suffix_loop
    match_loop-suffix_loop zero i j back hi hb = refl
    match_loop-suffix_loop (suc f) i j none hi hb = elim (Bool-cases (ltb j (length name))) [
      | inl lj ↦ elim (Bool-cases (ltb i (length pattern))) [
        | inl li ↦
            let ej = drop-cons name j 0 (ground arith) in
            let ei = drop-cons pattern i 0 (ground arith) in
            ground (
              arith,
              match_loop-suffix_loop f (suc i) j (some (i, j)),
              match_loop-suffix_loop f (suc i) (suc j) none,
            )
        | inr gi ↦
            let ej = drop-cons name j 0 (ground arith) in
            let ei = drop-nil pattern i (ground arith) in ground arith
      ]
      | inr gj ↦
          let ej = drop-nil name j (ground arith) in
          ground (arith, skip_stars-only_stars (length pattern) i)
    ]
    match_loop-suffix_loop (suc f) i j (some (s, m)) hi hb =
        elim (Bool-cases (ltb j (length name))) [
          | inl lj ↦ elim (Bool-cases (ltb i (length pattern))) [
            | inl li ↦
                let ej = drop-cons name j 0 (ground arith) in
                let ei = drop-cons pattern i 0 (ground arith) in
                ground (
                  arith,
                  drop-rest name m,
                  match_loop-suffix_loop f (suc i) j (some (i, j)),
                  match_loop-suffix_loop f (suc i) (suc j) (some (s, m)),
                  match_loop-suffix_loop f (suc s) (suc m) (some (s, suc m)),
                )
            | inr gi ↦
                let ej = drop-cons name j 0 (ground arith) in
                let ei = drop-nil pattern i (ground arith) in
                ground (
                  arith,
                  drop-rest name m,
                  match_loop-suffix_loop f (suc s) (suc m) (some (s, suc m)),
                )
          ]
          | inr gj ↦
              let ej = drop-nil name j (ground arith) in
              ground (arith, skip_stars-only_stars (length pattern) i)
        ]
