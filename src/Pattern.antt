-- ===== src/Pattern.antt =====
-- internal/pattern/pattern.go: star-only wildcard matching over channel names.
pub mod Spec
pub mod Suffix
pub mod Decides
pub mod Cache
use gentis.Prelude.{
  ℕ, zero, suc, Bytes, Option, none, some, Bool, true, false, ◌&&◌, ◌||◌, if◌then◌else◌, length,
  get_or, ltb, nat_eq, contains, nat_Eq, ◌+◌, ◌*◌, [], ◌∷◌,
}

abbrev pub star : ℕ
star = b'*'

-- The second loop of `Match`: past the stars from index `i` on, in at most `rounds` rounds.
unfoldable pub skip_stars : ℕ → Bytes → ℕ → ℕ
skip_stars zero pattern i = i
skip_stars (suc rounds) pattern i =
    let next = skip_stars rounds pattern (suc i) in
    if ltb i (length pattern) && nat_eq (get_or pattern i 0) star then next else i

-- The first loop of `Match` on fuel, with what follows it; `none` means that the fuel ran out.
-- The option is the pair `star, mark`, absent while `star` is -1.
unfoldable pub match_loop : ℕ → Bytes → Bytes → ℕ → ℕ → Option (ℕ × ℕ) → Option Bool
match_loop zero pattern name i j back = none
match_loop (suc f) pattern name i j back =
    let at_star = match_loop f pattern name (suc i) j (some (i, j)) in
    let at_byte = match_loop f pattern name (suc i) (suc j) back in
    let retry : Option Bool = elim back [
      | none ↦ some false
      | some (s, m) ↦ match_loop f pattern name (suc s) (suc m) (some (s, suc m))
    ] in
    if ltb j (length name)
    then (if ltb i (length pattern) && nat_eq (get_or pattern i 0) star
        then at_star
        else if ltb i (length pattern) && nat_eq (get_or pattern i 0) (get_or name j 0)
        then at_byte
        else retry)
    else some (nat_eq (skip_stars (length pattern) pattern i) (length pattern))

-- `Match`, with fuel for each byte of the name to be retried from each byte of the pattern.
unfoldable pub match : Bytes → Bytes → Option Bool
unfolding match_loop skip_stars
match pattern name =
    match_loop (suc (length name * suc (length pattern) + length pattern)) pattern name 0 0 none

-- `IsPattern`
unfoldable pub is_pattern : Bytes → Bool
is_pattern s = contains s star

-- Whether a byte is one of ? [ ] and the backslash.
abbrev pub is_reserved : ℕ → Bool
is_reserved c = nat_eq c b'?' || (nat_eq c b'[' || (nat_eq c b']' || nat_eq c 92))

-- `HasReserved`
unfoldable pub has_reserved : Bytes → Bool
has_reserved [] = false
has_reserved (c ∷ s) = is_reserved c || has_reserved s
