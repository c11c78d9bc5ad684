-- ===== src/Auth/Claims.antt =====
-- `Claims`, its allowlists and the claim grammar (internal/auth/auth.go).
use mathlib.Core.Option
use gentis.Prelude.{
  ℤ, ◌-◌, Bytes, bytes_Eq, List, [], ◌∷◌, Bool, true, false, ◌&&◌, ◌==◌, if◌then◌else◌, nat_eq,
  length, Option, none, some, is_empty,
}
use gentis.Pattern.{star, has_reserved}
use gentis.Namespace.Name.{index_byte}

-- A time is `none` where Go has the zero `time.Time`, and else nanoseconds since the epoch. A nil
-- allowlist is `none`.
pub record Claims : Type 0 where
  pub subject : Bytes
  pub expires_at : Option ℤ
  pub channels : Option (List Bytes)
  pub publishes : Option (List Bytes)

-- `strings.HasPrefix`
unfoldable pub has_prefix : Bytes → Bytes → Bool
has_prefix s [] = true
has_prefix [] (c ∷ p) = false
has_prefix (x ∷ s) (c ∷ p) = nat_eq c x && has_prefix s p

-- `strings.CutSuffix` with the suffix "*"
unfoldable pub cut_star : Bytes → Option Bytes
cut_star [] = none
cut_star (c ∷ []) = if nat_eq c star then some [] else none
cut_star (c ∷ d ∷ s) = Option.map (◌∷◌ c) (cut_star (d ∷ s))

-- `matchPattern`
unfoldable pub match_pattern : Bytes → Bytes → Bool
unfolding cut_star has_prefix
match_pattern pattern channel = elim (cut_star pattern) [
  | some prefix ↦ has_prefix channel prefix
  | none ↦ pattern == channel
]

unfoldable pub match_some : List Bytes → Bytes → Bool
match_some [] channel = false
match_some (p ∷ ps) channel = if match_pattern p channel then true else match_some ps channel

-- `matchAny`
unfoldable pub match_any : Option (List Bytes) → Bytes → Bool
unfolding match_some
match_any none channel = true
match_any (some patterns) channel = match_some patterns channel

-- `CanSubscribe`
unfoldable pub can_subscribe : Claims → Bytes → Bool
can_subscribe c channel = match_any c.channels channel

-- `CanPublish`
unfoldable pub can_publish : Claims → Bytes → Bool
can_publish c channel = match_any c.publishes channel

-- `validEntry`
unfoldable pub valid_entry : Bytes → Bool
unfolding has_reserved index_byte
valid_entry entry =
    if is_empty entry
    then false
    else if has_reserved entry
    then false
    else elim (index_byte entry star) [ none ↦ true | some i ↦ nat_eq i (length entry - 1) ]

-- `validEntries`
unfoldable pub valid_entries : List Bytes → Bool
valid_entries [] = true
valid_entries (e ∷ es) = if valid_entry e then valid_entries es else false
