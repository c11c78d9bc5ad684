-- ===== src/Namespace/Name.antt =====
-- Channel names `ns:rest` (internal/namespace/namespace.go).
use mathlib.Core.Option
use gentis.Prelude.{
  ℕ, Bytes, [], ◌∷◌, ◌++◌, Bool, true, false, if◌then◌else◌, nat_eq, contains, nat_Eq, ◌≡◌, refl,
  arith, ap, Option, none, some, suc, take, nat_eq_iff, inl, inr, Bool-cases,
}

abbrev pub colon : ℕ
colon = b':'

-- `strings.Cut` at a byte: what is before it, what is after it, and whether it was there.
unfoldable pub cut : ℕ → Bytes → Bytes × Bytes × Bool
cut c [] = ([], [], false)
cut c (x ∷ s) =
    let (before, after, found) = cut c s in
    if nat_eq x c then ([], s, true) else (x ∷ before, after, found)

-- `Split`
unfoldable pub split : Bytes → Bytes × Bytes × Bool
unfolding cut
split channel =
    let (before, after, found) = cut colon channel in
    if found then (before, after, true) else ([], channel, false)

-- `strings.IndexByte`, absent for -1.
unfoldable pub index_byte : Bytes → ℕ → Option ℕ
index_byte [] c = none
index_byte (x ∷ s) c = if nat_eq x c then some 0 else Option.map suc (index_byte s c)

-- `Prefix`: the bytes before the first colon, none if there is no colon.
unfoldable pub prefix : Bytes → Bytes
unfolding index_byte
prefix channel = elim (index_byte channel colon) [ none ↦ [] | some i ↦ take i channel ]

module _ (c : ℕ) where
  -- `strings.Cut` splits at the first hit and loses nothing.
  pub cut_lem :
      (s : Bytes)
      → let (before, after, found) = cut c s in
        (contains before c ≡ false)
        × (found ≡ contains s c)
        × (s ≡ (if found then before ++ c ∷ after else before))
  unfolding cut
  cut_lem [] = (refl, refl, refl)
  cut_lem (x ∷ s) = ground (arith, cut_lem s, nat_eq_iff x c)

  -- A name without the byte is cut where the byte is put behind it.
  pub cut-append :
      (before after : Bytes)
      → contains before c ≡ false
      → cut c (before ++ c ∷ after) ≡ (before, after, true)
  unfolding cut
  cut-append [] after h = ground (arith, nat_eq_iff c c)
  cut-append (x ∷ before) after h = ground (arith, cut-append before after)

-- `Split` takes a channel apart at its first colon: the namespace has no colon, and the parts give
-- back the channel. Without a colon the namespace is empty and the rest is the channel.
pub split_lem :
    (channel : Bytes)
    → let (ns, rest, found) = split channel in
      (contains ns colon ≡ false)
      × (found ≡ contains channel colon)
      × (channel ≡ (if found then ns ++ colon ∷ rest else rest))
unfolding split
split_lem channel = ground (arith, cut_lem colon channel)

pub split-append :
    (ns rest : Bytes) → contains ns colon ≡ false → split (ns ++ colon ∷ rest) ≡ (ns, rest, true)
unfolding split
split-append ns rest h = ground (arith, cut-append colon ns rest h)

pub split-plain :
    (channel : Bytes) → contains channel colon ≡ false → split channel ≡ ([], channel, false)
unfolding split
split-plain channel h = ground (arith, cut_lem colon channel)

abbrev AtCut : Bytes → Bytes × Bytes × Bool → Option ℕ → Type 0
AtCut s r none = r.2 ≡ false
AtCut s r (some i) = (r.2 ≡ true) × (take i s ≡ r.0)

AtCut-cons :
    (x : ℕ) (s : Bytes) (r : Bytes × Bytes × Bool) (o : Option ℕ)
    → AtCut s r o
    → AtCut (x ∷ s) (x ∷ r.0, r.1, r.2) (Option.map suc o)
AtCut-cons x s r none a = a
AtCut-cons x s r (some i) a = (a.0, ap (◌∷◌ x) a.1)

index_byte-cut : (s : Bytes) → AtCut s (cut colon s) (index_byte s colon)
unfolding index_byte cut
index_byte-cut [] = refl
index_byte-cut (x ∷ s) = elim (Bool-cases (nat_eq x colon)) [
  | inl e ↦ rw e (refl, refl)
  | inr e ↦ rw e (AtCut-cons x s (cut colon s) (index_byte s colon) (index_byte-cut s))
]

-- `Prefix`, which the pattern registry uses, is the namespace that `Split` finds.
pub prefix-split : (channel : Bytes) → prefix channel ≡ (split channel).0
unfolding prefix split
prefix-split channel = ground (arith, index_byte-cut channel)
