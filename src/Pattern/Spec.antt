-- ===== src/Pattern/Spec.antt =====
-- What it means for a name to match a star pattern, with no search order in it.
use gentis.Prelude.{ℕ, Bytes, [], ◌∷◌, ◌≡◌, ◌⊎◌, inl, inr, refl, ◌≢◌, rest}

-- `b'*'` stands for any run of bytes, and each other byte for itself.
pub data Matches : Bytes → Bytes → Type 0 where
  done : Matches [] []
  byte : {c : ℕ} {p s : Bytes} → c ≢ b'*' → Matches p s → Matches (c ∷ p) (c ∷ s)
  leave : {c : ℕ} {p s : Bytes} → c ≡ b'*' → Matches p s → Matches (c ∷ p) s
  take_one : {c d : ℕ} {p s : Bytes} → c ≡ b'*' → Matches (c ∷ p) s → Matches (c ∷ p) (d ∷ s)

-- Some suffix of `s` matches `p`: what `*` followed by `p` accepts.
pub data Later (p : Bytes) : Bytes → Type 0 where
  here : {s : Bytes} → Matches p s → Later p s
  skip : {d : ℕ} {s : Bytes} → Later p s → Later p (d ∷ s)

pub Later→Matches : {c : ℕ} {p s : Bytes} → c ≡ b'*' → Later p s → Matches (c ∷ p) s
Later→Matches e (here m) = leave e m
Later→Matches e (skip l) = take_one e (Later→Matches e l)

pub Matches→Later : {c : ℕ} {p s : Bytes} → c ≡ b'*' → Matches (c ∷ p) s → Later p s
Matches→Later e (byte n m) = absurd (n e)
Matches→Later e (leave _ m) = here m
Matches→Later e (take_one _ m) = skip (Matches→Later e m)

-- A pattern that begins with a plain byte matches only at that byte.
pub byte_inv : {c d : ℕ} {p s : Bytes} → c ≢ b'*' → Matches (c ∷ p) (d ∷ s) → (c ≡ d) × Matches p s
byte_inv n (byte _ m) = (refl, m)
byte_inv n (leave e m) = absurd (n e)
byte_inv n (take_one e m) = absurd (n e)

pub byte_end : {c : ℕ} {p : Bytes} → c ≢ b'*' → ¬ Matches (c ∷ p) []
byte_end n (leave e m) = n e

-- Wherever a plain byte and `p` match in a text, `p` matches in what follows its first byte.
pub Later-byte :
    {c : ℕ} {p : Bytes} (s : Bytes) {d : ℕ} → c ≢ b'*' → Later (c ∷ p) (d ∷ s) → Later p s
Later-byte [] n (here m) = here (byte_inv n m).1
Later-byte [] n (skip l) = absurd (byte_end n (end l))
  where
    end : {q : Bytes} → Later q [] → Matches q []
    end (here m) = m
Later-byte (d ∷ s) n (here m) = here (byte_inv n m).1
Later-byte (d ∷ s) n (skip l) = skip (Later-byte s n l)

pub Later-cases : {p : Bytes} (s : Bytes) → Later p s → Matches p s ⊎ Later p (rest s)
Later-cases [] (here m) = inl m
Later-cases (d ∷ s) (here m) = inl m
Later-cases (d ∷ s) (skip l) = inr l

pub Later-rest : {p : Bytes} (s : Bytes) → Later p (rest s) → Later p s
Later-rest [] l = l
Later-rest (d ∷ s) l = skip l

pub Later-nil : {p : Bytes} → Later p [] → Matches p []
Later-nil (here m) = m

pub Later-star : {c : ℕ} {p s : Bytes} → c ≡ b'*' → Later (c ∷ p) s → Later p s
Later-star e (here m) = Matches→Later e m
Later-star e (skip l) = skip (Later-star e l)
