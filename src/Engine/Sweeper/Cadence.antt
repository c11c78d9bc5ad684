-- ===== src/Engine/Sweeper/Cadence.antt =====
-- How often the sweeper runs (internal/engine/engine.go: historySweepInterval, with All of
-- internal/namespace/namespace.go).
use gentis.Prelude.{
  if_cases, ◌==◌, subst, false≢true, ℤ, pos, negsuc, ◌+◌, ◌/◌, ◌-ℤ◌, ltb_ℤ, leb_ℤ, ◌≡◌, refl, sym,
  ◌∙◌, Bytes, bytes_Eq, List, [], ◌∷◌, Option, none, some, some_inj, Bool, true, false, ◌&&◌, ◌||◌,
  if◌then◌else◌, lookup, nat_eq, arith, Bool-cases, Option-cases, inl, inr, ◌⊎◌,
}
use gentis.Namespace.Settings.{Settings, is_positive}
use gentis.Namespace.Registry.{Registry, resolve, resolve_inv}
use gentis.Engine.State.{Config, channel_settings}

-- `All`
abbrev entries : List (Bytes × Settings) → List Settings
entries [] = []
entries ((name, s) ∷ rest) = s ∷ entries rest

unfoldable pub all : Registry → List Settings
all r = r.default ∷ entries r.namespaces

abbrev is_zero : ℤ → Bool
is_zero (pos n) = nat_eq n 0
is_zero (negsuc n) = false

-- `consider`
unfoldable pub consider : ℤ → ℤ → ℤ
consider least d = if is_positive d && (is_zero least || ltb_ℤ d least) then d else least

-- The loop over the namespaces
unfoldable pub consider_all : List Settings → ℤ → ℤ
unfolding consider
consider_all [] least = least
consider_all (s ∷ rest) least =
    let kept = if is_positive s.history_size then consider least s.history_ttl else least in
    consider_all rest (consider kept s.idle_reap)

-- `d / 2`, rounded to 0, and the larger of two durations
abbrev half : ℤ → ℤ
half (pos n) = pos (n / 2)
half (negsuc n) = pos 0 -ℤ pos ((n + 1) / 2)

abbrev longer : ℤ → ℤ → ℤ
longer a b = if leb_ℤ a b then b else a

-- `minTTL`
unfoldable pub min_ttl : Config → ℤ
unfolding consider_all all
min_ttl cfg = elim cfg.namespaces [
  | some r ↦ consider_all (all r) (pos 0)
  | none ↦ if is_positive cfg.history_size then consider (pos 0) cfg.history_ttl else pos 0
]

-- `historySweepInterval`, in nanoseconds
unfoldable pub history_sweep_interval : Config → ℤ
unfolding min_ttl
history_sweep_interval cfg =
    if is_zero (min_ttl cfg) then pos 0 else longer (half (min_ttl cfg)) (pos 10000000)

-- A channel with such settings has something to sweep some day.
abbrev pub IsPerishable : Settings → Type 0
IsPerishable s =
    ((is_positive s.history_size && is_positive s.history_ttl) || is_positive s.idle_reap) ≡ true

abbrev counts : ℤ → Bool
counts d = is_zero d || is_positive d

consider-positive :
    (least d : ℤ)
    → counts least ≡ true
    → (counts (consider least d) ≡ true)
      × ((is_positive least || is_positive d) ≡ true → is_positive (consider least d) ≡ true)
unfolding consider
consider-positive (pos n) (pos k) h = (ground arith, λ p. ground arith)
consider-positive (pos n) (negsuc k) h = (ground arith, λ p. ground arith)
consider-positive (negsuc n) d h = absurd (ground arith)

or_left : (a b : Bool) → a ≡ true → (a || b) ≡ true
or_left a b h = ground arith

or_right : (a b : Bool) → b ≡ true → (a || b) ≡ true
or_right a b h = ground arith

why_perishable :
    (size ttl idle : Bool)
    → ((size && ttl) || idle) ≡ true
    → (idle ≡ true) ⊎ ((size ≡ true) × (ttl ≡ true))
why_perishable true true idle h = inr (refl, refl)
why_perishable true false idle h = inl h
why_perishable false ttl idle h = inl h

-- What one namespace does to the least time.
considered-positive :
    (s : Settings) (least : ℤ)
    → counts least ≡ true
    → let next =
        consider
          (if is_positive s.history_size then consider least s.history_ttl else least)
          s.idle_reap in
      (counts next ≡ true)
      × (is_positive least ≡ true → is_positive next ≡ true)
      × (IsPerishable s → is_positive next ≡ true)
considered-positive s least h =
    let (fine, grows) = consider-positive least s.history_ttl h in
    let kept = if is_positive s.history_size then consider least s.history_ttl else least in
    let kept_counts : counts kept ≡ true =
      if_cases (λ l. counts l ≡ true) (is_positive s.history_size) _ _ (λ _. fine) (λ _. h) in
    let (last, carries) = consider-positive kept s.idle_reap kept_counts in
    let Grown = λ (l : ℤ). (is_positive l || is_positive s.idle_reap) ≡ true in
    let size = is_positive s.history_size in
    (
      last,
      λ p.
          carries (
            if_cases Grown size _ _ (λ _. or_left _ _ (grows (or_left _ _ p)))
              (λ _. or_left _ _ p)),
      λ p. carries (elim (why_perishable size _ _ p) [
        | inl idle ↦ or_right _ _ idle
        | inr (on, ttl) ↦
            if_cases Grown size _ _ (λ _. or_left _ _ (grows (or_right _ _ ttl)))
              (λ off. absurd (false≢true (sym off ∙ on)))
      ]),
    )

consider_all-positive :
    (ss : List Settings) (least : ℤ)
    → counts least ≡ true
    → is_positive least ≡ true
    → is_positive (consider_all ss least) ≡ true
unfolding consider_all
consider_all-positive [] least h p = p
consider_all-positive (s ∷ ss) least h p =
    let (fine, carries, _) = considered-positive s least h in
    consider_all-positive ss _ fine (carries p)

first_found :
    (name ns : Bytes) (first s : Settings) (table : List (Bytes × Settings))
    → (name == ns) ≡ true
    → lookup ns ((name, first) ∷ table) ≡ some s
    → ◌≡◌ {A = Option Settings} (some first) (some s)
unfolding lookup
first_found name ns first s table here there = ground (arith, here, there)

consider_all-perishable :
    (table : List (Bytes × Settings)) (least : ℤ) (ns : Bytes) (s : Settings)
    → counts least ≡ true
    → lookup ns table ≡ some s
    → IsPerishable s
    → is_positive (consider_all (entries table) least) ≡ true
unfolding consider_all lookup
consider_all-perishable [] least ns s h there p = absurd (ground arith)
consider_all-perishable ((name, first) ∷ table) least ns s h there p =
    let (fine, _, finds) = considered-positive first least h in
    elim (Bool-cases (name == ns)) [
      | inl here ↦ consider_all-positive (entries table) _ fine (
          finds
            (subst IsPerishable (sym (some_inj (first_found name ns first s table here there))) p))
      | inr other ↦ consider_all-perishable table _ ns s fine (ground (arith, other, there)) p
    ]

interval-positive :
    (cfg : Config)
    → is_positive (min_ttl cfg) ≡ true
    → is_positive (history_sweep_interval cfg) ≡ true
unfolding history_sweep_interval
interval-positive cfg h = longest (min_ttl cfg) h
  where
    longest :
        (d : ℤ)
        → is_positive d ≡ true
        → is_positive (if is_zero d then pos 0 else longer (half d) (pos 10000000)) ≡ true
    longest (pos n) p = ground arith
    longest (negsuc n) p = absurd (ground arith)

registry-positive :
    (r : Registry) (name : Bytes) (s : Settings)
    → resolve r name ≡ some s
    → IsPerishable s
    → is_positive (consider_all (all r) (pos 0)) ≡ true
unfolding consider_all all
registry-positive r name s governs p =
    let (fine, _, finds) = considered-positive r.default (pos 0) refl in
    elim (resolve_inv r name {s = s} governs) [
      | inl same ↦
          consider_all-positive (entries r.namespaces) _ fine
            (finds (subst IsPerishable (sym same) p))
      | inr there ↦ consider_all-perishable r.namespaces _ _ s fine there p
    ]

plain-positive :
    (size ttl : ℤ)
    → ((is_positive size && is_positive ttl) || is_positive (pos 0)) ≡ true
    → is_positive (if is_positive size then consider (pos 0) ttl else pos 0) ≡ true
unfolding consider
plain-positive size ttl p = elim (why_perishable (is_positive size) _ _ p) [
  | inl never ↦ absurd (false≢true never)
  | inr (on, due) ↦ rw (on, due) ground (arith, due)
]

plain_settings :
    (cfg : Config) (name : Bytes) (s : Settings)
    → cfg.namespaces ≡ none
    → channel_settings cfg name ≡ some s
    → (cfg.history_size ≡ s.history_size)
      × (cfg.history_ttl ≡ s.history_ttl)
      × (s.idle_reap ≡ pos 0)
unfolding channel_settings
plain_settings cfg name s plain governs =
    (ground (arith, plain, governs), ground (arith, plain, governs), ground (arith, plain, governs))

min_ttl-positive :
    (cfg : Config) (name : Bytes) (s : Settings)
    → channel_settings cfg name ≡ some s
    → IsPerishable s
    → is_positive (min_ttl cfg) ≡ true
unfolding min_ttl channel_settings
min_ttl-positive cfg name s governs p = elim (Option-cases cfg.namespaces) [
  | inl plain ↦
      let (size, ttl, idle) = plain_settings cfg name s plain governs in
      rw plain (
        rw (size, ttl)
          (plain-positive s.history_size s.history_ttl (
            subst
              (λ d.
                ((is_positive s.history_size && is_positive s.history_ttl) || is_positive d) ≡ true)
              idle p)))
  | inr (r, named) ↦ rw named (registry-positive r name s (ground (arith, named, governs)) p)
]

-- Where the settings that govern some channel name let a history expire, or an idle channel be
-- reaped, the interval of the sweeper is positive.
pub perishable-swept :
    (cfg : Config) (name : Bytes) (s : Settings)
    → channel_settings cfg name ≡ some s
    → IsPerishable s
    → is_positive (history_sweep_interval cfg) ≡ true
perishable-swept cfg name s governs p =
    interval-positive cfg (min_ttl-positive cfg name s governs p)
