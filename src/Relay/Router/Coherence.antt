-- ===== src/Relay/Router/Coherence.antt =====
-- The cache of the router is invisible: every answer is what resolving the channel afresh gives.
use gentis.Prelude.{
  Bytes, bytes_Eq, bytes_eq_iff, List, [], ◌∷◌, map, some, ◌≡◌, refl, ◌⊎◌, inl, inr, arith,
  Option-cases, Bool-cases, lookup, false≢true, sym, ◌∙◌,
}
use gentis.Pattern.Cache.{get, new_cache}
use gentis.Pattern.Cache.Content.{get-set, get-set_self}
use gentis.Relay.Router.{Router, ChannelPattern, Mode, route, resolve, new_router, holds, relay}
use gentis.Pattern.Spec.{Matches}
use gentis.Pattern.Decides.{match_iff}

-- What the cache holds is what `resolve` returns.
abbrev pub IsCoherent : Router → Type 0
IsCoherent r =
    (channel : Bytes) (m : Mode) → get r.cache channel ≡ some m → m ≡ resolve r.patterns channel

-- The answers to a sequence of channels, each asked with the order that its eviction meets.
unfoldable pub answers : Router → List (List Bytes × Bytes) → List Mode
answers r [] = []
answers r ((order, channel) ∷ qs) = let (s, m) = route order r channel in m ∷ answers s qs

route-patterns :
    (order : List Bytes) (r : Router) (channel : Bytes)
    → (route order r channel).0.patterns ≡ r.patterns
unfolding route
route-patterns order r channel = ground arith

-- One answer, from a cache that is coherent.
route-resolve :
    (order : List Bytes) (r : Router) (channel : Bytes)
    → IsCoherent r
    → (route order r channel).1 ≡ resolve r.patterns channel
unfolding route
route-resolve order r channel h = elim (Option-cases (get r.cache channel)) [
  | inl missed ↦ ground arith
  | inr (m, hit) ↦ ground (arith, h channel m)
]

route-IsCoherent :
    (order : List Bytes) (r : Router) (channel : Bytes)
    → IsCoherent r
    → IsCoherent (route order r channel).0
unfolding route
route-IsCoherent order r channel h j m hit = elim (Option-cases (get r.cache channel)) [
  | inr (v, old) ↦ ground (arith, h j m)
  | inl missed ↦ ground (
    arith,
    h j m,
    get-set_self order r.cache channel (resolve r.patterns channel),
    get-set order r.cache channel j (resolve r.patterns channel),
    bytes_eq_iff channel j,
  )
]

pub new_router-IsCoherent : (ps : List ChannelPattern) → IsCoherent (new_router ps)
unfolding new_router new_cache get lookup
new_router-IsCoherent ps channel m hit = cc

answers-IsCoherent :
    (r : Router) (qs : List (List Bytes × Bytes))
    → IsCoherent r
    → answers r qs ≡ map (λ q. resolve r.patterns q.1) qs
unfolding answers
answers-IsCoherent r [] h = refl
answers-IsCoherent r ((order, channel) ∷ qs) h =
    let more =
      answers-IsCoherent (route order r channel).0 qs (route-IsCoherent order r channel h) in
    let same = route-patterns order r channel in
    let first = route-resolve order r channel h in rw (first, more, same) refl

-- The mode that the rules give a channel: that of the first one that matches.
abbrev pub First : List ChannelPattern → Bytes → Mode → Type 0
First [] channel m = m ≡ relay
First (p ∷ ps) channel m =
    (Matches p.pattern channel × (m ≡ p.mode))
    ⊎ ((¬ Matches p.pattern channel) × First ps channel m)

resolve-First : (ps : List ChannelPattern) (channel : Bytes) → First ps channel (resolve ps channel)
unfolding resolve holds
resolve-First [] channel = refl
resolve-First (p ∷ ps) channel =
    let (b, found, right) = match_iff p.pattern channel in
    elim (Bool-cases b) [
      | inl hit ↦ rw (found, hit) (inl (right.0 hit, refl))
      | inr other ↦
          rw (found, other)
            (inr (λ m. false≢true (sym other ∙ right.1 m), resolve-First ps channel))
    ]

-- A router that holds a coherent cache answers `Route` with the mode of the first pattern that matches
-- the channel in the grammar of patterns, or with relay where none does.
pub route-First :
    (order : List Bytes) (r : Router) (channel : Bytes)
    → IsCoherent r
    → First r.patterns channel (route order r channel).1
route-First order r channel h =
    rw (route-resolve order r channel h) (resolve-First r.patterns channel)

-- From an empty cache, any sequence of `Route` calls, whatever the cache evicts, answers each channel
-- with one and the same mode: that of the first pattern that matches it in the grammar of patterns, or relay where none does.
pub answers_lem :
    (ps : List ChannelPattern) (qs : List (List Bytes × Bytes))
    → (mode : Bytes → Mode) × ((channel : Bytes) → First ps channel (mode channel))
      × (answers (new_router ps) qs ≡ map (λ q. mode q.1) qs)
unfolding new_router
answers_lem ps qs =
    (resolve ps, resolve-First ps, answers-IsCoherent (new_router ps) qs (new_router-IsCoherent ps))
