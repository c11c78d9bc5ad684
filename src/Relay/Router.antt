-- ===== src/Relay/Router.antt =====
-- `Router` (internal/relay/router.go): the mode of a channel, by the first pattern that matches, behind
-- a bounded cache. The three shared results are the modes themselves.
pub mod Coherence
use gentis.Prelude.{ℕ, Bytes, List, [], ◌∷◌, Option, none, some, Bool, false, if◌then◌else◌}
use gentis.Pattern.{match}
use gentis.Pattern.Cache.{Cache, new_cache, get, set}

-- `RouteMode`; a number outside the three constants is routed as the first.
pub data Mode : Type 0 where
  relay local both : Mode

pub record ChannelPattern : Type 0 where
  pub pattern : Bytes
  pub mode : Mode

abbrev pub max_cache_size : ℕ
max_cache_size = 10000

pub record Router : Type 0 where
  pub patterns : List ChannelPattern
  pub cache : Cache Mode

-- `NewRouter`
unfoldable pub new_router : List ChannelPattern → Router
new_router patterns = record { patterns = patterns; cache = new_cache max_cache_size }

-- What a call of `Match` returned; `none`, for a run out of fuel, counts as no match.
unfoldable pub holds : Option Bool → Bool
holds none = false
holds (some b) = b

-- `resolve` with `singletonResult`
unfoldable pub resolve : List ChannelPattern → Bytes → Mode
resolve [] channel = relay
resolve (p ∷ ps) channel = if holds (match p.pattern channel) then p.mode else resolve ps channel

-- `Route`, where `order` lists the keys as an eviction meets them.
unfoldable pub route : List Bytes → Router → Bytes → Router × Mode
route order r channel = elim (get r.cache channel) [
  | some cached ↦ (r, cached)
  | none ↦
      let result = resolve r.patterns channel in
      (record r { cache = set order r.cache channel result }, result)
]
