-- ===== src/Tests/PatternRuns.antt =====
-- The matcher, its cache and the router at concrete inputs (internal/pattern, internal/relay).
use gentis.Prelude.{
  ℕ, Bytes, bytes_Eq, codes, List, [], ◌∷◌, some, Bool, true, false, ◌≡◌, ◌↔◌, refl, arith, map,
  bytes_eq, false≢true, subst, sym,
}
use gentis.Pattern.{match}
use gentis.Pattern.Spec.{Matches}
use gentis.Pattern.Decides.{match_iff}
use gentis.Pattern.Cache.{Cache}
use gentis.Pattern.Cache.Bound.{IsOrder, IsValid}
use gentis.Relay.Router.{Mode, local, both, ChannelPattern, new_router}
use gentis.Relay.Router.Coherence.{IsCoherent, First, answers, answers_lem, new_router-IsCoherent}

match_star : match (codes "chat.*") (codes "chat.a.b") ≡ some true
unfolding match
match_star = refl

match_other : match (codes "chat.*x") (codes "chat.a") ≡ some false
unfolding match
match_other = refl

match_iff_example :
    (b : Bool) × (match (codes "c.*") (codes "c.a") ≡ some b)
    × ((b ≡ true) ↔ Matches (codes "c.*") (codes "c.a"))
match_iff_example = match_iff (codes "c.*") (codes "c.a")

abbrev full_cache : Cache ℕ
full_cache = record { entries = (codes "a", 1) ∷ (codes "b", 2) ∷ []; max_size = 2 }

abbrev both_keys : List Bytes
both_keys = codes "b" ∷ codes "a" ∷ []

both_keys-IsOrder : IsOrder both_keys full_cache
both_keys-IsOrder = record { once = (refl, (refl, tt)); all = refl; live = λ k. ground arith }

full_cache-IsValid : IsValid full_cache
full_cache-IsValid = record {
  distinct = (refl, (refl, tt));
  bounded = omega arith;
  positive = omega arith;
}

a_is_not_c : ¬ (codes "c" ≡ codes "a")
a_is_not_c e = false≢true (subst (λ s. bytes_eq s (codes "a") ≡ true) (sym e) refl)

abbrev rules : List ChannelPattern
rules =
    record { pattern = codes "in.*"; mode = local }
    ∷ record { pattern = codes "*"; mode = both }
    ∷ []

abbrev asked : List (List Bytes × Bytes)
asked = ([], codes "in.a") ∷ ([], codes "out") ∷ ([], codes "in.a") ∷ []

answers_lem_example :
    (mode : Bytes → Mode) × ((channel : Bytes) → First rules channel (mode channel))
    × (answers (new_router rules) asked ≡ map (λ q. mode q.1) asked)
answers_lem_example = answers_lem rules asked

start-IsCoherent : IsCoherent (new_router rules)
start-IsCoherent = new_router-IsCoherent rules
