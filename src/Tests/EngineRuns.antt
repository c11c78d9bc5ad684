-- ===== src/Tests/EngineRuns.antt =====
-- Channels and subscriptions at concrete inputs (internal/engine/channel.go, subscription.go).
use gentis.Prelude.{
  pos, bytes_Eq, nat_Eq, codes, List, [], ◌∷◌, some, true, ◌≡◌, ◌↔◌, refl, contains, Distinct,
}
use gentis.Engine.Subscriptions.{SubShard, add_channel, new_subscriptions}
use gentis.Engine.Subscriptions.Index.{IsValid}
use gentis.Engine.Subscriptions.Reach.{Reachable, start, then_add, Reachable-IsValid}
use gentis.Engine.Channel.{Channel, subscribers, set_priority, clear_priority, cohort}
use gentis.Engine.Channel.Cohort.{IsSorted}
use gentis.Engine.Channel.Stored.{IsRanked, IsTopOf, rank_set, rank_cleared, stored, stored_lem}

abbrev one_sub : List SubShard
one_sub = add_channel new_subscriptions 33 (codes "a")

one_sub-Reachable : Reachable one_sub
one_sub-Reachable = then_add new_subscriptions 33 (codes "a") start

Reachable-IsValid_example : IsValid one_sub
Reachable-IsValid_example = Reachable-IsValid one_sub one_sub-Reachable

abbrev ranked : Channel
ranked = record {
  subscribers = some (3 ∷ 1 ∷ 2 ∷ []);
  prios = some ((3, pos 5) ∷ (1, pos 5) ∷ (2, pos 4) ∷ []);
  top_cohort = some (1 ∷ 3 ∷ []);
}

ranked-Distinct : Distinct (subscribers ranked)
unfolding subscribers
ranked-Distinct = (refl, (refl, (refl, tt)))

ranked-IsRanked : IsRanked ranked
unfolding cohort
ranked-IsRanked = record { once = (refl, (refl, (refl, tt))); cached = refl }

stored_lem_example :
    IsSorted (stored (set_priority ranked 2 (pos 9)))
    × ((contains (stored (set_priority ranked 2 (pos 9))) 2 ≡ true)
        ↔ IsTopOf (rank_set ranked 2 (pos 9)) 2)
    × IsSorted (stored (clear_priority ranked 2))
    × ((contains (stored (clear_priority ranked 2)) 2 ≡ true) ↔ IsTopOf (rank_cleared ranked 2) 2)
stored_lem_example = stored_lem ranked 2 2 (pos 9) ranked-IsRanked
