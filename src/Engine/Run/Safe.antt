-- ===== src/Engine/Run/Safe.antt =====
-- What holds of the engine after any sequence of calls.
use gentis.Prelude.{ℕ, ◌<◌, sym, ◌∙◌, Bytes, []}
use gentis.Engine.State.{Engine, Config}
use gentis.Engine.Members.Invariant.{IsValid, new_engine-IsValid}
use gentis.Engine.Members.Joining.{subscribe_priority-IsValid}
use gentis.Engine.Members.Leaving.{unsubscribe_one_lem}
use gentis.Engine.Members.LeavingAll.{unsubscribe_all_lem}
use gentis.Engine.Members.Patterned.{subscribe_pattern_lem, unsubscribe_pattern_lem}
use gentis.Engine.Patterns.Total.{total-zero}
use gentis.Engine.Publish.Reached.{IsCounted}
use gentis.Engine.Publish.Kept.{publish-IsValid}
use gentis.Engine.Sweeper.Swept.{sweep_engine_lem}
use gentis.Engine.Run.{
  Run, start, then_subscribe, then_unsubscribe, then_unsubscribe_all, then_subscribe_pattern,
  then_unsubscribe_pattern, then_publish, then_sweep,
}
use gentis.Engine.Run.Exact.{
  IsExact, new_engine-IsExact, subscribe_priority-IsExact, unsubscribe_one-IsExact,
  unsubscribe_all-IsExact, subscribe_pattern-IsExact, unsubscribe_pattern-IsExact, publish-IsExact,
  sweep_engine-IsExact,
}

module _ (cfg : Config) (hash pattern_hash : Bytes → ℕ) where
  run-both : (e : Engine) → 0 < cfg.num_shards → Run cfg hash pattern_hash e → IsValid e × IsExact e
  run-both _ h start =
      (new_engine-IsValid cfg hash pattern_hash h, new_engine-IsExact cfg hash pattern_hash)
  run-both _ h (then_subscribe e id name prio epoch now r) =
      let (v, x) = run-both e h r in
      (
        subscribe_priority-IsValid e id name prio epoch now v,
        subscribe_priority-IsExact e id name prio epoch now x,
      )
  run-both _ h (then_unsubscribe e id name now r) =
      let (v, x) = run-both e h r in
      ((unsubscribe_one_lem e id name now 0 name v).2, unsubscribe_one-IsExact e id name now x)
  run-both _ h (then_unsubscribe_all e id now r) =
      let (v, x) = run-both e h r in
      ((unsubscribe_all_lem e id now 0 [] [] v).2, unsubscribe_all-IsExact e id now v x)
  run-both _ h (then_subscribe_pattern e id pat room r) =
      let (v, x) = run-both e h r in
      ((subscribe_pattern_lem e id pat 0 [] [] v room).2, subscribe_pattern-IsExact e id pat room x)
  run-both _ h (then_unsubscribe_pattern e id pat r) =
      let (v, x) = run-both e h r in
      ((unsubscribe_pattern_lem e id pat 0 [] [] v).3, unsubscribe_pattern-IsExact e id pat v x)
  run-both _ h (then_publish deliver exclude order e name payload epoch now r) =
      let (v, x) = run-both e h r in
      (
        publish-IsValid deliver exclude order e name payload epoch now v,
        publish-IsExact deliver exclude order e name payload epoch now x,
      )
  run-both _ h (then_sweep e now r) =
      let (v, x) = run-both e h r in
      ((sweep_engine_lem e now 0 [] v).2, sweep_engine-IsExact e now x)

  -- After any sequence of calls to an engine with a shard and of ticks of its sweeper, the index of subscriptions and the
  -- channels say the same, no subscriber is on a channel twice, no channel has more subscribers than
  -- its limit, a channel with neither subscriber nor history is there only while there are
  -- subscriptions to patterns, the caches of matches hold nothing stale, and the count of those subscriptions is 0 only where there is none.
  pub run-IsSafe :
      (e : Engine) → 0 < cfg.num_shards → Run cfg hash pattern_hash e → IsValid e × IsCounted e
  run-IsSafe e h r =
      let (v, x) = run-both e h r in
      (v, λ none_left id pat. total-zero e.patterns id pat (sym x.exact ∙ none_left))
