-- ===== src/Engine/Run.antt =====
-- The engine over any sequence of its calls (internal/engine/engine.go): each step is one
-- call, or one tick of the sweeper.
pub mod Exact
pub mod Safe
use gentis.Prelude.{ℕ, ℤ, ◌+◌, ◌<◌, Bytes, List, Bool, u64_mod}
use gentis.Engine.State.{Engine, Config, new_engine}
use gentis.Engine.Members.{
  subscribe_priority, unsubscribe_one, unsubscribe_all, subscribe_pattern, unsubscribe_pattern,
}
use gentis.Engine.Fanout.{Delivery}
use gentis.Engine.Publish.{publish}
use gentis.Engine.Sweeper.{sweep_engine}

-- The engines that calls can lead to from a new one, where the subscriptions to patterns stay below
-- 2^64.
pub data Run (cfg : Config) (hash pattern_hash : Bytes → ℕ) : Engine → Type 0 where
  start : Run cfg hash pattern_hash (new_engine cfg hash pattern_hash)
  then_subscribe :
      (e : Engine) (id : ℕ) (name : Bytes) (prio : ℤ) (epoch : ℕ) (now : ℤ)
      → Run cfg hash pattern_hash e
      → Run cfg hash pattern_hash (subscribe_priority e id name prio epoch now).0
  then_unsubscribe :
      (e : Engine) (id : ℕ) (name : Bytes) (now : ℤ)
      → Run cfg hash pattern_hash e
      → Run cfg hash pattern_hash (unsubscribe_one e id name now).0
  then_unsubscribe_all :
      (e : Engine) (id : ℕ) (now : ℤ)
      → Run cfg hash pattern_hash e
      → Run cfg hash pattern_hash (unsubscribe_all e id now)
  then_subscribe_pattern :
      (e : Engine) (id : ℕ) (pat : Bytes)
      → e.pattern_subs + 1 < u64_mod
      → Run cfg hash pattern_hash e
      → Run cfg hash pattern_hash (subscribe_pattern e id pat).0
  then_unsubscribe_pattern :
      (e : Engine) (id : ℕ) (pat : Bytes)
      → Run cfg hash pattern_hash e
      → Run cfg hash pattern_hash (unsubscribe_pattern e id pat).0
  then_publish :
      (deliver : ℕ → Delivery → Bool) (exclude : ℕ) (order : List Bytes) (e : Engine)
      (name payload : Bytes) (epoch : ℕ) (now : ℤ)
      → Run cfg hash pattern_hash e
      → Run cfg hash pattern_hash (publish deliver exclude order e name payload epoch now).0
  then_sweep :
      (e : Engine) (now : ℤ)
      → Run cfg hash pattern_hash e
      → Run cfg hash pattern_hash (sweep_engine e now)
