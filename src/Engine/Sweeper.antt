-- ===== src/Engine/Sweeper.antt =====
-- The sweeper of histories and idle channels, and the statistics (internal/engine/engine.go:
-- runHistorySweeper, Stats). One tick is one step at the time `now`. Where `int64` could not hold the
-- difference of two times in nanoseconds the model takes the exact one.
pub mod Cadence
pub mod Swept
pub mod Expired
use gentis.Prelude.{
  ℕ, ℤ, pos, ◌+◌, ◌-ℤ◌, ltb_ℤ, Bytes, bytes_Eq, List, [], ◌∷◌, Option, none, some, Bool, false,
  ◌&&◌, ◌||◌, if◌then◌else◌, lookup, nat_eq, u64_mod,
}
use gentis.Namespace.Settings.{is_positive}
use gentis.Engine.History.{sweep, size}
use gentis.Engine.Channel.{subscriber_count}
use gentis.Engine.State.{Engine, Live, Shard, drop_from, up, down}

-- `reapable`
unfoldable pub is_reapable : Live → ℤ → Bool
is_reapable ch now =
    let expired : Bool = elim ch.hist [ none ↦ false | some h ↦ nat_eq (size h) 0 ] in
    let idle = is_positive ch.idle_reap && ltb_ℤ ch.idle_reap (now -ℤ ch.last_active) in
    nat_eq (subscriber_count ch.members) 0 && (expired || idle)

-- `ch.hist.sweep(now)`, where there is a history
unfoldable pub sweep_live : Live → ℤ → Live
sweep_live ch now = elim ch.hist [ none ↦ ch | some h ↦ record ch { hist = some (sweep h now) } ]

-- The loop under the read lock: the channels as swept, and the names to reap.
unfoldable pub sweep_channels : List (Bytes × Live) → ℤ → List (Bytes × Live) × List Bytes
unfolding is_reapable sweep_live
sweep_channels [] now = ([], [])
sweep_channels ((name, ch) ∷ channels) now =
    let left = sweep_live ch now in
    let (others, drained) = sweep_channels channels now in
    ((name, left) ∷ others, if is_reapable left now then name ∷ drained else drained)

-- The loop under the lock: the names that are left to reap, the shard, and the count of channels.
unfoldable pub reap_drained : List Bytes → ℤ → Shard → ℕ → Shard × ℕ
unfolding is_reapable
reap_drained [] now sh count = (sh, count)
reap_drained (name ∷ names) now sh count = elim (lookup name sh.channels) [
  | none ↦ reap_drained names now sh count
  | some ch ↦
      if is_reapable ch now
      then reap_drained names now (drop_from sh name) (down count 1)
      else reap_drained names now sh count
]

-- The sweep of one shard
unfoldable pub sweep_shard : Shard → ℤ → ℕ → Shard × ℕ
unfolding sweep_channels reap_drained
sweep_shard sh now count =
    let (channels, drained) = sweep_channels sh.channels now in
    reap_drained drained now (record sh { channels = channels }) count

unfoldable pub sweep_shards : List Shard → ℤ → ℕ → List Shard × ℕ
unfolding sweep_shard
sweep_shards [] now count = ([], count)
sweep_shards (sh ∷ shards) now count =
    let (left, fewer) = sweep_shard sh now count in
    let (others, fewest) = sweep_shards shards now fewer in (left ∷ others, fewest)

-- One tick of `runHistorySweeper`
unfoldable pub sweep_engine : Engine → ℤ → Engine
unfolding sweep_shards
sweep_engine e now =
    let (shards, count) = sweep_shards e.shards now e.channel_count in
    record e { shards = shards; channel_count = count }

-- `EngineStats`
pub record EngineStats : Type 0 where
  pub channels : ℕ
  pub total_subscribers : ℕ
  pub messages_published : ℕ
  pub messages_delivered : ℕ
  pub messages_dropped : ℕ
  pub subscribe_ops : ℕ
  pub unsubscribe_ops : ℕ
  pub message_bytes : ℕ

-- The sum of a counter over the shards
unfoldable pub sum_of : (Shard → ℕ) → List Shard → ℕ → ℕ
sum_of counter [] sum = sum
sum_of counter (sh ∷ shards) sum = sum_of counter shards (up sum (counter sh))

-- `Stats`
unfoldable pub stats : Engine → EngineStats
unfolding sum_of
stats e = record {
  channels = e.channel_count;
  total_subscribers = e.subscription_count;
  messages_published = sum_of (λ sh. sh.publish_count) e.shards 0;
  messages_delivered = sum_of (λ sh. sh.delivered_count) e.shards 0;
  messages_dropped = sum_of (λ sh. sh.dropped_count) e.shards 0;
  subscribe_ops = e.subscribe_ops;
  unsubscribe_ops = e.unsubscribe_ops;
  message_bytes = sum_of (λ sh. sh.message_bytes) e.shards 0;
}
