-- ===== src/Engine/Publish.antt =====
-- `Publish` and `RecoverN` of the engine (internal/engine/engine.go), with `materializeChannel` and
-- `dropDrainedChannel`. One call runs after the other, at the time `now`; `epoch` is what `newEpoch` draws for
-- a channel that has to be made, `order` is how an eviction from a cache of matches meets its keys.
pub mod Reached
pub mod Panics
pub mod Moving
pub mod Kept
pub mod Recovered
use gentis.Prelude.{
  ℕ, ℤ, pos, ◌+◌, ◌%◌, Bytes, bytes_Eq, List, [], ◌∷◌, Option, none, some, Bool, true, false, not,
  ◌&&◌, if◌then◌else◌, length, is_empty, ltb, leb, nat_eq, is_some, map, u64_mod,
}
use gentis.Namespace.Settings.{FanoutMode, broadcast, round_robin, priority, is_positive}
use gentis.Engine.History.{History, Item, append_next, replay_n}
use gentis.Engine.Channel.{Channel, subscribers}
use gentis.Engine.Patterns.{subscribers_for}
use gentis.Engine.Patterns as Patterns
use gentis.Engine.State.{
  Engine, Live, Shard, Config, find, get_shard, put_shard, put_live, drop_channel, create_channel,
  channel_settings, up,
}
use gentis.Engine.Members.{is_drained}
use gentis.Engine.Fanout.{
  Delivery, Counts, no_counts, plus, deliver_each, parallel_fanout, round_robin_deliver,
  deliver_patterns,
}

-- `PublishResult`
pub record PublishResult : Type 0 where
  pub channel : Bytes
  pub offset : ℕ
  pub epoch : ℕ
  pub delivered : ℕ
  pub dropped : ℕ

abbrev pub no_result : Bytes → PublishResult
no_result name = record { channel = name; offset = 0; epoch = 0; delivered = 0; dropped = 0 }

-- `materializeChannel`; `none` where the namespace is unknown.
unfoldable pub materialize_channel : Engine → Bytes → ℕ → ℤ → Engine × Option Live
materialize_channel e name epoch now = elim (channel_settings e.config name) [
  | none ↦ (e, none)
  | some s ↦ elim (find e name) [
    | some ch ↦ (e, some ch)
    | none ↦ let (made, ch) = create_channel e name s epoch now in (made, some ch)
  ]
]

-- `dropDrainedChannel`
unfoldable pub drop_drained_channel : Engine → Bytes → Engine
drop_drained_channel e name = elim (find e name) [
  | none ↦ e
  | some ch ↦ if is_drained ch then drop_channel e name else e
]

-- A write to a channel that a call holds, whether or not its shard still has it.
unfoldable pub write_back : Engine → Bytes → Live → Engine
write_back e name ch = if is_some (find e name) then put_live e name ch else e

-- `patternSubs.Load() != 0` and, if so, the wildcard subscribers of a channel
unfoldable pub wildcard_ids : List Bytes → Engine → Bytes → Engine × List ℕ
wildcard_ids order e name =
    let (patterns, ids) = subscribers_for e.pattern_hash order e.patterns name in
    if nat_eq e.pattern_subs 0 then (e, []) else (record e { patterns = patterns }, ids)

-- The channel that `Publish` writes to
unfoldable pub target : List Bytes → Engine → Bytes → ℕ → ℤ → Engine × Option Live
unfolding materialize_channel drop_drained_channel wildcard_ids
target order e name epoch now =
    let (asked, ids) = wildcard_ids order e name in
    let (made, ch) = materialize_channel asked name epoch now in
    elim (find e name) [
      | some ch ↦ (e, some ch)
      | none ↦
          if nat_eq (length ids) 0
          then (asked, none)
          else if is_some ch && nat_eq made.pattern_subs 0
          then (drop_drained_channel made name, ch)
          else (made, ch)
    ]

-- The next offset of the channel, and its history with the publication
unfoldable pub stamp : Live → Bytes → ℤ → Live × ℕ
stamp ch payload now =
    let active = if is_positive ch.idle_reap then now else ch.last_active in
    let next = (ch.offset + 1) % u64_mod in
    elim ch.hist as (λ _. Live × ℕ) [
      | some h ↦
          let (stored, offset) = append_next h ch.offset payload now in
          (record ch { hist = some stored; offset = offset; last_active = active }, offset)
      | none ↦ (record ch { offset = next; last_active = active }, next)
    ]

-- Whom the exact fan-out of a channel is for
unfoldable pub recipients : Live → List ℕ
recipients ch = elim ch.fanout [
  | broadcast ↦ subscribers ch.members
  | round_robin ↦ subscribers ch.members
  | priority ↦ elim ch.members.top_cohort [ none ↦ subscribers ch.members | some cohort ↦ cohort ]
]

-- The counters of the shard after a fan-out
unfoldable pub count_fan_out : Engine → Bytes → Counts → Engine
count_fan_out e name c =
    let sh = get_shard e name in
    put_shard e name (record sh {
      delivered_count = up sh.delivered_count c.delivered;
      dropped_count = up sh.dropped_count c.dropped;
    })

module _ (deliver : ℕ → Delivery → Bool) (exclude : ℕ) where
  -- The default case of the switch over the fan-out mode
  unfoldable pub spread : Config → Delivery → List ℕ → Option Counts
  spread cfg d subs =
      if leb cfg.fanout_threshold (length subs) && ltb 1 cfg.fanout_workers
      then parallel_fanout deliver d exclude cfg.fanout_workers subs
      else some (deliver_each deliver d exclude subs)

  -- The switch: the counts, the delivery as it is then, and the rotation cursor.
  unfoldable pub fan_out : Config → Delivery → Live → List ℕ → Option Counts × Delivery × ℕ
  unfolding spread recipients
  fan_out cfg d ch pattern_ids =
      let subs = recipients ch in
      let shared = record d { framed = ltb 1 (length subs + length pattern_ids) } in
      let (counts, rr) = round_robin_deliver deliver d exclude ch.rr subs in
      elim ch.fanout [
        | round_robin ↦ (some counts, d, rr)
        | priority ↦ (spread cfg shared subs, shared, ch.rr)
        | broadcast ↦ (spread cfg shared subs, shared, ch.rr)
      ]

  -- `Publish` from where the channel is known; `none` is a panic. With the result come the calls of
  -- `deliver`.
  unfoldable pub publish_to :
      List Bytes → Engine → Bytes → Live → Bytes → ℤ → Engine × Option (PublishResult × List ℕ)
  unfolding stamp wildcard_ids fan_out count_fan_out write_back
  publish_to order e name ch payload now =
      let (stamped, offset) = stamp ch payload now in
      let d : Delivery = record {
        channel = name;
        payload = payload;
        offset = offset;
        epoch = ch.epoch;
        framed = false;
      } in
      let (asked, pattern_ids) = wildcard_ids order e name in
      let (counts, sent, rr) = fan_out e.config d stamped pattern_ids in
      let written = write_back asked name (record stamped { rr = rr }) in
      elim counts [
        | none ↦ (written, none)
        | some exact ↦
            let all =
              plus exact (deliver_patterns deliver sent exclude (recipients stamped) pattern_ids) in
            let result : PublishResult = record {
              channel = name;
              offset = offset;
              epoch = ch.epoch;
              delivered = all.delivered;
              dropped = all.dropped;
            } in
            (count_fan_out written name all, some (result, all.tried))
      ]

  -- `Publish`
  unfoldable pub publish :
      List Bytes → Engine → Bytes → Bytes → ℕ → ℤ → Engine × Option (PublishResult × List ℕ)
  unfolding target publish_to
  publish order e name payload epoch now =
      let sh = get_shard e name in
      let counted = put_shard e name (record sh {
        publish_count = up sh.publish_count 1;
        message_bytes = up sh.message_bytes (length payload);
      }) in
      let (ready, found) = target order counted name epoch now in
      elim found [
        | none ↦ (ready, some (no_result name, []))
        | some ch ↦ publish_to order ready name ch payload now
      ]

-- The delivery that `RecoverN` makes of an item
unfoldable pub recovered : Bytes → ℕ → Item → Delivery
recovered name epoch item = record {
  channel = name;
  payload = item.payload;
  offset = item.offset;
  epoch = epoch;
  framed = false;
}

-- `RecoverN`; `none` is the result `nil, false`.
unfoldable pub recover_n : Engine → Bytes → ℕ → ℕ → ℕ → Option (List Delivery)
unfolding recovered
recover_n e name from epoch max = elim (find e name) [
  | none ↦ none
  | some ch ↦ elim ch.hist [
    | none ↦ none
    | some h ↦ if not (nat_eq ch.epoch epoch) then none else elim (replay_n h from max) [
      | none ↦ none
      | some items ↦ some (map (recovered name ch.epoch) items)
    ]
  ]
]

-- `Recover`
unfoldable pub recover : Engine → Bytes → ℕ → ℕ → Option (List Delivery)
unfolding recover_n
recover e name from epoch = recover_n e name from epoch 0
