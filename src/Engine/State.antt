-- ===== src/Engine/State.antt =====
-- The state of the engine (internal/engine/engine.go, shard.go, the options of options.go): shards of
-- channels, the index of subscriptions and the wildcard patterns. Each lock makes its block one step;
-- the model runs one call after the other. `hash` and `pattern_hash` are the two seeded hashes. An
-- `int64` counter stands by its 64 bits. Observer, pacer, logger and worker pool have no field.
pub mod Find
use gentis.Prelude.{
  ℕ, ℤ, pos, negsuc, ◌+◌, ◌-◌, ◌/◌, ◌%◌, Bytes, bytes_Eq, List, [], ◌∷◌, Option, none, some, Bool,
  true, false, ◌&&◌, if◌then◌else◌, length, get_or, set, replicate, lookup, insert, delete, ltb,
  max, u64_mod,
}
use gentis.Namespace.Settings.{Settings, FanoutMode, QosLevel, at_most_once, broadcast, is_positive}
use gentis.Namespace.Registry.{Registry, resolve}
use gentis.Engine.History.{History, new_history}
use gentis.Engine.Channel.{Channel, new_channel}
use gentis.Engine.Subscriptions.{SubShard, new_subscriptions}
use gentis.Engine.Patterns as Patterns

-- The sentinels that the engine returns.
pub data EngineError : Type 0 where
  already_subscribed unknown_namespace channel_full publish_denied wildcard_denied : EngineError

-- `Channel`, all but the fields of its pooling. The name is its key in the shard.
pub record Live : Type 0 where
  pub members : Channel
  pub epoch : ℕ
  pub offset : ℕ
  pub hist : Option History
  pub max_subs : ℤ
  pub idle_reap : ℤ
  pub last_active : ℤ
  pub fanout : FanoutMode
  pub rr : ℕ

-- `Shard`
pub record Shard : Type 0 where
  pub channels : List (Bytes × Live)
  pub peak : ℕ
  pub publish_count : ℕ
  pub delivered_count : ℕ
  pub dropped_count : ℕ
  pub message_bytes : ℕ

-- `config`; the options admit no negative number of shards, threshold or workers.
pub record Config : Type 0 where
  pub num_shards : ℕ
  pub fanout_threshold : ℕ
  pub fanout_workers : ℕ
  pub history_size : ℤ
  pub history_ttl : ℤ
  pub namespaces : Option Registry

-- `Engine`
pub record Engine : Type 0 where
  pub config : Config
  pub hash : Bytes → ℕ
  pub pattern_hash : Bytes → ℕ
  pub shards : List Shard
  pub subscriptions : List SubShard
  pub patterns : Patterns.Registry
  pub channel_count : ℕ
  pub subscription_count : ℕ
  pub pattern_subs : ℕ
  pub subscribe_ops : ℕ
  pub unsubscribe_ops : ℕ

abbrev pub empty_shard : Shard
empty_shard = record {
  channels = [];
  peak = 0;
  publish_count = 0;
  delivered_count = 0;
  dropped_count = 0;
  message_bytes = 0;
}

abbrev pub has_registry : Config → Bool
has_registry cfg = elim cfg.namespaces [ none ↦ false | some r ↦ true ]

-- `New`
unfoldable pub new_engine : Config → (Bytes → ℕ) → (Bytes → ℕ) → Engine
new_engine cfg hash pattern_hash = record {
  config = cfg;
  hash = hash;
  pattern_hash = pattern_hash;
  shards = replicate cfg.num_shards empty_shard;
  subscriptions = new_subscriptions;
  patterns = Patterns.new_registry (has_registry cfg);
  channel_count = 0;
  subscription_count = 0;
  pattern_subs = 0;
  subscribe_ops = 0;
  unsubscribe_ops = 0;
}

-- `Add` of a counter with `n`, and with `-n`
abbrev pub up : ℕ → ℕ → ℕ
up count n = (count + n) % u64_mod

abbrev pub down : ℕ → ℕ → ℕ
down count n = (count + (u64_mod - n % u64_mod)) % u64_mod

-- The index that `getShard` takes. The number of shards is a power of two, so that the mask is a
-- remainder.
unfoldable pub shard_index : Engine → Bytes → ℕ
shard_index e name = e.hash name % length e.shards

-- `getShard`
unfoldable pub get_shard : Engine → Bytes → Shard
unfolding shard_index
get_shard e name = get_or e.shards (shard_index e name) empty_shard

-- A change of the shard of a name
unfoldable pub put_shard : Engine → Bytes → Shard → Engine
unfolding shard_index
put_shard e name sh = record e { shards = set e.shards (shard_index e name) sh }

-- `s.channels[name]`
unfoldable pub find : Engine → Bytes → Option Live
unfolding get_shard
find e name = lookup name (get_shard e name).channels

-- A change of a channel that is there
unfoldable pub put_live : Engine → Bytes → Live → Engine
unfolding put_shard get_shard
put_live e name ch =
    let sh = get_shard e name in
    put_shard e name (record sh { channels = insert name ch sh.channels })

-- `maybeRebuild`: the rebuilt map has the entries of the old one.
unfoldable pub maybe_rebuild : Shard → Shard
maybe_rebuild sh =
    if ltb 64 sh.peak && ltb (length sh.channels) (sh.peak / 4)
    then record sh { peak = length sh.channels }
    else sh

-- `delete(s.channels, name)` and the rebuild
unfoldable pub drop_from : Shard → Bytes → Shard
unfolding maybe_rebuild
drop_from sh name = maybe_rebuild (record sh { channels = delete name sh.channels })

-- The removal of a channel from its shard and from the count
unfoldable pub drop_channel : Engine → Bytes → Engine
unfolding put_shard get_shard drop_from
drop_channel e name = record (put_shard e name (drop_from (get_shard e name) name)) {
  channel_count = down e.channel_count 1;
}

-- The history of a new channel
abbrev pub history_for : Settings → Option History
history_for s = elim s.history_size [
  | pos size ↦ if ltb 0 size then some (new_history size s.history_ttl) else none
  | negsuc n ↦ none
]

-- The channel that `createChannelLocked` makes, where `epoch` is what `newEpoch` draws.
unfoldable pub new_live : Settings → ℕ → ℤ → Live
new_live s epoch now = record {
  members = new_channel;
  epoch = epoch;
  offset = 0;
  hist = history_for s;
  max_subs = s.max_subscribers;
  idle_reap = s.idle_reap;
  last_active = now;
  fanout = s.fanout;
  rr = 0;
}

-- `createChannelLocked`
unfoldable pub create_channel : Engine → Bytes → Settings → ℕ → ℤ → Engine × Live
unfolding put_shard get_shard new_live
create_channel e name s epoch now =
    let ch = new_live s epoch now in
    let sh = get_shard e name in
    let channels = insert name ch sh.channels in
    let grown = record sh { channels = channels; peak = max sh.peak (length channels) } in
    (record (put_shard e name grown) { channel_count = up e.channel_count 1 }, ch)

-- `channelSettings`; `none` where the namespace is unknown.
unfoldable pub channel_settings : Config → Bytes → Option Settings
channel_settings cfg name = elim cfg.namespaces [
  | some r ↦ resolve r name
  | none ↦ some (record {
    history_size = cfg.history_size;
    history_ttl = cfg.history_ttl;
    allow_publish = true;
    max_subscribers = pos 0;
    qos = at_most_once;
    redelivery_timeout = pos 0;
    max_redeliveries = pos 0;
    fanout = broadcast;
    allow_wildcard = false;
    idle_reap = pos 0;
  })
]
