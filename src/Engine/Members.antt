-- ===== src/Engine/Members.antt =====
-- Who is on which channel: `SubscribePriority`, `Unsubscribe`, `UnsubscribeAll`, the pattern variants
-- and the reaping of drained channels (internal/engine/engine.go).
pub mod Invariant
pub mod Joining
pub mod Leaving
pub mod Reaping
pub mod Patterned
pub mod LeavingAll
use gentis.Prelude.{
  ℕ, ℤ, pos, ◌%◌, Bytes, bytes_Eq, List, [], ◌∷◌, Option, none, some, Bool, true, false, not, ◌&&◌,
  if◌then◌else◌, length, lookup, ltb, ltb_ℤ, leb_ℤ, nat_eq, keys, map, is_some,
}
use gentis.Namespace.Settings.{
  Settings, FanoutMode, QosLevel, broadcast, round_robin, priority, is_at_least_once, is_positive,
}
use gentis.Namespace.Registry.{Registry, resolve}
use gentis.Namespace.Name.{split}
use gentis.Pattern.{is_pattern}
use gentis.Engine.Channel.{
  Channel, subscribe, unsubscribe, set_priority, clear_priority, subscriber_count,
}
use gentis.Engine.Subscriptions.{add_channel, remove_channel, remove_all, get_channels}
use gentis.Engine.Patterns as Patterns
use gentis.Engine.State.{
  Engine, EngineError, already_subscribed, unknown_namespace, channel_full, publish_denied,
  wildcard_denied, Live, Shard, Config, up, down, find, put_live, drop_from, drop_channel,
  create_channel, channel_settings,
}

abbrev pub is_priority : FanoutMode → Bool
is_priority broadcast = false
is_priority round_robin = false
is_priority priority = true

-- Whether a channel has neither subscriber nor history
unfoldable pub is_drained : Live → Bool
is_drained ch = nat_eq (subscriber_count ch.members) 0 && not (is_some ch.hist)

-- `SubscribePriority` from where the channel is known
unfoldable pub admit : Engine → Bytes → Live → ℕ → ℤ → Engine × Option EngineError
admit e name ch id prio =
    let (joined, new) = subscribe ch.members id in
    let ranked = if is_priority ch.fanout then set_priority joined id prio else joined in
    let there = put_live e name (record ch { members = ranked }) in
    if is_positive ch.max_subs && leb_ℤ ch.max_subs (pos (subscriber_count ch.members))
    then (e, some channel_full)
    else if not new
    then (e, some already_subscribed)
    else (
      record there {
        subscriptions = add_channel e.subscriptions id name;
        subscription_count = up e.subscription_count 1;
      },
      none,
    )

-- `SubscribePriority`; the second result is the error.
unfoldable pub subscribe_priority : Engine → ℕ → Bytes → ℤ → ℕ → ℤ → Engine × Option EngineError
unfolding admit
subscribe_priority e id name prio epoch now =
    let counted = record e { subscribe_ops = up e.subscribe_ops 1 } in
    elim (find e name) [
      | some ch ↦ admit counted name ch id prio
      | none ↦ elim (channel_settings e.config name) [
        | none ↦ (counted, some unknown_namespace)
        | some s ↦
            let (made, ch) = create_channel counted name s epoch now in admit made name ch id prio
      ]
    ]

-- What `Unsubscribe` and `UnsubscribeAll` do with the channel after a subscriber may have left
unfoldable pub settle : Engine → Bytes → Live → ℤ → Engine
settle e name ch now =
    if nat_eq (subscriber_count ch.members) 0
    then elim ch.hist [
      | none ↦ drop_channel e name
      | some h ↦
          if is_positive ch.idle_reap
          then put_live e name (record ch { last_active = now })
          else put_live e name ch
    ]
    else put_live e name ch

-- The channel after `Unsubscribe` of the channel and `clearPriority`, and whether the subscriber was there
unfoldable pub without : Live → ℕ → Live × Bool
without ch id =
    let (left, was) = unsubscribe ch.members id in
    let ranked = if was && is_priority ch.fanout then clear_priority left id else left in
    (record ch { members = ranked }, was)

-- `Unsubscribe`
unfoldable pub unsubscribe_one : Engine → ℕ → Bytes → ℤ → Engine × Bool
unfolding settle without
unsubscribe_one e id name now =
    let counted = record e { unsubscribe_ops = up e.unsubscribe_ops 1 } in
    elim (find e name) [
      | none ↦ (counted, false)
      | some ch ↦
          let (left, was) = without ch id in
          let settled = settle counted name left now in
          if not was then (counted, false) else (
            record settled {
              subscriptions = remove_channel e.subscriptions id name;
              subscription_count = down e.subscription_count 1;
            },
            true,
          )
    ]

-- The loop of `reapEmptyChannels` over one shard, where `seen` is the map it started with: the names
-- that are left to visit, the shard, and the count of channels.
unfoldable pub reap_names : List (Bytes × Live) → List Bytes → Shard → ℕ → Shard × ℕ
unfolding is_drained
reap_names seen [] sh count = (sh, count)
reap_names seen (name ∷ names) sh count = elim (lookup name seen) [
  | none ↦ reap_names seen names sh count
  | some ch ↦
      if is_drained ch
      then reap_names seen names (drop_from sh name) (down count 1)
      else reap_names seen names sh count
]

unfoldable pub reap_shards : List Shard → ℕ → List Shard × ℕ
unfolding reap_names
reap_shards [] count = ([], count)
reap_shards (sh ∷ shards) count =
    let (reaped, fewer) = reap_names sh.channels (keys sh.channels) sh count in
    let (others, fewest) = reap_shards shards fewer in (reaped ∷ others, fewest)

-- `reapEmptyChannels`
unfoldable pub reap_empty_channels : Engine → Engine
unfolding reap_shards
reap_empty_channels e =
    let (shards, count) = reap_shards e.shards e.channel_count in
    record e { shards = shards; channel_count = count }

-- The loop of `UnsubscribeAll`
unfoldable pub leave_each : Engine → ℕ → List Bytes → ℤ → Engine
unfolding settle without
leave_each e id [] now = e
leave_each e id (name ∷ names) now = elim (find e name) [
  | none ↦ leave_each e id names now
  | some ch ↦
      let (left, was) = without ch id in
      let settled = settle e name left now in
      let counted = record settled {
        subscription_count = if was then down e.subscription_count 1 else e.subscription_count;
      } in
      leave_each counted id names now
]

-- The end of `UnsubscribeAll`: the patterns
unfoldable pub leave_patterns : Engine → ℕ → Engine
unfolding reap_empty_channels
leave_patterns e id =
    let (patterns, n) = Patterns.remove_all e.patterns id in
    let fewer = down e.pattern_subs n in
    let left = record e {
      patterns = patterns;
      unsubscribe_ops = up e.unsubscribe_ops n;
      subscription_count = down e.subscription_count n;
      pattern_subs = fewer;
    } in
    if ltb 0 n
    then (if nat_eq fewer 0 then reap_empty_channels left else left)
    else record e { patterns = patterns }

-- `UnsubscribeAll`
unfoldable pub unsubscribe_all : Engine → ℕ → ℤ → Engine
unfolding leave_each leave_patterns
unsubscribe_all e id now =
    let names = get_channels e.subscriptions id in
    let counted =
      (if ltb 0 (length names)
        then record e { unsubscribe_ops = up e.unsubscribe_ops (length names) }
        else e) in
    let left = leave_each counted id names now in
    leave_patterns (record left { subscriptions = remove_all left.subscriptions id }) id

-- The admission of a pattern by its namespace
unfoldable pub pattern_denied : Config → Bytes → Option EngineError
pattern_denied cfg pat = elim cfg.namespaces [
  | none ↦ none
  | some r ↦
      let (ns, after, found) = split pat in
      if is_pattern ns then some wildcard_denied else elim (resolve r pat) [
        | none ↦ some unknown_namespace
        | some s ↦ if not s.allow_wildcard then some wildcard_denied else none
      ]
]

-- `SubscribePattern`
unfoldable pub subscribe_pattern : Engine → ℕ → Bytes → Engine × Option EngineError
unfolding pattern_denied
subscribe_pattern e id pat =
    let counted = record e { subscribe_ops = up e.subscribe_ops 1 } in
    let (patterns, new) = Patterns.add e.patterns id pat in
    elim (pattern_denied e.config pat) [
      | some why ↦ (e, some why)
      | none ↦ if not new then (counted, some already_subscribed) else (
        record counted {
          patterns = patterns;
          pattern_subs = up e.pattern_subs 1;
          subscription_count = up e.subscription_count 1;
        },
        none,
      )
    ]

-- `UnsubscribePattern`
unfoldable pub unsubscribe_pattern : Engine → ℕ → Bytes → Engine × Bool
unfolding reap_empty_channels
unsubscribe_pattern e id pat =
    let (patterns, was) = Patterns.remove e.patterns id pat in
    let fewer = down e.pattern_subs 1 in
    let left = record e {
      patterns = patterns;
      unsubscribe_ops = up e.unsubscribe_ops 1;
      subscription_count = down e.subscription_count 1;
      pattern_subs = fewer;
    } in
    if not was
    then (e, false)
    else (if nat_eq fewer 0 then reap_empty_channels left else left, true)

-- `QoSPolicy`
unfoldable pub qos_policy : Config → Bytes → Bool × ℤ × ℤ
qos_policy cfg channel = elim cfg.namespaces [
  | none ↦ (false, pos 0, pos 0)
  | some r ↦ elim (resolve r channel) [
    | none ↦ (false, pos 0, pos 0)
    | some s ↦
        if not (is_at_least_once s.qos)
        then (false, pos 0, pos 0)
        else (true, s.redelivery_timeout, s.max_redeliveries)
  ]
]

-- `CheckPublish`
unfoldable pub check_publish : Config → Bytes → Option EngineError
check_publish cfg channel = elim cfg.namespaces [
  | none ↦ none
  | some r ↦ elim (resolve r channel) [
    | none ↦ some unknown_namespace
    | some s ↦ if not s.allow_publish then some publish_denied else none
  ]
]
