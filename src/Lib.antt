-- ===== src/Lib.antt =====
-- A model of gentis, a publish/subscribe server: clients connect over a transport, subscribe to channels
-- and publish to them; an engine fans publications out and keeps a history, windows give at-least-once
-- delivery, and a relay connects servers.
--
-- The parts and the files that model them, by paths from the repository's root:
--   Pattern, Pattern/Cache    internal/pattern/pattern.go: Match, IsPattern, HasReserved, Cache
--   Namespace                 internal/namespace/namespace.go: validate, Split, Resolve, Build
--   Auth/Claims, Auth/Verify  internal/auth/auth.go: the claims, HMACVerifier.Verify
--   Qos/Window                internal/qos/window.go: Admit, Baseline, Reset, Confirm, CheckRedelivery
--   Qos/Consumer              internal/qos/consumer.go: Subscribe, Unsubscribe, Stop, Deliver
--   Engine/History            internal/engine/history.go: appendNext, replayN, sweep
--   Engine/Channel            internal/engine/channel.go: Subscribe, Unsubscribe, setPriority
--   Engine/Subscriptions      internal/engine/subscription.go: channelSet, subscriptions
--   Engine/Patterns           internal/engine/pattern.go: patternRegistry
--   Engine/State              internal/engine/engine.go, shard.go: Engine, Shard, createChannelLocked
--   Engine/Members            internal/engine/engine.go: SubscribePriority, UnsubscribeAll, SubscribePattern
--   Engine/Fanout             internal/engine/fanout.go, engine.go: parallelFanout, deliverPatterns
--   Engine/Publish            internal/engine/engine.go: Publish, materializeChannel, RecoverN
--   Engine/Sweeper            internal/engine/engine.go: runHistorySweeper, historySweepInterval, Stats
--   Engine/Run                sequences of calls of the engine and ticks of its sweeper
--   Transport                 internal/transport/transport.go: SessionStore
--   Client                    internal/client/client.go: State
--   Protocol                  internal/protocol: the ops that each transport runs
--   Relay/Router, Relay/Dedup internal/relay/router.go, internal/relay/dedup.go
-- Prelude holds what they share: tests, lists, bytes, integers, maps as association lists. Tests holds
-- runs at concrete inputs.
--
-- State is a record, an operation is a function from state to state, and a method under a lock is one
-- step. Strings are lists of bytes; 64-bit offsets wrap around where the code adds to them; Go's `int`
-- and durations are integers without bound. The order in which Go ranges over a map is an argument or
-- the order of the list. Sizes are those of the source: a cache of 10000
-- routes, 32 and 16 shards, 8 channels in a flat set, 2^32 - 1 generations of a slot.
--
-- Two loops run on fuel. `Match` has enough for each byte of the name to be retried from each byte of
-- the pattern; the sweep of a history has one round for each item.
--
-- The protocol's ops take the engine and the consumer as records of operations, as the code takes
-- them as interfaces, and the verifier's answer as an argument. Base64, JSON and HMAC are a record of
-- functions. Clocks are arguments. The engine runs one call after the other; its `int64` counters stand
-- by their 64 bits, and a callback of `Publish` is a function from recipient and delivery to whether it accepts.
--
-- Not modelled: the transports' input and output, the network side
-- of the relay, the arena, the pooling of channels and calls of the engine that overlap, the pool of fan-out workers, the
-- GC pacer, metrics and configuration files.
pub mod Prelude
pub mod Pattern
pub mod Namespace
pub mod Auth
pub mod Qos
pub mod Engine
pub mod Client
pub mod Protocol
pub mod Relay
pub mod Transport
pub mod Tests
