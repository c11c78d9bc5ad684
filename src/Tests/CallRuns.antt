-- ===== src/Tests/CallRuns.antt =====
-- Runs of the whole engine, and its theorems at such runs.
use gentis.Prelude.{
  ℕ, pos, ◌+◌, ◌%◌, ◌<◌, ◌≡◌, ◌↔◌, refl, sym, subst, Bytes, bytes_Eq, codes, List, [], ◌∷◌, none,
  some, Bool, true, not, ◌&&◌, ◌||◌, ◌==◌, nat_eq, nat_Eq, length, contains, Distinct, is_some,
  lookup, insert, arith, u64_mod,
}
use gentis.Namespace.Settings.{broadcast}
use gentis.Engine.History.{Item, new_history}
use gentis.Engine.Channel.{subscribers, subscribe, new_channel}
use gentis.Engine.Patterns as Patterns
use gentis.Engine.Patterns.Tables as Tables
use gentis.Engine.Patterns.{subscribers_for}
use gentis.Engine.Patterns.Coherence.{IsCoherent}
use gentis.Engine.Patterns.Answers.{Reaches, subscribers_for_lem}
use gentis.Engine.State.{
  Engine, Config, Live, new_engine, find, get_shard, shard_index, create_channel, new_live,
  put_live, channel_settings,
}
use gentis.Engine.Members.{
  subscribe_priority, unsubscribe_one, unsubscribe_all, subscribe_pattern, unsubscribe_pattern,
  admit, pattern_denied,
}
use gentis.Engine.Members.Invariant.{IsValid, member}
use gentis.Engine.Members.Joining.{member-subscribe_priority}
use gentis.Engine.Members.Leaving.{unsubscribe_one_lem}
use gentis.Engine.Members.LeavingAll.{unsubscribe_all_lem}
use gentis.Engine.Members.Patterned.{subscribe_pattern_lem, unsubscribe_pattern_lem}
use gentis.Engine.Fanout.{Delivery}
use gentis.Engine.Publish.{PublishResult, publish, spread}
use gentis.Engine.Publish.Reached.{IsReached, IsCounted, publish_lem}
use gentis.Engine.Publish.Panics.{spread-panics}
use gentis.Engine.Run.{Run, start, then_subscribe, then_subscribe_pattern}
use gentis.Engine.Run.Safe.{run-IsSafe}

abbrev pub small : Config
small = record {
  num_shards = 2;
  fanout_threshold = 100000;
  fanout_workers = 4;
  history_size = pos 4;
  history_ttl = pos 0;
  namespaces = none;
}

abbrev pub by_length : Bytes → ℕ
by_length name = length name

abbrev pub news : Bytes
news = codes "news"

abbrev pub any : Bytes
any = codes "n*"

-- One subscriber of a channel, and then one of a pattern that reaches it.
abbrev joined : Engine
joined = (subscribe_priority (new_engine small by_length by_length) 7 news (pos 0) 5 (pos 1)).0

abbrev pub both : Engine
both = (subscribe_pattern joined 8 any).0

joined-Run : Run small by_length by_length joined
joined-Run = then_subscribe (new_engine small by_length by_length) 7 news (pos 0) 5 (pos 1) start

joined-room : joined.pattern_subs + 1 < u64_mod
unfolding subscribe_priority new_engine find get_shard shard_index lookup create_channel admit
    channel_settings subscribe new_channel put_live
joined-room = omega arith

both-Run : Run small by_length by_length both
both-Run = then_subscribe_pattern joined 8 any joined-room joined-Run

run-IsSafe_example : IsValid both × IsCounted both
run-IsSafe_example = run-IsSafe small by_length by_length both (omega arith) both-Run

abbrev pub blank : Item
blank = record { offset = 0; payload = []; stored_at = pos 0 }

abbrev pub held : Live
held = record {
  members = record { subscribers = some (7 ∷ []); prios = none; top_cohort = none };
  epoch = 5;
  offset = 0;
  hist = some (record {
    entries = blank ∷ blank ∷ blank ∷ blank ∷ [];
    head = 0;
    count = 0;
    ttl = pos 0;
    last_offset = 0;
  });
  max_subs = pos 0;
  idle_reap = pos 0;
  last_active = pos 1;
  fanout = broadcast;
  rr = 0;
}

pub held-found : find both news ≡ some held
unfolding find get_shard shard_index lookup subscribe_pattern subscribe_priority new_engine
    create_channel admit channel_settings subscribe new_channel put_live insert new_live
    pattern_denied subscribers Patterns.add Patterns.new_registry new_history
held-found = refl

pub both-IsValid : IsValid both
both-IsValid = (run-IsSafe small by_length by_length both (omega arith) both-Run).0

joined-IsValid : IsValid joined
joined-IsValid = (run-IsSafe small by_length by_length joined (omega arith) joined-Run).0

small-config : both.config ≡ small
unfolding subscribe_pattern subscribe_priority new_engine create_channel admit channel_settings
    subscribe new_channel put_live pattern_denied subscribers find get_shard shard_index lookup
    Patterns.add Patterns.new_registry
small-config = refl

abbrev pub yes_all : ℕ → Delivery → Bool
yes_all id d = true

-- 7, on the channel, publishes; 8 hears of it through its pattern.
publish_lem_example :
    (r : PublishResult) × (tried : List ℕ) × ((publish yes_all 7 [] both news
        (codes "hi")
        6
        (pos 2)).1
      ≡ some (r, tried))
    × (r.offset ≡ (held.offset + 1) % u64_mod)
    × (r.epoch ≡ held.epoch)
    × IsReached yes_all 7 both news (codes "hi") r tried
publish_lem_example =
    publish_lem yes_all 7 [] both news held (codes "hi") 6 (pos 2) both-IsValid
      (run-IsSafe small by_length by_length both (omega arith) both-Run).1
      (subst (λ (c : Config). 0 < c.fanout_threshold) (sym small-config) (omega arith)) held-found
      refl

unsubscribe_all_lem_example :
    (member (unsubscribe_all both 8 (pos 3)) 8 news ≡ (member both 8 news && not (nat_eq 8 8)))
    × (Tables.on (unsubscribe_all both 8 (pos 3)).patterns 8 any
        ≡ (Tables.on both.patterns 8 any && not (nat_eq 8 8)))
    × IsValid (unsubscribe_all both 8 (pos 3))
unsubscribe_all_lem_example = unsubscribe_all_lem both 8 (pos 3) 8 news any both-IsValid

member-subscribe_priority_example :
    member (subscribe_priority joined 9 news (pos 1) 6 (pos 2)).0 9 news ≡ (
      member joined 9 news
      || (not (is_some (subscribe_priority joined 9 news (pos 1) 6 (pos 2)).1)
          && (nat_eq 9 9 && news == news)))
member-subscribe_priority_example =
    member-subscribe_priority joined 9 news (pos 1) 6 (pos 2) 9 news joined-IsValid

unsubscribe_one_lem_example :
    ((unsubscribe_one both 7 news (pos 3)).1 ≡ member both 7 news)
    × (member (unsubscribe_one both 7 news (pos 3)).0 7 news
        ≡ (member both 7 news && not (nat_eq 7 7 && news == news)))
    × IsValid (unsubscribe_one both 7 news (pos 3)).0
unsubscribe_one_lem_example = unsubscribe_one_lem both 7 news (pos 3) 7 news both-IsValid

subscribe_pattern_lem_example :
    (Tables.on (subscribe_pattern joined 8 any).0.patterns 8 any ≡ (
      Tables.on joined.patterns 8 any
      || (not (is_some (subscribe_pattern joined 8 any).1) && (nat_eq 8 8 && any == any))))
    × (member (subscribe_pattern joined 8 any).0 8 news ≡ member joined 8 news)
    × IsValid (subscribe_pattern joined 8 any).0
subscribe_pattern_lem_example =
    subscribe_pattern_lem joined 8 any 8 news any joined-IsValid joined-room

unsubscribe_pattern_lem_example :
    ((unsubscribe_pattern both 8 any).1 ≡ Tables.on both.patterns 8 any)
    × (Tables.on (unsubscribe_pattern both 8 any).0.patterns 8 any
        ≡ (Tables.on both.patterns 8 any && not (nat_eq 8 8 && any == any)))
    × (member (unsubscribe_pattern both 8 any).0 8 news ≡ member both 8 news)
    × IsValid (unsubscribe_pattern both 8 any).0
unsubscribe_pattern_lem_example = unsubscribe_pattern_lem both 8 any 8 news any both-IsValid

subscribers_for_lem_example :
    Distinct (subscribers_for by_length [] both.patterns news).1
    × ((contains (subscribers_for by_length [] both.patterns news).1 8 ≡ true)
        ↔ ((pat : Bytes) × Reaches both.patterns news 8 pat))
    × IsCoherent (subscribers_for by_length [] both.patterns news).0
subscribers_for_lem_example =
    subscribers_for_lem by_length [] both.patterns news 8 both-IsValid.sound.wild

abbrev note : Delivery
note = record { channel = news; payload = codes "hi"; offset = 1; epoch = 5; framed = true }

abbrev eager : Config
eager = record small { fanout_threshold = 0 }

spread-panics_example :
    (spread yes_all 7 eager note [] ≡ none)
    ↔ ((length {A = ℕ} [] ≡ 0) × (eager.fanout_threshold ≡ 0) × (1 < eager.fanout_workers))
spread-panics_example = spread-panics yes_all 7 eager note []
