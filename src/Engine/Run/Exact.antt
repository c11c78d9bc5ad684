-- ===== src/Engine/Run/Exact.antt =====
-- The count of the subscriptions to patterns stays exact.
use gentis.Prelude.{
  ℕ, ℤ, pos, leb_ℤ, ◌+◌, ◌<◌, ◌%◌, ◌≡◌, refl, sym, ap, ◌∙◌, Bytes, bytes_Eq, List, Option, Bool,
  false, not, ◌&&◌, length, nat_eq, arith, if_cases, option_cases, ltb, u64_mod, get_or, is_empty,
  is_some,
}
use gentis.Namespace.Settings.{is_positive}
use gentis.Engine.Channel.{subscriber_count, subscribe}
use gentis.Engine.Patterns as Patterns
use gentis.Engine.Patterns.{subscribers_for, small_cache, pattern_cache_shards}
use gentis.Engine.Patterns.Total.{total, total-add, total-remove, total-remove_all}
use gentis.Engine.State.{
  Engine, EngineError, Live, Config, new_engine, new_live, up, down, create_channel, put_live,
  put_shard, drop_channel, channel_settings, find,
}
use gentis.Engine.Members.{
  subscribe_priority, unsubscribe_one, unsubscribe_all, subscribe_pattern, unsubscribe_pattern,
  leave_patterns, without, reap_empty_channels, pattern_denied, admit, is_drained,
}
use gentis.Engine.Members.Invariant.{IsValid}
use gentis.Engine.Members.Reaping.{with_patterns, reap_if_none}
use gentis.Engine.Members.Leaving.{settle-Rest}
use gentis.Engine.Members.LeavingAll.{exact_left, exact_left_lem}
use gentis.Engine.Publish.{
  publish, publish_to, PublishResult, target, stamp, fan_out, recipients, wildcard_ids, write_back,
  count_fan_out, materialize_channel, drop_drained_channel,
}
use gentis.Engine.Sweeper.{sweep_engine}
use gentis.Engine.Publish.Kept.{noted}
use gentis.Engine.Fanout.{Delivery, Counts, plus, deliver_patterns}
use gentis.Pattern.Cache.{get}

-- The count of the subscriptions to patterns is exact.
pub record IsExact (e : Engine) : Type 0 where
  pub exact : e.pattern_subs ≡ total e.patterns.subs
  pub word : e.pattern_subs < u64_mod

pub new_engine-IsExact :
    (cfg : Config) (hash pattern_hash : Bytes → ℕ) → IsExact (new_engine cfg hash pattern_hash)
unfolding new_engine Patterns.new_registry
new_engine-IsExact cfg hash pattern_hash = record { exact = refl; word = omega arith }

same-IsExact :
    (e f : Engine)
    → f.pattern_subs ≡ e.pattern_subs
    → f.patterns.subs ≡ e.patterns.subs
    → IsExact e
    → IsExact f
same-IsExact e f n p x = record { exact = n ∙ x.exact ∙ ap total (sym p); word = rw (n) x.word }

down-exact : (a b n : ℕ) → b + n ≡ a → a < u64_mod → down a n ≡ b
down-exact a b n e h = omega arith

added_one : (a b : ℕ) {c : ℕ} → a + 1 < u64_mod → a ≡ c → b ≡ c + 1 → up a 1 ≡ b
added_one a b h e f = omega (arith, e, f)

pub subscribe_pattern-IsExact :
    (e : Engine) (id : ℕ) (pat : Bytes)
    → e.pattern_subs + 1 < u64_mod
    → IsExact e
    → IsExact (subscribe_pattern e id pat).0
unfolding subscribe_pattern
subscribe_pattern-IsExact e id pat room x =
    let Exact : Engine × Option EngineError → Type 0 =
      λ (r : Engine × Option EngineError). IsExact r.0 in
    let t = total-add e.patterns id pat in
    option_cases Exact (pattern_denied e.config pat) _ _
      (λ _.
        if_cases Exact (not (Patterns.add e.patterns id pat).1) _ _
          (λ dup. record { exact = x.exact; word = x.word })
          (λ new. record {
            exact = added_one e.pattern_subs _ room x.exact (ground (arith, t));
            word = omega arith;
          }))
      (λ why _. x)

reap_if-IsExact :
    (e : Engine) (p : Patterns.Registry) (ops subs n : ℕ)
    → n ≡ total p.subs
    → n < u64_mod
    → IsExact (reap_if_none (with_patterns e p ops subs n))
unfolding reap_empty_channels
reap_if-IsExact e p ops subs n exact word =
    if_cases IsExact (nat_eq n 0) _ _ (λ _. record { exact = exact; word = word })
      (λ _. record { exact = exact; word = word })

pub unsubscribe_pattern-IsExact :
    (e : Engine) (id : ℕ) (pat : Bytes)
    → IsValid e
    → IsExact e
    → IsExact (unsubscribe_pattern e id pat).0
unfolding unsubscribe_pattern
unsubscribe_pattern-IsExact e id pat v x =
    let Exact : Engine × Bool → Type 0 = λ (r : Engine × Bool). IsExact r.0 in
    let p = (Patterns.remove e.patterns id pat).0 in
    let t = total-remove e.patterns id pat v.sound.wild.tables in
    if_cases Exact (not (Patterns.remove e.patterns id pat).1) _ _ (λ out. x)
      (λ found.
        let exact =
          down-exact e.pattern_subs (total p.subs) 1 (ground (arith, t, x.exact)) x.word in
        reap_if-IsExact e p (up e.unsubscribe_ops 1) (down e.subscription_count 1)
          (down e.pattern_subs 1) exact (omega arith))

leave_patterns-IsExact :
    (e : Engine) (id : ℕ) → IsValid e → IsExact e → IsExact (leave_patterns e id)
unfolding leave_patterns
leave_patterns-IsExact e id v x =
    let p = (Patterns.remove_all e.patterns id).0 in
    let n = (Patterns.remove_all e.patterns id).1 in
    let t = total-remove_all e.patterns id v.sound.wild.tables in
    let exact = down-exact e.pattern_subs (total p.subs) n (t ∙ sym x.exact) x.word in
    if_cases IsExact (ltb 0 n) _ _
      (λ _.
        reap_if-IsExact e p (up e.unsubscribe_ops n) (down e.subscription_count n)
          (down e.pattern_subs n) exact (omega arith))
      (λ none_left. record { exact = x.exact ∙ sym t ∙ ground (arith, none_left); word = x.word })

pub unsubscribe_all-IsExact :
    (e : Engine) (id : ℕ) (now : ℤ) → IsValid e → IsExact e → IsExact (unsubscribe_all e id now)
unfolding unsubscribe_all
unsubscribe_all-IsExact e id now v x =
    let left = exact_left_lem e id now v in
    leave_patterns-IsExact (exact_left e id now) id left.valid (
      same-IsExact e _ left.same_count (ap (λ (p : Patterns.Registry). p.subs) left.same_patterns)
        x)

pub unsubscribe_one-IsExact :
    (e : Engine) (id : ℕ) (name : Bytes) (now : ℤ)
    → IsExact e
    → IsExact (unsubscribe_one e id name now).0
unfolding unsubscribe_one
unsubscribe_one-IsExact e id name now x =
    let Exact : Engine × Bool → Type 0 = λ (r : Engine × Bool). IsExact r.0 in
    let counted : Engine = record e { unsubscribe_ops = up e.unsubscribe_ops 1 } in
    let same = same-IsExact e counted refl refl x in
    option_cases Exact (find e name) _ _ (λ _. same)
      (λ ch _.
        if_cases Exact (not (without ch id).1) _ _ (λ _. same)
          (λ _.
            let r = settle-Rest counted name (without ch id).0 now in
            same-IsExact e _ r.same_count (ap (λ (p : Patterns.Registry). p.subs) r.same_patterns)
              x))

admit-IsExact :
    (e : Engine) (name : Bytes) (ch : Live) (id : ℕ) (prio : ℤ)
    → IsExact e
    → IsExact (admit e name ch id prio).0
unfolding admit put_live put_shard
admit-IsExact e name ch id prio x =
    let Exact : Engine × Option EngineError → Type 0 =
      λ (r : Engine × Option EngineError). IsExact r.0 in
    if_cases Exact
      (is_positive ch.max_subs && leb_ℤ ch.max_subs (pos (subscriber_count ch.members))) _ _
      (λ _. x)
      (λ _.
        if_cases Exact (not (subscribe ch.members id).1) _ _ (λ _. x)
          (λ _. same-IsExact e _ refl refl x))

pub subscribe_priority-IsExact :
    (e : Engine) (id : ℕ) (name : Bytes) (prio : ℤ) (epoch : ℕ) (now : ℤ)
    → IsExact e
    → IsExact (subscribe_priority e id name prio epoch now).0
unfolding subscribe_priority create_channel put_shard
subscribe_priority-IsExact e id name prio epoch now x =
    let Exact : Engine × Option EngineError → Type 0 =
      λ (r : Engine × Option EngineError). IsExact r.0 in
    let counted : Engine = record e { subscribe_ops = up e.subscribe_ops 1 } in
    let same = same-IsExact e counted refl refl x in
    option_cases Exact (find e name) _ _
      (λ _.
        option_cases Exact (channel_settings e.config name) _ _ (λ _. same)
          (λ s _.
            admit-IsExact (create_channel counted name s epoch now).0 name (new_live s epoch now) id
              prio (same-IsExact e _ refl refl x)))
      (λ ch _. admit-IsExact counted name ch id prio same)

subscribers_for-subs :
    (hash : Bytes → ℕ) (order : List Bytes) (p : Patterns.Registry) (name : Bytes)
    → (subscribers_for hash order p name).0.subs ≡ p.subs
unfolding subscribers_for
subscribers_for-subs hash order p name =
    let Same : Patterns.Registry × List ℕ → Type 0 =
      λ (r : Patterns.Registry × List ℕ). r.0.subs ≡ p.subs in
    if_cases Same (is_empty p.snap.entries) _ _ (λ _. refl)
      (λ _.
        option_cases Same
          (get (get_or p.caches (hash name % pattern_cache_shards) small_cache) name) _ _
          (λ _. refl) (λ m _. if_cases Same (nat_eq m.gen p.snap.gen) _ _ (λ _. refl) (λ _. refl)))

wildcard_ids-IsExact :
    (order : List Bytes) (e : Engine) (name : Bytes)
    → IsExact e
    → IsExact (wildcard_ids order e name).0
unfolding wildcard_ids
wildcard_ids-IsExact order e name x =
    if_cases (λ (r : Engine × List ℕ). IsExact r.0) (nat_eq e.pattern_subs 0) _ _ (λ _. x)
      (λ _. same-IsExact e _ refl (subscribers_for-subs e.pattern_hash order e.patterns name) x)

materialize-IsExact :
    (e : Engine) (name : Bytes) (epoch : ℕ) (now : ℤ)
    → IsExact e
    → IsExact (materialize_channel e name epoch now).0
unfolding materialize_channel create_channel put_shard
materialize-IsExact e name epoch now x =
    let Exact : Engine × Option Live → Type 0 = λ (r : Engine × Option Live). IsExact r.0 in
    option_cases Exact (channel_settings e.config name) _ _ (λ _. x)
      (λ s _. option_cases Exact (find e name) _ _ (λ _. same-IsExact e _ refl refl x) (λ _ _. x))

drop_drained-IsExact :
    (e : Engine) (name : Bytes) → IsExact e → IsExact (drop_drained_channel e name)
unfolding drop_drained_channel drop_channel put_shard
drop_drained-IsExact e name x =
    option_cases IsExact (find e name) _ _ (λ _. x)
      (λ ch _. if_cases IsExact (is_drained ch) _ _ (λ _. same-IsExact e _ refl refl x) (λ _. x))

target-IsExact :
    (order : List Bytes) (e : Engine) (name : Bytes) (epoch : ℕ) (now : ℤ)
    → IsExact e
    → IsExact (target order e name epoch now).0
unfolding target
target-IsExact order e name epoch now x =
    let Exact : Engine × Option Live → Type 0 = λ (r : Engine × Option Live). IsExact r.0 in
    let asked = (wildcard_ids order e name).0 in
    let asked_exact = wildcard_ids-IsExact order e name x in
    let made = materialize_channel asked name epoch now in
    let made_exact = materialize-IsExact asked name epoch now asked_exact in
    option_cases Exact (find e name) _ _
      (λ _.
        if_cases Exact (nat_eq (length (wildcard_ids order e name).1) 0) _ _ (λ _. asked_exact)
          (λ _.
            if_cases Exact (is_some made.1 && nat_eq made.0.pattern_subs 0) _ _
              (λ _. drop_drained-IsExact made.0 name made_exact) (λ _. made_exact)))
      (λ _ _. x)

write_back-IsExact :
    (e : Engine) (name : Bytes) (ch : Live) → IsExact e → IsExact (write_back e name ch)
unfolding write_back put_live put_shard
write_back-IsExact e name ch x =
    if_cases IsExact (is_some (find e name)) _ _ (λ _. same-IsExact e _ refl refl x) (λ _. x)

count-IsExact :
    (e : Engine) (name : Bytes) (c : Counts) → IsExact e → IsExact (count_fan_out e name c)
unfolding count_fan_out put_shard
count-IsExact e name c x = same-IsExact e _ refl refl x

module _ (deliver : ℕ → Delivery → Bool) (exclude : ℕ) (order : List Bytes) where
  publish_to-IsExact :
      (e : Engine) (name : Bytes) (ch : Live) (payload : Bytes) (now : ℤ)
      → IsExact e
      → IsExact (publish_to deliver exclude order e name ch payload now).0
  unfolding publish_to
  publish_to-IsExact e name ch payload now x =
      let Exact : Engine × Option (PublishResult × List ℕ) → Type 0 =
        λ (r : Engine × Option (PublishResult × List ℕ)). IsExact r.0 in
      let asked = (wildcard_ids order e name).0 in
      let d : Delivery = record {
        channel = name;
        payload = payload;
        offset = (stamp ch payload now).1;
        epoch = ch.epoch;
        framed = false;
      } in
      let fan =
        fan_out deliver exclude e.config d (stamp ch payload now).0 (wildcard_ids order e name).1 in
      let written = write_back asked name (record (stamp ch payload now).0 { rr = fan.2 }) in
      let written_exact =
        write_back-IsExact asked name (record (stamp ch payload now).0 { rr = fan.2 })
          (wildcard_ids-IsExact order e name x) in
      option_cases Exact fan.0 _ _ (λ _. written_exact)
        (λ exact _.
          count-IsExact written name
            (plus exact (
              deliver_patterns deliver fan.1 exclude (recipients (stamp ch payload now).0)
                (wildcard_ids order e name).1))
            written_exact)

  pub publish-IsExact :
      (e : Engine) (name payload : Bytes) (epoch : ℕ) (now : ℤ)
      → IsExact e
      → IsExact (publish deliver exclude order e name payload epoch now).0
  unfolding publish put_shard
  publish-IsExact e name payload epoch now x =
      let counted = noted e name payload in
      let ready =
        target-IsExact order counted name epoch now (same-IsExact e counted refl refl x) in
      option_cases (λ (r : Engine × Option (PublishResult × List ℕ)). IsExact r.0)
        (target order counted name epoch now).1 _ _ (λ _. ready)
        (λ ch _.
          publish_to-IsExact (target order counted name epoch now).0 name ch payload now ready)

pub sweep_engine-IsExact : (e : Engine) (now : ℤ) → IsExact e → IsExact (sweep_engine e now)
unfolding sweep_engine
sweep_engine-IsExact e now x = same-IsExact e (sweep_engine e now) refl refl x
