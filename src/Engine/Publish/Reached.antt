-- ===== src/Engine/Publish/Reached.antt =====
-- Who gets a publication: the subscribers of its channel and those whose patterns reach it.
use gentis.Engine.History.{append_next}
use gentis.Prelude.{
  u64_mod, ◌%◌, ℕ, ℤ, ◌+◌, ◌<◌, ◌≡◌, ◌≢◌, refl, sym, ap, ◌∙◌, subst, ◌↔◌, ◌⊎◌, inl, inr, Bytes,
  bytes_Eq, bytes_eq_iff, List, Option, some, Bool, true, false, not, ◌&&◌, ◌||◌, length, contains,
  Distinct, nat_eq, nat_eq_iff, nat_Eq, arith, false≢true, if_cases, leb, ltb, Bool-cases,
  Option-cases,
}
use gentis.Namespace.Settings.{broadcast}
use gentis.Engine.Channel.{subscribers}
use gentis.Engine.Patterns.Tables as Tables
use gentis.Engine.Patterns.Coherence.{IsCoherent}
use gentis.Engine.Patterns.Answers.{Reaches, subscribers_for_lem}
use gentis.Engine.State.{Engine, Live, Config, find, put_shard}
use gentis.Engine.State.Find.{find-put_shard}
use gentis.Engine.Members.Invariant.{IsValid, IsFine, holds, member}
use gentis.Engine.Fanout.{Delivery, Counts, plus, deliver_each, deliver_patterns}
use gentis.Engine.Fanout.Chunks.{parallel_fanout_lem}
use gentis.Engine.Fanout.Wildcard.{accepted, fan_out_lem}
use gentis.Engine.Publish.Kept.{noted}
use gentis.Engine.Publish.{
  PublishResult, wildcard_ids, target, stamp, recipients, spread, fan_out, publish_to, publish,
}

-- The count of pattern subscriptions is 0 only where there is none.
abbrev pub IsCounted : Engine → Type 0
IsCounted e = e.pattern_subs ≡ 0 → (id : ℕ) (pat : Bytes) → Tables.on e.patterns id pat ≡ false

-- With a threshold above 0, the fan-out never divides by 0, and delivers as the sequential loop.
spread-each :
    (deliver : ℕ → Delivery → Bool) (exclude : ℕ) (cfg : Config) (d : Delivery) (subs : List ℕ)
    → 0 < cfg.fanout_threshold
    → spread deliver exclude cfg d subs ≡ some (deliver_each deliver d exclude subs)
unfolding spread
spread-each deliver exclude cfg d subs h =
    if_cases (λ (r : Option Counts). r ≡ some (deliver_each deliver d exclude subs))
      (leb cfg.fanout_threshold (length subs) && ltb 1 cfg.fanout_workers) _ _
      (λ parallel.
        parallel_fanout_lem deliver d exclude cfg.fanout_workers subs (ground (arith, parallel))
          (ground (arith, parallel)))
      (λ _. refl)

-- The wildcard subscribers that a publication counts on.
wildcard_ids_lem :
    (order : List Bytes) (e : Engine) (name : Bytes) (j : ℕ)
    → IsCoherent e.patterns
    → IsCounted e
    → Distinct (wildcard_ids order e name).1
      × ((contains (wildcard_ids order e name).1 j ≡ true)
          ↔ ((pat : Bytes) × Reaches e.patterns name j pat))
unfolding wildcard_ids
wildcard_ids_lem order e name j v counted =
    let Right : Engine × List ℕ → Type 0 = λ (r : Engine × List ℕ).
      Distinct r.1 × ((contains r.1 j ≡ true) ↔ ((pat : Bytes) × Reaches e.patterns name j pat)) in
    let (once, iff, _) = subscribers_for_lem e.pattern_hash order e.patterns name j v in
    if_cases Right (nat_eq e.pattern_subs 0) _ _
      (λ none_there. (
        tt,
        (
          λ h. absurd (false≢true h),
          λ (pat, r). absurd (
              false≢true
                (sym (counted ((nat_eq_iff e.pattern_subs 0).0 none_there) j pat) ∙ r.subscribed)),
        ),
      ))
      (λ _. (once, iff))

-- What a publication did.
pub record IsReached (deliver : ℕ → Delivery → Bool) (exclude : ℕ) (e : Engine)
    (name payload : Bytes) (r : PublishResult) (tried : List ℕ) : Type 0 where
  pub sent : Delivery
  pub what :
      (sent.channel ≡ name)
      × (sent.payload ≡ payload)
      × (sent.offset ≡ r.offset)
      × (sent.epoch ≡ r.epoch)
  pub once : Distinct tried
  pub whom :
      (j : ℕ)
      → (contains tried j ≡ true) ↔ (
          (j ≢ exclude)
          × ((member e j name ≡ true) ⊎ ((pat : Bytes) × Reaches e.patterns name j pat)))
  pub took : r.delivered ≡ accepted (λ id. deliver id sent) tried
  pub sum : r.delivered + r.dropped ≡ length tried

stamp-same :
    (ch : Live) (payload : Bytes) (now : ℤ)
    → ((stamp ch payload now).0.fanout ≡ ch.fanout)
      × ((stamp ch payload now).0.members ≡ ch.members)
unfolding stamp
stamp-same ch payload now =
    (ground (arith, Option-cases ch.hist), ground (arith, Option-cases ch.hist))

stamp-offset :
    (ch : Live) (payload : Bytes) (now : ℤ) → (stamp ch payload now).1 ≡ (ch.offset + 1) % u64_mod
unfolding stamp append_next
stamp-offset ch payload now = ground (arith, Option-cases ch.hist)

recipients-broadcast : (ch : Live) → ch.fanout ≡ broadcast → recipients ch ≡ subscribers ch.members
unfolding recipients
recipients-broadcast ch b = rw (b) refl

abbrev shared : Delivery → List ℕ → List ℕ → Delivery
shared d subs ids = record d { framed = ltb 1 (length subs + length ids) }

fan_out-broadcast :
    (deliver : ℕ → Delivery → Bool) (exclude : ℕ) (cfg : Config) (d : Delivery) (ch : Live)
    (ids : List ℕ)
    → ch.fanout ≡ broadcast
    → 0 < cfg.fanout_threshold
    → (fan_out deliver exclude cfg d ch ids).0
        ≡ some (
            deliver_each deliver
              (shared d (subscribers ch.members) ids)
              exclude
              (subscribers ch.members))
      × ((fan_out deliver exclude cfg d ch ids).1 ≡ shared d (subscribers ch.members) ids)
unfolding fan_out recipients
fan_out-broadcast deliver exclude cfg d ch ids b h = (
  rw (b) (
      spread-each deliver exclude cfg (shared d (subscribers ch.members) ids)
        (subscribers ch.members) h),
  rw (b) refl,
)

-- The publication on a channel that broadcasts, and what it comes to.
abbrev sent_on : List Bytes → Engine → Bytes → Live → Bytes → ℤ → Delivery
sent_on order e name ch payload now =
    shared
      (record {
        channel = name;
        payload = payload;
        offset = (stamp ch payload now).1;
        epoch = ch.epoch;
        framed = false;
      })
      (subscribers ch.members) (wildcard_ids order e name).1

whom_iff :
    (j exclude : ℕ) (tried exact wild m : Bool) (W : Type 0)
    → tried ≡ (not (nat_eq j exclude) && (exact || wild))
    → exact ≡ m
    → (wild ≡ true) ↔ W
    → (tried ≡ true) ↔ ((j ≢ exclude) × ((m ≡ true) ⊎ W))
whom_iff j exclude tried exact wild m W t same (to, back) = (
  λ h. (
    λ e. ground (arith, nat_eq_iff j exclude),
    elim (Bool-cases exact) [ inl on ↦ inl (sym same ∙ on) | inr off ↦ inr (to (ground arith)) ],
  ),
  λ (other, why). elim why [
    | inl on ↦ ground (arith, nat_eq_iff j exclude)
    | inr reached ↦ let there = back reached in ground (arith, nat_eq_iff j exclude)
  ],
)

-- A channel that the engine has is what `Publish` writes to.
pub target-found :
    (order : List Bytes) (e : Engine) (name : Bytes) (ch : Live) (epoch : ℕ) (now : ℤ)
    → find e name ≡ some ch
    → target order e name epoch now ≡ (e, some ch)
unfolding target
target-found order e name ch epoch now there = rw (there, target) refl

pub find-noted :
    (e : Engine) (name payload : Bytes)
    → 0 < length e.shards
    → find (noted e name payload) name ≡ find e name
unfolding find
find-noted e name payload h =
    find-put_shard e name name _ (find e name) h (λ k. ground (arith, bytes_eq_iff name k))
    ∙ ground (arith, bytes_eq_iff name name)

module _ (deliver : ℕ → Delivery → Bool) (exclude : ℕ) (order : List Bytes) where
  abbrev total : Engine → Bytes → Live → Bytes → ℤ → Counts
  total e name ch payload now =
      let d = sent_on order e name ch payload now in
      let subs = subscribers ch.members in
      plus (deliver_each deliver d exclude subs)
        (deliver_patterns deliver d exclude subs (wildcard_ids order e name).1)

  abbrev outcome : Engine → Bytes → Live → Bytes → ℤ → PublishResult
  outcome e name ch payload now =
      let all = total e name ch payload now in
      record {
        channel = name;
        offset = (stamp ch payload now).1;
        epoch = ch.epoch;
        delivered = all.delivered;
        dropped = all.dropped;
      }

  publish_to-broadcast :
      (e : Engine) (name : Bytes) (ch : Live) (payload : Bytes) (now : ℤ)
      → ch.fanout ≡ broadcast
      → 0 < e.config.fanout_threshold
      → (publish_to deliver exclude order e name ch payload now).1
        ≡ some (outcome e name ch payload now, (total e name ch payload now).tried)
  unfolding publish_to
  publish_to-broadcast e name ch payload now b h =
      let stamped = (stamp ch payload now).0 in
      let d : Delivery = record {
        channel = name;
        payload = payload;
        offset = (stamp ch payload now).1;
        epoch = ch.epoch;
        framed = false;
      } in
      let same = stamp-same ch payload now in
      let mode = same.0 ∙ b in
      let (counts, sent) =
        fan_out-broadcast deliver exclude e.config d stamped (wildcard_ids order e name).1 mode h in
      rw (counts, sent, recipients-broadcast stamped mode, same.1, publish_to) refl

  -- The publication reaches its recipients.
  publish_to-IsReached :
      (e f : Engine) (name : Bytes) (ch : Live) (payload : Bytes) (now : ℤ)
      → IsFine ch
      → IsCoherent e.patterns
      → IsCounted e
      → f.patterns ≡ e.patterns
      → ((j : ℕ) → contains (subscribers ch.members) j ≡ member f j name)
      → IsReached deliver exclude f name payload
          (outcome e name ch payload now)
          (total e name ch payload now).tried
  publish_to-IsReached e f name ch payload now fine w counted same m =
      let d = sent_on order e name ch payload now in
      let ids = (wildcard_ids order e name).1 in
      let (tally, seen) =
        fan_out_lem deliver d exclude (subscribers ch.members) ids fine.once
          (wildcard_ids_lem order e name 0 w counted).0 in
      record {
        sent = d;
        what = (refl, refl, refl, refl);
        once = tally.once;
        whom = λ j.
            let (to, back) = (wildcard_ids_lem order e name j w counted).1 in
            whom_iff j exclude _ _ _ _ _ (seen j) (m j) (
              λ h. let (pat, r) = to h in (pat, subst (λ p. Reaches p name j pat) (sym same) r),
              λ (pat, r). back (pat, subst (λ p. Reaches p name j pat) same r),
            );
        took = tally.took;
        sum = tally.sum;
      }

  publish-found :
      (e : Engine) (name : Bytes) (ch : Live) (payload : Bytes) (epoch : ℕ) (now : ℤ)
      → find (noted e name payload) name ≡ some ch
      → (publish deliver exclude order e name payload epoch now).1
        ≡ (publish_to deliver exclude order (noted e name payload) name ch payload now).1
  unfolding publish
  publish-found e name ch payload epoch now there =
      let e = target-found order (noted e name payload) name ch epoch now there in
      rw
        (
          ap (λ (p : Engine × Option Live). p.1) e,
          ap (λ (p : Engine × Option Live). p.0) e,
          publish,
        )
        refl

  -- In a valid engine with a fan-out threshold above 0, whose count of pattern subscriptions is 0 only
  -- where there is none, a publication on a channel that broadcasts returns, with one more than the
  -- channel's offset (modulo 2^64) and its epoch, and tries once each recipient but the publisher: those on the channel and those with a
  -- pattern that reaches it. It counts as delivered those that accept, and all others as dropped.
  pub publish_lem :
      (e : Engine) (name : Bytes) (ch : Live) (payload : Bytes) (epoch : ℕ) (now : ℤ)
      → IsValid e
      → IsCounted e
      → 0 < e.config.fanout_threshold
      → find e name ≡ some ch
      → ch.fanout ≡ broadcast
      → (r : PublishResult) × (tried : List ℕ) × ((publish deliver exclude order e name payload
            epoch now).1
          ≡ some (r, tried))
        × (r.offset ≡ (ch.offset + 1) % u64_mod)
        × (r.epoch ≡ ch.epoch)
        × IsReached deliver exclude e name payload r tried
  unfolding publish put_shard
  publish_lem e name ch payload epoch now v counted h there b =
      let f = noted e name payload in
      let found = find-noted e name payload v.sound.some_shards ∙ there in
      (
        outcome f name ch payload now,
        (total f name ch payload now).tried,
        publish-found e name ch payload epoch now found
            ∙ publish_to-broadcast f name ch payload now b h,
        stamp-offset ch payload now,
        refl,
        publish_to-IsReached f e name ch payload now (v.sound.fine name ch there) v.sound.wild
            counted refl (λ j. ap (λ o. holds o j) (sym there)),
      )
