-- ===== src/Engine/Publish/Recovered.antt =====
-- What a client recovers after a publication.
use gentis.Prelude.{
  ℕ, suc, ℤ, ◌+◌, ◌-◌, ◌%◌, ◌<◌, ◌≤◌, ◌≡◌, refl, sym, ap, ap₂, ◌∙◌, subst, Bytes, bytes_Eq,
  bytes_eq_iff, List, [], ◌∷◌, ◌++◌, Option, none, some, Bool, true, false, length, nat_eq_iff,
  arith, if_cases, option_cases, ltb, u64_mod,
}
use gentis.Engine.History.{Item, History, append_next, replay_n, tail}
use gentis.Engine.History.Log
use gentis.Engine.History.Log.{Consecutive, after, reaches}
use gentis.Engine.History.Append as Append
use gentis.Engine.History.Append.{contents, append_refines, append_next-IsValid}
use gentis.Engine.History.Replay.{replay_refines}
use gentis.Engine.History.Segment.{length-segment}
use gentis.Engine.State.{Engine, Live, find}
use gentis.Engine.Members.Invariant.{IsValid}
use gentis.Engine.Fanout.{Delivery, plus, deliver_patterns}
use gentis.Engine.Publish.{
  PublishResult, no_result, write_back, wildcard_ids, stamp, recipients, fan_out, publish_to,
  publish, recover, recover_n, recovered,
}
use gentis.Engine.Publish.Moving.{wildcard_ids-find, Moved, write_back-Moved, count_fan_out-Moved}
use gentis.Engine.Publish.Kept.{asked-IsValid, noted, noted-IsValid}
use gentis.Engine.Publish.Reached.{target-found, find-noted}

abbrev item : ℕ → Bytes → ℤ → Item
item offset payload now = record { offset = offset; payload = payload; stored_at = now }

-- The offsets of a log that ends at `last` are not past it.
after-none :
    (c last : ℕ) (log : List Item) → Consecutive c log → c + length log ≤ last → after last log ≡ []
after-none c last [] k h = refl
after-none c last (x ∷ log) k h =
    let others = after-none (suc c) last log k.1 (omega arith) in ground (arith, k.0)

after-snoc :
    (from : ℕ) (log : List Item) (x : Item)
    → after from log ≡ []
    → from < x.offset
    → after from (log ++ (x ∷ [])) ≡ x ∷ []
after-snoc from [] x h p = ground arith
after-snoc from (y ∷ log) x h p = ground (arith, after-snoc from log x)

reaches-snoc :
    (c wanted : ℕ) (log : List Item) (x : Item)
    → Consecutive c log
    → c + 1 ≤ wanted
    → x.offset ≤ wanted
    → reaches wanted (log ++ (x ∷ [])) ≡ true
reaches-snoc c wanted [] x k h p = ground arith
reaches-snoc c wanted (y ∷ log) x k h p = ground (arith, k.0)

-- The next offset comes alone after all those before it.
next_only :
    (c from : ℕ) (log : List Item) (x : Item)
    → Consecutive c log
    → c + length log ≡ from
    → x.offset ≡ suc from
    → Log.replay (log ++ (x ∷ [])) (suc from) from 0 ≡ some (x ∷ [])
unfolding Log.replay
next_only c from log x k h p = ground (
  arith,
  nat_eq_iff from (suc from),
  reaches-snoc c (suc from) log x k (omega arith) (omega arith),
  after-snoc from log x (after-none c from log k (omega arith)) (omega arith),
)

-- A log that holds the offsets up to `from` answers, when the next is appended, with that one.
replay-append :
    (cap c from : ℕ) (log : List Item) (x : Item)
    → Consecutive c log
    → c + length log ≡ from
    → x.offset ≡ suc from
    → Log.replay (Log.append cap log x) (suc from) from 0 ≡ some (x ∷ [])
unfolding Log.append
replay-append cap c from [] x k h p =
    if_cases (λ l. Log.replay (l ++ (x ∷ [])) (suc from) from 0 ≡ some (x ∷ [])) (ltb 0 cap) _ _
      (λ _. next_only c from [] x k h p) (λ _. next_only c from [] x k h p)
replay-append cap c from (y ∷ log) x k h p =
    if_cases (λ l. Log.replay (l ++ (x ∷ [])) (suc from) from 0 ≡ some (x ∷ []))
      (ltb (suc (length log)) cap) _ _ (λ _. next_only c from (y ∷ log) x k h p)
      (λ _. next_only (suc c) from log x k.1 (omega arith) p)

append_next-last :
    (h : History) (seq : ℕ) (payload : Bytes) (now : ℤ)
    → (append_next h seq payload now).0.last_offset ≡ (seq + 1) % u64_mod
unfolding append_next
append_next-last h seq payload now = refl

-- What a call of `Recover` gives on a channel with a history.
recover-held :
    (e : Engine) (name : Bytes) (ch : Live) (h : History) (from : ℕ) (x : Item)
    → find e name ≡ some ch
    → ch.hist ≡ some h
    → replay_n h from 0 ≡ some (x ∷ [])
    → recover e name from ch.epoch ≡ some (recovered name ch.epoch x ∷ [])
unfolding recover recover_n
recover-held e name ch h from x there kept answer =
    ground (arith, there, kept, answer, nat_eq_iff ch.epoch ch.epoch)

stamp-kept :
    (ch : Live) (h : History) (payload : Bytes) (now : ℤ)
    → ch.hist ≡ some h
    → ((stamp ch payload now).0.hist ≡ some (append_next h ch.offset payload now).0)
      × ((stamp ch payload now).0.epoch ≡ ch.epoch)
unfolding stamp
stamp-kept ch h payload now kept = (rw (kept, stamp) refl, rw (kept, stamp) refl)

-- What `replayN` gives from the offset before an append is the item appended.
replay_n-append_next :
    (h : History) (seq : ℕ) (payload : Bytes) (now : ℤ)
    → Append.IsValid h
    → seq ≡ h.last_offset
    → suc seq < u64_mod
    → replay_n (append_next h seq payload now).0 seq 0 ≡ some (item (suc seq) payload now ∷ [])
replay_n-append_next h seq payload now v same word =
    let n = length h.entries in
    let x = item ((seq + 1) % u64_mod) payload now in
    let (valid, _) = append_next-IsValid h seq payload now v same word in
    let next : (seq + 1) % u64_mod ≡ suc seq = ground arith in
    replay_refines (append_next h seq payload now).0 seq 0 valid (omega arith)
    ∙ ap₂ (λ l last. Log.replay l last seq 0) (append_refines h seq payload now v)
        (append_next-last h seq payload now ∙ next)
    ∙ replay-append n (h.last_offset - h.count) seq (contents h) x v.consecutive
        (ground (arith, length-segment h.entries n (tail h) h.count, v.counted)) next
    ∙ ap (λ k. some (item k payload now ∷ [])) next

Moved-here : (e g : Engine) (name : Bytes) (ch : Live) → Moved e g name ch → find g name ≡ some ch
Moved-here e g name ch m = m.found name ∙ ground (arith, bytes_eq_iff name name)

module _ (deliver : ℕ → Delivery → Bool) (exclude : ℕ) (order : List Bytes) where
  -- After `Publish` the channel is as stamped, but for the rotation cursor.
  publish_to-moves :
      (e : Engine) (name : Bytes) (ch : Live) (payload : Bytes) (now : ℤ)
      → IsValid e
      → find e name ≡ some ch
      → (rr : ℕ) × (find (publish_to deliver exclude order e name ch payload now).0 name
          ≡ some (record (stamp ch payload now).0 { rr = rr }))
  unfolding publish_to
  publish_to-moves e name ch payload now v there =
      let asked = (wildcard_ids order e name).0 in
      let held = (wildcard_ids-find order e name name).0 ∙ there in
      let At : Engine × Option (PublishResult × List ℕ) → Type 0 =
        λ (r : Engine × Option (PublishResult × List ℕ)).
          (rr : ℕ) × (find r.0 name ≡ some (record (stamp ch payload now).0 { rr = rr })) in
      let d : Delivery = record {
        channel = name;
        payload = payload;
        offset = (stamp ch payload now).1;
        epoch = ch.epoch;
        framed = false;
      } in
      let fan =
        fan_out deliver exclude e.config d (stamp ch payload now).0 (wildcard_ids order e name).1 in
      let after : Live = record (stamp ch payload now).0 { rr = fan.2 } in
      let some_shards = (asked-IsValid order e name v).sound.some_shards in
      let moved = write_back-Moved asked name ch after some_shards held in
      option_cases At fan.0 _ _
        (λ _. (fan.2, Moved-here asked (write_back asked name after) name after moved))
        (λ exact _. (
          fan.2,
          Moved-here asked _ name after (
              count_fan_out-Moved asked (write_back asked name after) name after
                (plus exact (
                  deliver_patterns deliver fan.1 exclude (recipients (stamp ch payload now).0)
                    (wildcard_ids order e name).1))
                some_shards moved),
        ))

  publish-moves :
      (e : Engine) (name : Bytes) (ch : Live) (payload : Bytes) (epoch : ℕ) (now : ℤ)
      → IsValid e
      → find e name ≡ some ch
      → (rr : ℕ) × (find (publish deliver exclude order e name payload epoch now).0 name
          ≡ some (record (stamp ch payload now).0 { rr = rr }))
  unfolding publish
  publish-moves e name ch payload epoch now v there =
      let f = noted e name payload in
      let held = find-noted e name payload v.sound.some_shards ∙ there in
      let found = target-found order f name ch epoch now held in
      let At : Engine × Option (PublishResult × List ℕ) → Type 0 =
        λ (r : Engine × Option (PublishResult × List ℕ)).
          (rr : ℕ) × (find r.0 name ≡ some (record (stamp ch payload now).0 { rr = rr })) in
      subst
        (λ (r : Engine × Option Live). At (elim r.1 [
          | none ↦ (r.0, some (no_result name, []))
          | some ch ↦ publish_to deliver exclude order r.0 name ch payload now
        ]))
        (sym found) (publish_to-moves f name ch payload now (noted-IsValid e name payload v) held)

  -- In a valid engine, a client that stands at the offset and the epoch of a channel whose history is
  -- valid and as far as the channel, with a next offset below 2^64, recovers after `Publish` exactly
  -- that publication, under the next offset.
  pub recover-publish :
      (e : Engine) (name : Bytes) (ch : Live) (h : History) (payload : Bytes) (epoch : ℕ) (now : ℤ)
      → IsValid e
      → find e name ≡ some ch
      → ch.hist ≡ some h
      → Append.IsValid h
      → ch.offset ≡ h.last_offset
      → suc ch.offset < u64_mod
      → recover (publish deliver exclude order e name payload epoch now).0 name ch.offset ch.epoch
        ≡ some (recovered name ch.epoch (item (suc ch.offset) payload now) ∷ [])
  recover-publish e name ch h payload epoch now v there kept fits same word =
      let (rr, found) = publish-moves e name ch payload epoch now v there in
      let after : Live = record (stamp ch payload now).0 { rr = rr } in
      let (stored, same_epoch) = stamp-kept ch h payload now kept in
      let answer = replay_n-append_next h ch.offset payload now fits same word in
      subst
        (λ k.
          recover (publish deliver exclude order e name payload epoch now).0 name ch.offset k
          ≡ some (recovered name k (item (suc ch.offset) payload now) ∷ []))
        same_epoch
        (recover-held _ name after (append_next h ch.offset payload now).0 ch.offset
          (item (suc ch.offset) payload now) found stored answer)
