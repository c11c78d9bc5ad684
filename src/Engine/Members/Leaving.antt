-- ===== src/Engine/Members/Leaving.antt =====
-- `Unsubscribe` and the loop of `UnsubscribeAll`: a subscriber leaves, and a drained channel goes.
use gentis.Prelude.{
  ℕ, ℤ, pos, ◌<◌, ◌≡◌, refl, sym, ap, ◌∙◌, subst, Bytes, bytes_Eq, bytes_eq_iff, nat_eq, nat_Eq,
  List, [], ◌∷◌, Option, none, some, if◌then◌else◌, ◌==◌, ◌&&◌, not, Bool, false, length, contains,
  delete_first, Distinct, arith, true, Option-cases, if_cases, option_cases, false≢true, ◌≤◌,
  contains-nothing, ◌≤ℤ◌,
}
use gentis.Namespace.Settings.{is_positive}
use gentis.Engine.Channel.{Channel, subscribers, subscriber_count, unsubscribe, clear_priority}
use gentis.Engine.Channel.Members.{unsubscribe_lem}
use gentis.Engine.Subscriptions.{remove_channel}
use gentis.Engine.Subscriptions.Index as Index
use gentis.Engine.Subscriptions.Index.{on, on-remove_channel}
use gentis.Engine.Subscriptions.Reach.{remove_channel-IsValid}
use gentis.Engine.State.{
  Engine, Live, find, put_live, put_shard, drop_channel, get_shard, shard_index, up, down,
}
use gentis.Engine.State.Find.{find-put_live, length-put_shard, find-drop_channel}
use gentis.Engine.Members.{is_drained, settle, without, unsubscribe_one}
use gentis.Engine.Members.Invariant.{
  IsSound, IsValid, IsFine, holds, member, change-IsSound, same-IsSound, count-length,
}

-- What a name stands for after `settle`.
abbrev pub settled : Live → ℤ → Option Live
settled ch now =
    if nat_eq (subscriber_count ch.members) 0
    then elim ch.hist as (λ _. Option Live) [
      | none ↦ none
      | some h ↦
          if is_positive ch.idle_reap then some (record ch { last_active = now }) else some ch
    ]
    else some ch

find-settle :
    (e : Engine) (name : Bytes) (ch : Live) (now : ℤ) (j : Bytes)
    → 0 < length e.shards
    → find (settle e name ch now) j ≡ (if name == j then settled ch now else find e j)
unfolding settle
find-settle e name ch now j h = ground (
  arith,
  find-put_live e name j ch h,
  find-put_live e name j (record ch { last_active = now }) h,
  find-drop_channel e name j h,
  Option-cases ch.hist,
)

-- `settle` leaves all but the channels alone.
pub record Rest (e f : Engine) : Type 0 where
  pub as_many : length f.shards ≡ length e.shards
  pub same_hash : f.hash ≡ e.hash
  pub same_index : f.subscriptions ≡ e.subscriptions
  pub same_patterns : f.patterns ≡ e.patterns
  pub same_count : f.pattern_subs ≡ e.pattern_subs

put_live-Rest : (e : Engine) (name : Bytes) (ch : Live) → Rest e (put_live e name ch)
unfolding put_live put_shard
put_live-Rest e name ch = record {
  as_many = length-put_shard e name _;
  same_hash = refl;
  same_index = refl;
  same_patterns = refl;
  same_count = refl;
}

drop_channel-Rest : (e : Engine) (name : Bytes) → Rest e (drop_channel e name)
unfolding drop_channel put_shard
drop_channel-Rest e name = record {
  as_many = length-put_shard e name _;
  same_hash = refl;
  same_index = refl;
  same_patterns = refl;
  same_count = refl;
}

pub settle-Rest : (e : Engine) (name : Bytes) (ch : Live) (now : ℤ) → Rest e (settle e name ch now)
unfolding settle
settle-Rest e name ch now =
    if_cases (Rest e) (nat_eq (subscriber_count ch.members) 0) _ _
      (λ _.
        option_cases (Rest e) ch.hist _ _ (λ _. drop_channel-Rest e name)
          (λ h _.
            if_cases (Rest e) (is_positive ch.idle_reap) _ _
              (λ _. put_live-Rest e name (record ch { last_active = now }))
              (λ _. put_live-Rest e name ch)))
      (λ _. put_live-Rest e name ch)

settled-holds :
    (ch : Live) (now : ℤ) (k : ℕ) → holds (settled ch now) k ≡ contains (subscribers ch.members) k
settled-holds ch now k = ground (
  arith,
  count-length ch.members,
  contains-nothing (subscribers ch.members) k,
  Option-cases ch.hist,
)

IsFine-same : (c d : Live) → d.members ≡ c.members → d.max_subs ≡ c.max_subs → IsFine c → IsFine d
IsFine-same c d m n f = record { once = rw (m) f.once; within = rw (m, n) f.within }

settled-same :
    (ch d : Live) (now : ℤ)
    → settled ch now ≡ some d
    → (d.members ≡ ch.members) × (d.max_subs ≡ ch.max_subs) × (is_drained d ≡ false)
unfolding is_drained
settled-same ch d now e = ground (arith, Option-cases ch.hist)

settled-IsFine :
    (ch d : Live) (now : ℤ)
    → IsFine ch
    → settled ch now ≡ some d
    → IsFine d × (is_drained d ≡ false)
settled-IsFine ch d now f e =
    let (m, n, alive) = settled-same ch d now e in (IsFine-same ch d m n f, alive)

subscribers-clear_priority :
    (c : Channel) (id : ℕ) → subscribers (clear_priority c id) ≡ subscribers c
unfolding clear_priority subscribers
subscribers-clear_priority c id = ground (arith, Option-cases c.prios)

length-delete_first-le : (xs : List ℕ) (a : ℕ) → length (delete_first xs a) ≤ length xs
length-delete_first-le [] a = omega arith
length-delete_first-le (x ∷ xs) a = ground (arith, length-delete_first-le xs a)

length-unsubscribe :
    (c : Channel) (id : ℕ) → length (subscribers (unsubscribe c id).0) ≤ length (subscribers c)
unfolding unsubscribe subscribers
length-unsubscribe c id = ground (arith, length-delete_first-le (subscribers c) id)

subscribers-without :
    (ch : Live) (id : ℕ)
    → subscribers (without ch id).0.members ≡ subscribers (unsubscribe ch.members id).0
unfolding without
subscribers-without ch id =
    ground (arith, subscribers-clear_priority (unsubscribe ch.members id).0 id)

without-members :
    (ch : Live) (id k : ℕ)
    → IsFine ch
    → ((without ch id).1 ≡ contains (subscribers ch.members) id)
      × (contains (subscribers (without ch id).0.members) k
          ≡ (contains (subscribers ch.members) k && not (nat_eq id k)))
unfolding without
without-members ch id k f =
    let (once, was, left) = unsubscribe_lem ch.members id k f.once in
    (was, ap (λ xs. contains xs k) (subscribers-without ch id) ∙ left)

without-fits :
    (ch : Live) (id : ℕ)
    → IsFine ch
    → is_positive (without ch id).0.max_subs ≡ true
    → pos (length (subscribers (unsubscribe ch.members id).0)) ≤ℤ (without ch id).0.max_subs
unfolding without
without-fits ch id f p = ground (arith, length-unsubscribe ch.members id, f.within p)

without-IsFine : (ch : Live) (id : ℕ) → IsFine ch → IsFine (without ch id).0
without-IsFine ch id f = record {
  once =
      subst Distinct (sym (subscribers-without ch id)) (unsubscribe_lem ch.members id 0 f.once).0;
  within = λ p. rw (subscribers-without ch id) (without-fits ch id f p);
}

-- The engine after one subscriber has left one channel that it has.
pub left-IsSound :
    (e : Engine) (name : Bytes) (ch : Live) (id : ℕ) (now : ℤ)
    → IsSound e
    → find e name ≡ some ch
    → IsSound (settle e name (without ch id).0 now)
left-IsSound e name ch id now v there =
    let c = (without ch id).0 in
    let r = settle-Rest e name c now in
    let f = without-IsFine ch id (v.fine name ch there) in
    change-IsSound e (settle e name c now) name (settled c now) v r.as_many
      (λ j. find-settle e name c now j v.some_shards)
      (λ d same.
        let (fine, alive) = settled-IsFine c d now f same in
        (fine, λ drained. absurd (false≢true (sym alive ∙ drained))))
      (subst Index.IsValid (sym r.same_index) v.index) r.same_patterns r.same_count

pub member-left :
    (e : Engine) (name : Bytes) (ch : Live) (id : ℕ) (now : ℤ) (k : ℕ) (j : Bytes)
    → IsSound e
    → find e name ≡ some ch
    → member (settle e name (without ch id).0 now) k j
      ≡ (member e k j && not (nat_eq id k && name == j))
member-left e name ch id now k j v there =
    let c = (without ch id).0 in
    ground (
      arith,
      find-settle e name c now j v.some_shards,
      settled-holds c now k,
      without-members ch id k (v.fine name ch there),
      bytes_eq_iff name j,
    )

counted-IsValid :
    (e : Engine) → IsValid e → IsValid (record e { unsubscribe_ops = up e.unsubscribe_ops 1 })
unfolding find get_shard shard_index
counted-IsValid e v = record {
  sound = same-IsSound e _ v.sound refl refl refl refl refl;
  agree = v.agree;
}

-- The engine after `Unsubscribe` of a subscriber that was there.
abbrev gone : Engine → ℕ → Bytes → Live → ℤ → Engine
gone e id name ch now =
    record (settle (record e { unsubscribe_ops = up e.unsubscribe_ops 1 }) name (without ch id).0
      now) {
        subscriptions = remove_channel e.subscriptions id name;
        subscription_count = down e.subscription_count 1;
      }

gone-member :
    (e : Engine) (id : ℕ) (name : Bytes) (ch : Live) (now : ℤ) (k : ℕ) (j : Bytes)
    → IsValid e
    → find e name ≡ some ch
    → member (gone e id name ch now) k j ≡ (member e k j && not (nat_eq id k && name == j))
unfolding find get_shard shard_index
gone-member e id name ch now k j v there =
    member-left (record e { unsubscribe_ops = up e.unsubscribe_ops 1 }) name ch id now k j
      (counted-IsValid e v).sound there

gone-IsValid :
    (e : Engine) (id : ℕ) (name : Bytes) (ch : Live) (now : ℤ)
    → IsValid e
    → find e name ≡ some ch
    → IsValid (gone e id name ch now)
unfolding find get_shard shard_index
gone-IsValid e id name ch now v there =
    let s =
      left-IsSound (record e { unsubscribe_ops = up e.unsubscribe_ops 1 }) name ch id now
        (counted-IsValid e v).sound there in
    record {
      sound = record {
        some_shards = s.some_shards;
        fine = s.fine;
        kept = s.kept;
        index = remove_channel-IsValid e.subscriptions id name v.sound.index;
        wild = s.wild;
      };
      agree = λ k j.
          on-remove_channel e.subscriptions id k name j v.sound.index
          ∙ ap (λ b. b && not (nat_eq id k && name == j)) (v.agree k j)
          ∙ sym (gone-member e id name ch now k j v there);
    }

-- In a valid engine, `Unsubscribe` reports whether the subscription was there, and afterwards those
-- that were are there but for that one; the engine is valid again.
pub unsubscribe_one_lem :
    (e : Engine) (id : ℕ) (name : Bytes) (now : ℤ) (k : ℕ) (j : Bytes)
    → IsValid e
    → ((unsubscribe_one e id name now).1 ≡ member e id name)
      × (member (unsubscribe_one e id name now).0 k j
          ≡ (member e k j && not (nat_eq id k && name == j)))
      × IsValid (unsubscribe_one e id name now).0
unfolding unsubscribe_one find get_shard shard_index
unsubscribe_one_lem e id name now k j v =
    let Right : Engine × Bool → Type 0 = λ (r : Engine × Bool).
      (r.1 ≡ member e id name)
      × (member r.0 k j ≡ (member e k j && not (nat_eq id k && name == j)))
      × IsValid r.0 in
    option_cases Right (find e name) _ _
      (λ absent. (ground arith, ground (arith, bytes_eq_iff name j), counted-IsValid e v))
      (λ ch there.
        let was = (without-members ch id k (v.sound.fine name ch there)).0 in
        if_cases Right (not (without ch id).1) _ _
          (λ out. (ground arith, ground (arith, bytes_eq_iff name j), counted-IsValid e v))
          (λ yes. (
            ground arith,
            gone-member e id name ch now k j v there,
            gone-IsValid e id name ch now v there,
          )))
