-- ===== src/Engine/Members/Joining.antt =====
-- `SubscribePriority` keeps the engine valid, and is what puts a subscriber on a channel.
use gentis.Prelude.{
  ℕ, ℤ, pos, ◌<◌, ◌≡◌, refl, sym, ap, ◌∙◌, subst, Bytes, bytes_Eq, bytes_eq_iff, nat_eq, nat_Eq, [],
  ◌∷◌, ◌++◌, Option, none, some, if◌then◌else◌, ◌==◌, ◌&&◌, ◌||◌, not, Bool, false, length,
  length-append, contains, contains-append, append-Distinct, Distinct, arith, true, Bool-cases, inl,
  inr, if_cases, option_cases, some_inj, leb_ℤ, is_some,
}
use gentis.Namespace.Settings.{Settings, is_positive}
use gentis.Engine.Channel.{
  Channel, subscribers, subscriber_count, subscribe, set_priority, new_channel,
}
use gentis.Engine.Subscriptions.{add_channel}
use gentis.Engine.Subscriptions.Index as Index
use gentis.Engine.Subscriptions.Index.{on, on-add_channel}
use gentis.Engine.Subscriptions.Reach.{add_channel-IsValid}
use gentis.Engine.State.{
  Engine, EngineError, Live, find, put_live, get_shard, shard_index, up, create_channel, new_live,
  channel_settings,
}
use gentis.Engine.State.Find.{find-put_live, length-put_shard, find-create_channel}
use gentis.Engine.Members.{is_priority, is_drained, admit, subscribe_priority}
use gentis.Engine.Members.Invariant.{
  IsValid, IsFine, holds, member, change-IsSound, same-IsSound, count-length,
}

abbrev is_full : Live → Bool
is_full ch = is_positive ch.max_subs && leb_ℤ ch.max_subs (pos (subscriber_count ch.members))

-- The channel with one more subscriber.
abbrev joined : Live → ℕ → ℤ → Live
joined ch id prio =
    let more = (subscribe ch.members id).0 in
    record ch { members = if is_priority ch.fanout then set_priority more id prio else more }

subscribers-joined :
    (ch : Live) (id : ℕ) (prio : ℤ)
    → contains (subscribers ch.members) id ≡ false
    → subscribers (joined ch id prio).members ≡ subscribers ch.members ++ (id ∷ [])
unfolding subscribe set_priority subscribers
subscribers-joined ch id prio new = ground arith

joined-IsFine :
    (ch : Live) (id : ℕ) (prio : ℤ)
    → contains (subscribers ch.members) id ≡ false
    → is_full ch ≡ false
    → IsFine ch
    → IsFine (joined ch id prio)
joined-IsFine ch id prio new room f =
    let e = subscribers-joined ch id prio new in
    record {
      once = subst Distinct (sym e) (append-Distinct (subscribers ch.members) id new f.once);
      within = λ p. rw (e) (
          ground
            (arith, length-append (subscribers ch.members) (id ∷ []), count-length ch.members));
    }

joined-stays :
    (ch : Live) (id : ℕ) (prio : ℤ)
    → contains (subscribers ch.members) id ≡ false
    → is_drained (joined ch id prio) ≡ false
unfolding is_drained
joined-stays ch id prio new = ground (
  arith,
  subscribers-joined ch id prio new,
  length-append (subscribers ch.members) (id ∷ []),
  count-length (joined ch id prio).members,
)

drained_not :
    (ch c : Live) (id : ℕ) (prio : ℤ)
    → contains (subscribers ch.members) id ≡ false
    → ◌≡◌ {A = Option Live} (some (joined ch id prio)) (some c)
    → ¬ (is_drained c ≡ true)
drained_not ch c id prio new same d =
    let back = ap is_drained (some_inj same) in ground (arith, joined-stays ch id prio new)

length-put_live :
    (e : Engine) (name : Bytes) (ch : Live) → length (put_live e name ch).shards ≡ length e.shards
unfolding put_live
length-put_live e name ch = length-put_shard e name _

-- The engine before, and the one in which the channel is known.
record Knows (e f : Engine) (name : Bytes) (ch : Live) : Type 0 where
  as_many : length f.shards ≡ length e.shards
  known : (j : Bytes) → find f j ≡ (if name == j then some ch else find e j)
  fine : IsFine ch
  same_members : (id : ℕ) → contains (subscribers ch.members) id ≡ member e id name
  same_index : f.subscriptions ≡ e.subscriptions
  same_patterns : f.patterns ≡ e.patterns
  same_count : f.pattern_subs ≡ e.pattern_subs

abbrev admitted : Engine → Bytes → Live → ℕ → ℤ → Engine
admitted f name ch id prio = record (put_live f name (joined ch id prio)) {
  subscriptions = add_channel f.subscriptions id name;
  subscription_count = up f.subscription_count 1;
}

find-admitted :
    (e f : Engine) (name : Bytes) (ch : Live) (id : ℕ) (prio : ℤ) (j : Bytes)
    → IsValid e
    → Knows e f name ch
    → find (admitted f name ch id prio) j
      ≡ (if name == j then some (joined ch id prio) else find e j)
unfolding find put_live
find-admitted e f name ch id prio j v k =
    let put =
      find-put_live f name j (joined ch id prio)
        (subst (λ n. 0 < n) (sym k.as_many) v.sound.some_shards) in
    put ∙ elim (Bool-cases (name == j)) [
      | inl here ↦ rw (here) refl
      | inr other ↦ rw (other) (k.known j ∙ rw (other) refl)
    ]

on-admitted :
    (e f : Engine) (name : Bytes) (ch : Live) (id : ℕ) (prio : ℤ) (k : ℕ) (j : Bytes)
    → IsValid e
    → Knows e f name ch
    → contains (subscribers ch.members) id ≡ false
    → on (add_channel f.subscriptions id name) k j
      ≡ (if name == j then holds (some (joined ch id prio)) k else on e.subscriptions k j)
on-admitted e f name ch id prio k j v know new =
    let added : on (add_channel f.subscriptions id name) k j
        ≡ (on e.subscriptions k j || (nat_eq id k && name == j)) =
      rw (know.same_index) (on-add_channel e.subscriptions id k name j v.sound.index) in
    elim (Bool-cases (name == j)) [
      | inr other ↦ ground (arith, added)
      | inl here ↦ ground (
        arith,
        added,
        v.agree k j,
        know.same_members k,
        (bytes_eq_iff name j).0 here,
        subscribers-joined ch id prio new,
        contains-append (subscribers ch.members) (id ∷ []) k,
      )
    ]

seen :
    (e f : Engine) (name : Bytes) (ch : Live) (id : ℕ) (prio : ℤ) (i : ℕ) (j : Bytes)
    → IsValid e
    → Knows e f name ch
    → (if name == j then holds (some (joined ch id prio)) i else on e.subscriptions i j)
      ≡ member (admitted f name ch id prio) i j
seen e f name ch id prio i j v k =
    let put = find-admitted e f name ch id prio j v k in ground (arith, put, v.agree i j)

admitted-IsValid :
    (e f : Engine) (name : Bytes) (ch : Live) (id : ℕ) (prio : ℤ)
    → IsValid e
    → Knows e f name ch
    → is_full ch ≡ false
    → contains (subscribers ch.members) id ≡ false
    → IsValid (admitted f name ch id prio)
unfolding put_live
admitted-IsValid e f name ch id prio v k room new = record {
  sound =
      change-IsSound e (admitted f name ch id prio) name (some (joined ch id prio)) v.sound
        (length-put_live f name (joined ch id prio) ∙ k.as_many)
        (λ j. find-admitted e f name ch id prio j v k)
        (λ c same. (
          subst IsFine (some_inj same) (joined-IsFine ch id prio new room k.fine),
          λ d. absurd (drained_not ch c id prio new same d),
        ))
        (subst (λ s. Index.IsValid (add_channel s id name)) (sym k.same_index)
          (add_channel-IsValid e.subscriptions id name v.sound.index))
        k.same_patterns k.same_count;
  agree = λ i j. on-admitted e f name ch id prio i j v k new ∙ seen e f name ch id prio i j v k;
}

subscribe-new : (c : Channel) (id : ℕ) → (subscribe c id).1 ≡ not (contains (subscribers c) id)
unfolding subscribe
subscribe-new c id = ground arith

-- What the two refusals of a subscription mean for the engine before it.
admit-IsValid :
    (e f : Engine) (name : Bytes) (ch : Live) (id : ℕ) (prio : ℤ)
    → IsValid e
    → Knows e f name ch
    → (is_full ch || contains (subscribers ch.members) id ≡ true → IsValid f)
    → IsValid (admit f name ch id prio).0
unfolding admit
admit-IsValid e f name ch id prio v k refused =
    let Valid : Engine × Option EngineError → Type 0 =
      λ (r : Engine × Option EngineError). IsValid r.0 in
    let is_new = subscribe-new ch.members id in
    if_cases Valid (is_full ch) _ _ (λ full. refused (ground (arith, full)))
      (λ room.
        if_cases Valid (not (subscribe ch.members id).1) _ _ (λ dup. refused (ground arith))
          (λ new. admitted-IsValid e f name ch id prio v k room (ground arith)))

pub new_live-IsFine : (s : Settings) (epoch : ℕ) (now : ℤ) → IsFine (new_live s epoch now)
unfolding new_live new_channel subscribers
new_live-IsFine s epoch now = record { once = tt; within = λ p. ground (arith, p) }

pub nobody :
    (s : Settings) (epoch : ℕ) (now : ℤ) (id : ℕ)
    → contains (subscribers (new_live s epoch now).members) id ≡ false
unfolding new_live new_channel subscribers
nobody s epoch now id = refl

room_in_new :
    (s : Settings) (epoch : ℕ) (now : ℤ) (id : ℕ)
    → ¬ (
        is_full (new_live s epoch now) || contains (subscribers (new_live s epoch now).members) id
        ≡ true)
unfolding new_live new_channel subscribers subscriber_count
room_in_new s epoch now id refused = ground arith

abbrev counted : Engine → Engine
counted e = record e { subscribe_ops = up e.subscribe_ops 1 }

-- The channel that is there, and the one that is made.
found-Knows :
    (e : Engine) (name : Bytes) (ch : Live)
    → IsValid e
    → find e name ≡ some ch
    → Knows e (counted e) name ch
unfolding find get_shard shard_index
found-Knows e name ch v there = record {
  as_many = refl;
  known = λ j. elim (Bool-cases (name == j)) [
    | inl here ↦ rw (here) (ap (find e) (sym ((bytes_eq_iff name j).0 here)) ∙ there)
    | inr other ↦ rw (other) refl
  ];
  fine = v.sound.fine name ch there;
  same_members = λ id. ap (λ o. holds o id) (sym there);
  same_index = refl;
  same_patterns = refl;
  same_count = refl;
}

made-Knows :
    (e : Engine) (name : Bytes) (s : Settings) (epoch : ℕ) (now : ℤ)
    → IsValid e
    → find e name ≡ none
    → Knows e (create_channel (counted e) name s epoch now).0 name (new_live s epoch now)
unfolding create_channel find get_shard shard_index
made-Knows e name s epoch now v absent = record {
  as_many = length-put_shard (counted e) name _;
  known = λ j. find-create_channel (counted e) name j s epoch now v.sound.some_shards;
  fine = new_live-IsFine s epoch now;
  same_members = λ id. nobody s epoch now id ∙ ap (λ o. holds o id) (sym absent);
  same_index = refl;
  same_patterns = refl;
  same_count = refl;
}

-- After `SubscribePriority` the engine is valid, whether the subscription is refused or not.
pub subscribe_priority-IsValid :
    (e : Engine) (id : ℕ) (name : Bytes) (prio : ℤ) (epoch : ℕ) (now : ℤ)
    → IsValid e
    → IsValid (subscribe_priority e id name prio epoch now).0
unfolding subscribe_priority create_channel find get_shard shard_index
subscribe_priority-IsValid e id name prio epoch now v =
    let Valid : Engine × Option EngineError → Type 0 =
      λ (r : Engine × Option EngineError). IsValid r.0 in
    let valid : IsValid (counted e) = record {
      sound = same-IsSound e (counted e) v.sound refl refl refl refl refl;
      agree = v.agree;
    } in
    option_cases Valid (find e name) _ _
      (λ absent.
        option_cases Valid (channel_settings e.config name) _ _ (λ _. valid)
          (λ s _.
            admit-IsValid e (create_channel (counted e) name s epoch now).0 name
              (new_live s epoch now) id prio v (made-Knows e name s epoch now v absent)
              (λ refused. absurd (room_in_new s epoch now id refused))))
      (λ ch there.
        admit-IsValid e (counted e) name ch id prio v (found-Knows e name ch v there) (λ _. valid))

on-known :
    (e f : Engine) (name : Bytes) (ch : Live) (id k : ℕ) (j : Bytes)
    → IsValid e
    → Knows e f name ch
    → on (add_channel f.subscriptions id name) k j ≡ (member e k j || (nat_eq id k && name == j))
on-known e f name ch id k j v know =
    rw (know.same_index)
      (rw (sym (v.agree k j)) (on-add_channel e.subscriptions id k name j v.sound.index))

admit-member :
    (e f : Engine) (name : Bytes) (ch : Live) (id : ℕ) (prio : ℤ) (k : ℕ) (j : Bytes)
    → IsValid e
    → Knows e f name ch
    → (is_full ch || contains (subscribers ch.members) id ≡ true → member f k j ≡ member e k j)
    → member (admit f name ch id prio).0 k j
      ≡ (member e k j || (not (is_some (admit f name ch id prio).1) && (nat_eq id k && name == j)))
unfolding admit
admit-member e f name ch id prio k j v know refused =
    let Right : Engine × Option EngineError → Type 0 = λ (r : Engine × Option EngineError).
      member r.0 k j ≡ (member e k j || (not (is_some r.1) && (nat_eq id k && name == j))) in
    let is_new = subscribe-new ch.members id in
    if_cases Right (is_full ch) _ _ (λ full. ground (arith, full, refused))
      (λ room.
        if_cases Right (not (subscribe ch.members id).1) _ _ (λ dup. ground (arith, refused))
          (λ new.
            let fresh : contains (subscribers ch.members) id ≡ false = ground arith in
            sym (seen e f name ch id prio k j v know)
            ∙ sym (on-admitted e f name ch id prio k j v know fresh)
            ∙ on-known e f name ch id k j v know))

-- In a valid engine, `SubscribePriority` leaves every subscription as it was, and adds, where it
-- reports no error, that of the subscriber on the channel.
pub member-subscribe_priority :
    (e : Engine) (id : ℕ) (name : Bytes) (prio : ℤ) (epoch : ℕ) (now : ℤ) (k : ℕ) (j : Bytes)
    → IsValid e
    → member (subscribe_priority e id name prio epoch now).0 k j ≡ (
        member e k j
        || (not (is_some (subscribe_priority e id name prio epoch now).1)
            && (nat_eq id k && name == j)))
unfolding subscribe_priority create_channel find get_shard shard_index
member-subscribe_priority e id name prio epoch now k j v =
    let Right : Engine × Option EngineError → Type 0 = λ (r : Engine × Option EngineError).
      member r.0 k j ≡ (member e k j || (not (is_some r.1) && (nat_eq id k && name == j))) in
    option_cases Right (find e name) _ _
      (λ absent.
        option_cases Right (channel_settings e.config name) _ _ (λ _. ground arith)
          (λ s _.
            admit-member e (create_channel (counted e) name s epoch now).0 name
              (new_live s epoch now) id prio k j v (made-Knows e name s epoch now v absent)
              (λ refused. absurd (room_in_new s epoch now id refused))))
      (λ ch there.
        admit-member e (counted e) name ch id prio k j v (found-Knows e name ch v there)
          (λ _. refl))
