-- ===== src/Engine/Members/Reaping.antt =====
-- `reapEmptyChannels`, and the calls on wildcard patterns that may end in it.
use gentis.Prelude.{
  ℕ, ◌<◌, ◌%◌, ◌≡◌, refl, sym, ap, ◌∙◌, subst, Bytes, bytes_Eq, bytes_eq_iff, nat_eq, nat_eq_iff,
  nat_Eq, zero, suc, List, [], ◌∷◌, Option, none, some, if◌then◌else◌, false, length, contains,
  contains-keys, keys, lookup, arith, true, Bool-cases, Option-cases, inl, inr, if_cases, ◌⊎◌,
  get_or, false≢true,
}
use gentis.Engine.Channel.{Channel, subscribers, subscriber_count}
use gentis.Engine.Patterns.Coherence.{IsCoherent}
use gentis.Engine.Patterns as Patterns
use gentis.Engine.State.{
  Engine, Live, Shard, find, get_shard, shard_index, drop_from, empty_shard, down,
}
use gentis.Engine.State.Find.{lookup-drop_from}
use gentis.Engine.Subscriptions.Index as Index
use gentis.Engine.Subscriptions.Index.{on}
use gentis.Engine.Members.{is_drained, reap_names, reap_shards, reap_empty_channels}
use gentis.Engine.Members.Invariant.{IsValid, holds, member, count-length}

-- What is left of a channel.
abbrev pub reaped : Option Live → Option Live
reaped none = none
reaped (some ch) = if is_drained ch then none else some ch

lookup-reap_names :
    (seen : List (Bytes × Live)) (names : List Bytes) (sh : Shard) (count : ℕ) (j : Bytes)
    → lookup j sh.channels ≡ lookup j seen ⊎ (lookup j sh.channels ≡ reaped (lookup j seen))
    → lookup j (reap_names seen names sh count).0.channels
      ≡ (if contains names j then reaped (lookup j seen) else lookup j sh.channels)
unfolding reap_names
lookup-reap_names seen [] sh count j h = refl
lookup-reap_names seen (name ∷ names) sh count j h = elim (Option-cases (lookup name seen)) [
  | inl absent ↦ ground (arith, lookup-reap_names seen names sh count j h, bytes_eq_iff name j)
  | inr (ch, there) ↦ elim (Bool-cases (is_drained ch)) [
    | inl drained ↦ ground (
      arith,
      lookup-reap_names seen names (drop_from sh name) (down count 1) j,
      lookup-drop_from sh name j,
      bytes_eq_iff name j,
    )
    | inr alive ↦ ground (arith, lookup-reap_names seen names sh count j h, bytes_eq_iff name j)
  ]
]

lookup-reap_shards :
    (shards : List Shard) (count i : ℕ) (j : Bytes)
    → lookup j (get_or (reap_shards shards count).0 i empty_shard).channels
      ≡ reaped (lookup j (get_or shards i empty_shard).channels)
unfolding reap_shards lookup
lookup-reap_shards [] count i j = refl
lookup-reap_shards (sh ∷ shards) count zero j = ground (
  arith,
  lookup-reap_names sh.channels (keys sh.channels) sh count j (inl refl),
  contains-keys j sh.channels,
  Option-cases (lookup j sh.channels),
)
lookup-reap_shards (sh ∷ shards) count (suc i) j =
    lookup-reap_shards shards (reap_names sh.channels (keys sh.channels) sh count).1 i j

length-reap_shards :
    (shards : List Shard) (count : ℕ) → length (reap_shards shards count).0 ≡ length shards
unfolding reap_shards
length-reap_shards [] count = refl
length-reap_shards (sh ∷ shards) count =
    ap suc (length-reap_shards shards (reap_names sh.channels (keys sh.channels) sh count).1)

find-reap : (e : Engine) (j : Bytes) → find (reap_empty_channels e) j ≡ reaped (find e j)
unfolding reap_empty_channels find get_shard shard_index
find-reap e j =
    rw (length-reap_shards e.shards e.channel_count)
      (lookup-reap_shards e.shards e.channel_count (e.hash j % length e.shards) j)

reaped-some :
    (o : Option Live) (ch : Live) → reaped o ≡ some ch → (o ≡ some ch) × (is_drained ch ≡ false)
reaped-some none ch e = absurd (ground arith)
reaped-some (some c) ch e = ground (arith, Bool-cases (is_drained c))

no_element : (xs : List ℕ) (id : ℕ) → nat_eq (length xs) 0 ≡ true → contains xs id ≡ false
no_element [] id h = refl
no_element (x ∷ xs) id h = absurd (ground arith)

pub nobody_on :
    (c : Channel) (id : ℕ)
    → nat_eq (subscriber_count c) 0 ≡ true
    → contains (subscribers c) id ≡ false
nobody_on c id h = no_element (subscribers c) id (ground (arith, count-length c))

holds-reaped : (o : Option Live) (id : ℕ) → holds (reaped o) id ≡ holds o id
unfolding is_drained
holds-reaped none id = refl
holds-reaped (some ch) id = ground (arith, nobody_on ch.members id)

pub member-reap :
    (e : Engine) (k : ℕ) (j : Bytes) → member (reap_empty_channels e) k j ≡ member e k j
member-reap e k j = ap (λ o. holds o k) (find-reap e j) ∙ holds-reaped (find e j) k

-- Reaping leaves no drained channel.
no_drained-reap :
    (e : Engine) (name : Bytes) (ch : Live)
    → find (reap_empty_channels e) name ≡ some ch
    → ¬ (is_drained ch ≡ true)
no_drained-reap e name ch there drained =
    let (_, alive) = reaped-some (find e name) ch (sym (find-reap e name) ∙ there) in
    false≢true (sym alive ∙ drained)

length-reap : (e : Engine) → length (reap_empty_channels e).shards ≡ length e.shards
unfolding reap_empty_channels
length-reap e = length-reap_shards e.shards e.channel_count

patterns-reap : (e : Engine) → (reap_empty_channels e).patterns ≡ e.patterns
unfolding reap_empty_channels
patterns-reap e = refl

subscriptions-reap : (e : Engine) → (reap_empty_channels e).subscriptions ≡ e.subscriptions
unfolding reap_empty_channels
subscriptions-reap e = refl

-- The engine with other patterns, and with other counters.
abbrev pub with_patterns : Engine → Patterns.Registry → ℕ → ℕ → ℕ → Engine
with_patterns e p ops subs n = record e {
  patterns = p;
  unsubscribe_ops = ops;
  subscription_count = subs;
  pattern_subs = n;
}

abbrev pub reap_if_none : Engine → Engine
reap_if_none e = if nat_eq e.pattern_subs 0 then reap_empty_channels e else e

-- When the last pattern goes, the channels that only served patterns go too.
pub reap_if_none-IsValid :
    (e : Engine) (p : Patterns.Registry) (ops subs n : ℕ)
    → IsValid e
    → IsCoherent p
    → IsValid (reap_if_none (with_patterns e p ops subs n))
unfolding find get_shard shard_index
reap_if_none-IsValid e p ops subs n v w =
    let left = with_patterns e p ops subs n in
    if_cases IsValid (nat_eq n 0) _ _
      (λ _. record {
        sound = record {
          some_shards = subst (λ k. 0 < k) (sym (length-reap left)) v.sound.some_shards;
          fine = λ name ch there.
              v.sound.fine name ch
                (reaped-some (find left name) ch (sym (find-reap left name) ∙ there)).0;
          kept = λ name ch there drained. absurd (no_drained-reap left name ch there drained);
          index = subst Index.IsValid (sym (subscriptions-reap left)) v.sound.index;
          wild = subst IsCoherent (sym (patterns-reap left)) w;
        };
        agree = λ id name.
            ap (λ s. on s id name) (subscriptions-reap left)
            ∙ v.agree id name
            ∙ sym (member-reap left id name);
      })
      (λ some_left. record {
        sound = record {
          some_shards = v.sound.some_shards;
          fine = v.sound.fine;
          kept = λ name ch there drained none_left. ground (arith, nat_eq_iff n 0);
          index = v.sound.index;
          wild = w;
        };
        agree = v.agree;
      })

pub member-reap_if_none :
    (e : Engine) (p : Patterns.Registry) (ops subs n : ℕ) (k : ℕ) (j : Bytes)
    → member (reap_if_none (with_patterns e p ops subs n)) k j ≡ member e k j
unfolding find get_shard shard_index
member-reap_if_none e p ops subs n k j =
    let left = with_patterns e p ops subs n in
    if_cases (λ f. member f k j ≡ member e k j) (nat_eq n 0) _ _ (λ _. member-reap left k j)
      (λ _. refl)

pub patterns-reap_if_none : (e : Engine) → (reap_if_none e).patterns ≡ e.patterns
patterns-reap_if_none e =
    if_cases (λ (f : Engine). f.patterns ≡ e.patterns) (nat_eq e.pattern_subs 0) _ _
      (λ _. patterns-reap e) (λ _. refl)
