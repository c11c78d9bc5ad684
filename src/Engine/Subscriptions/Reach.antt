-- ===== src/Engine/Subscriptions/Reach.antt =====
-- What holds of the index after any sequence of its operations.
use gentis.Prelude.{
  ℕ, ◌%◌, ◌≡◌, refl, Bytes, bytes_Eq, nat_Eq, nat_eq, List, Option, none, some, lookup, delete,
  lookup-insert, get_or, replicate, length-set, length-replicate, arith, Option-cases, Bool-cases,
  inl, inr, ◌∙◌, subst, lookup-delete_inv, zero, suc, false,
}
use gentis.Engine.Subscriptions.{
  ChannelSet, SubShard, add, remove, size, to_slice, num_sub_shards, empty_shard, get_shard,
  put_shard, found_set, shard_add, shard_remove, maybe_rebuild, add_channel, remove_channel,
  remove_all, new_subscriptions, get_channels,
}
use gentis.Engine.Subscriptions.Set.{
  length-keys, has, has-add, has-remove, add-IsValid, remove-IsValid,
}
use gentis.Engine.Subscriptions.Set as Set
use gentis.Engine.Subscriptions.Index.{
  on, AllValid, IsValid, get_shard-put_shard, maybe_rebuild-index,
}

put_shard-IsValid :
    (shards : List SubShard) (id : ℕ) (sh : SubShard)
    → IsValid shards
    → AllValid sh
    → IsValid (put_shard shards id sh)
unfolding put_shard
put_shard-IsValid shards id sh v a = record {
  all_shards = length-set shards (id % num_sub_shards) sh ∙ v.all_shards;
  valid_sets = λ i k cs h.
      let put = get_shard-put_shard shards id i sh v.all_shards in
      ground (arith, a k cs, v.valid_sets i k cs);
}

empty_set-IsValid : Set.IsValid (found_set none)
unfolding found_set to_slice
empty_set-IsValid = record { distinct = tt; in_range = omega arith }

shard_add-AllValid :
    (sh : SubShard) (id : ℕ) (ch : Bytes) → AllValid sh → AllValid (shard_add sh id ch)
unfolding shard_add found_set
shard_add-AllValid sh id ch a k cs h =
    let old = found_set (lookup id sh.index) in
    let put = lookup-insert id k (add old ch) sh.index in
    let found : Set.IsValid old = found_valid (lookup id sh.index) (a id) in
    let more = add-IsValid old ch found in
    elim (Bool-cases (nat_eq id k)) [
      | inl hit ↦ subst Set.IsValid (ground arith) more
      | inr other ↦ a k cs (ground arith)
    ]
  where
    found_valid :
        (o : Option ChannelSet)
        → ((c : ChannelSet) → o ≡ some c → Set.IsValid c)
        → Set.IsValid (found_set o)
    found_valid none p = empty_set-IsValid
    found_valid (some c) p = p c refl

delete-AllValid :
    (sh : SubShard) (id peak : ℕ)
    → AllValid sh
    → AllValid (record { index = delete id sh.index; peak = peak })
delete-AllValid sh id peak a k cs h = a k cs (lookup-delete_inv id k cs sh.index h).1

maybe_rebuild-AllValid : (sh : SubShard) → AllValid sh → AllValid (maybe_rebuild sh)
maybe_rebuild-AllValid sh a k cs h =
    a k cs (subst (λ m. lookup k m ≡ some cs) (maybe_rebuild-index sh) h)

shard_remove-AllValid :
    (sh : SubShard) (id : ℕ) (ch : Bytes) → AllValid sh → AllValid (shard_remove sh id ch)
unfolding shard_remove
shard_remove-AllValid sh id ch a k cs h = elim (Option-cases (lookup id sh.index)) [
  | inl e ↦ a k cs (ground arith)
  | inr (old, e) ↦ elim (Bool-cases (nat_eq (size (remove old ch)) 0)) [
    | inl gone ↦
        maybe_rebuild-AllValid (record sh { index = delete id sh.index })
          (delete-AllValid sh id sh.peak a) k cs (ground arith)
    | inr left ↦
        let put = lookup-insert id k (remove old ch) sh.index in
        let less = remove-IsValid old ch (a id old e) in
        elim (Bool-cases (nat_eq id k)) [
          | inl hit ↦ subst Set.IsValid (ground arith) less
          | inr other ↦ a k cs (ground arith)
        ]
  ]
]

-- Any sequence of the three operations, from the empty index.
pub data Reachable : List SubShard → Type 0 where
  start : Reachable new_subscriptions
  then_add :
      (shards : List SubShard) (id : ℕ) (ch : Bytes)
      → Reachable shards
      → Reachable (add_channel shards id ch)
  then_remove :
      (shards : List SubShard) (id : ℕ) (ch : Bytes)
      → Reachable shards
      → Reachable (remove_channel shards id ch)
  then_remove_all :
      (shards : List SubShard) (id : ℕ) → Reachable shards → Reachable (remove_all shards id)

new_subscriptions-get :
    (n : ℕ) (i : ℕ) → get_or (replicate n empty_shard) i empty_shard ≡ empty_shard
new_subscriptions-get zero i = refl
new_subscriptions-get (suc n) zero = refl
new_subscriptions-get (suc n) (suc i) = new_subscriptions-get n i

pub new_subscriptions-IsValid : IsValid new_subscriptions
unfolding new_subscriptions get_shard lookup
new_subscriptions-IsValid = record {
  all_shards = length-replicate num_sub_shards empty_shard;
  valid_sets = λ i k cs h.
      let nothing = new_subscriptions-get num_sub_shards (i % num_sub_shards) in ground arith;
}

pub add_channel-IsValid :
    (shards : List SubShard) (id : ℕ) (ch : Bytes)
    → IsValid shards
    → IsValid (add_channel shards id ch)
unfolding add_channel
add_channel-IsValid shards id ch v =
    put_shard-IsValid shards id _ v
      (shard_add-AllValid (get_shard shards id) id ch (v.valid_sets id))

pub remove_channel-IsValid :
    (shards : List SubShard) (id : ℕ) (ch : Bytes)
    → IsValid shards
    → IsValid (remove_channel shards id ch)
unfolding remove_channel
remove_channel-IsValid shards id ch v =
    put_shard-IsValid shards id _ v
      (shard_remove-AllValid (get_shard shards id) id ch (v.valid_sets id))

pub remove_all-IsValid :
    (shards : List SubShard) (id : ℕ) → IsValid shards → IsValid (remove_all shards id)
unfolding remove_all
remove_all-IsValid shards id v =
    let old = get_shard shards id in
    put_shard-IsValid shards id _ v
      (maybe_rebuild-AllValid _ (delete-AllValid old id old.peak (v.valid_sets id)))

pub on-new_subscriptions : (id : ℕ) (ch : Bytes) → on new_subscriptions id ch ≡ false
unfolding get_channels get_shard new_subscriptions lookup
on-new_subscriptions id ch =
    let nothing = new_subscriptions-get num_sub_shards (id % num_sub_shards) in ground arith

-- Whatever subscriptions are added and removed, all 32 shards are there, and each set they hold names
-- no channel twice and keeps to its representation: a slice of at most 8, or a map of more than 4.
pub Reachable-IsValid : (shards : List SubShard) → Reachable shards → IsValid shards
Reachable-IsValid _ start = new_subscriptions-IsValid
Reachable-IsValid _ (then_add shards id ch r) =
    add_channel-IsValid shards id ch (Reachable-IsValid shards r)
Reachable-IsValid _ (then_remove shards id ch r) =
    remove_channel-IsValid shards id ch (Reachable-IsValid shards r)
Reachable-IsValid _ (then_remove_all shards id r) =
    remove_all-IsValid shards id (Reachable-IsValid shards r)
