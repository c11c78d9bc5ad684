-- ===== src/Engine/Subscriptions/Index.antt =====
-- The index as a relation between subscribers and channels: its shards are invisible.
use gentis.Prelude.{
  ℕ, ◌%◌, ◌≡◌, refl, Bytes, bytes_Eq, nat_Eq, nat_eq, nat_eq_iff, List, [], ◌∷◌, Option, none, some,
  Bool, false, not, ◌&&◌, ◌||◌, if◌then◌else◌, ◌==◌, length, contains, lookup, delete,
  lookup-insert, lookup-delete, get_or, get_or-set_self, get_or-set_ne, arith, Option-cases, inl,
  inr, keys, ap,
}
use gentis.Engine.Subscriptions.{
  ChannelSet, SubShard, add, remove, size, to_slice, num_sub_shards, empty_shard, get_shard,
  put_shard, found_set, shard_add, shard_remove, maybe_rebuild, add_channel, remove_channel,
  remove_all, get_channels,
}
use gentis.Engine.Subscriptions.Set.{
  length-keys, has, has-add, has-remove, add-IsValid, remove-IsValid,
}
use gentis.Engine.Subscriptions.Set as Set

-- Whether the index records a subscriber on a channel.
abbrev pub on : List SubShard → ℕ → Bytes → Bool
on shards id channel = contains (get_channels shards id) channel

-- Each set of a shard is valid.
abbrev pub AllValid : SubShard → Type 0
AllValid sh = (k : ℕ) (cs : ChannelSet) → lookup k sh.index ≡ some cs → Set.IsValid cs

-- All the shards are there, and each set is valid.
pub record IsValid (shards : List SubShard) : Type 0 where
  pub all_shards : length shards ≡ num_sub_shards
  pub valid_sets : (id : ℕ) → AllValid (get_shard shards id)

pub get_shard-put_shard :
    (shards : List SubShard) (id k : ℕ) (sh : SubShard)
    → length shards ≡ num_sub_shards
    → get_shard (put_shard shards id sh) k
      ≡ (if nat_eq (id % num_sub_shards) (k % num_sub_shards) then sh else get_shard shards k)
unfolding get_shard put_shard
get_shard-put_shard shards id k sh h = ground (
  arith,
  get_or-set_self shards (id % num_sub_shards) sh empty_shard,
  get_or-set_ne shards (id % num_sub_shards) (k % num_sub_shards) sh empty_shard,
)

get_shard_mod :
    (shards : List SubShard) (id k : ℕ)
    → id % num_sub_shards ≡ k % num_sub_shards
    → get_shard shards id ≡ get_shard shards k
unfolding get_shard
get_shard_mod shards id k h = ap (λ n. get_or shards n empty_shard) h

pub maybe_rebuild-index : (sh : SubShard) → (maybe_rebuild sh).index ≡ sh.index
unfolding maybe_rebuild
maybe_rebuild-index sh = ground arith

-- What a set holds, of a subscriber that may have none.
abbrev holds : Option ChannelSet → Bytes → Bool
holds none channel = false
holds (some cs) channel = has cs channel

on-lookup :
    (shards : List SubShard) (id : ℕ) (channel : Bytes)
    → on shards id channel ≡ holds (lookup id (get_shard shards id).index) channel
unfolding get_channels
on-lookup shards id channel = elim (Option-cases (lookup id (get_shard shards id).index)) [
  | inl e ↦ ground arith
  | inr (cs, e) ↦ ground arith
]

shard_add-holds :
    (sh : SubShard) (id k : ℕ) (ch j : Bytes)
    → holds (lookup k (shard_add sh id ch).index) j
      ≡ (holds (lookup k sh.index) j || (nat_eq id k && ch == j))
unfolding shard_add found_set to_slice
shard_add-holds sh id k ch j =
    let old = found_set (lookup id sh.index) in
    let put = lookup-insert id k (add old ch) sh.index in
    let added = has-add old ch j in
    elim (Option-cases (lookup id sh.index)) [
      | inl e ↦ ground (arith, nat_eq_iff id k)
      | inr (cs, e) ↦ ground (arith, nat_eq_iff id k)
    ]

-- In a valid index `Add` records the one subscription that it is given, and changes no other.
pub on-add_channel :
    (shards : List SubShard) (id k : ℕ) (ch j : Bytes)
    → IsValid shards
    → on (add_channel shards id ch) k j ≡ (on shards k j || (nat_eq id k && ch == j))
unfolding add_channel
on-add_channel shards id k ch j v =
    let sh = shard_add (get_shard shards id) id ch in
    let put = get_shard-put_shard shards id k sh v.all_shards in
    let before = on-lookup shards k j in
    let after = on-lookup (put_shard shards id sh) k j in
    let here = shard_add-holds (get_shard shards id) id k ch j in
    ground (arith, get_shard_mod shards id k)

contains-empty : (xs : List Bytes) (j : Bytes) → length xs ≡ 0 → contains xs j ≡ false
contains-empty [] j h = refl
contains-empty (x ∷ xs) j h = absurd (omega arith)

size-has : (cs : ChannelSet) (j : Bytes) → size cs ≡ 0 → has cs j ≡ false
unfolding size to_slice
size-has cs j h = elim (Option-cases cs.m) [
  | inl e ↦ ground (arith, contains-empty cs.flat j)
  | inr (m, e) ↦ ground (arith, contains-empty (keys m) j, length-keys m)
]

shard_remove-holds :
    (sh : SubShard) (id k : ℕ) (ch j : Bytes)
    → ((cs : ChannelSet) → lookup id sh.index ≡ some cs → Set.IsValid cs)
    → holds (lookup k (shard_remove sh id ch).index) j
      ≡ (holds (lookup k sh.index) j && not (nat_eq id k && ch == j))
unfolding shard_remove
shard_remove-holds sh id k ch j v = elim (Option-cases (lookup id sh.index)) [
  | inl e ↦ ground (arith, nat_eq_iff id k)
  | inr (cs, e) ↦
      let gone = lookup-delete id k sh.index in
      let put = lookup-insert id k (remove cs ch) sh.index in
      let removed = has-remove cs ch j (v cs e) in
      let empty = size-has (remove cs ch) j in
      let same = maybe_rebuild-index (record sh { index = delete id sh.index }) in
      ground (arith, nat_eq_iff id k)
]

-- In a valid index `Remove` takes away the one subscription that it is given, and changes no other.
pub on-remove_channel :
    (shards : List SubShard) (id k : ℕ) (ch j : Bytes)
    → IsValid shards
    → on (remove_channel shards id ch) k j ≡ (on shards k j && not (nat_eq id k && ch == j))
unfolding remove_channel
on-remove_channel shards id k ch j v =
    let sh = shard_remove (get_shard shards id) id ch in
    let put = get_shard-put_shard shards id k sh v.all_shards in
    let before = on-lookup shards k j in
    let after = on-lookup (put_shard shards id sh) k j in
    let here = shard_remove-holds (get_shard shards id) id k ch j (v.valid_sets id id) in
    ground (arith, get_shard_mod shards id k)

-- In a valid index `RemoveAll` takes away every subscription of one subscriber, and changes no other.
pub on-remove_all :
    (shards : List SubShard) (id k : ℕ) (j : Bytes)
    → IsValid shards
    → on (remove_all shards id) k j ≡ (on shards k j && not (nat_eq id k))
unfolding remove_all
on-remove_all shards id k j v =
    let old = get_shard shards id in
    let cut : SubShard = record old { index = delete id old.index } in
    let put = get_shard-put_shard shards id k (maybe_rebuild cut) v.all_shards in
    let same = maybe_rebuild-index cut in
    let gone = lookup-delete id k old.index in
    let before = on-lookup shards k j in
    let after = on-lookup (put_shard shards id (maybe_rebuild cut)) k j in
    ground (arith, get_shard_mod shards id k)
