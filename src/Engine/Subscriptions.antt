-- ===== src/Engine/Subscriptions.antt =====
-- The channels of each subscriber (internal/engine/subscription.go): a hybrid set of channel names, and
-- the index of these sets by subscriber, in shards. The shard's lock makes each method one step.
pub mod Set
pub mod Index
pub mod Reach
use gentis.Prelude.{
  ℕ, ◌+◌, ◌-◌, ◌/◌, ◌%◌, Bytes, bytes_Eq, nat_Eq, List, [], ◌∷◌, ◌++◌, Option, none, some, Bool,
  true, false, not, ◌&&◌, if◌then◌else◌, ◌==◌, length, contains, keys, insert, delete, lookup, ltb,
  leb, nat_eq, get_or, set, replicate, is_some, max,
}
use gentis.Client.{Mark, mark}

abbrev pub flat_threshold : ℕ
flat_threshold = 8

abbrev pub num_sub_shards : ℕ
num_sub_shards = 32

-- `channelSet`; `m` is absent while it is nil, and `flat` is empty where it is nil.
pub record ChannelSet : Type 0 where
  pub flat : List Bytes
  pub m : Option (List (Bytes × Mark))

unfoldable pub insert_all : List Bytes → List (Bytes × Mark) → List (Bytes × Mark)
insert_all [] m = m
insert_all (ch ∷ chs) m = insert_all chs (insert ch mark m)

-- `add`
unfoldable pub add : ChannelSet → Bytes → ChannelSet
unfolding insert_all
add cs channel = elim cs.m [
  | some m ↦ record cs { m = some (insert channel mark m) }
  | none ↦
      if contains cs.flat channel
      then cs
      else if ltb (length cs.flat) flat_threshold
      then record cs { flat = cs.flat ++ (channel ∷ []) }
      else record { flat = []; m = some (insert channel mark (insert_all cs.flat [])) }
]

unfoldable pub last_of : Bytes → List Bytes → Bytes
last_of x [] = x
last_of x (y ∷ ys) = last_of y ys

-- The slice without its last element, of a slice that is not empty.
unfoldable pub but_last : Bytes → List Bytes → List Bytes
but_last x [] = []
but_last x (y ∷ ys) = x ∷ but_last y ys

-- What the swap-remove leaves from the hit on: the last element, where there is one, takes its place.
unfoldable pub fill : List Bytes → List Bytes
unfolding last_of but_last
fill [] = []
fill (y ∷ ys) = last_of y ys ∷ but_last y ys

-- The loop of `remove` over the slice
unfoldable pub swap_remove : List Bytes → Bytes → List Bytes
unfolding fill
swap_remove [] channel = []
swap_remove (x ∷ xs) channel = if x == channel then fill xs else x ∷ swap_remove xs channel

-- `remove`
unfoldable pub remove : ChannelSet → Bytes → ChannelSet
unfolding swap_remove
remove cs channel = elim cs.m [
  | some m ↦
      let left = delete channel m in
      if leb (length left) (flat_threshold / 2)
      then record { flat = keys left; m = none }
      else record cs { m = some left }
  | none ↦ record cs { flat = swap_remove cs.flat channel }
]

-- `len`
unfoldable pub size : ChannelSet → ℕ
size cs = elim cs.m [ some m ↦ length m | none ↦ length cs.flat ]

-- `toSlice`
unfoldable pub to_slice : ChannelSet → List Bytes
to_slice cs = elim cs.m [ some m ↦ keys m | none ↦ cs.flat ]

-- `subShard`
pub record SubShard : Type 0 where
  pub index : List (ℕ × ChannelSet)
  pub peak : ℕ

-- `maybeRebuild`: the rebuilt map has the entries of the old one.
unfoldable pub maybe_rebuild : SubShard → SubShard
maybe_rebuild sh =
    if ltb 64 sh.peak && ltb (length sh.index) (sh.peak / 4)
    then record sh { peak = length sh.index }
    else sh

abbrev pub empty_shard : SubShard
empty_shard = record { index = []; peak = 0 }

-- `newSubscriptions`
unfoldable pub new_subscriptions : List SubShard
new_subscriptions = replicate num_sub_shards empty_shard

-- `getShard`
unfoldable pub get_shard : List SubShard → ℕ → SubShard
get_shard shards id = get_or shards (id % num_sub_shards) empty_shard

unfoldable pub put_shard : List SubShard → ℕ → SubShard → List SubShard
put_shard shards id sh = set shards (id % num_sub_shards) sh

-- The set that `Add` finds or makes
unfoldable pub found_set : Option ChannelSet → ChannelSet
found_set none = record { flat = []; m = none }
found_set (some cs) = cs

-- The body of `Add` on the subscriber's shard
unfoldable pub shard_add : SubShard → ℕ → Bytes → SubShard
unfolding add found_set
shard_add sh id channel =
    let index = insert id (add (found_set (lookup id sh.index)) channel) sh.index in
    record { index = index; peak = max sh.peak (length index) }

-- The body of `Remove` on the subscriber's shard
unfoldable pub shard_remove : SubShard → ℕ → Bytes → SubShard
unfolding remove maybe_rebuild size
shard_remove sh id channel = elim (lookup id sh.index) [
  | none ↦ sh
  | some cs ↦
      let left = remove cs channel in
      if nat_eq (size left) 0
      then maybe_rebuild (record sh { index = delete id sh.index })
      else record sh { index = insert id left sh.index }
]

-- `Add`
unfoldable pub add_channel : List SubShard → ℕ → Bytes → List SubShard
add_channel shards id channel = put_shard shards id (shard_add (get_shard shards id) id channel)

-- `Remove`
unfoldable pub remove_channel : List SubShard → ℕ → Bytes → List SubShard
remove_channel shards id channel =
    put_shard shards id (shard_remove (get_shard shards id) id channel)

-- `RemoveAll`
unfoldable pub remove_all : List SubShard → ℕ → List SubShard
remove_all shards id =
    let sh = get_shard shards id in
    put_shard shards id (maybe_rebuild (record sh { index = delete id sh.index }))

-- `GetChannels`
unfoldable pub get_channels : List SubShard → ℕ → List Bytes
get_channels shards id = elim (lookup id (get_shard shards id).index) [
  | none ↦ []
  | some cs ↦ to_slice cs
]
