-- ===== src/Engine/State/Find.antt =====
-- The engine as one map of channels: its shards are invisible.
use gentis.Prelude.{
  ℕ, ℤ, ◌%◌, ◌<◌, ◌≡◌, ap, Bytes, bytes_Eq, bytes_eq_iff, nat_eq, nat_eq_iff, Option, none, some,
  if◌then◌else◌, ◌==◌, length, lookup, lookup-insert, lookup-delete, length-set, get_or,
  get_or-set_if, arith, true, if_cases,
}
use gentis.Namespace.Settings.{Settings}
use gentis.Engine.State.{
  Engine, Live, Shard, empty_shard, shard_index, get_shard, put_shard, find, put_live,
  maybe_rebuild, drop_from, drop_channel, create_channel, new_live,
}

index-lt : (e : Engine) (name : Bytes) → 0 < length e.shards → shard_index e name < length e.shards
unfolding shard_index
index-lt e name h = omega arith

get_shard-put_shard :
    (e : Engine) (name j : Bytes) (sh : Shard)
    → 0 < length e.shards
    → get_shard (put_shard e name sh) j
      ≡ (if nat_eq (shard_index e name) (shard_index e j) then sh else get_shard e j)
unfolding get_shard put_shard shard_index
get_shard-put_shard e name j sh h = rw (length-set e.shards (e.hash name % length e.shards) sh) (
    get_or-set_if e.shards (e.hash name % length e.shards) (e.hash j % length e.shards) sh
      empty_shard (index-lt e name h))

same_shard :
    (e : Engine) (name j : Bytes)
    → nat_eq (shard_index e name) (shard_index e j) ≡ true
    → get_shard e name ≡ get_shard e j
unfolding get_shard
same_shard e name j same =
    ap (λ i. get_or e.shards i empty_shard)
      ((nat_eq_iff (shard_index e name) (shard_index e j)).0 same)

same_index :
    (e : Engine) (name j : Bytes) → (name == j) ≡ true → shard_index e name ≡ shard_index e j
same_index e name j same = ap (shard_index e) ((bytes_eq_iff name j).0 same)

-- A change of a shard that changes the entry of one name.
pub find-put_shard :
    (e : Engine) (name j : Bytes) (sh : Shard) (o : Option Live)
    → 0 < length e.shards
    → ((k : Bytes)
        → lookup k sh.channels ≡ (if name == k then o else lookup k (get_shard e name).channels))
    → find (put_shard e name sh) j ≡ (if name == j then o else find e j)
unfolding find
find-put_shard e name j sh o h only = rw (get_shard-put_shard e name j sh h) (
    if_cases (λ (s : Shard). lookup j s.channels ≡ (if name == j then o else find e j))
      (nat_eq (shard_index e name) (shard_index e j)) _ _
      (λ same. ground (arith, only j, same_shard e name j same))
      (λ other. ground (arith, same_index e name j)))

pub length-put_shard :
    (e : Engine) (name : Bytes) (sh : Shard) → length (put_shard e name sh).shards ≡ length e.shards
unfolding put_shard
length-put_shard e name sh = length-set e.shards (shard_index e name) sh

pub find-put_live :
    (e : Engine) (name j : Bytes) (ch : Live)
    → 0 < length e.shards
    → find (put_live e name ch) j ≡ (if name == j then some ch else find e j)
unfolding put_live
find-put_live e name j ch h =
    find-put_shard e name j _ (some ch) h (λ k. lookup-insert name k ch (get_shard e name).channels)

pub lookup-drop_from :
    (sh : Shard) (name j : Bytes)
    → lookup j (drop_from sh name).channels ≡ (if name == j then none else lookup j sh.channels)
unfolding drop_from maybe_rebuild
lookup-drop_from sh name j = ground (arith, lookup-delete name j sh.channels)

pub find-drop_channel :
    (e : Engine) (name j : Bytes)
    → 0 < length e.shards
    → find (drop_channel e name) j ≡ (if name == j then none else find e j)
unfolding drop_channel find
find-drop_channel e name j h =
    find-put_shard e name j _ none h (lookup-drop_from (get_shard e name) name)

pub find-create_channel :
    (e : Engine) (name j : Bytes) (s : Settings) (epoch : ℕ) (now : ℤ)
    → 0 < length e.shards
    → find (create_channel e name s epoch now).0 j
      ≡ (if name == j then some (new_live s epoch now) else find e j)
unfolding create_channel find
find-create_channel e name j s epoch now h =
    find-put_shard e name j _ _ h
      (λ k. lookup-insert name k (new_live s epoch now) (get_shard e name).channels)
