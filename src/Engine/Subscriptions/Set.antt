-- ===== src/Engine/Subscriptions/Set.antt =====
-- The hybrid set is a set: its two representations are invisible, and its sizes stay in their ranges.
use gentis.Prelude.{
  ◌+◌, ◌/◌, ◌≤◌, ◌<◌, ◌≡◌, refl, Bytes, bytes_Eq, bytes_eq_iff, List, [], ◌∷◌, none, some, Bool,
  true, false, not, ◌&&◌, ◌||◌, ◌==◌, length, contains, keys, insert, delete, Distinct, arith,
  contains-append, append-Distinct, contains-keys, contains-keys-insert, contains-keys-delete,
  insert-Distinct, delete-Distinct, length-insert, length-append, Option-cases, inl, inr,
}
use gentis.Client.{Mark, mark}
use gentis.Engine.Subscriptions.{
  ChannelSet, add, remove, insert_all, last_of, but_last, fill, swap_remove, to_slice,
  flat_threshold,
}

contains-insert_all :
    (xs : List Bytes) (m : List (Bytes × Mark)) (j : Bytes)
    → contains (keys (insert_all xs m)) j ≡ (contains xs j || contains (keys m) j)
unfolding insert_all
contains-insert_all [] m j = refl
contains-insert_all (x ∷ xs) m j =
    ground (arith, contains-insert_all xs (insert x mark m) j, contains-keys-insert x j mark m)

insert_all-Distinct :
    (xs : List Bytes) (m : List (Bytes × Mark))
    → Distinct (keys m)
    → Distinct (keys (insert_all xs m))
unfolding insert_all
insert_all-Distinct [] m d = d
insert_all-Distinct (x ∷ xs) m d =
    insert_all-Distinct xs (insert x mark m) (insert-Distinct x mark m d)

pub length-keys : (m : List (Bytes × Mark)) → length (keys m) ≡ length m
length-keys [] = refl
length-keys ((k, v) ∷ m) = omega (arith, length-keys m)

length-insert_all :
    (xs : List Bytes) (m : List (Bytes × Mark)) → length m ≤ length (insert_all xs m)
unfolding insert_all
length-insert_all [] m = omega arith
length-insert_all (x ∷ xs) m =
    ground (arith, length-insert_all xs (insert x mark m), length-insert x mark m)

contains-fill :
    (y j : Bytes) (ys : List Bytes) → contains (fill (y ∷ ys)) j ≡ (y == j || contains ys j)
unfolding fill last_of but_last
contains-fill y j [] = refl
contains-fill y j (z ∷ zs) = ground (arith, contains-fill z j zs)

length-but_last : (y : Bytes) (ys : List Bytes) → length (but_last y ys) ≡ length ys
unfolding but_last
length-but_last y [] = refl
length-but_last y (z ∷ zs) = omega (arith, length-but_last z zs)

-- The last element moved to the front leaves a list distinct.
fill-Distinct : (y : Bytes) (ys : List Bytes) → Distinct (y ∷ ys) → Distinct (fill (y ∷ ys))
unfolding fill last_of but_last
fill-Distinct y [] d = d
fill-Distinct y (z ∷ zs) d = ground (
  arith,
  fill-Distinct z zs d.1,
  contains-fill z y zs,
  bytes_eq_iff (last_of z zs) y,
  bytes_eq_iff y (last_of z zs),
)

length-swap_remove_le : (xs : List Bytes) (ch : Bytes) → length (swap_remove xs ch) ≤ length xs
unfolding swap_remove fill
length-swap_remove_le [] ch = omega arith
length-swap_remove_le (x ∷ []) ch = ground arith
length-swap_remove_le (x ∷ y ∷ ys) ch =
    ground (arith, length-swap_remove_le (y ∷ ys) ch, length-but_last y ys)

contains-swap_remove :
    (xs : List Bytes) (ch j : Bytes)
    → Distinct xs
    → contains (swap_remove xs ch) j ≡ (contains xs j && not (ch == j))
unfolding swap_remove fill
contains-swap_remove [] ch j d = refl
contains-swap_remove (x ∷ []) ch j d =
    ground (arith, bytes_eq_iff x ch, bytes_eq_iff ch j, bytes_eq_iff x j)
contains-swap_remove (x ∷ y ∷ ys) ch j d = ground (
  arith,
  contains-fill y j ys,
  contains-swap_remove (y ∷ ys) ch j d.1,
  bytes_eq_iff x ch,
  bytes_eq_iff ch j,
  bytes_eq_iff x j,
)

swap_remove-Distinct : (xs : List Bytes) (ch : Bytes) → Distinct xs → Distinct (swap_remove xs ch)
unfolding swap_remove fill
swap_remove-Distinct [] ch d = d
swap_remove-Distinct (x ∷ []) ch d = ground arith
swap_remove-Distinct (x ∷ y ∷ ys) ch d = ground (
  arith,
  fill-Distinct y ys d.1,
  contains-swap_remove (y ∷ ys) ch x d.1,
  swap_remove-Distinct (y ∷ ys) ch d.1,
)

-- What the set holds.
abbrev pub has : ChannelSet → Bytes → Bool
has cs channel = contains (to_slice cs) channel

-- No channel twice; a slice of at most eight channels, or a map of more than four.
pub record IsValid (cs : ChannelSet) : Type 0 where
  pub distinct : Distinct (to_slice cs)
  pub in_range : elim cs.m as (λ _. Type 0) [
    | none ↦ length cs.flat ≤ flat_threshold
    | some m ↦ flat_threshold / 2 < length m
  ]

has-add-some :
    (cs : ChannelSet) (m : List (Bytes × Mark)) (ch j : Bytes)
    → cs.m ≡ some m
    → has (add cs ch) j ≡ (has cs j || ch == j)
unfolding add to_slice
has-add-some cs m ch j e = ground (arith, contains-keys-insert ch j mark m)

-- Adding a channel adds that channel and no other, in either representation.
pub has-add : (cs : ChannelSet) (ch j : Bytes) → has (add cs ch) j ≡ (has cs j || ch == j)
unfolding add to_slice
has-add cs ch j =
    let all = insert_all cs.flat [] in
    elim (Option-cases cs.m) [
      | inr (m, e) ↦ has-add-some cs m ch j e
      | inl e ↦ ground (
        arith,
        bytes_eq_iff ch j,
        contains-append cs.flat (ch ∷ []) j,
        contains-keys-insert ch j mark all,
        contains-insert_all cs.flat [] j,
      )
    ]

-- Removing a channel removes that channel and no other, in either representation.
pub has-remove :
    (cs : ChannelSet) (ch j : Bytes)
    → IsValid cs
    → has (remove cs ch) j ≡ (has cs j && not (ch == j))
unfolding remove to_slice
has-remove cs ch j v = elim (Option-cases cs.m) [
  | inr (m, e) ↦ ground (arith, contains-keys-delete ch j m)
  | inl e ↦ ground (arith, contains-swap_remove cs.flat ch j)
]

length-insert_all_new :
    (xs : List Bytes) (m : List (Bytes × Mark))
    → Distinct xs
    → ((j : Bytes) → contains xs j ≡ true → contains (keys m) j ≡ false)
    → length (insert_all xs m) ≡ length xs + length m
unfolding insert_all
length-insert_all_new [] m d a = omega arith
length-insert_all_new (x ∷ xs) m d a =
    let apart : (j : Bytes) → contains xs j ≡ true → contains (keys (insert x mark m)) j ≡ false =
      λ j h. ground (arith, contains-keys-insert x j mark m, a j, bytes_eq_iff x j) in
    let more = length-insert_all_new xs (insert x mark m) d.1 apart in
    ground (arith, length-insert x mark m, contains-keys x m, a x, bytes_eq_iff x x)

pub add-IsValid : (cs : ChannelSet) (ch : Bytes) → IsValid cs → IsValid (add cs ch)
unfolding add to_slice
add-IsValid cs ch v =
    let all = insert_all cs.flat [] in
    elim (Option-cases cs.m) [
      | inr (m, e) ↦
          ground (arith, v.distinct, v.in_range, insert-Distinct ch mark m, length-insert ch mark m)
      | inl e ↦
          let none_in : (j : Bytes)
              → contains cs.flat j ≡ true
              → contains (keys {V = Mark} []) j ≡ false =
            λ j h. refl in
          ground (
            arith,
            v.distinct,
            v.in_range,
            append-Distinct cs.flat ch,
            length-append cs.flat (ch ∷ []),
            insert_all-Distinct cs.flat [] tt,
            insert-Distinct ch mark all,
            length-insert ch mark all,
            length-insert_all_new cs.flat [],
            none_in,
          )
    ]

pub remove-IsValid : (cs : ChannelSet) (ch : Bytes) → IsValid cs → IsValid (remove cs ch)
unfolding remove to_slice
remove-IsValid cs ch v = elim (Option-cases cs.m) [
  | inr (m, e) ↦
      ground (arith, v.distinct, v.in_range, delete-Distinct ch m, length-keys (delete ch m))
  | inl e ↦ ground (
    arith,
    v.distinct,
    v.in_range,
    swap_remove-Distinct cs.flat ch,
    length-swap_remove_le cs.flat ch,
  )
]
