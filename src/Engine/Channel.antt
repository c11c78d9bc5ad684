-- ===== src/Engine/Channel.antt =====
-- The subscribers of a channel and their ranks (internal/engine/channel.go). The channel's lock makes
-- each method one step; `range` over the ranks meets them in the order of the list.
pub mod Members
pub mod Cohort
pub mod Stored
use gentis.Prelude.{
  ℕ, ℤ, pos, List, [], ◌∷◌, ◌++◌, Option, none, some, Bool, true, false, not, ◌||◌, if◌then◌else◌,
  nat_eq, ltb, leb, ltb_ℤ, leb_ℤ, ◌&&◌, length, contains, delete_first, nat_Eq, insert, delete,
  is_empty,
}

-- The fields that these methods use. A nil pointer is `none`.
pub record Channel : Type 0 where
  pub subscribers : Option (List ℕ)
  pub prios : Option (List (ℕ × ℤ))
  pub top_cohort : Option (List ℕ)

-- `NewChannel`
unfoldable pub new_channel : Channel
new_channel = record { subscribers = some []; prios = none; top_cohort = none }

-- `Subscribers`
unfoldable pub subscribers : Channel → List ℕ
subscribers c = elim c.subscribers [ none ↦ [] | some ids ↦ ids ]

-- `Subscribe`
unfoldable pub subscribe : Channel → ℕ → Channel × Bool
unfolding subscribers
subscribe c id =
    if contains (subscribers c) id
    then (c, false)
    else (record c { subscribers = some (subscribers c ++ (id ∷ [])) }, true)

-- `Unsubscribe`
unfoldable pub unsubscribe : Channel → ℕ → Channel × Bool
unfolding subscribers
unsubscribe c id =
    if is_empty (subscribers c)
    then (c, false)
    else if not (contains (subscribers c) id)
    then (c, false)
    else (record c { subscribers = some (delete_first (subscribers c) id) }, true)

-- `SubscriberCount`
unfoldable pub subscriber_count : Channel → ℕ
subscriber_count c = elim c.subscribers [ none ↦ 0 | some ids ↦ length ids ]

-- The loop of `rebuildTopCohortLocked` that finds the best rank; `none` while nothing is found.
unfoldable pub best_of : Option ℤ → List (ℕ × ℤ) → Option ℤ
best_of best [] = best
best_of none ((id, p) ∷ m) = best_of (some p) m
best_of (some b) ((id, p) ∷ m) = best_of (some (if ltb_ℤ b p then p else b)) m

-- Go's `==` on ranks
abbrev pub eq_ℤ : ℤ → ℤ → Bool
eq_ℤ a b = leb_ℤ a b && leb_ℤ b a

-- The loop that collects the subscribers of that rank
unfoldable pub with_rank : ℤ → List (ℕ × ℤ) → List ℕ
with_rank best [] = []
with_rank best ((id, p) ∷ m) = if eq_ℤ p best then id ∷ with_rank best m else with_rank best m

unfoldable pub put_sorted : ℕ → List ℕ → List ℕ
put_sorted x [] = x ∷ []
put_sorted x (y ∷ ys) = if leb x y then x ∷ y ∷ ys else y ∷ put_sorted x ys

-- What `slices.Sort` returns: the elements in ascending order.
unfoldable pub sort : List ℕ → List ℕ
unfolding put_sorted
sort [] = []
sort (x ∷ xs) = put_sorted x (sort xs)

-- The cohort that `rebuildTopCohortLocked` stores
unfoldable pub cohort : List (ℕ × ℤ) → List ℕ
unfolding best_of with_rank sort
cohort m = elim (best_of none m) [ none ↦ [] | some best ↦ sort (with_rank best m) ]

-- `setPriority`
unfoldable pub set_priority : Channel → ℕ → ℤ → Channel
unfolding cohort
set_priority c id prio =
    let old = elim c.prios as (λ _. List (ℕ × ℤ)) [ none ↦ [] | some m ↦ m ] in
    let prios = insert id prio old in
    record c { prios = some prios; top_cohort = some (cohort prios) }

-- `clearPriority`
unfoldable pub clear_priority : Channel → ℕ → Channel
unfolding cohort
clear_priority c id = elim c.prios [
  | none ↦ c
  | some m ↦ record c { prios = some (delete id m); top_cohort = some (cohort (delete id m)) }
]
