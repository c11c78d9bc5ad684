-- ===== src/Engine/History/Log.antt =====
-- What a history promises: a log of at most `cap` publications with consecutive offsets, oldest
-- first, that forgets from the front.
use gentis.Prelude.{
  ℕ, suc, ℤ, Bool, List, [], ◌∷◌, ◌++◌, Option, none, some, if◌then◌else◌, length, ltb, leb, leb_ℤ,
  nat_eq, keep, take, rest, ◌≡◌,
}
use gentis.Engine.History.{Item}

-- A new publication pushes the oldest one out of a full log.
unfoldable pub append : ℕ → List Item → Item → List Item
append cap log x = (if ltb (length log) cap then log else rest log) ++ (x ∷ [])

-- The publications after an offset.
abbrev pub after : ℕ → List Item → List Item
after from log = keep (λ x. ltb from x.offset) log

-- At most `max`, where 0 means no bound.
abbrev pub at_most : ℕ → List Item → List Item
at_most max log = if nat_eq max 0 then log else take max log

-- The oldest offset that is still there is not past `wanted`.
abbrev pub reaches : ℕ → List Item → Bool
reaches wanted [] = Bool.false
reaches wanted (x ∷ log) = leb x.offset wanted

-- Whether the log can say what came after `from`: all of it is there, and `from` was assigned.
unfoldable pub replay : List Item → ℕ → ℕ → ℕ → Option (List Item)
replay log last from max =
    if nat_eq from last
    then some []
    else if ltb from last
    then (if reaches (suc from) log then some (at_most max (after from log)) else none)
    else none

-- The entries stored at or before the cutoff go from the front, up to the first later one.
unfoldable pub expire : ℤ → List Item → List Item
expire cutoff [] = []
expire cutoff (x ∷ log) = if leb_ℤ x.stored_at cutoff then expire cutoff log else x ∷ log

-- The offsets after `c`, one by one.
abbrev pub Consecutive : ℕ → List Item → Type 0
Consecutive c [] = Unit
Consecutive c (x ∷ log) = (x.offset ≡ suc c) × Consecutive (suc c) log
