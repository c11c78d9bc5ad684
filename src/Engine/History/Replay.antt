-- ===== src/Engine/History/Replay.antt =====
-- `replayN` on the ring is `replay` on the log.
use gentis.Prelude.{
  ℕ, zero, suc, ◌+◌, ◌-◌, ◌%◌, ◌<◌, ◌≤◌, ◌≡◌, refl, sym, ◌∙◌, ap, List, [], ◌∷◌, length, get_or,
  ltb, if◌then◌else◌, arith, Bool-cases, inl, inr, u64_mod, nat_eq, take, drop, leb, true, false,
  ◌&&◌,
}
use native.Mathlib.Nat.{mod-lt}
use gentis.Engine.History.{Item, no_item, History, tail, replay_n, replay_items, copy_round}
use gentis.Engine.History.Segment.{
  segment, index, mod_twice, drop-segment, take-segment, copy_round-segment, segment-index,
}
use gentis.Engine.History.Log
use gentis.Engine.History.Log.{Consecutive, after, at_most, reaches}
use gentis.Engine.History.Append.{contents, IsValid}

-- In a log of consecutive offsets, what comes after an offset is a suffix.
drop-empty : (n : ℕ) → ◌≡◌ {A = List Item} [] (drop n [])
drop-empty zero = refl
drop-empty (suc n) = refl

-- Nothing is dropped where all offsets come after.
after-all : (c from : ℕ) (log : List Item) → Consecutive c log → from ≤ c → after from log ≡ log
after-all c from [] r h = refl
after-all c from (x ∷ log) r h =
    let later : ltb from x.offset ≡ true = ground arith in
    rw later (ap (◌∷◌ x) (after-all (suc c) from log r.1 (omega arith)))

after-drop :
    (c from : ℕ) (log : List Item)
    → Consecutive c log
    → c ≤ from
    → after from log ≡ drop (from - c) log
after-drop c from [] r h = drop-empty (from - c)
after-drop c from (x ∷ log) r h = elim (Bool-cases (ltb from x.offset)) [
  | inl later ↦
      let none_before : from - c ≡ 0 = ground arith in
      rw (later, none_before) (ap (◌∷◌ x) (after-all (suc c) from log r.1 (ground arith)))
  | inr not_later ↦
      let one_more : from - c ≡ suc (from - suc c) = ground arith in
      rw (not_later, one_more) (after-drop (suc c) from log r.1 (ground arith))
]

-- The items that the copies give are a part of the log.
items_lem :
    (es : List Item) (t k skip want : ℕ)
    → t < length es
    → k ≤ length es
    → skip < k
    → skip + want ≤ k
    → copy_round es ((t + skip) % length es) want ≡ segment es (length es) (t + skip) want
items_lem es t k skip want ht hk hs hw =
    let n = length es in
    copy_round-segment es ((t + skip) % n) want (mod-lt (t + skip) (omega arith)) (omega arith)
    ∙ same_place
  where
    same_place :
        segment es (length es) ((t + skip) % length es) want
        ≡ segment es (length es) (t + skip) want
    same_place =
        rw (mod_twice (t + skip) (length es) (omega arith))
          (segment-index es (length es) (t + skip) want (omega arith))

take-segment_all :
    (es : List Item) (n t k j : ℕ) → k ≤ j → take j (segment es n t k) ≡ segment es n t k
unfolding segment
take-segment_all es n t zero zero h = refl
take-segment_all es n t zero (suc j) h = refl
take-segment_all es n t (suc k) zero h = absurd (omega arith)
take-segment_all es n t (suc k) (suc j) h =
    ap (◌∷◌ (get_or es (index n t) no_item)) (take-segment_all es n (suc t) k j (omega arith))

at_most-segment :
    (es : List Item) (n t all max : ℕ)
    → at_most max (segment es n t all)
      ≡ segment es n t (if ltb 0 max && ltb max all then max else all)
at_most-segment es n t all max =
    ground (arith, take-segment es n max t all, take-segment_all es n t all max)

-- The oldest item of a log that is not empty.
oldest-segment :
    (es : List Item) (n t c k : ℕ)
    → 0 < k
    → t < n
    → Consecutive c (segment es n t k)
    → ((get_or es t no_item).offset ≡ suc c)
      × ((m : ℕ) → reaches m (segment es n t k) ≡ leb (suc c) m)
unfolding segment
oldest-segment es n t c zero hk ht r = absurd (omega arith)
oldest-segment es n t c (suc k) hk ht r =
    let at : index n t ≡ t = ground arith in
    let first = ap (λ i. (get_or es i no_item).offset) (sym at) ∙ r.0 in
    (first, λ m. ap (λ o. leb o m) r.0)

reaches-nil : (es : List Item) (n t k m : ℕ) → k ≡ 0 → reaches m (segment es n t k) ≡ false
unfolding segment
reaches-nil es n t zero m e = refl
reaches-nil es n t (suc k) m e = absurd (omega arith)

-- The items of `replayN` are those of the log after `from`, as many as asked for.
replay_items_lem :
    (h : History) (from max : ℕ)
    → IsValid h
    → 0 < h.count
    → from < h.last_offset
    → h.last_offset ≤ from + h.count
    → replay_items h (suc from) max ≡ at_most max (after from (contents h))
unfolding replay_items
replay_items_lem h from max v busy behind reached =
    let n = length h.entries in
    let c = h.last_offset - h.count in
    let t_lt = mod-lt (h.head + n - h.count) {m = n} (omega arith) in
    let (oldest, _) = oldest-segment h.entries n (tail h) c h.count busy t_lt v.consecutive in
    let skip : suc from - (get_or h.entries (tail h) no_item).offset ≡ from - c = ground arith in
    let places = drop-segment h.entries n (from - c) (tail h) h.count (omega arith) in
    rw (skip, after-drop c from (contents h) v.consecutive (omega arith), places)
      (items_lem h.entries (tail h) h.count (from - c) _ t_lt v.fits (omega arith) (ground arith)
        ∙ sym (at_most-segment h.entries n (tail h + (from - c)) (h.count - (from - c)) max))

-- `replayN` answers from the ring what the log promises: nothing for a caller who is up to date,
-- the publications after `from` in order (at most `max`, unless that is 0) if the log still has all
-- of them, and otherwise that the gap cannot be filled.
pub replay_refines :
    (h : History) (from max : ℕ)
    → IsValid h
    → from < u64_mod
    → replay_n h from max ≡ Log.replay (contents h) h.last_offset from max
unfolding replay_n Log.replay
replay_refines h from max v word = elim (Bool-cases (nat_eq h.count 0)) [
  | inl empty ↦
      let gone =
        reaches-nil h.entries (length h.entries) (tail h) h.count (suc from) (ground arith) in
      ground arith
  | inr busy ↦
      let n = length h.entries in
      let c = h.last_offset - h.count in
      let some_held : 0 < h.count = ground arith in
      let t_lt = mod-lt (h.head + n - h.count) {m = n} (omega arith) in
      let (oldest, reach) =
        oldest-segment h.entries n (tail h) c h.count some_held t_lt v.consecutive in
      ground (arith, reach (suc from), replay_items_lem h from max v some_held)
]
