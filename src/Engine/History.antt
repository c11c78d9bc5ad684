-- ===== src/Engine/History.antt =====
-- `history` (internal/engine/history.go): a bounded ring of publications, addressed by offset. The
-- lock makes each method one step.
pub mod Segment
pub mod Log
pub mod Append
pub mod Replay
pub mod Sweep
use gentis.Prelude.{
  ℕ, zero, ℤ, pos, suc, ◌+◌, ◌-◌, ◌%◌, ◌-ℤ◌, Bytes, Bool, not, ◌&&◌, if◌then◌else◌, List, [], ◌∷◌,
  ◌++◌, Option, none, some, length, leb, ltb, ltb_ℤ, leb_ℤ, nat_eq, u64_mod, drop, take, set,
  get_or, replicate, min,
}

pub record Item : Type 0 where
  pub offset : ℕ
  pub payload : Bytes
  pub stored_at : ℤ

abbrev pub no_item : Item
no_item = record { offset = 0; payload = []; stored_at = pos 0 }

pub record History : Type 0 where
  pub entries : List Item
  pub head : ℕ
  pub count : ℕ
  pub ttl : ℤ
  pub last_offset : ℕ

-- `newHistory`
unfoldable pub new_history : ℕ → ℤ → History
new_history capacity ttl = record {
  entries = replicate capacity no_item;
  head = 0;
  count = 0;
  ttl = ttl;
  last_offset = 0;
}

-- The index of the oldest entry, `(h.head - h.count + len(h.entries)) % len(h.entries)`, with the
-- sum taken first: `h.head - h.count` may be negative in Go.
abbrev pub tail : History → ℕ
tail h = (h.head + length h.entries - h.count) % length h.entries

-- `appendNext`: the counter `seq` of the channel after the call, and the history.
unfoldable pub append_next : History → ℕ → Bytes → ℤ → History × ℕ
append_next h seq payload now =
    let offset = (seq + 1) % u64_mod in
    let item : Item = record { offset = offset; payload = payload; stored_at = now } in
    (
      record h {
        entries = set h.entries h.head item;
        head = (h.head + 1) % length h.entries;
        count = if ltb h.count (length h.entries) then h.count + 1 else h.count;
        last_offset = offset;
      },
      offset,
    )

-- `entries[from:to]`
abbrev pub slice : List Item → ℕ → ℕ → List Item
slice es from to = take (to - from) (drop from es)

-- The two copies of `replayN`: up to the end of the array, then from its start.
abbrev pub copy_round : List Item → ℕ → ℕ → List Item
copy_round es start want =
    let upto = min (start + want) (length es) in
    slice es start upto ++ slice es 0 (want - (upto - start))

-- The last part of `replayN`: the items from the offset `wanted` on. A `max` of 0 means no bound.
unfoldable pub replay_items : History → ℕ → ℕ → List Item
replay_items h wanted max =
    let skip = wanted - (get_or h.entries (tail h) no_item).offset in
    let all = h.count - skip in
    let want = if ltb 0 max && ltb max all then max else all in
    copy_round h.entries ((tail h + skip) % length h.entries) want

-- `replayN`; `none` is the result `nil, false`.
unfoldable pub replay_n : History → ℕ → ℕ → Option (List Item)
replay_n h from max =
    let wanted = (from + 1) % u64_mod in
    if nat_eq from h.last_offset
    then some []
    else if ltb h.last_offset from
    then none
    else if nat_eq h.count 0
    then none
    else if ltb wanted (get_or h.entries (tail h) no_item).offset
    then none
    else some (replay_items h wanted max)

-- The loop of `sweep`, in at most `rounds` rounds.
unfoldable pub sweep_loop : ℕ → ℤ → History → History
sweep_loop zero cutoff h = h
sweep_loop (suc rounds) cutoff h =
    let next =
      sweep_loop rounds cutoff
        (record h { entries = set h.entries (tail h) no_item; count = h.count - 1 }) in
    if nat_eq h.count 0
    then h
    else if ltb_ℤ cutoff (get_or h.entries (tail h) no_item).stored_at
    then h
    else next

-- `sweep`; the loop runs at most `count` times.
unfoldable pub sweep : History → ℤ → History
unfolding sweep_loop
sweep h now = if leb_ℤ h.ttl (pos 0) then h else sweep_loop (suc h.count) (now -ℤ h.ttl) h

-- `size`
unfoldable pub size : History → ℕ
size h = h.count
