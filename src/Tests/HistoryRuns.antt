-- ===== src/Tests/HistoryRuns.antt =====
-- A history at concrete inputs (internal/engine/history.go).
use gentis.Prelude.{
  ℕ, suc, pos, ◌+◌, ◌%◌, ◌-ℤ◌, [], ◌∷◌, ◌≡◌, refl, arith, u64_mod, ltb_ℤ, if◌then◌else◌,
}
use gentis.Engine.History.{History, Item, no_item, append_next, replay_n, sweep}
use gentis.Engine.History.Segment.{segment}
use gentis.Engine.History.Log as Log
use gentis.Engine.History.Append.{contents, IsValid, append_refines, append_next-IsValid}
use gentis.Engine.History.Replay.{replay_refines}
use gentis.Engine.History.Sweep.{sweep_refines}

abbrev item : ℕ → ℕ → Item
item offset at = record { offset = offset; payload = offset ∷ []; stored_at = pos at }

-- Offsets 4 and 5 in a ring of three, at its end.
abbrev ring : History
ring = record {
  entries = no_item ∷ item 4 10 ∷ item 5 20 ∷ [];
  head = 0;
  count = 2;
  ttl = pos 15;
  last_offset = 5;
}

contents-ring : contents ring ≡ item 4 10 ∷ item 5 20 ∷ []
unfolding segment
contents-ring = refl

ring-IsValid : IsValid ring
unfolding segment
ring-IsValid = record {
  in_range = omega arith;
  fits = omega arith;
  word = omega arith;
  counted = omega arith;
  consecutive = (refl, (refl, tt));
}

append_refines_example :
    contents (append_next ring 5 (1 ∷ []) (pos 30)).0
    ≡ Log.append 3
        (contents ring)
        (record { offset = (5 + 1) % u64_mod; payload = 1 ∷ []; stored_at = pos 30 })
append_refines_example = append_refines ring 5 (1 ∷ []) (pos 30) ring-IsValid

append_next-IsValid_example :
    IsValid (append_next ring 5 (1 ∷ []) (pos 30)).0
    × ((append_next ring 5 (1 ∷ []) (pos 30)).1 ≡ suc 5)
append_next-IsValid_example =
    append_next-IsValid ring 5 (1 ∷ []) (pos 30) ring-IsValid refl (omega arith)

replay_refines_example : replay_n ring 4 10 ≡ Log.replay (contents ring) 5 4 10
replay_refines_example = replay_refines ring 4 10 ring-IsValid (omega arith)

sweep_refines_example :
    (contents (sweep ring (pos 30)) ≡ (
      if ltb_ℤ (pos 0) (pos 15)
      then Log.expire (pos 30 -ℤ pos 15) (contents ring)
      else contents ring))
    × IsValid (sweep ring (pos 30))
    × ((sweep ring (pos 30)).last_offset ≡ 5)
sweep_refines_example = sweep_refines ring (pos 30) ring-IsValid
