-- ===== src/Tests/WindowRuns.antt =====
-- A window at concrete inputs (internal/qos/window.go).
use gentis.Prelude.{
  ℤ, keep, ltb, suc, pos, ◌+◌, ◌≤◌, ◌<◌, ◌≤ℤ◌, min, max, List, [], ◌∷◌, true, false, ◌≡◌, ◌↔◌, ◌⊎◌,
  inl, inr, refl, arith, length, contains, nat_Eq, u64_mod,
}
use gentis.Qos.Window.{Entry, Window, admitted, admit, confirm, new_window, baseline}
use gentis.Qos.Window.Invariant.{IsValid}
use gentis.Qos.Window.Delivery.{admit-admitted_iff, confirm_lem}
use gentis.Qos.Window.Gapless.{Call, admits, confirms, session, run, step, run_gapless}

-- Offsets 6 and 7 are in flight after 5, with room for three.
abbrev busy : Window
busy = record {
  max_count = 3;
  max_bytes = pos 100;
  timeout = pos 10;
  max_redeliveries = pos 2;
  epoch = 9;
  baselined = true;
  delivered = 7;
  confirmed = 5;
  inflight = record { offset = 6; size = 40 } ∷ record { offset = 7; size = 20 } ∷ [];
  inflight_bytes = 60;
  attempts = 0;
  attempts_offset = 0;
  oldest_at = pos 1;
}

busy-IsValid : IsValid busy
busy-IsValid = record {
  run = (refl, (refl, tt));
  span = refl;
  word = omega arith;
  bytes = refl;
  count_credit = inr (omega arith);
  byte_credit = inr (inr (omega arith));
  unpinned = inl refl;
}

admit-admitted_iff_example : ((admit busy 8 9 10 (pos 3) true).1 ≡ admitted) ↔ (
    (8 ≡ suc busy.delivered)
    × (8 < u64_mod)
    × ((busy.max_count ≡ 0) ⊎ (length busy.inflight < busy.max_count))
    × ((busy.max_bytes ≤ℤ pos 0)
        ⊎ ((busy.inflight ≡ []) ⊎ (pos (busy.inflight_bytes + 10) ≤ℤ busy.max_bytes)))
    × (true ≡ true))
admit-admitted_iff_example =
    admit-admitted_iff busy 8 10 (pos 3) true (omega arith) busy-IsValid refl

confirm_lem_example :
    ((confirm busy 6 (pos 4)).confirmed ≡ max 5 (min 6 7))
    × ((confirm busy 6 (pos 4)).delivered ≡ 7)
    × ((confirm busy 6 (pos 4)).inflight
        ≡ keep (λ (e : Entry). ltb (min 6 busy.delivered) e.offset) busy.inflight)
    × (length (confirm busy 6 (pos 4)).inflight + max 5 (min 6 7) ≡ 7)
confirm_lem_example = confirm_lem busy 6 (pos 4) busy-IsValid

-- Two checks that find the head late, each with the send after it, and a last one.
abbrev checks : List (ℤ × ℤ)
checks = (pos 20, pos 21) ∷ (pos 40, pos 41) ∷ []

abbrev some_calls : List Call
some_calls =
    admits 6 4 (pos 1) true
    ∷ admits 7 4 (pos 2) false
    ∷ admits 7 4 (pos 3) true
    ∷ confirms 6 (pos 4)
    ∷ []

seven : (session 2 (pos 0) (pos 10) (pos 3) 5 9 some_calls).0.delivered ≡ 7
unfolding run step confirm admit baseline new_window
seven = refl

run_gapless_example :
    ((session 2 (pos 0) (pos 10) (pos 3) 5 9 some_calls).0.confirmed
      ≤ (session 2 (pos 0) (pos 10) (pos 3) 5 9 some_calls).0.delivered)
    × (contains (session 2 (pos 0) (pos 10) (pos 3) 5 9 some_calls).1 7 ≡ true)
run_gapless_example =
    run_gapless 2 (pos 0) (pos 10) (pos 3) 5 9 some_calls 7 (omega arith)
      (omega arith, (omega arith, (omega arith, tt))) (omega arith) (omega (arith, seven))
