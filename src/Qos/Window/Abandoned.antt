-- ===== src/Qos/Window/Abandoned.antt =====
-- A delivery that nobody confirms is sent again as often as allowed, and then given up.
use gentis.Prelude.{
  ℕ, suc, ℤ, pos, ◌≤ℤ◌, ◌-ℤ◌, ◌≡◌, ◌≢◌, true, List, [], ◌∷◌, ◌++◌, if◌then◌else◌, nat_eq,
}
use gentis.Qos.Window.{Window, admit, check_redelivery}
use gentis.Qos.Window.Invariant.{IsValid}
use gentis.Qos.Window.Gapless.{sent_by}

-- The times of the checks and of the sends that follow them: each check finds its head late, and its
-- offset goes out again. The window, and the offsets that the transport took.
unfoldable pub resend : Window → List (ℤ × ℤ) → ℕ → Window × List ℕ
resend w [] size = (w, [])
resend w ((now, at) ∷ times) size =
    let (expired, action) = check_redelivery w now in
    let (sent, v) = admit expired action.resend_from expired.epoch size at true in
    let (last, log) = resend sent times size in (last, sent_by v action.resend_from true ++ log)

-- From a head sent at `since`, each check is late for the send before it.
abbrev pub AllLate : ℤ → ℤ → List (ℤ × ℤ) → ℤ → Type 0
AllLate timeout since [] last = timeout ≤ℤ last -ℤ since
AllLate timeout since ((now, at) ∷ times) last =
    (timeout ≤ℤ now -ℤ since) × AllLate timeout at times last

-- The attempts that the window counts for its head.
abbrev tried : Window → ℕ
tried w = if nat_eq w.attempts_offset (suc w.confirmed) then w.attempts else 0

record IsWaiting (w : Window) (c k m : ℕ) (timeout since : ℤ) : Type 0 where
  valid : IsValid w
  pinned : w.baselined ≡ true
  busy : w.inflight ≢ []
  at : w.confirmed ≡ c
  counted : tried w ≡ k
  allowed : w.max_redeliveries ≡ pos m
  patience : w.timeout ≡ timeout
  sent : w.oldest_at ≡ since
