-- ===== src/Qos/Window/Gapless.antt =====
-- Over any sequence of calls within one epoch, nothing between the recover point and the delivered
-- cursor is missing from what was sent, so a confirm never covers an offset that was not sent.
use gentis.Prelude.{
  ℕ, ℤ, suc, ◌<◌, ◌≤◌, ◌≡◌, refl, Bool, true, false, List, [], ◌∷◌, ◌++◌, u64_mod, arith,
  if◌then◌else◌, ◌⊎◌, inl, inr, contains, nat_Eq, nat_eq, contains-append, append-nil, ◌||◌, ◌∙◌,
}
use native.Mathlib.Decide.{dec_lt}
use gentis.Qos.Window.{
  Window, Verdict, admitted, full, dup, refused, admit, rebase, try_send, baseline, confirm,
  check_redelivery, new_window,
}
use gentis.Qos.Window.Invariant.{IsValid, admit-IsValid, confirm-IsValid, check_redelivery-IsValid}
use gentis.Qos.Window.Delivery.{confirm_lem}

-- The calls that a session makes on a window between two resets, within one epoch.
pub data Call : Type 0 where
  admits : ℕ → ℕ → ℤ → Bool → Call
  confirms : ℕ → ℤ → Call
  checks : ℤ → Call

-- A window and the offsets that its transport has taken.
abbrev pub Traced : Type 0
Traced = Window × List ℕ

-- `Admit` calls `send` where it admits or refuses, and the transport takes what `send` answers with true.
abbrev pub sent_by : Verdict → ℕ → Bool → List ℕ
sent_by admitted offset sent = if sent then offset ∷ [] else []
sent_by full offset sent = []
sent_by dup offset sent = []
sent_by refused offset sent = if sent then offset ∷ [] else []

unfoldable pub step : Traced → Call → Traced
step (w, log) (admits offset size now sent) =
    let (w', v) = admit w offset w.epoch size now sent in (w', log ++ sent_by v offset sent)
step (w, log) (confirms offset now) = (confirm w offset now, log)
step (w, log) (checks now) = ((check_redelivery w now).0, log)

unfoldable pub run : Traced → List Call → Traced
run t [] = t
run t (c ∷ cs) = run (step t c) cs

-- The offsets of the calls are words.
abbrev pub Words : List Call → Type 0
Words [] = Unit
Words (admits offset size now sent ∷ cs) = (offset < u64_mod) × Words cs
Words (confirms offset now ∷ cs) = Words cs
Words (checks now ∷ cs) = Words cs

-- Everything after `b` up to the delivered offset has been sent.
pub record IsGapless (b : ℕ) (t : Traced) : Type 0 where
  pub valid : IsValid t.0
  pub pinned : t.0.baselined ≡ true
  pub start : b ≤ t.0.confirmed
  pub sent : (o : ℕ) → b < o → o ≤ t.0.delivered → contains t.1 o ≡ true

admit_pinned :
    (w : Window) (offset size : ℕ) (now : ℤ) (sent : Bool)
    → IsValid w
    → w.baselined ≡ true
    → offset < u64_mod
    → let (w', v) = admit w offset w.epoch size now sent in
      (w'.baselined ≡ true)
      × (w'.confirmed ≡ w.confirmed)
      × (((sent_by v offset sent ≡ offset ∷ [])
            × (w'.delivered ≡ offset)
            × (offset ≡ suc w.delivered))
          ⊎ ((sent_by v offset sent ≡ []) × (w'.delivered ≡ w.delivered)))
unfolding admit rebase try_send
admit_pinned w offset size now sent v b k = ground arith

baselined-confirm :
    (w : Window) (offset : ℕ) (now : ℤ) → (confirm w offset now).baselined ≡ w.baselined
unfolding confirm
baselined-confirm w offset now = ground arith

-- A check takes the delivered cursor back at most to the confirmed one, which never goes back.
check_redelivery_cursors :
    (w : Window) (now : ℤ)
    → IsValid w
    → let w' = (check_redelivery w now).0 in
      (w'.baselined ≡ w.baselined) × (w.confirmed ≤ w'.confirmed) × (w'.delivered ≤ w.delivered)
unfolding check_redelivery
check_redelivery_cursors w now v = ground arith

||-true : (x : Bool) → (x || true) ≡ true
||-true true = refl
||-true false = refl

step-IsGapless :
    (b : ℕ) (t : Traced) (c : Call) → Words (c ∷ []) → IsGapless b t → IsGapless b (step t c)
unfolding step
step-IsGapless b (w, log) (admits offset size now sent) k g =
    let (pinned, confirmed, moved) = admit_pinned w offset size now sent g.valid g.pinned k.0 in
    record {
      valid = admit-IsValid w offset w.epoch size now sent k.0 g.valid;
      pinned = pinned;
      start = omega arith;
      sent = λ o lo hi. elim moved [
        | inl (v, delivered, following) ↦
            rw (v, contains-append log (offset ∷ []) o) (reached o lo (omega arith) following)
        | inr (quiet, delivered) ↦ rw (quiet, append-nil) (g.sent o lo (omega arith))
      ];
    }
  where
    reached :
        (o : ℕ)
        → b < o
        → o ≤ offset
        → offset ≡ suc w.delivered
        → (contains log o || (nat_eq offset o || false)) ≡ true
    reached o lo hi following = elim (dec_lt o offset) [
      | yes before ↦ rw (g.sent o lo (omega arith)) refl
      | no not_before ↦ ground (arith, ||-true (contains log o))
    ]
step-IsGapless b (w, log) (confirms offset now) k g =
    let (confirmed, delivered, _, _) = confirm_lem w offset now g.valid in
    record {
      valid = confirm-IsValid w offset now g.valid;
      pinned = baselined-confirm w offset now ∙ g.pinned;
      start = omega arith;
      sent = λ o lo hi. g.sent o lo (omega arith);
    }
step-IsGapless b (w, log) (checks now) k g =
    let (pinned, start, less) = check_redelivery_cursors w now g.valid in
    record {
      valid = check_redelivery-IsValid w now g.valid;
      pinned = pinned ∙ g.pinned;
      start = omega arith;
      sent = λ o lo hi. g.sent o lo (omega arith);
    }

run-IsGapless :
    (b : ℕ) (t : Traced) (cs : List Call) → Words cs → IsGapless b t → IsGapless b (run t cs)
unfolding run
run-IsGapless b t [] k g = g
run-IsGapless b t (admits offset size now sent ∷ cs) k g =
    run-IsGapless b (step t (admits offset size now sent)) cs k.1 (step-IsGapless b t _ (k.0, tt) g)
run-IsGapless b t (confirms offset now ∷ cs) k g =
    run-IsGapless b (step t (confirms offset now)) cs k (step-IsGapless b t _ tt g)
run-IsGapless b t (checks now ∷ cs) k g =
    run-IsGapless b (step t (checks now)) cs k (step-IsGapless b t _ tt g)

baseline-IsGapless :
    (n : ℕ) (bytes timeout retries : ℤ) (b epoch : ℕ)
    → b < u64_mod
    → IsGapless b (baseline (new_window n bytes timeout retries) b epoch, [])
unfolding baseline new_window
baseline-IsGapless n bytes timeout retries b epoch k = record {
  valid = ground arith;
  pinned = refl;
  start = omega arith;
  sent = λ o lo hi. absurd (omega arith);
}

-- A window pinned to the recover point `b`, after a sequence of calls.
abbrev pub session : ℕ → ℤ → ℤ → ℤ → ℕ → ℕ → List Call → Traced
session n bytes timeout retries b epoch cs =
    run (baseline (new_window n bytes timeout retries) b epoch, []) cs

-- A window that is pinned to a recover point `b` and then gets any sequence of deliveries of its
-- epoch with 64-bit offsets, confirms and redelivery checks: each offset after `b` up to the delivered one has been
-- taken by the transport, and the confirmed offset is not past the delivered one.
pub run_gapless :
    (n : ℕ) (bytes timeout retries : ℤ) (b epoch : ℕ) (cs : List Call) (o : ℕ)
    → b < u64_mod
    → Words cs
    → b < o
    → o ≤ (session n bytes timeout retries b epoch cs).0.delivered
    → ((session n bytes timeout retries b epoch cs).0.confirmed
        ≤ (session n bytes timeout retries b epoch cs).0.delivered)
      × (contains (session n bytes timeout retries b epoch cs).1 o ≡ true)
run_gapless n bytes timeout retries b epoch cs o k words lo hi =
    let g = run-IsGapless b _ cs words (baseline-IsGapless n bytes timeout retries b epoch k) in
    (omega (arith, g.valid.span), g.sent o lo hi)
