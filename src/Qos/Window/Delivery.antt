-- ===== src/Qos/Window/Delivery.antt =====
-- What a subscriber may rely on: deliveries go out in order with no gap, only what went out is
-- confirmed, and a delivery is given up only after its redeliveries.
use gentis.Prelude.{
  ℕ, ℤ, pos, suc, ◌-◌, ◌≤◌, keep, sym, ap, subst, if_cases, leb, Bool-cases, inl, inr, ◌+◌, ◌%◌,
  ◌<◌, ◌≤ℤ◌, ◌<ℤ◌, ◌≡◌, ◌≢◌, refl, Bool, true, false, List, [], ◌∷◌, length, u64_mod, is_empty,
  arith, ◌⊎◌, ◌↔◌, if◌then◌else◌, ltb, ltb_ℤ, nat_Eq, nat_eq, min, max, ◌-ℤ◌,
}
use gentis.Qos.Window.{
  Window, Entry, admitted, rebase, try_send, admit, confirm, trim, redeliver, check_redelivery,
  no_action, head_offset,
}
use gentis.Qos.Window.Invariant.{IsValid, Run, trim_lem}

-- In a valid window that is pinned, a delivery of its epoch is sent and admitted exactly when it is the next offset, the
-- window has credit for it, and the transport takes it.
pub admit-admitted_iff :
    (w : Window) (offset size : ℕ) (now : ℤ) (sent : Bool)
    → 0 < offset
    → IsValid w
    → w.baselined ≡ true
    → ((admit w offset w.epoch size now sent).1 ≡ admitted) ↔ (
        (offset ≡ suc w.delivered)
        × (offset < u64_mod)
        × ((w.max_count ≡ 0) ⊎ (length w.inflight < w.max_count))
        × ((w.max_bytes ≤ℤ pos 0)
            ⊎ ((w.inflight ≡ []) ⊎ (pos (w.inflight_bytes + size) ≤ℤ w.max_bytes)))
        × (sent ≡ true))
unfolding admit rebase try_send
admit-admitted_iff w offset size now sent h v b = (λ e. ground arith, λ k. ground arith)

keep_past :
    (c upto : ℕ) (es : List Entry)
    → Run c es
    → upto ≤ c
    → keep (λ (e : Entry). ltb upto e.offset) es ≡ es
keep_past c upto [] r h = refl
keep_past c upto (e ∷ es) r h =
    let later : ltb upto e.offset ≡ true = ground arith in
    rw later (ap (◌∷◌ e) (keep_past (suc c) upto es r.1 (omega arith)))

trim-keep :
    (c upto : ℕ) (es : List Entry) (bytes : ℕ)
    → Run c es
    → (trim upto es bytes).0 ≡ keep (λ (e : Entry). ltb upto e.offset) es
unfolding trim
trim-keep c upto [] bytes r = refl
trim-keep c upto (e ∷ es) bytes r = elim (Bool-cases (ltb upto e.offset)) [
  | inl past ↦ rw past (sym (ap (◌∷◌ e) (keep_past (suc c) upto es r.1 (ground arith))))
  | inr more ↦ rw more (trim-keep (suc c) upto es (bytes - e.size) r.1)
]

confirm_cursors :
    (w : Window) (offset : ℕ) (now : ℤ)
    → IsValid w
    → ((confirm w offset now).confirmed ≡ max w.confirmed (min offset w.delivered))
      × ((confirm w offset now).delivered ≡ w.delivered)
      × (length (confirm w offset now).inflight + max w.confirmed (min offset w.delivered)
          ≡ w.delivered)
unfolding confirm
confirm_cursors w offset now v = ground (
  arith,
  trim_lem w.confirmed (if ltb w.delivered offset then w.delivered else offset) w.inflight,
)

confirm-keep :
    (w : Window) (offset : ℕ) (now : ℤ)
    → IsValid w
    → (confirm w offset now).inflight
      ≡ keep (λ (e : Entry). ltb (min offset w.delivered) e.offset) w.inflight
unfolding confirm
confirm-keep w offset now v =
    let upto = if ltb w.delivered offset then w.delivered else offset in
    let same : upto ≡ min offset w.delivered = ground arith in
    subst (λ u. (confirm w offset now).inflight ≡ keep (λ (e : Entry). ltb u e.offset) w.inflight)
      same
      (if_cases (λ (x : Window). x.inflight ≡ keep (λ (e : Entry). ltb upto e.offset) w.inflight)
        (leb upto w.confirmed) _ _
        (λ behind. sym (keep_past w.confirmed upto w.inflight v.run (ground (arith, behind))))
        (λ _. trim-keep w.confirmed upto w.inflight w.inflight_bytes v.run))

-- In a valid window a cumulative confirm moves the confirmed cursor to the offset, but never past
-- what was delivered and never back; the delivered cursor stays. Exactly the deliveries after the
-- offset confirmed stay in flight, in order, and they fill the span between the two cursors.
pub confirm_lem :
    (w : Window) (offset : ℕ) (now : ℤ)
    → IsValid w
    → ((confirm w offset now).confirmed ≡ max w.confirmed (min offset w.delivered))
      × ((confirm w offset now).delivered ≡ w.delivered)
      × ((confirm w offset now).inflight
          ≡ keep (λ (e : Entry). ltb (min offset w.delivered) e.offset) w.inflight)
      × (length (confirm w offset now).inflight + max w.confirmed (min offset w.delivered)
          ≡ w.delivered)
confirm_lem w offset now v =
    let (confirmed, delivered, span) = confirm_cursors w offset now v in
    (confirmed, delivered, confirm-keep w offset now v, span)

pub due :
    (w : Window) (now : ℤ)
    → is_empty w.inflight ≡ false
    → pos 0 <ℤ w.timeout
    → w.timeout ≤ℤ now -ℤ w.oldest_at
    → check_redelivery w now ≡ redeliver w (head_offset w.inflight) now
unfolding check_redelivery
due w now busy t late = ground arith

pub head-Run :
    (c : ℕ) (es : List Entry)
    → Run c es
    → es ≢ []
    → (head_offset es ≡ suc c) × (is_empty es ≡ false)
head-Run c [] r n = absurd (n refl)
head-Run c (e ∷ es) r n = (r.0, refl)

redeliver_lem :
    (w : Window) (now : ℤ)
    → w.delivered < u64_mod
    → w.confirmed < w.delivered
    → let tried = if nat_eq w.attempts_offset (suc w.confirmed) then w.attempts else 0 in
      let again = ltb_ℤ (pos tried) w.max_redeliveries in
      let (w', action) = redeliver w (suc w.confirmed) now in
      (action.resend_from ≡ (w'.confirmed + 1) % u64_mod)
      × (w'.delivered ≡ w'.confirmed)
      × (w'.inflight ≡ [])
      × (action.poisoned ≡ (if again then 0 else suc w.confirmed))
      × (w'.confirmed ≡ (if again then w.confirmed else suc w.confirmed))
      × (w'.attempts ≡ (if again then suc tried else 0))
      × (w'.attempts_offset ≡ (if again then suc w.confirmed else 0))
unfolding redeliver
redeliver_lem w now k h = ground arith

-- When the head of a non-empty window has waited for a positive timeout, the whole unconfirmed
-- range is given out again, from the offset after the confirmed one. If the head has been tried
-- as often as allowed it is dropped as poison, and else its next attempt is counted.
pub check_redelivery_lem :
    (w : Window) (now : ℤ)
    → IsValid w
    → w.inflight ≢ []
    → pos 0 <ℤ w.timeout
    → w.timeout ≤ℤ now -ℤ w.oldest_at
    → let tried = if nat_eq w.attempts_offset (suc w.confirmed) then w.attempts else 0 in
      let again = ltb_ℤ (pos tried) w.max_redeliveries in
      let (w', action) = check_redelivery w now in
      (action.resend_from ≡ (w'.confirmed + 1) % u64_mod)
      × (w'.delivered ≡ w'.confirmed)
      × (w'.inflight ≡ [])
      × (action.poisoned ≡ (if again then 0 else suc w.confirmed))
      × (w'.confirmed ≡ (if again then w.confirmed else suc w.confirmed))
      × (w'.attempts ≡ (if again then suc tried else 0))
      × (w'.attempts_offset ≡ (if again then suc w.confirmed else 0))
check_redelivery_lem w now v some_inflight t late =
    let (head, busy) = head-Run w.confirmed w.inflight v.run some_inflight in
    rw (due w now busy t late, head)
      (redeliver_lem w now v.word (room w.inflight some_inflight v.span))
  where
    room :
        (es : List Entry)
        → es ≢ []
        → w.delivered ≡ w.confirmed + length es
        → w.confirmed < w.delivered
    room [] n e = absurd (n refl)
    room (x ∷ es) n e = omega arith

-- An empty window, a timeout of zero or less, and a head that has waited for less than the
-- timeout are left alone.
pub check_redelivery_idle :
    (w : Window) (now : ℤ)
    → (w.inflight ≡ []) ⊎ ((w.timeout ≤ℤ pos 0) ⊎ (now -ℤ w.oldest_at <ℤ w.timeout))
    → check_redelivery w now ≡ (w, no_action)
unfolding check_redelivery
check_redelivery_idle w now h = ground arith
