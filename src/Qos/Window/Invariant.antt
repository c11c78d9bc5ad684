-- ===== src/Qos/Window/Invariant.antt =====
-- The window's invariant: the entries in flight are the offsets after the confirmed one up to the
-- delivered one, in order, and they fit the credit.
use gentis.Prelude.{
  ℕ, ℤ, pos, suc, ◌+◌, ◌-◌, ◌<◌, ◌≤◌, ◌≤ℤ◌, ◌≡◌, refl, Bool, true, List, [], ◌∷◌, ◌++◌, length,
  length-append, u64_mod, arith, ◌⊎◌, inl, inr, if◌then◌else◌, Bool-cases, ltb, subst,
}
use gentis.Qos.Window.{
  Window, Entry, new_window, rebase, try_send, admit, baseline, reset, trim, confirm,
  check_redelivery,
}

-- The offsets after `c`, one by one.
abbrev pub Run : ℕ → List Entry → Type 0
Run c [] = Unit
Run c (e ∷ es) = (e.offset ≡ suc c) × Run (suc c) es

abbrev pub total : List Entry → ℕ
total [] = 0
total (e ∷ es) = e.size + total es

pub record IsValid (w : Window) : Type 0 where
  pub run : Run w.confirmed w.inflight
  pub span : w.delivered ≡ w.confirmed + length w.inflight
  pub word : w.delivered < u64_mod
  pub bytes : w.inflight_bytes ≡ total w.inflight
  pub count_credit : (w.max_count ≡ 0) ⊎ (length w.inflight ≤ w.max_count)
  pub byte_credit :
      (w.max_bytes ≤ℤ pos 0) ⊎ ((length w.inflight ≤ 1) ⊎ (pos w.inflight_bytes ≤ℤ w.max_bytes))
  pub unpinned : (w.baselined ≡ true) ⊎ (w.inflight ≡ [])

Run-append :
    (c : ℕ) (es : List Entry) (e : Entry)
    → Run c es
    → e.offset ≡ suc (c + length es)
    → Run c (es ++ (e ∷ []))
Run-append c [] e r h = (omega arith, tt)
Run-append c (x ∷ es) e r h = (r.0, Run-append (suc c) es e r.1 (omega arith))

total-append : (es : List Entry) (e : Entry) → total (es ++ (e ∷ [])) ≡ total es + e.size
total-append [] e = omega arith
total-append (x ∷ es) e = omega (arith, total-append es e)

pub new_window-IsValid : (n : ℕ) (b t r : ℤ) → IsValid (new_window n b t r)
unfolding new_window
new_window-IsValid n b t r = ground arith

baselined-rebase : (w : Window) (offset epoch : ℕ) → (rebase w offset epoch).baselined ≡ true
unfolding rebase
baselined-rebase w offset epoch = ground arith

rebase-IsValid :
    (w : Window) (offset epoch : ℕ)
    → 0 < offset
    → offset < u64_mod
    → IsValid w
    → IsValid (rebase w offset epoch)
unfolding rebase
rebase-IsValid w offset epoch h k v = ground arith

try_send-IsValid :
    (w : Window) (offset size : ℕ) (now : ℤ) (sent : Bool)
    → offset < u64_mod
    → IsValid w
    → w.baselined ≡ true
    → IsValid (try_send w offset size now sent).0
unfolding try_send
try_send-IsValid w offset size now sent k v b =
    let e : Entry = record { offset = offset; size = size } in
    ground (
      arith,
      Run-append w.confirmed w.inflight e,
      total-append w.inflight e,
      length-append w.inflight (e ∷ []),
    )

-- `Admit` of a 64-bit offset keeps the invariant, whatever the verdict.
pub admit-IsValid :
    (w : Window) (offset epoch size : ℕ) (now : ℤ) (sent : Bool)
    → offset < u64_mod
    → IsValid w
    → IsValid (admit w offset epoch size now sent).0
unfolding admit
admit-IsValid w offset epoch size now sent k v = ground (
  arith,
  rebase-IsValid w offset epoch,
  try_send-IsValid (rebase w offset epoch) offset size now sent,
  baselined-rebase w offset epoch,
)

pub baseline-IsValid :
    (w : Window) (offset epoch : ℕ)
    → offset < u64_mod
    → IsValid w
    → IsValid (baseline w offset epoch)
unfolding baseline
baseline-IsValid w offset epoch k v = ground arith

pub reset-IsValid : (w : Window) → IsValid w → IsValid (reset w)
unfolding reset
reset-IsValid w v = ground arith

-- What the loop of `Confirm` leaves of a run, if it confirms a part of it.
pub trim_lem :
    (c upto : ℕ) (es : List Entry)
    → Run c es
    → c ≤ upto
    → upto ≤ c + length es
    → let (left, bytes, trimmed) = trim upto es (total es) in
      Run upto left
      × (bytes ≡ total left)
      × (trimmed + c ≡ upto)
      × (length left + trimmed ≡ length es)
      × (total left ≤ total es)
unfolding trim
trim_lem c upto [] r lo hi =
    let same : c ≡ upto = omega arith in (tt, refl, omega arith, omega arith, omega arith)
trim_lem c upto (e ∷ es) r lo hi = elim (Bool-cases (ltb upto e.offset)) [
  | inl past ↦
      let same : c ≡ upto = ground arith in
      rw past (subst (λ x. Run x (e ∷ es)) same r, refl, omega arith, omega arith, omega arith)
  | inr more ↦
      let bytes : e.size + total es - e.size ≡ total es = omega arith in
      let below : suc c ≤ upto = ground arith in
      let (run, size, count, span, less) = trim_lem (suc c) upto es r.1 below (omega arith) in
      rw (more, bytes) (run, size, omega arith, omega arith, omega arith)
]

-- `Confirm` of any offset keeps the invariant.
pub confirm-IsValid :
    (w : Window) (offset : ℕ) (now : ℤ) → IsValid w → IsValid (confirm w offset now)
unfolding confirm
confirm-IsValid w offset now v = ground (
  arith,
  trim_lem w.confirmed (if ltb w.delivered offset then w.delivered else offset) w.inflight,
)

-- `CheckRedelivery` at any time keeps the invariant.
pub check_redelivery-IsValid :
    (w : Window) (now : ℤ) → IsValid w → IsValid (check_redelivery w now).0
unfolding check_redelivery
check_redelivery-IsValid w now v = ground arith
