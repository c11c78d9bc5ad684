-- ===== src/Engine/History/Sweep.antt =====
-- `sweep` on the ring is `expire` on the log.
use gentis.Prelude.{
  ℕ, zero, suc, ◌+◌, ◌-◌, ◌%◌, ◌<◌, ◌≤◌, ◌≡◌, refl, sym, ◌∙◌, ap, ap₂, List, [], ◌∷◌, length,
  get_or, ℤ, pos, set, true, false, if◌then◌else◌, arith, Bool-cases, inl, inr, nat_eq, ltb_ℤ,
  leb_ℤ, ◌-ℤ◌, length-set, subst,
}
use gentis.Engine.History.{Item, no_item, History, tail, sweep_loop, sweep}
use gentis.Engine.History.Segment.{segment, index, mod_twice, segment-index, segment-set}
use gentis.Engine.History.Log
use gentis.Engine.History.Log.{Consecutive}
use gentis.Engine.History.Append.{contents, IsValid}

-- The loop body: the oldest entry is cleared and given up.
abbrev drop_oldest : History → History
drop_oldest h = record h { entries = set h.entries (tail h) no_item; count = h.count - 1 }

-- Where the oldest entry lies before and after it is given up.
tail_drop :
    (p n k : ℕ)
    → p < n
    → suc k ≤ n
    → let t = (p + n - suc k) % n in (t < n) × ((p + n - k) % n ≡ index n (suc t))
tail_drop p n k hp hk = ground (arith, mod_twice (p + n - suc k) n, mod_twice (p + n - k) n)

held-drop :
    (es : List Item) (n p k : ℕ)
    → p < n
    → suc k ≤ n
    → let t = (p + n - suc k) % n in
      segment es n t (suc k)
      ≡ get_or es t no_item ∷ segment (set es t no_item) n ((p + n - k) % n) k
unfolding segment
held-drop es n p k hp hk =
    let (t_lt, next) = tail_drop p n k hp hk in
    let t = (p + n - suc k) % n in
    rw next (
      ap₂ (λ i l. get_or es i no_item ∷ l) (ground arith)
        (sym (segment-set es n t no_item (suc t) k t_lt (inr (omega arith, omega arith)))
          ∙ sym (segment-index (set es t no_item) n (suc t) k (omega arith))))

contents-drop_oldest :
    (h : History)
    → IsValid h
    → 0 < h.count
    → contents h ≡ get_or h.entries (tail h) no_item ∷ contents (drop_oldest h)
contents-drop_oldest h v busy = rw length-set (at_count (h.count - 1) (omega arith))
  where
    at_count :
        (k : ℕ)
        → h.count ≡ suc k
        → segment h.entries (length h.entries) (tail h) h.count
          ≡ get_or h.entries (tail h) no_item
            ∷ segment
                (set h.entries (tail h) no_item)
                (length h.entries)
                ((h.head + length h.entries - k) % length h.entries)
                k
    at_count k e =
        subst
          (λ c.
            segment h.entries (length h.entries)
              ((h.head + length h.entries - c) % length h.entries) c
            ≡ get_or h.entries ((h.head + length h.entries - c) % length h.entries) no_item
              ∷ segment (set h.entries ((h.head + length h.entries - c) % length h.entries) no_item)
                  (length h.entries) ((h.head + length h.entries - k) % length h.entries) k)
          (sym e) (held-drop h.entries (length h.entries) h.head k v.in_range (omega arith))

drop_oldest-IsValid : (h : History) → IsValid h → 0 < h.count → IsValid (drop_oldest h)
drop_oldest-IsValid h v busy = record {
  in_range = rw length-set v.in_range;
  fits = rw length-set (omega arith);
  word = v.word;
  counted = omega arith;
  consecutive =
      subst (λ c. Consecutive c (contents (drop_oldest h))) (omega arith)
        (subst (Consecutive (h.last_offset - h.count)) (contents-drop_oldest h v busy)
          v.consecutive).1;
}

segment-nil : (es : List Item) (n t k : ℕ) → k ≡ 0 → segment es n t k ≡ []
unfolding segment
segment-nil es n t zero e = refl
segment-nil es n t (suc k) e = absurd (omega arith)

expire-later :
    (cutoff : ℤ) (x : Item) (log : List Item)
    → ltb_ℤ cutoff x.stored_at ≡ true
    → Log.expire cutoff (x ∷ log) ≡ x ∷ log
unfolding Log.expire
expire-later cutoff x log h = ground arith

expire-expired :
    (cutoff : ℤ) (x : Item) (log : List Item)
    → ltb_ℤ cutoff x.stored_at ≡ false
    → Log.expire cutoff (x ∷ log) ≡ Log.expire cutoff log
unfolding Log.expire
expire-expired cutoff x log h = ground arith

sweep_loop_lem :
    (rounds : ℕ) (cutoff : ℤ) (h : History)
    → h.count < rounds
    → IsValid h
    → (contents (sweep_loop rounds cutoff h) ≡ Log.expire cutoff (contents h))
      × IsValid (sweep_loop rounds cutoff h)
      × ((sweep_loop rounds cutoff h).last_offset ≡ h.last_offset)
unfolding sweep_loop Log.expire
sweep_loop_lem zero cutoff h k v = absurd (omega arith)
sweep_loop_lem (suc rounds) cutoff h k v = elim (Bool-cases (nat_eq h.count 0)) [
  | inl empty ↦
      rw empty (
        rw (segment-nil h.entries (length h.entries) (tail h) h.count (ground arith)) refl,
        v,
        refl,
      )
  | inr busy ↦
      let some_held : 0 < h.count = ground arith in
      let oldest = contents-drop_oldest h v some_held in
      let (left, valid, last) =
        sweep_loop_lem rounds cutoff (drop_oldest h) (omega arith)
          (drop_oldest-IsValid h v some_held) in
      elim (Bool-cases (ltb_ℤ cutoff (get_or h.entries (tail h) no_item).stored_at)) [
        | inl later ↦
            rw (busy, later)
              (
                oldest ∙ sym (expire-later cutoff _ _ later) ∙ ap (Log.expire cutoff) (sym oldest),
                v,
                refl,
              )
        | inr expired ↦
            rw (busy, expired)
              (
                left
                    ∙ sym (expire-expired cutoff _ _ expired)
                    ∙ ap (Log.expire cutoff) (sym oldest),
                valid,
                last,
              )
      ]
]

-- In a valid ring, and with a positive time to live, `sweep` takes from the log the entries that were stored at or before
-- the cutoff, oldest first, up to the first later one; otherwise it takes none. Either way the
-- ring stays valid and remembers the last offset.
pub sweep_refines :
    (h : History) (now : ℤ)
    → IsValid h
    → (contents (sweep h now)
        ≡ (if ltb_ℤ (pos 0) h.ttl then Log.expire (now -ℤ h.ttl) (contents h) else contents h))
      × IsValid (sweep h now)
      × ((sweep h now).last_offset ≡ h.last_offset)
unfolding sweep
sweep_refines h now v = elim (Bool-cases (leb_ℤ h.ttl (pos 0))) [
  | inl off ↦
      let not_positive : ltb_ℤ (pos 0) h.ttl ≡ false = ground arith in
      rw (off, not_positive) (refl, v, refl)
  | inr on ↦
      let positive : ltb_ℤ (pos 0) h.ttl ≡ true = ground arith in
      rw (on, positive) (sweep_loop_lem (suc h.count) (now -ℤ h.ttl) h (omega arith) v)
]
