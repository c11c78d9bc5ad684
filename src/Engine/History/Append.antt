-- ===== src/Engine/History/Append.antt =====
-- `appendNext` on the ring is `append` on the log, and keeps the ring's invariant.
use native.Mathlib.Nat.{mod-lt}
use gentis.Prelude.{
  ℕ, zero, suc, ◌+◌, ◌-◌, ◌%◌, ◌<◌, ◌≤◌, ◌≡◌, refl, sym, ◌∙◌, ap, ap₂, List, [], ◌∷◌, ◌++◌, length,
  get_or, set, ltb, Bytes, ℤ, if◌then◌else◌, arith, Bool-cases, ◌⊎◌, inl, inr, get_or-set_self,
  length-set, u64_mod, rest, length-append, subst, true,
}
use gentis.Engine.History.{Item, no_item, History, tail, append_next}
use gentis.Engine.History.Segment.{
  segment, index, mod_twice, length-segment, segment-snoc, segment-index, segment-set,
}
use gentis.Engine.History.Log
use gentis.Engine.History.Log.{Consecutive}

-- What the ring holds, oldest first.
abbrev pub contents : History → List Item
contents h = segment h.entries (length h.entries) (tail h) h.count

pub record IsValid (h : History) : Type 0 where
  pub in_range : h.head < length h.entries
  pub fits : h.count ≤ length h.entries
  pub word : h.last_offset < u64_mod
  pub counted : h.count ≤ h.last_offset
  pub consecutive : Consecutive (h.last_offset - h.count) (contents h)

-- A write at the end of a segment that does not fill the ring extends it.
room_step :
    (es : List Item) (n p t k : ℕ) (x : Item)
    → k < n
    → p < n
    → length es ≡ n
    → (p ≡ t + k) ⊎ (p + n ≡ t + k)
    → segment (set es p x) n t (suc k) ≡ segment es n t k ++ (x ∷ [])
room_step es n p t k x hk hp hl e =
    segment-snoc (set es p x) n t k
    ∙ ap₂ (λ l y. l ++ (y ∷ [])) (segment-set es n p x t k hp (ground arith))
        (ap (λ i. get_or (set es p x) i no_item) at_p
          ∙ get_or-set_self es p x no_item (omega arith))
  where
    at_p : index n (t + k) ≡ p
    at_p = ground arith

-- A write over the oldest entry of a full ring drops it and puts the new one last.
full_step :
    (es : List Item) (m p : ℕ) (x : Item)
    → p < suc m
    → length es ≡ suc m
    → segment (set es p x) (suc m) (index (suc m) (suc p)) (suc m)
      ≡ rest (segment es (suc m) p (suc m)) ++ (x ∷ [])
unfolding segment
full_step es m p x hp hl =
    room_step es (suc m) p (index (suc m) (suc p)) m x (omega arith) hp hl (ground arith)
    ∙ ap (λ l. l ++ (x ∷ [])) (segment-index es (suc m) (suc p) m (omega arith))

-- Where the oldest entry lies before and after an append.
tail_room :
    (h n k : ℕ)
    → h < n
    → k < n
    → let t = (h + n - k) % n in
      (((h + 1) % n + n - (k + 1)) % n ≡ t) × (t < n) × ((h ≡ t + k) ⊎ (h + n ≡ t + k))
tail_room h n k hh hk =
    ground
      (arith, mod_twice (h + n - k) n, mod_twice (h + 1) n, mod_twice ((h + 1) % n + n - (k + 1)) n)

tail_full :
    (h m : ℕ)
    → h < suc m
    → ((h + suc m - suc m) % suc m ≡ h)
      × (((h + 1) % suc m + suc m - suc m) % suc m ≡ index (suc m) (suc h))
tail_full h m hh = ground (
  arith,
  mod_twice (h + suc m - suc m) (suc m),
  mod_twice (h + 1) (suc m),
  mod_twice ((h + 1) % suc m + suc m - suc m) (suc m),
)

-- The entries of a ring with `n` places, the next write at `p`, and `k` places in use.
abbrev held : List Item → ℕ → ℕ → ℕ → List Item
held es n p k = segment es n ((p + n - k) % n) k

held-write :
    (es : List Item) (n p k : ℕ) (x : Item)
    → length es ≡ n
    → p < n
    → k ≤ n
    → held (set es p x) n ((p + 1) % n) (if ltb k n then k + 1 else k)
      ≡ (if ltb k n then held es n p k else rest (held es n p k)) ++ (x ∷ [])
held-write es zero p k x hl hp hk = absurd (omega arith)
held-write es (suc m) p k x hl hp hk = elim (Bool-cases (ltb k (suc m))) [
  | inl room ↦
      let k_lt : k < suc m = ground arith in
      let (same, _, at) = tail_room p (suc m) k hp k_lt in
      rw (room, same)
        (ap (segment (set es p x) (suc m) ((p + suc m - k) % suc m)) (omega arith)
          ∙ room_step es (suc m) p ((p + suc m - k) % suc m) k x k_lt hp hl at)
  | inr filled ↦
      let k_eq : k ≡ suc m = ground arith in
      let (before, next) = tail_full p m hp in
      rw (filled, k_eq, before, next) (full_step es m p x hp hl)
]

-- `appendNext` does on the ring what the log promises: the new publication goes last, and it
-- pushes the oldest one out if the ring is full.
pub append_refines :
    (h : History) (seq : ℕ) (payload : Bytes) (now : ℤ)
    → IsValid h
    → contents (append_next h seq payload now).0
      ≡ Log.append
          (length h.entries)
          (contents h)
          (record { offset = (seq + 1) % u64_mod; payload = payload; stored_at = now })
unfolding append_next Log.append
append_refines h seq payload now v =
    rw (length-set h.entries h.head x, length-segment h.entries (length h.entries) (tail h) h.count)
      (held-write h.entries (length h.entries) h.head h.count x refl v.in_range v.fits)
  where
    x : Item
    x = record { offset = (seq + 1) % u64_mod; payload = payload; stored_at = now }

Consecutive-snoc :
    (c : ℕ) (log : List Item) (x : Item)
    → Consecutive c log
    → x.offset ≡ suc (c + length log)
    → Consecutive c (log ++ (x ∷ []))
Consecutive-snoc c [] x r h = (omega arith, tt)
Consecutive-snoc c (y ∷ log) x r h = (r.0, Consecutive-snoc (suc c) log x r.1 (omega arith))

Consecutive-append :
    (size c i : ℕ) (log : List Item) (x : Item)
    → 0 < size
    → Consecutive c log
    → x.offset ≡ suc (c + length log)
    → i + length (Log.append size log x) ≡ suc (c + length log)
    → Consecutive i (Log.append size log x)
unfolding Log.append
Consecutive-append size c i [] x hc r h e =
    let room : ltb 0 size ≡ true = ground arith in rw room (ground (arith, room), tt)
Consecutive-append size c i (y ∷ log) x hc r h e = elim (Bool-cases (ltb (suc (length log)) size)) [
  | inl room ↦
      let start : c ≡ i = ground (arith, length-append (y ∷ log) (x ∷ [])) in
      rw room (
        subst (λ j. Consecutive j (y ∷ (log ++ (x ∷ [])))) start
          (Consecutive-snoc c (y ∷ log) x r h))
  | inr filled ↦
      let start : suc c ≡ i = ground (arith, length-append log (x ∷ [])) in
      rw filled (
        subst (λ j. Consecutive j (log ++ (x ∷ []))) start
          (Consecutive-snoc (suc c) log x r.1 (omega arith)))
]

append_next-sizes :
    (h : History) (seq : ℕ) (payload : Bytes) (now : ℤ)
    → let h' = (append_next h seq payload now).0 in
      (length h'.entries ≡ length h.entries)
      × (h'.count ≡ (if ltb h.count (length h.entries) then h.count + 1 else h.count))
      × (h'.last_offset ≡ (seq + 1) % u64_mod)
      × (h'.head ≡ (h.head + 1) % length h.entries)
unfolding append_next
append_next-sizes h seq payload now = (length-set h.entries h.head _, refl, refl, refl)

append_next-offset :
    (h : History) (seq : ℕ) (payload : Bytes) (now : ℤ)
    → (append_next h seq payload now).1 ≡ (seq + 1) % u64_mod
unfolding append_next
append_next-offset h seq payload now = refl

-- While the channel's counter stands at the last offset, and the next one is below 2^64, `appendNext`
-- keeps the ring valid and hands out the offset after the last.
pub append_next-IsValid :
    (h : History) (seq : ℕ) (payload : Bytes) (now : ℤ)
    → IsValid h
    → seq ≡ h.last_offset
    → suc seq < u64_mod
    → IsValid (append_next h seq payload now).0
      × ((append_next h seq payload now).1 ≡ suc h.last_offset)
append_next-IsValid h seq payload now v same word =
    let (len, count, last, head) = append_next-sizes h seq payload now in
    let n = length h.entries in
    let h' = (append_next h seq payload now).0 in
    let size = length-segment h.entries n (tail h) h.count in
    let size' =
      ap length (sym (append_refines h seq payload now v))
      ∙ length-segment h'.entries (length h'.entries) (tail h') h'.count in
    (
      record {
        in_range = rw (len, head) (mod-lt (h.head + 1) (omega arith));
        fits = ground arith;
        word = ground arith;
        counted = ground arith;
        consecutive = rw (append_refines h seq payload now v) (
            Consecutive-append n (h.last_offset - h.count) _ (contents h) _ (omega arith)
              v.consecutive (ground arith) (ground arith));
      },
      append_next-offset h seq payload now ∙ (ground arith),
    )
