-- ===== src/Engine/Fanout/Rotation.antt =====
-- The rotation of a channel that hands each publication to one subscriber.
use native.Mathlib.Nat.{mod-lt, mod-eq_of_lt, mod-add-mod, add-mod_right}
use gentis.Prelude.{
  ℕ, zero, suc, ◌+◌, ◌-◌, ◌%◌, ◌<◌, ◌≤◌, ◌≡◌, refl, sym, ap, ◌∙◌, subst, List, [], ◌∷◌, ◌++◌, Bool,
  true, false, length, contains, nat_eq, nat_eq_iff, nat_Eq, arith, ltb, Bool-cases, get_or, All,
  append_assoc, false≢true, if_cases, u64_mod, inl, inr,
}
use gentis.Engine.Fanout.{Delivery, Counts, rotate, round_robin_deliver}

place_of :
    (xs : List ℕ) (x : ℕ) → contains xs x ≡ true → (p : ℕ) × (p < length xs) × (get_or xs p 0 ≡ x)
place_of [] x h = absurd (ground arith)
place_of (y ∷ xs) x h = elim (Bool-cases (nat_eq y x)) [
  | inl here ↦ (0, omega arith, ground (arith, nat_eq_iff y x))
  | inr other ↦ let (p, within, same) = place_of xs x (ground arith) in (suc p, omega arith, same)
]

contains-get_or : (xs : List ℕ) (p : ℕ) → p < length xs → contains xs (get_or xs p 0) ≡ true
contains-get_or [] p h = absurd (omega arith)
contains-get_or (x ∷ xs) zero h = ground (arith, nat_eq_iff x x)
contains-get_or (x ∷ xs) (suc p) h = ground (arith, contains-get_or xs p)

not_true : (b : Bool) → ¬ (b ≡ true) → b ≡ false
not_true true h = absurd (h refl)
not_true false h = refl

-- Each place is met within one round.
offset_to : (start n p : ℕ) → p < n → (k : ℕ) × (k < n) × ((start + k) % n ≡ p)
offset_to start n p h =
    let s = start % n in
    let s_lt = mod-lt start {m = n} (omega arith) in
    elim (Bool-cases (ltb p s)) [
      | inl wraps ↦
          let k = p + n - s in
          (
            k,
            ground arith,
            sym (mod-add-mod start n k)
                ∙ ap (λ m. m % n) (ground arith)
                ∙ add-mod_right p n
                ∙ mod-eq_of_lt h,
          )
      | inr ahead ↦ (
        p - s,
        ground arith,
        sym (mod-add-mod start n (p - s)) ∙ ap (λ m. m % n) (ground arith) ∙ mod-eq_of_lt h,
      )
    ]

-- What one round comes to: some refuse, one accepts and ends it.
pub record IsHandedOver (deliver : ℕ → Delivery → Bool) (d : Delivery) (exclude : ℕ)
    (subs tried : List ℕ) (c : Counts) : Type 0 where
  pub refusers : List ℕ
  pub taker : ℕ
  pub one : c.delivered ≡ 1
  pub no_drop : c.dropped ≡ 0
  pub calls : c.tried ≡ tried ++ (refusers ++ (taker ∷ []))
  pub refused : All (λ id. (deliver id d ≡ false) × (nat_eq id exclude ≡ false)) refusers
  pub accepted : deliver taker d ≡ true
  pub other : nat_eq taker exclude ≡ false
  pub known : contains subs taker ≡ true

module _ (deliver : ℕ → Delivery → Bool) (d : Delivery) (exclude : ℕ) where
  -- The subscriber of round `i`
  abbrev candidate : ℕ → ℕ → List ℕ → ℕ
  candidate i start subs = get_or subs ((start + i) % u64_mod % length subs) 0

  rotate-skipped :
      (rounds i start : ℕ) (subs tried : List ℕ)
      → nat_eq (candidate i start subs) exclude ≡ true
      → rotate deliver d exclude (suc rounds) i start subs tried
        ≡ rotate deliver d exclude rounds (i + 1) start subs tried
  unfolding rotate
  rotate-skipped rounds i start subs tried skipped = ground (arith, skipped)

  rotate-refused :
      (rounds i start : ℕ) (subs tried : List ℕ)
      → nat_eq (candidate i start subs) exclude ≡ false
      → deliver (candidate i start subs) d ≡ false
      → rotate deliver d exclude (suc rounds) i start subs tried
        ≡ rotate deliver d exclude rounds
            (i + 1)
            start
            subs
            (tried ++ (candidate i start subs ∷ []))
  unfolding rotate
  rotate-refused rounds i start subs tried other refused = ground (arith, other, refused)

  rotate-taken :
      (rounds i start : ℕ) (subs tried : List ℕ)
      → nat_eq (candidate i start subs) exclude ≡ false
      → deliver (candidate i start subs) d ≡ true
      → rotate deliver d exclude (suc rounds) i start subs tried
        ≡ record { delivered = 1; dropped = 0; tried = tried ++ (candidate i start subs ∷ []) }
  unfolding rotate
  rotate-taken rounds i start subs tried other taken = ground (arith, other, taken)

  candidate-known :
      (i start : ℕ) (subs : List ℕ)
      → 0 < length subs
      → contains subs (candidate i start subs) ≡ true
  candidate-known i start subs h =
      contains-get_or subs ((start + i) % u64_mod % length subs)
        (mod-lt ((start + i) % u64_mod) {m = length subs} h)

  one_more :
      (subs tried : List ℕ) (id : ℕ) (c : Counts)
      → nat_eq id exclude ≡ false
      → deliver id d ≡ false
      → IsHandedOver deliver d exclude subs (tried ++ (id ∷ [])) c
      → IsHandedOver deliver d exclude subs tried c
  one_more subs tried id c other refused h = record {
    refusers = id ∷ h.refusers;
    taker = h.taker;
    one = h.one;
    no_drop = h.no_drop;
    calls = h.calls ∙ append_assoc tried (id ∷ []) (h.refusers ++ (h.taker ∷ []));
    refused = ((refused, other), h.refused);
    accepted = h.accepted;
    other = h.other;
    known = h.known;
  }

  -- An acceptor that the loop has yet to meet is enough.
  rotate-finds :
      (rounds i start : ℕ) (subs tried : List ℕ) (k : ℕ)
      → 0 < length subs
      → i ≤ k
      → k < i + rounds
      → start + i + rounds ≤ u64_mod
      → nat_eq (get_or subs ((start + k) % length subs) 0) exclude ≡ false
      → deliver (get_or subs ((start + k) % length subs) 0) d ≡ true
      → IsHandedOver deliver d exclude subs tried
          (rotate deliver d exclude rounds i start subs tried)
  rotate-finds zero i start subs tried k some_one lo hi word other takes = absurd (omega arith)
  rotate-finds (suc rounds) i start subs tried k some_one lo hi word other takes =
      let id = candidate i start subs in
      let same : nat_eq i k ≡ true → id ≡ get_or subs ((start + k) % length subs) 0 = λ now.
        ap (λ m. get_or subs (m % length subs) 0)
          (mod-eq_of_lt {n = start + i} {m = u64_mod} (omega arith)
            ∙ ap (λ j. start + j) ((nat_eq_iff i k).0 now)) in
      let later : nat_eq i k ≡ false → suc i ≤ k = λ not_now. ground (arith, nat_eq_iff i k) in
      let rest = λ (ids : List ℕ) (not_now : nat_eq i k ≡ false).
        rotate-finds rounds (i + 1) start subs ids k some_one (omega (arith, later not_now))
          (omega arith) (omega arith) other takes in
      elim (Bool-cases (nat_eq id exclude)) [
        | inl skipped ↦
            subst (IsHandedOver deliver d exclude subs tried)
              (sym (rotate-skipped rounds i start subs tried skipped))
              (rest tried (
                not_true _ (λ now.
                  false≢true (sym other ∙ ap (λ x. nat_eq x exclude) (sym (same now)) ∙ skipped))))
        | inr apart ↦ elim (Bool-cases (deliver id d)) [
          | inl taken ↦
              subst (IsHandedOver deliver d exclude subs tried)
                (sym (rotate-taken rounds i start subs tried apart taken))
                (record {
                  refusers = [];
                  taker = id;
                  one = refl;
                  no_drop = refl;
                  calls = refl;
                  refused = tt;
                  accepted = taken;
                  other = apart;
                  known = candidate-known i start subs some_one;
                })
          | inr refused ↦
              subst (IsHandedOver deliver d exclude subs tried)
                (sym (rotate-refused rounds i start subs tried apart refused))
                (one_more subs tried id _ apart refused (
                  rest (tried ++ (id ∷ [])) (
                    not_true _ (λ now.
                      false≢true (sym refused ∙ ap (λ x. deliver x d) (same now) ∙ takes)))))
        ]
      ]

  -- While the cursor is not about to pass 2^64, and some subscriber but the publisher would accept,
  -- `roundRobinDeliver` calls subscribers until one accepts: nobody before that one accepts, none is the
  -- publisher, one delivery is counted and no drop, and the cursor moves on by one.
  pub round_robin_deliver-finds :
      (rr : ℕ) (subs : List ℕ) (id : ℕ)
      → rr + length subs < u64_mod
      → contains subs id ≡ true
      → nat_eq id exclude ≡ false
      → deliver id d ≡ true
      → IsHandedOver deliver d exclude subs [] (round_robin_deliver deliver d exclude rr subs).0
        × ((round_robin_deliver deliver d exclude rr subs).1 ≡ suc rr)
  unfolding round_robin_deliver
  round_robin_deliver-finds rr subs id word there other takes =
      let n = length subs in
      let (p, within, same) = place_of subs id there in
      let Found : Counts × ℕ → Type 0 =
        λ (c : Counts × ℕ). IsHandedOver deliver d exclude subs [] c.0 × (c.1 ≡ suc rr) in
      let (k, early, at) = offset_to rr n p within in
      let start : ((rr + 1) % u64_mod + (u64_mod - 1)) % u64_mod ≡ rr = omega arith in
      let seen : id ≡ get_or subs ((rr + k) % n) 0 = sym (ap (λ m. get_or subs m 0) at ∙ same) in
      if_cases Found (nat_eq n 0) _ _ (λ empty. absurd (ground (arith, nat_eq_iff n 0)))
        (λ _. (
          rw start (
              rotate-finds n 0 rr subs [] k (omega arith) (omega arith) (omega arith) (omega arith)
                (subst (λ j. nat_eq j exclude ≡ false) seen other)
                (subst (λ j. deliver j d ≡ true) seen takes)),
          omega arith,
        ))
