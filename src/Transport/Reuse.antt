-- ===== src/Transport/Reuse.antt =====
-- A slot that is given out again: identities of earlier occupants find nobody.
use gentis.Prelude.{
  ℕ, suc, ◌+◌, ◌-◌, ◌*◌, ◌<◌, ◌≡◌, ◌≢◌, refl, ◌∙◌, sym, subst, ap, arith, Option, none, some,
  length, get_or, set, length-set, get_or-set_self, get_or-set_if, u32_mod, nat_eq, nat_Eq,
  nat_eq_iff, List, [], ◌∷◌, Bool, false, if◌then◌else◌, Option-cases, inl, inr, if_cases,
}
use gentis.Transport.{Store, slot_for, alloc_id, register, unregister, target, fresh_gen, low, high}
use gentis.Transport.Stale.{
  IsValid, fresh_gen-bounds, low-id, high-id, later, later-word, later-fresh, slot-bound, slot-low,
  alloc_lem, target-stale,
}

abbrev is_at : Option ℕ → ℕ → Bool
is_at none i = false
is_at (some j) i = nat_eq j i

-- The calls that change a store.
pub data Call {ℓ} (S : Type ℓ) : Type ℓ where
  allocates : ℕ → Call S
  registers : ℕ → Option S → Call S
  unregisters : ℕ → Call S

module _ {ℓ} {S : Type ℓ} where
  unfoldable pub step : Store S → Call S → Store S
  step s (allocates slot) = (alloc_id s slot).0
  step s (registers id x) = register s id x
  step s (unregisters id) = unregister s id

  unfoldable pub run : Store S → List (Call S) → Store S
  run s [] = s
  run s (c ∷ cs) = run (step s c) cs

  -- How many calls allocate slot `i` of the store.
  abbrev pub hits : Store S → ℕ → Call S → ℕ
  hits s i (allocates slot) = if is_at (slot_for s slot) i then 1 else 0
  hits s i (registers id x) = 0
  hits s i (unregisters id) = 0

  abbrev pub allocations : Store S → ℕ → List (Call S) → ℕ
  allocations s i [] = 0
  allocations s i (c ∷ cs) = hits s i c + allocations s i cs

  -- The places of `s` are those of `t`, and the counter of place `i` is `n` allocations after `g`.
  record IsLater (s t : Store S) (i g n : ℕ) : Type 0 where
    base : t.base_id ≡ s.base_id
    size : length t.arr ≡ length s.arr
    sizes : length t.gen ≡ length t.arr
    counter : get_or t.gen i 0 ≡ later n g

  other-IsLater :
      (s t u : Store S) (i g n : ℕ)
      → u.base_id ≡ t.base_id
      → length u.arr ≡ length t.arr
      → u.gen ≡ t.gen
      → IsLater s t i g n
      → IsLater s u i g (0 + n)
  other-IsLater s t u i g n base size gen v = record {
    base = base ∙ v.base;
    size = size ∙ v.size;
    sizes = ap length gen ∙ v.sizes ∙ sym size;
    counter = ap (λ (l : List ℕ). get_or l i 0) gen ∙ v.counter ∙ ap (λ k. later k g) (omega arith);
  }

  alloc-outside : (t : Store S) (slot : ℕ) → slot_for t slot ≡ none → alloc_id t slot ≡ (t, slot)
  unfolding alloc_id
  alloc-outside t slot outside = ground (arith, outside)

  alloc-counter :
      (t : Store S) (i j g n : ℕ)
      → j < length t.gen
      → get_or t.gen i 0 ≡ later n g
      → get_or (set t.gen j (fresh_gen (get_or t.gen j 0))) i 0
        ≡ later ((if nat_eq j i then 1 else 0) + n) g
  unfolding later
  alloc-counter t i j g n inside counter =
      let one_more : suc n ≡ 1 + n = omega arith in
      get_or-set_if t.gen j i (fresh_gen (get_or t.gen j 0)) 0 inside
      ∙ if_cases
          (λ (k : ℕ).
            (if nat_eq j i then fresh_gen (get_or t.gen j 0) else get_or t.gen i 0)
            ≡ later (k + n) g)
          (nat_eq j i) _ _
          (λ here. rw here (
            ap (λ m. fresh_gen (get_or t.gen m 0)) ((nat_eq_iff j i).0 here)
            ∙ ap fresh_gen counter
            ∙ ap (λ k. later k g) one_more))
          (λ there. rw there (counter ∙ ap (λ k. later k g) (omega arith)))

  alloc-IsLater :
      (s t : Store S) (slot i g n : ℕ)
      → IsLater s t i g n
      → IsLater s (alloc_id t slot).0 i g (hits s i (allocates slot) + n)
  alloc-IsLater s t slot i g n v =
      let same = slot-low t s slot slot refl v.base v.size in
      elim (Option-cases (slot_for t slot)) [
        | inl outside ↦
            rw (alloc-outside t slot outside, sym same ∙ outside)
              (other-IsLater s t t i g n refl refl refl v)
        | inr (j, at) ↦
            let inside : j < length t.gen =
              subst (λ k. j < k) (sym v.sizes) (slot-bound t slot j at) in
            rw (alloc_lem t slot j at, sym same ∙ at)
              (record {
                base = v.base;
                size = v.size;
                sizes = length-set t.gen j (fresh_gen (get_or t.gen j 0)) ∙ v.sizes;
                counter = alloc-counter t i j g n inside v.counter;
              })
      ]

  register-keeps :
      (t : Store S) (id : ℕ) (x : Option S)
      → ((register t id x).base_id ≡ t.base_id)
        × (length (register t id x).arr ≡ length t.arr)
        × ((register t id x).gen ≡ t.gen)
  unfolding register
  register-keeps t id none = (refl, refl, refl)
  register-keeps t id (some x) = elim (Option-cases (slot_for t id)) [
    | inl outside ↦ (ground arith, ground arith, ground arith)
    | inr (j, at) ↦
        let same = length-set t.arr j (some (record { gen = high id; sender = x })) in
        (ground arith, ground (arith, same), ground arith)
  ]

  unregister-keeps :
      (t : Store S) (id : ℕ)
      → ((unregister t id).base_id ≡ t.base_id)
        × (length (unregister t id).arr ≡ length t.arr)
        × ((unregister t id).gen ≡ t.gen)
  unfolding unregister
  unregister-keeps t id = elim (Option-cases (slot_for t id)) [
    | inl outside ↦ (ground arith, ground arith, ground arith)
    | inr (j, at) ↦
        let same = length-set t.arr j none in (ground arith, ground (arith, same), ground arith)
  ]

  step-IsLater :
      (s t : Store S) (c : Call S) (i g n : ℕ)
      → IsLater s t i g n
      → IsLater s (step t c) i g (hits s i c + n)
  unfolding step
  step-IsLater s t (allocates slot) i g n v = alloc-IsLater s t slot i g n v
  step-IsLater s t (registers id x) i g n v =
      let (base, size, gen) = register-keeps t id x in
      other-IsLater s t (register t id x) i g n base size gen v
  step-IsLater s t (unregisters id) i g n v =
      let (base, size, gen) = unregister-keeps t id in
      other-IsLater s t (unregister t id) i g n base size gen v

  run-IsLater :
      (s t : Store S) (cs : List (Call S)) (i g n : ℕ)
      → IsLater s t i g n
      → IsLater s (run t cs) i g (allocations s i cs + n)
  unfolding run
  run-IsLater s t [] i g n v = other-IsLater s t t i g n refl refl refl v
  run-IsLater s t (c ∷ cs) i g n v =
      let later_on =
        run-IsLater s (step t c) cs i g (hits s i c + n) (step-IsLater s t c i g n v) in
      subst (IsLater s (run (step t c) cs) i g) (omega arith) later_on

  -- In a valid store, an identity that `AllocID` gave for a slot of the array finds no sender once the
  -- slot has been given out again and the new occupant has registered, whatever allocations of any
  -- slots, registrations and removals lie between the two, if fewer than 2^32 - 2 of them allocate that slot.
  pub target-reuse :
      (cs : List (Call S)) (s : Store S) (slot i : ℕ) (x : S)
      → IsValid s
      → slot_for s slot ≡ some i
      → allocations s i cs < u32_mod - 2
      → let (s₁, old) = alloc_id s slot in
        let (s₂, id) = alloc_id (run s₁ cs) slot in target (register s₂ id (some x)) old ≡ none
  unfolding later
  target-reuse cs s slot i x v h m =
      let n = allocations s i cs in
      let g = fresh_gen (get_or s.gen i 0) in
      let (lo, hi, new) = fresh_gen-bounds (get_or s.gen i 0) (v.words i) in
      let s₁ : Store S = record s { gen = set s.gen i g } in
      let inside : i < length s.gen = ground (arith, slot-bound s slot i h, v.lengths) in
      let t = run s₁ cs in
      let began : IsLater s s₁ i g 0 = record {
        base = refl;
        size = refl;
        sizes = length-set s.gen i g ∙ v.lengths;
        counter = get_or-set_self s.gen i g 0 inside;
      } in
      let ended = run-IsLater s s₁ cs i g 0 began in
      let at : slot_for t slot ≡ some i = slot-low t s slot slot refl ended.base ended.size ∙ h in
      let first = alloc_lem s slot i h in
      let again = alloc_lem t slot i at in
      let at_gen : get_or t.gen i 0 ≡ later n g =
        ended.counter ∙ ap (λ k. later k g) (omega arith) in
      let g₂ = fresh_gen (get_or t.gen i 0) in
      let (lo₂, hi₂, new₂) =
        fresh_gen-bounds (get_or t.gen i 0)
          (subst (λ k. k < u32_mod) (sym at_gen) (later-word n g hi)) in
      let apart : g₂ ≢ g = λ e. later-fresh n g lo hi m (sym (ap fresh_gen at_gen) ∙ e) in
      let t₂ : Store S = record t { gen = set t.gen i g₂ } in
      let old = g * u32_mod + low slot in
      let id = g₂ * u32_mod + low slot in
      let high₁ = high-id g slot hi in
      let high₂ = high-id g₂ slot hi₂ in
      let checked : high old ≢ 0 = rw high₁ ground arith in
      let differs : high old ≢ high id = rw (high₁, high₂) (λ e. apart (sym e)) in
      let at₂ : slot_for t₂ old ≡ some i = slot-low t₂ t old slot (low-id g slot) refl refl ∙ at in
      let stale =
        target-stale t₂ old id i x (low-id g slot ∙ sym (low-id g₂ slot)) at₂ checked differs in
      rw (first, again) stale
