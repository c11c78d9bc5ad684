-- ===== src/Engine/Fanout/Chunks.antt =====
-- The parallel fan-out does what the sequential loop does.
use gentis.Prelude.{
  ℕ, zero, suc, ◌+◌, ◌-◌, ◌*◌, ◌/◌, ◌≤◌, ◌<◌, ◌≡◌, refl, sym, ap, ◌∙◌, subst, min, List, [], ◌∷◌,
  ◌++◌, append_assoc, append-nil, Option, some, ltb, Bool, length, take, drop, drop-nil, nat_eq,
  nat_eq_iff, arith, if_cases,
}
use native.Mathlib.Nat.{mul_comm, suc-mul, lt-div-mul-add, le-div_iff_mul-le, div-lt_iff_lt-mul}
use gentis.Engine.Fanout.{
  Delivery, Counts, no_counts, plus, one_call, deliver_each, deliver_chunks, parallel_fanout,
}

plus_assoc : (a b c : Counts) → plus (plus a b) c ≡ plus a (plus b c)
plus_assoc a b c = ground (arith, append_assoc a.tried b.tried c.tried)

no_counts-plus : (c : Counts) → plus no_counts c ≡ c
no_counts-plus c = ground arith

plus-no_counts : (c : Counts) → plus c no_counts ≡ c
plus-no_counts c = ground (arith, append-nil c.tried)

nothing_left : (k e : ℕ) → take k [] ++ drop e [] ≡ ◌++◌ {A = ℕ} [] []
nothing_left zero zero = refl
nothing_left zero (suc e) = refl
nothing_left (suc k) zero = refl
nothing_left (suc k) (suc e) = refl

split_first : (xs : List ℕ) (e k : ℕ) → k ≡ min e (length xs) → take k xs ++ drop e xs ≡ xs
split_first [] e k h = nothing_left k e
split_first (x ∷ xs) zero zero h = refl
split_first (x ∷ xs) zero (suc k) h = absurd (omega arith)
split_first (x ∷ xs) (suc e) zero h = absurd (omega arith)
split_first (x ∷ xs) (suc e) (suc k) h = ap (◌∷◌ x) (split_first xs e k (omega arith))

-- A list from `start` on, cut where the chunk ends.
split_chunk :
    (xs : List ℕ) (start size k e : ℕ)
    → k ≡ min (start + size) (length xs) - start
    → e ≡ start + size
    → take k (drop start xs) ++ drop e xs ≡ drop start xs
split_chunk [] zero size k e h g = nothing_left k e
split_chunk [] (suc start) size k e h g = nothing_left k e
split_chunk (x ∷ xs) zero size k e h g = split_first (x ∷ xs) e k (omega arith)
split_chunk (x ∷ xs) (suc start) size k zero h g = absurd (omega arith)
split_chunk (x ∷ xs) (suc start) size k (suc e) h g =
    split_chunk xs start size k e (omega arith) (omega arith)

next_start : (start chunks size : ℕ) → start + suc chunks * size ≡ start + size + chunks * size
next_start start chunks size = let e = suc-mul chunks size in omega (arith, e)

module _ (deliver : ℕ → Delivery → Bool) (d : Delivery) (exclude : ℕ) where
  deliver_each-append :
      (xs ys : List ℕ)
      → deliver_each deliver d exclude (xs ++ ys)
        ≡ plus (deliver_each deliver d exclude xs) (deliver_each deliver d exclude ys)
  unfolding deliver_each
  deliver_each-append [] ys = sym (no_counts-plus (deliver_each deliver d exclude ys))
  deliver_each-append (x ∷ xs) ys = ground (
    arith,
    deliver_each-append xs ys,
    plus_assoc (one_call x (deliver x d)) (deliver_each deliver d exclude xs)
        (deliver_each deliver d exclude ys),
  )

  -- Chunks that reach the end of the list deliver to all of it.
  deliver_chunks-drop :
      (chunks chunk_size start : ℕ) (subs : List ℕ)
      → length subs ≤ start + chunks * chunk_size
      → deliver_chunks deliver d exclude chunks chunk_size start subs
        ≡ deliver_each deliver d exclude (drop start subs)
  unfolding deliver_chunks deliver_each
  deliver_chunks-drop zero chunk_size start subs h =
      sym (ap (deliver_each deliver d exclude) (drop-nil subs start (omega arith)))
  deliver_chunks-drop (suc chunks) chunk_size start subs h =
      let k = min (start + chunk_size) (length subs) - start in
      ap (plus (deliver_each deliver d exclude (take k (drop start subs)))) (
        deliver_chunks-drop chunks chunk_size (start + chunk_size) subs
          (subst (λ m. length subs ≤ m) (next_start start chunks chunk_size) h))
      ∙ sym (deliver_each-append (take k (drop start subs)) (drop (start + chunk_size) subs))
      ∙ ap (deliver_each deliver d exclude)
          (split_chunk subs start chunk_size k (start + chunk_size) refl refl)

n_lt :
    (n c workers : ℕ)
    → 0 < c
    → n + workers - 1 < c * workers + workers
    → n + c - 1 < suc workers * c
n_lt n c workers h wide =
    let e = suc-mul workers c in let f = mul_comm workers c in omega (arith, e, f)

-- There are chunks enough for all subscribers, and no more than workers.
chunks_cover :
    (n workers : ℕ)
    → 0 < n
    → 0 < workers
    → (0 < (n + workers - 1) / workers)
      × (n
          ≤ (n + (n + workers - 1) / workers - 1)
            / ((n + workers - 1) / workers)
            * ((n + workers - 1) / workers))
      × ((n + (n + workers - 1) / workers - 1) / ((n + workers - 1) / workers) ≤ workers)
chunks_cover n workers h w =
    let c = (n + workers - 1) / workers in
    let wide = lt-div-mul-add {a = n + workers - 1} {b = workers} w in
    let some_chunk : 0 < c =
      (le-div_iff_mul-le {k = workers} {x = 1} {y = n + workers - 1} w).1 (omega arith) in
    let last = lt-div-mul-add {a = n + c - 1} {b = c} some_chunk in
    let few =
      (div-lt_iff_lt-mul {k = c} {x = n + c - 1} {y = suc workers} some_chunk).1
        (n_lt n c workers some_chunk wide) in
    (some_chunk, omega (arith, last, some_chunk), omega (arith, few))

pub parallel_fanout_lem :
    (deliver : ℕ → Delivery → Bool) (d : Delivery) (exclude workers : ℕ) (subs : List ℕ)
    → 0 < workers
    → 0 < length subs
    → parallel_fanout deliver d exclude workers subs ≡ some (deliver_each deliver d exclude subs)
unfolding parallel_fanout
parallel_fanout_lem deliver d exclude workers subs w h =
    let n = length subs in
    let c = (n + workers - 1) / workers in
    let (some_chunk, covered, few) = chunks_cover n workers h w in
    if_cases (λ (r : Option Counts). r ≡ some (deliver_each deliver d exclude subs)) (nat_eq c 0) _
      _ (λ none_left. absurd (ground (arith, nat_eq_iff c 0)))
      (λ _.
        if_cases (λ (r : Option Counts). r ≡ some (deliver_each deliver d exclude subs))
          (ltb workers ((n + c - 1) / c)) _ _ (λ many. absurd (ground (arith, many, few)))
          (λ _. ap some (
            deliver_chunks-drop deliver d exclude ((n + c - 1) / c) c 0 subs
              (omega (arith, covered)))))
