-- ===== src/Engine/Publish/Panics.antt =====
-- When the fan-out of a publication panics.
use gentis.Prelude.{
  ℕ, ◌+◌, ◌-◌, ◌/◌, ◌<◌, ◌≡◌, refl, sym, ◌∙◌, ◌↔◌, inl, inr, bytes_Eq, List, Option, none, some,
  Bool, ◌&&◌, length, nat_eq, nat_eq_iff, nat_Eq, arith, if_cases, leb, ltb, Bool-cases,
}
use native.Mathlib.Nat.{div-eq_of_lt}
use gentis.Engine.Fanout.Chunks.{parallel_fanout_lem}
use gentis.Engine.State.{Config}
use gentis.Engine.Fanout.{Delivery, Counts, deliver_each, parallel_fanout}
use gentis.Engine.Publish.{spread}

none_not_some : {c : Counts} → ¬ (◌≡◌ {A = Option Counts} none (some c))
none_not_some e = cc

no_chunk : (n workers : ℕ) → n ≡ 0 → 1 < workers → (n + workers - 1) / workers ≡ 0
no_chunk n workers e h = div-eq_of_lt {n = n + workers - 1} {m = workers} (omega arith)

parallel_fanout-panics :
    (deliver : ℕ → Delivery → Bool) (d : Delivery) (exclude workers : ℕ) (subs : List ℕ)
    → 1 < workers
    → length subs ≡ 0
    → parallel_fanout deliver d exclude workers subs ≡ none
unfolding parallel_fanout
parallel_fanout-panics deliver d exclude workers subs h e =
    let c = no_chunk (length subs) workers e h in
    if_cases (λ (r : Option Counts). r ≡ none) (nat_eq ((length subs + workers - 1) / workers) 0) _
      _ (λ _. refl)
      (λ other.
        absurd (ground (arith, other, nat_eq_iff ((length subs + workers - 1) / workers) 0)))

-- The fan-out of a broadcast panics, by a division by zero, exactly where nobody is subscribed and a
-- threshold of 0 sends it to more than one worker.
pub spread-panics :
    (deliver : ℕ → Delivery → Bool) (exclude : ℕ) (cfg : Config) (d : Delivery) (subs : List ℕ)
    → (spread deliver exclude cfg d subs ≡ none)
      ↔ ((length subs ≡ 0) × (cfg.fanout_threshold ≡ 0) × (1 < cfg.fanout_workers))
unfolding spread
spread-panics deliver exclude cfg d subs =
    let workers = cfg.fanout_workers in
    let seq : Option Counts = some (deliver_each deliver d exclude subs) in
    let par = parallel_fanout deliver d exclude workers subs in
    if_cases
      (λ (r : Option Counts).
        (r ≡ none) ↔ ((length subs ≡ 0) × (cfg.fanout_threshold ≡ 0) × (1 < workers)))
      (leb cfg.fanout_threshold (length subs) && ltb 1 workers) _ _
      (λ on. (
        λ e. elim (Bool-cases (nat_eq (length subs) 0)) [
          | inl nobody ↦ (ground (arith, nobody), ground (arith, nobody, on), ground (arith, on))
          | inr some_one ↦
              let works =
                parallel_fanout_lem deliver d exclude workers subs (ground (arith, on))
                  (ground (arith, some_one)) in
              absurd (none_not_some (sym e ∙ works))
        ],
        λ (nobody, _, many). parallel_fanout-panics deliver d exclude workers subs many nobody,
      ))
      (λ off. (
        λ e. absurd (none_not_some (sym e)),
        λ (nobody, zero_there, many). absurd (ground (arith, off)),
      ))
