-- ===== src/Engine/Members/Patterned.antt =====
-- `SubscribePattern` and `UnsubscribePattern` in the engine.
use gentis.Prelude.{
  ℕ, ◌+◌, ◌<◌, ◌≡◌, ◌≢◌, refl, ap, ◌∙◌, Bytes, bytes_Eq, bytes_eq_iff, nat_eq, nat_Eq, Option, ◌==◌,
  ◌&&◌, ◌||◌, not, Bool, arith, if_cases, option_cases, is_some, u64_mod,
}
use gentis.Engine.Patterns.Coherence.{add-IsCoherent, remove-IsCoherent}
use gentis.Engine.Patterns as Patterns
use gentis.Engine.Patterns.Tables as Tables
use gentis.Engine.Patterns.Changes.{on-add, on-remove}
use gentis.Engine.State.{Engine, EngineError, find, get_shard, shard_index, up, down}
use gentis.Engine.Members.{subscribe_pattern, unsubscribe_pattern, pattern_denied}
use gentis.Engine.Members.Invariant.{IsValid, member, same-IsSound}
use gentis.Engine.Members.Reaping.{
  with_patterns, reap_if_none-IsValid, member-reap_if_none, patterns-reap_if_none,
}

-- In a valid engine, `UnsubscribePattern` reports whether the subscription to the pattern was there, and takes away that one;
-- the exact subscriptions stay as they are, and the engine is valid again.
pub unsubscribe_pattern_lem :
    (e : Engine) (id : ℕ) (pat : Bytes) (k : ℕ) (j q : Bytes)
    → IsValid e
    → ((unsubscribe_pattern e id pat).1 ≡ Tables.on e.patterns id pat)
      × (Tables.on (unsubscribe_pattern e id pat).0.patterns k q
          ≡ (Tables.on e.patterns k q && not (nat_eq id k && pat == q)))
      × (member (unsubscribe_pattern e id pat).0 k j ≡ member e k j)
      × IsValid (unsubscribe_pattern e id pat).0
unfolding unsubscribe_pattern
unsubscribe_pattern_lem e id pat k j q v =
    let Right : Engine × Bool → Type 0 = λ (r : Engine × Bool).
      (r.1 ≡ Tables.on e.patterns id pat)
      × (Tables.on r.0.patterns k q ≡ (Tables.on e.patterns k q && not (nat_eq id k && pat == q)))
      × (member r.0 k j ≡ member e k j)
      × IsValid r.0 in
    let p = (Patterns.remove e.patterns id pat).0 in
    let ops = up e.unsubscribe_ops 1 in
    let subs = down e.subscription_count 1 in
    let n = down e.pattern_subs 1 in
    let (was, gone) = on-remove e.patterns id k pat q v.sound.wild.tables in
    if_cases Right (not (Patterns.remove e.patterns id pat).1) _ _
      (λ out. (ground arith, ground (arith, bytes_eq_iff pat q), refl, v))
      (λ found. (
        ground arith,
        ap (λ r. Tables.on r k q) (patterns-reap_if_none (with_patterns e p ops subs n)) ∙ gone,
        member-reap_if_none e p ops subs n k j,
        reap_if_none-IsValid e p ops subs n v (remove-IsCoherent e.patterns id pat v.sound.wild),
      ))

some_patterns : (n : ℕ) → n + 1 < u64_mod → up n 1 ≢ 0
some_patterns n h e = omega arith

-- In a valid engine with fewer than 2^64 - 1 subscriptions to patterns, `SubscribePattern` leaves every
-- subscription as it was and adds, where it reports no error, that to the pattern; the engine is valid again.
pub subscribe_pattern_lem :
    (e : Engine) (id : ℕ) (pat : Bytes) (k : ℕ) (j q : Bytes)
    → IsValid e
    → e.pattern_subs + 1 < u64_mod
    → (Tables.on (subscribe_pattern e id pat).0.patterns k q ≡ (
        Tables.on e.patterns k q
        || (not (is_some (subscribe_pattern e id pat).1) && (nat_eq id k && pat == q))))
      × (member (subscribe_pattern e id pat).0 k j ≡ member e k j)
      × IsValid (subscribe_pattern e id pat).0
unfolding subscribe_pattern find get_shard shard_index
subscribe_pattern_lem e id pat k j q v room =
    let Right : Engine × Option EngineError → Type 0 = λ (r : Engine × Option EngineError).
      (Tables.on r.0.patterns k q
        ≡ (Tables.on e.patterns k q || (not (is_some r.1) && (nat_eq id k && pat == q))))
      × (member r.0 k j ≡ member e k j)
      × IsValid r.0 in
    let (new, added) = on-add e.patterns id k pat q in
    option_cases Right (pattern_denied e.config pat) _ _
      (λ _.
        if_cases Right (not (Patterns.add e.patterns id pat).1) _ _
          (λ dup. (
            ground (arith, bytes_eq_iff pat q),
            refl,
            record { sound = same-IsSound e _ v.sound refl refl refl refl refl; agree = v.agree },
          ))
          (λ fresh. (
            ground (arith),
            refl,
            record {
              sound = record {
                some_shards = v.sound.some_shards;
                fine = v.sound.fine;
                kept =
                    λ name ch there drained none_left. some_patterns e.pattern_subs room none_left;
                index = v.sound.index;
                wild = add-IsCoherent e.patterns id pat v.sound.wild;
              };
              agree = v.agree;
            },
          )))
      (λ why _. (ground arith, refl, v))
