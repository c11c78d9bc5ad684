-- ===== src/Engine/Channel/Stored.antt =====
-- The cohort that a channel stores is that of the ranks it was given (internal/engine/channel.go).
use gentis.Prelude.{
  ℕ, ℤ, ◌≤ℤ◌, ◌≡◌, ◌↔◌, List, [], ◌∷◌, Option, none, some, nat_eq_iff, lookup-insert, lookup-delete,
  true, if◌then◌else◌, nat_eq, nat_Eq, contains, arith, sym, subst, ◌∙◌, Option-cases, inl, inr,
  lookup, keys, Distinct, contains-keys, insert-Distinct, delete-Distinct,
}
use gentis.Engine.Channel.{Channel, cohort, set_priority, clear_priority}
use gentis.Engine.Channel.Cohort.{IsSorted, AtMost, AtMost-lookup, IsTop, cohort_lem}

-- The ranks of a channel, none where the map is nil.
abbrev pub ranks : Channel → List (ℕ × ℤ)
ranks c = elim c.prios [ none ↦ [] | some m ↦ m ]

-- The cohort that a publication reads, none where it was never stored.
abbrev pub stored : Channel → List ℕ
stored c = elim c.top_cohort [ none ↦ [] | some ids ↦ ids ]

pub record IsRanked (c : Channel) : Type 0 where
  pub once : Distinct (keys (ranks c))
  pub cached : stored c ≡ cohort (ranks c)

set_priority-IsRanked : (c : Channel) (id : ℕ) (p : ℤ) → IsRanked c → IsRanked (set_priority c id p)
unfolding set_priority
set_priority-IsRanked c id p r = elim (Option-cases c.prios) [
  | inl e ↦ ground (arith, insert-Distinct id p [])
  | inr (m, e) ↦ ground (arith, insert-Distinct id p m, r.once)
]

clear_priority-IsRanked : (c : Channel) (id : ℕ) → IsRanked c → IsRanked (clear_priority c id)
unfolding clear_priority
clear_priority-IsRanked c id r = elim (Option-cases c.prios) [
  | inl e ↦ ground arith
  | inr (m, e) ↦ ground (arith, delete-Distinct id m, r.once)
]

-- By a function from subscribers to ranks: ranked, and nobody is ranked above.
pub record IsTopOf (rank_of : ℕ → Option ℤ) (j : ℕ) : Type 0 where
  pub rank : ℤ
  pub ranked : rank_of j ≡ some rank
  pub highest : (k : ℕ) (q : ℤ) → rank_of k ≡ some q → q ≤ℤ rank

AtMost-all :
    (p : ℤ) (m : List (ℕ × ℤ))
    → Distinct (keys m)
    → ((k : ℕ) (q : ℤ) → lookup k m ≡ some q → q ≤ℤ p)
    → AtMost p m
unfolding lookup
AtMost-all p [] d h = tt
AtMost-all p ((id, r) ∷ m) d h = (
  h id r (ground (arith, nat_eq_iff id id)),
  AtMost-all p m d.1 (λ k q e. h k q (ground (arith, e, d.0, contains-keys k m, nat_eq_iff id k))),
)

IsTop-IsTopOf :
    (m : List (ℕ × ℤ)) (rank_of : ℕ → Option ℤ) (j : ℕ)
    → Distinct (keys m)
    → ((k : ℕ) → lookup k m ≡ rank_of k)
    → IsTop m j ↔ IsTopOf rank_of j
IsTop-IsTopOf m rank_of j d same = (
  λ t. record {
    rank = t.rank;
    ranked = sym (same j) ∙ t.ranked;
    highest = λ k q e. AtMost-lookup t.rank q k m t.highest (same k ∙ e);
  },
  λ t. record {
    rank = t.rank;
    ranked = same j ∙ t.ranked;
    highest = AtMost-all t.rank m d (λ k q e. t.highest k q (sym (same k) ∙ e));
  },
)

-- The ranks that setting one of them, and clearing it, is to give.
abbrev pub rank_set : Channel → ℕ → ℤ → ℕ → Option ℤ
rank_set c id p k = if nat_eq id k then some p else lookup k (ranks c)

abbrev pub rank_cleared : Channel → ℕ → ℕ → Option ℤ
rank_cleared c id k = if nat_eq id k then none else lookup k (ranks c)

ranks-set_priority :
    (c : Channel) (id : ℕ) (p : ℤ) (k : ℕ)
    → lookup k (ranks (set_priority c id p)) ≡ rank_set c id p k
unfolding set_priority
ranks-set_priority c id p k = elim (Option-cases c.prios) [
  | inl e ↦ ground (arith, lookup-insert id k p [])
  | inr (m, e) ↦ ground (arith, lookup-insert id k p m)
]

ranks-clear_priority :
    (c : Channel) (id k : ℕ) → lookup k (ranks (clear_priority c id)) ≡ rank_cleared c id k
unfolding clear_priority lookup
ranks-clear_priority c id k = elim (Option-cases c.prios) [
  | inl e ↦ ground arith
  | inr (m, e) ↦ ground (arith, lookup-delete id k m)
]

-- A cohort stored for given ranks.
stored-IsTopOf :
    (c : Channel) (rank_of : ℕ → Option ℤ) (j : ℕ)
    → IsRanked c
    → ((k : ℕ) → lookup k (ranks c) ≡ rank_of k)
    → IsSorted (stored c) × ((contains (stored c) j ≡ true) ↔ IsTopOf rank_of j)
stored-IsTopOf c rank_of j r same =
    let (sorted, top) = cohort_lem (ranks c) j r.once in
    let (to, back) = IsTop-IsTopOf (ranks c) rank_of j r.once same in
    subst (λ xs. IsSorted xs × ((contains xs j ≡ true) ↔ IsTopOf rank_of j)) (sym r.cached)
      (sorted, (λ h. to (top.0 h), λ t. top.1 (back t)))

-- On a channel that ranks each subscriber once and stores the cohort of these ranks: after a subscriber
-- is given a rank, the stored cohort lists in ascending order exactly those of the highest rank, where
-- the others have the ranks they had; and so after its rank is cleared, where it has none.
pub stored_lem :
    (c : Channel) (id j : ℕ) (p : ℤ)
    → IsRanked c
    → IsSorted (stored (set_priority c id p))
      × ((contains (stored (set_priority c id p)) j ≡ true) ↔ IsTopOf (rank_set c id p) j)
      × IsSorted (stored (clear_priority c id))
      × ((contains (stored (clear_priority c id)) j ≡ true) ↔ IsTopOf (rank_cleared c id) j)
stored_lem c id j p r =
    let (sorted, top) =
      stored-IsTopOf (set_priority c id p) (rank_set c id p) j (set_priority-IsRanked c id p r)
        (ranks-set_priority c id p) in
    let (sorted_left, left) =
      stored-IsTopOf (clear_priority c id) (rank_cleared c id) j (clear_priority-IsRanked c id r)
        (ranks-clear_priority c id) in
    (sorted, top, sorted_left, left)
