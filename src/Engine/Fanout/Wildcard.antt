-- ===== src/Engine/Fanout/Wildcard.antt =====
-- Who is tried by a fan-out: each recipient once, without the publisher, and by wildcard nobody who
-- was reached before.
use gentis.Prelude.{
  ℕ, ◌+◌, ◌≡◌, refl, sym, ap₂, ◌∙◌, subst, List, [], ◌∷◌, ◌++◌, Bool, true, false, not, ◌&&◌, ◌||◌,
  if◌then◌else◌, length, length-append, contains, contains-append, Distinct, nat_eq, nat_eq_iff,
  nat_Eq, arith, if_cases, ltb, Bool-cases,
}
use gentis.Engine.Patterns.Collect.{lookup-mark_all, nothing-marked}
use gentis.Engine.Fanout.{
  Delivery, Counts, no_counts, plus, one_call, deliver_each, deliver_unreached, deliver_patterns,
  reached,
}

-- How many of a list accept.
abbrev pub accepted : (ℕ → Bool) → List ℕ → ℕ
accepted takes [] = 0
accepted takes (id ∷ ids) = if takes id then 1 + accepted takes ids else accepted takes ids

accepted-append :
    (takes : ℕ → Bool) (xs ys : List ℕ)
    → accepted takes (xs ++ ys) ≡ accepted takes xs + accepted takes ys
accepted-append takes [] ys = omega arith
accepted-append takes (x ∷ xs) ys = ground (arith, accepted-append takes xs ys)

append-disjoint :
    (xs ys : List ℕ)
    → Distinct xs
    → Distinct ys
    → ((a : ℕ) → contains xs a ≡ true → contains ys a ≡ false)
    → Distinct (xs ++ ys)
append-disjoint [] ys d e h = e
append-disjoint (x ∷ xs) ys d e h = (
  ground (arith, contains-append xs ys x, h x, d.0, nat_eq_iff x x),
  append-disjoint xs ys d.1 e (λ a i. h a (ground arith)),
)

-- The counts are those of the calls.
pub record IsTally (takes : ℕ → Bool) (c : Counts) : Type 0 where
  pub once : Distinct c.tried
  pub took : c.delivered ≡ accepted takes c.tried
  pub sum : c.delivered + c.dropped ≡ length c.tried

plus-IsTally :
    (takes : ℕ → Bool) (a b : Counts)
    → IsTally takes a
    → IsTally takes b
    → ((j : ℕ) → contains a.tried j ≡ true → contains b.tried j ≡ false)
    → IsTally takes (plus a b)
plus-IsTally takes a b s t apart = record {
  once = append-disjoint a.tried b.tried s.once t.once apart;
  took = ap₂ (λ m n. m + n) s.took t.took ∙ sym (accepted-append takes a.tried b.tried);
  sum =
      let e = s.sum in
      let f = t.sum in let g = length-append a.tried b.tried in omega (arith, e, f, g);
}

nobody-IsTally : (takes : ℕ → Bool) → IsTally takes no_counts
nobody-IsTally takes = record { once = tt; took = refl; sum = refl }

one_call-IsTally :
    (takes : ℕ → Bool) (id : ℕ) (b : Bool) → takes id ≡ b → IsTally takes (one_call id b)
one_call-IsTally takes id true e = record { once = (refl, tt); took = ground arith; sum = refl }
one_call-IsTally takes id false e = record { once = (refl, tt); took = ground arith; sum = refl }

tried-one_call : (id j : ℕ) (b : Bool) → contains (one_call id b).tried j ≡ nat_eq id j
tried-one_call id j true = ground arith
tried-one_call id j false = ground arith

module _ (deliver : ℕ → Delivery → Bool) (d : Delivery) (exclude : ℕ) where
  deliver_each-unreached :
      (ids : List ℕ)
      → deliver_each deliver d exclude ids ≡ deliver_unreached deliver d exclude (λ _. false) ids
  unfolding deliver_each deliver_unreached
  deliver_each-unreached [] = refl
  deliver_each-unreached (id ∷ ids) = ground (arith, deliver_each-unreached ids)

  unreached-contains :
      (f : ℕ → Bool) (ids : List ℕ) (j : ℕ)
      → contains (deliver_unreached deliver d exclude f ids).tried j
        ≡ (contains ids j && not (nat_eq j exclude || f j))
  unfolding deliver_unreached
  unreached-contains f [] j = refl
  unreached-contains f (id ∷ ids) j =
      ground (arith, unreached-contains f ids j, nat_eq_iff id j, Bool-cases (deliver id d))

  unreached-IsTally :
      (f : ℕ → Bool) (ids : List ℕ)
      → Distinct ids
      → IsTally (λ id. deliver id d) (deliver_unreached deliver d exclude f ids)
  unfolding deliver_unreached
  unreached-IsTally f [] u = record { once = tt; took = refl; sum = refl }
  unreached-IsTally f (id ∷ ids) u =
      let others = unreached-IsTally f ids u.1 in
      if_cases (IsTally (λ k. deliver k d)) (nat_eq id exclude || f id) _ _ (λ _. others)
        (λ _.
          plus-IsTally (λ k. deliver k d) (one_call id (deliver id d)) _
            (one_call-IsTally (λ k. deliver k d) id (deliver id d) refl) others
            (λ j i. ground (
              arith,
              unreached-contains f ids j,
              tried-one_call id j (deliver id d),
              nat_eq_iff id j,
              u.0,
            )))

  -- The two ways to say whom the exact fan-out reached agree.
  reached-contains :
      (exact pattern_ids : List ℕ) (id : ℕ)
      → reached deliver d exclude exact pattern_ids id ≡ contains exact id
  unfolding reached
  reached-contains exact pattern_ids id =
      if_cases (λ (b : Bool). b ≡ contains exact id)
        (ltb 32 (length exact) && ltb 1 (length pattern_ids)) _ _
        (λ _. ground (arith, lookup-mark_all exact [] id, nothing-marked id)) (λ _. refl)

  patterns-contains :
      (exact pattern_ids : List ℕ) (j : ℕ)
      → contains (deliver_patterns deliver d exclude exact pattern_ids).tried j
        ≡ (contains pattern_ids j && not (nat_eq j exclude || contains exact j))
  unfolding deliver_patterns
  patterns-contains exact [] j = refl
  patterns-contains exact (id ∷ ids) j = ground (
    arith,
    unreached-contains (reached deliver d exclude exact (id ∷ ids)) (id ∷ ids) j,
    reached-contains exact (id ∷ ids) j,
  )

  patterns-IsTally :
      (exact pattern_ids : List ℕ)
      → Distinct pattern_ids
      → IsTally (λ id. deliver id d) (deliver_patterns deliver d exclude exact pattern_ids)
  unfolding deliver_patterns
  patterns-IsTally exact pattern_ids u =
      if_cases (IsTally (λ id. deliver id d)) (nat_eq (length pattern_ids) 0) _ _
        (λ _. nobody-IsTally (λ id. deliver id d))
        (λ _. unreached-IsTally (reached deliver d exclude exact pattern_ids) pattern_ids u)

  each-contains :
      (ids : List ℕ) (j : ℕ)
      → contains (deliver_each deliver d exclude ids).tried j
        ≡ (contains ids j && not (nat_eq j exclude))
  each-contains ids j =
      ground (arith, deliver_each-unreached ids, unreached-contains (λ _. false) ids j)

  each-IsTally :
      (ids : List ℕ)
      → Distinct ids
      → IsTally (λ id. deliver id d) (deliver_each deliver d exclude ids)
  each-IsTally ids u =
      subst (IsTally (λ id. deliver id d)) (sym (deliver_each-unreached ids))
        (unreached-IsTally (λ _. false) ids u)

  -- The exact fan-out and the one by wildcard together try once everybody who is a recipient of
  -- either, but for the publisher.
  pub fan_out_lem :
      (exact pattern_ids : List ℕ)
      → Distinct exact
      → Distinct pattern_ids
      → IsTally
          (λ id. deliver id d)
          (plus
            (deliver_each deliver d exclude exact)
            (deliver_patterns deliver d exclude exact pattern_ids))
        × ((j : ℕ)
            → contains
                (plus
                  (deliver_each deliver d exclude exact)
                  (deliver_patterns deliver d exclude exact pattern_ids)).tried
                j
              ≡ (not (nat_eq j exclude) && (contains exact j || contains pattern_ids j)))
  fan_out_lem exact pattern_ids u w =
      let a = deliver_each deliver d exclude exact in
      let b = deliver_patterns deliver d exclude exact pattern_ids in
      (
        plus-IsTally (λ id. deliver id d) a b (each-IsTally exact u)
            (patterns-IsTally exact pattern_ids w)
            (λ j i. ground (arith, each-contains exact j, patterns-contains exact pattern_ids j)),
        λ j. ground (
          arith,
          contains-append a.tried b.tried j,
          each-contains exact j,
          patterns-contains exact pattern_ids j,
        ),
      )
