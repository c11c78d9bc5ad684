-- ===== src/Engine/Patterns/Answers.antt =====
-- What a lookup of the wildcard subscribers of a channel answers.
use gentis.Prelude.{
  ℕ, nat_Eq, nat_eq, nat_eq_iff, ◌<◌, length-set, Bytes, bytes_Eq, bytes_eq_iff, List, [], ◌∷◌,
  Option, none, some, Bool, true, not, ◌&&◌, if◌then◌else◌, ◌==◌, ◌≡◌, refl, sym, ap, ◌∙◌, ◌↔◌,
  arith, contains, Distinct, All, is_empty, length, get_or, set, get_or-set_if, subst, if_cases,
  some_inj, Bool-cases, Option-cases, inl, inr, ◌%◌,
}
use gentis.Namespace.Name.{prefix}
use gentis.Pattern.{match}
use gentis.Pattern.Spec.{Matches}
use gentis.Pattern.Decides.{match_iff}
use gentis.Relay.Router.{holds}
use gentis.Pattern.Cache.{Cache, get, clear, new_cache}
use gentis.Pattern.Cache as Cache
use gentis.Pattern.Cache.Content.{get-set, get-set_self}
use gentis.Engine.Patterns.{
  Registry, PatternEntry, CachedMatch, slice_of, small_cache, pattern_cache_shards, collect,
  is_taken, subscribers_for,
}
use gentis.Engine.Patterns.Collect.{some_entry, collect_lem}
use gentis.Engine.Patterns.Tables as Tables
use gentis.Engine.Patterns.Tables.{on, slice-put_back, with_both, with_both-IsValid}
use gentis.Engine.Patterns.Agreement.{pats, entry_ids, pats-entry_ids}
use gentis.Engine.Patterns.Coherence.{answer, IsFresh, IsCoherent, nothing_found}

-- `pat` is a subscription of `j` that matches the channel, and is of the channel's namespace where the
-- registry is scoped.
pub record Reaches (p : Registry) (channel : Bytes) (j : ℕ) (pat : Bytes) : Type 0 where
  pub subscribed : on p j pat ≡ true
  pub matches : Matches pat channel
  pub own : p.scoped ≡ true → prefix pat ≡ prefix channel

-- The test of the loop, of the pattern itself.
abbrev takes : Bool → Bytes → Bytes → Bool
takes scoped channel pat =
    not (scoped && not (prefix pat == prefix channel)) && holds (match pat channel)

abbrev Own : PatternEntry → Type 0
Own e = e.ns ≡ prefix e.pat

is_taken-takes :
    (scoped : Bool) (channel : Bytes) (e : PatternEntry)
    → Own e
    → is_taken scoped channel e ≡ takes scoped channel e.pat
unfolding is_taken
is_taken-takes scoped channel e own = rw (own) refl

entry_ids-some :
    (q : Bytes) (es : List PatternEntry) (j : ℕ)
    → contains (slice_of (entry_ids q es)) j ≡ true
    → contains (pats es) q ≡ true
entry_ids-some q es j has = elim (Option-cases (entry_ids q es)) [
  | inl nothing ↦ absurd (ground arith)
  | inr (ids, e) ↦ ground (arith, pats-entry_ids q es)
]

some_entry-found :
    (scoped : Bool) (channel : Bytes) (es : List PatternEntry) (j : ℕ)
    → Distinct (pats es)
    → All Own es
    → some_entry scoped channel es j ≡ true
    → (pat : Bytes) × (contains (slice_of (entry_ids pat es)) j ≡ true)
      × (takes scoped channel pat ≡ true)
unfolding entry_ids
some_entry-found scoped channel [] j d own h = absurd (ground arith)
some_entry-found scoped channel (e ∷ es) j d own h =
    elim (Bool-cases (is_taken scoped channel e && contains e.subs j)) [
      | inl here ↦
          let taken : takes scoped channel e.pat ≡ true =
            sym (is_taken-takes scoped channel e own.0) ∙ ground (arith, here) in
          (e.pat, ground (arith, bytes_eq_iff e.pat e.pat), taken)
      | inr other ↦
          let (pat, has, taken) = some_entry-found scoped channel es j d.1 own.1 (ground arith) in
          (
            pat,
            ground
                (arith, bytes_eq_iff e.pat pat, pats-entry_ids pat es, entry_ids-some pat es j has),
            taken,
          )
    ]

some_entry-takes :
    (scoped : Bool) (channel : Bytes) (es : List PatternEntry) (j : ℕ) (pat : Bytes)
    → All Own es
    → contains (slice_of (entry_ids pat es)) j ≡ true
    → takes scoped channel pat ≡ true
    → some_entry scoped channel es j ≡ true
unfolding entry_ids
some_entry-takes scoped channel [] j pat own has h = absurd (ground arith)
some_entry-takes scoped channel (e ∷ es) j pat own has h = ground (
  arith,
  is_taken-takes scoped channel e own.0,
  some_entry-takes scoped channel es j pat own.1,
  bytes_eq_iff e.pat pat,
)

takes_iff :
    (scoped : Bool) (channel pat : Bytes)
    → (takes scoped channel pat ≡ true)
      ↔ (Matches pat channel × (scoped ≡ true → prefix pat ≡ prefix channel))
unfolding holds
takes_iff scoped channel pat =
    let (b, e, decides) = match_iff pat channel in
    let same = bytes_eq_iff (prefix pat) (prefix channel) in
    (
      λ t. ((decides.0) (ground (arith, e)), λ sc. same.0 (ground arith)),
      λ (m, own). elim (Bool-cases scoped) [
        | inl sc ↦ ground (arith, e, decides.1 m, same.1 (own sc))
        | inr free ↦ ground (arith, e, decides.1 m)
      ],
    )

some_entry_iff :
    (p : Registry) (channel : Bytes) (j : ℕ)
    → IsCoherent p
    → (some_entry p.scoped channel p.snap.entries j ≡ true)
      ↔ ((pat : Bytes) × Reaches p channel j pat)
some_entry_iff p channel j v = (
  λ h.
      let (pat, has, taken) =
        some_entry-found p.scoped channel p.snap.entries j v.shown.once v.shown.own_ns h in
      let (m, own) = (takes_iff p.scoped channel pat).0 taken in
      (
        pat,
        record {
          subscribed = subst (λ o. contains (slice_of o) j ≡ true) (v.shown.shown pat) has;
          matches = m;
          own = own;
        },
      ),
  λ (pat, r).
      some_entry-takes p.scoped channel p.snap.entries j pat v.shown.own_ns
        (subst (λ o. contains (slice_of o) j ≡ true) (sym (v.shown.shown pat)) r.subscribed)
        ((takes_iff p.scoped channel pat).1 (r.matches, r.own)),
)

answer-nothing :
    (p : Registry) (channel : Bytes) → is_empty p.snap.entries ≡ true → answer p channel ≡ []
unfolding collect
answer-nothing p channel e = none_collected p.snap.entries e
  where
    none_collected :
        (es : List PatternEntry)
        → is_empty es ≡ true
        → (collect p.scoped channel ([], none) es).0 ≡ []
    none_collected [] h = refl
    none_collected (x ∷ es) h = absurd (ground arith)

-- A result of the cache is taken where its generation is the snapshot's.
from_cache :
    (P : Registry × List ℕ → Type 0) (p : Registry) (o : Option CachedMatch)
    (miss : Registry × List ℕ)
    → ((m : CachedMatch) → o ≡ some m → m.gen ≡ p.snap.gen → P (p, m.ids))
    → P miss
    → P (elim o [ none ↦ miss | some m ↦ if nat_eq m.gen p.snap.gen then (p, m.ids) else miss ])
from_cache P p none miss hit other = other
from_cache P p (some m) miss hit other =
    if_cases P (nat_eq m.gen p.snap.gen) _ _ (λ e. hit m refl ((nat_eq_iff m.gen p.snap.gen).0 e))
      (λ _. other)

-- The lookup answers what the loops compute now, from the cache or not.
subscribers_for-answer :
    (hash : Bytes → ℕ) (order : List Bytes) (p : Registry) (channel : Bytes)
    → IsCoherent p
    → (subscribers_for hash order p channel).1 ≡ answer p channel
unfolding subscribers_for
subscribers_for-answer hash order p channel v =
    let Right : Registry × List ℕ → Type 0 = λ (r : Registry × List ℕ). r.1 ≡ answer p channel in
    let i = hash channel % pattern_cache_shards in
    if_cases Right (is_empty p.snap.entries) _ _ (λ e. sym (answer-nothing p channel e))
      (λ _.
        from_cache Right p (get (get_or p.caches i small_cache) channel) _ (v.fresh i channel) refl)

-- Any other shard, and any other key of that shard, keeps its results or loses them.
stored-IsFresh :
    (order : List Bytes) (p : Registry) (c : Cache CachedMatch) (channel : Bytes)
    → IsFresh p c
    → IsFresh p (Cache.set order c channel (record { gen = p.snap.gen; ids = answer p channel }))
stored-IsFresh order p c channel f other m e g =
    let new : CachedMatch = record { gen = p.snap.gen; ids = answer p channel } in
    elim (Bool-cases (channel == other)) [
      | inl same ↦
          let eq = (bytes_eq_iff channel other).0 same in
          let stored : some m ≡ some new =
            sym e
            ∙ ap (get (Cache.set order c channel new)) (sym eq)
            ∙ get-set_self order c channel new in
          ap (λ (n : CachedMatch). n.ids) (some_inj stored) ∙ ap (answer p) eq
      | inr differ ↦
          let other_key : ¬ (channel ≡ other) = λ q. ground (arith, bytes_eq_iff channel other) in
          elim (get-set order c channel other new other_key).1 [
            | inl kept ↦ f other m (sym kept ∙ e) g
            | inr (gone, _) ↦ absurd (nothing_found _ m gone e)
          ]
    ]

stored-IsCoherent :
    (order : List Bytes) (p : Registry) (i : ℕ) (channel : Bytes)
    → i < pattern_cache_shards
    → IsCoherent p
    → IsCoherent (record p {
      caches = set p.caches i (
          Cache.set order
            (get_or p.caches i small_cache)
            channel
            (record { gen = p.snap.gen; ids = answer p channel }));
    })
stored-IsCoherent order p i channel h v =
    let c = get_or p.caches i small_cache in
    let new : CachedMatch = record { gen = p.snap.gen; ids = answer p channel } in
    record {
      tables = Tables.publish-IsValid p _ refl refl v.tables;
      shown = v.shown;
      shards = length-set p.caches i _ ∙ v.shards;
      fresh = λ j.
          subst (IsFresh p)
            (sym (
              get_or-set_if p.caches i j (Cache.set order c channel new) small_cache
                (h_in p i h v.shards)))
            (if_cases (IsFresh p) (nat_eq i j) _ _
              (λ _. stored-IsFresh order p c channel (v.fresh i)) (λ _. v.fresh j));
    }
  where
    h_in :
        (p : Registry) (i : ℕ)
        → i < pattern_cache_shards
        → length p.caches ≡ pattern_cache_shards
        → i < length p.caches
    h_in p i h n = omega arith

pub subscribers_for-IsCoherent :
    (hash : Bytes → ℕ) (order : List Bytes) (p : Registry) (channel : Bytes)
    → IsCoherent p
    → IsCoherent (subscribers_for hash order p channel).0
unfolding subscribers_for
subscribers_for-IsCoherent hash order p channel v =
    let Kept : Registry × List ℕ → Type 0 = λ (r : Registry × List ℕ). IsCoherent r.0 in
    let i = hash channel % pattern_cache_shards in
    if_cases Kept (is_empty p.snap.entries) _ _ (λ _. v)
      (λ _.
        from_cache Kept p (get (get_or p.caches i small_cache) channel) _ (λ _ _ _. v)
          (stored-IsCoherent order p i channel (in_range (hash channel)) v))
  where
    in_range : (n : ℕ) → n % pattern_cache_shards < pattern_cache_shards
    in_range n = omega arith

-- Where the caches hold nothing stale, a lookup lists, each once, exactly the subscribers with a
-- pattern that reaches the channel, whatever the caches hold and whatever an eviction drops, and
-- leaves nothing stale in them.
pub subscribers_for_lem :
    (hash : Bytes → ℕ) (order : List Bytes) (p : Registry) (channel : Bytes) (j : ℕ)
    → IsCoherent p
    → Distinct (subscribers_for hash order p channel).1
      × ((contains (subscribers_for hash order p channel).1 j ≡ true)
          ↔ ((pat : Bytes) × Reaches p channel j pat))
      × IsCoherent (subscribers_for hash order p channel).0
subscribers_for_lem hash order p channel j v =
    let e = subscribers_for-answer hash order p channel v in
    let (once, has) = collect_lem p.scoped channel p.snap.entries j in
    let iff = some_entry_iff p channel j v in
    (
      subst Distinct (sym e) once,
      (
        λ h. iff.0 (sym has ∙ ap (λ ids. contains ids j) (sym e) ∙ h),
        λ r. ap (λ ids. contains ids j) e ∙ has ∙ iff.1 r,
      ),
      subscribers_for-IsCoherent hash order p channel v,
    )
