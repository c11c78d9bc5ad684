-- ===== src/Engine/Members/LeavingAll.antt =====
-- `UnsubscribeAll`: every subscription of one subscriber goes, exact or to a pattern.
use gentis.Prelude.{
  ℕ, ℤ, ◌≡◌, refl, sym, ap, ◌∙◌, Bytes, bytes_Eq, bytes_eq_iff, nat_eq, nat_eq_iff, nat_Eq, List,
  [], ◌∷◌, none, some, if◌then◌else◌, ◌&&◌, not, length, contains, arith, if_cases, option_cases,
  ltb,
}
use gentis.Engine.Subscriptions.{remove_all, get_channels}
use gentis.Engine.Subscriptions.Index.{on, on-remove_all}
use gentis.Engine.Subscriptions.Reach.{remove_all-IsValid}
use gentis.Engine.Patterns as Patterns
use gentis.Engine.Patterns.Tables as Tables
use gentis.Engine.Patterns.Changes as Changes
use gentis.Engine.Patterns.Coherence.{remove_all-IsCoherent}
use gentis.Engine.State.{Engine, Live, find, get_shard, shard_index, up, down}
use gentis.Engine.Members.{settle, without, leave_each, leave_patterns, unsubscribe_all}
use gentis.Engine.Members.Invariant.{IsSound, IsValid, member, same-IsSound}
use gentis.Engine.Members.Leaving.{settle-Rest, left-IsSound, member-left}
use gentis.Engine.Members.Reaping.{
  with_patterns, reap_if_none-IsValid, member-reap_if_none, patterns-reap_if_none,
}

-- What the loop leaves, after the names it has visited.
record IsLeft (e f : Engine) (id : ℕ) (names : List Bytes) : Type 0 where
  sound : IsSound f
  members :
      (k : ℕ) (j : Bytes) → member f k j ≡ (member e k j && not (nat_eq id k && contains names j))
  same_index : f.subscriptions ≡ e.subscriptions
  same_patterns : f.patterns ≡ e.patterns
  same_count : f.pattern_subs ≡ e.pattern_subs

-- The engine after one round of the loop.
abbrev one_left : Engine → ℕ → Bytes → Live → ℤ → Engine
one_left e id name ch now = record (settle e name (without ch id).0 now) {
  subscription_count =
      if (without ch id).1 then down e.subscription_count 1 else e.subscription_count;
}

one_left_lem :
    (e : Engine) (id : ℕ) (name : Bytes) (ch : Live) (now : ℤ)
    → IsSound e
    → find e name ≡ some ch
    → IsLeft e (one_left e id name ch now) id (name ∷ [])
unfolding find get_shard shard_index
one_left_lem e id name ch now v there =
    let r = settle-Rest e name (without ch id).0 now in
    record {
      sound =
          same-IsSound (settle e name (without ch id).0 now) _
            (left-IsSound e name ch id now v there) refl refl refl refl refl;
      members = λ k j. member-left e name ch id now k j v there ∙ ground arith;
      same_index = r.same_index;
      same_patterns = r.same_patterns;
      same_count = r.same_count;
    }

then-IsLeft :
    (e f g : Engine) (id : ℕ) (name : Bytes) (names : List Bytes)
    → IsLeft e f id (name ∷ [])
    → IsLeft f g id names
    → IsLeft e g id (name ∷ names)
then-IsLeft e f g id name names a b = record {
  sound = b.sound;
  members = λ k j. ground (arith, b.members k j, a.members k j);
  same_index = b.same_index ∙ a.same_index;
  same_patterns = b.same_patterns ∙ a.same_patterns;
  same_count = b.same_count ∙ a.same_count;
}

skipped :
    (e f : Engine) (id : ℕ) (name : Bytes) (names : List Bytes)
    → find e name ≡ none
    → IsLeft e f id names
    → IsLeft e f id (name ∷ names)
skipped e f id name names absent r = record {
  sound = r.sound;
  members = λ k j. ground (arith, r.members k j, bytes_eq_iff name j);
  same_index = r.same_index;
  same_patterns = r.same_patterns;
  same_count = r.same_count;
}

leave_each_lem :
    (e : Engine) (id : ℕ) (names : List Bytes) (now : ℤ)
    → IsSound e
    → IsLeft e (leave_each e id names now) id names
unfolding leave_each
leave_each_lem e id [] now v = record {
  sound = v;
  members = λ k j. ground arith;
  same_index = refl;
  same_patterns = refl;
  same_count = refl;
}
leave_each_lem e id (name ∷ names) now v =
    option_cases (λ f. IsLeft e f id (name ∷ names)) (find e name) _ _
      (λ absent. skipped e _ id name names absent (leave_each_lem e id names now v))
      (λ ch there.
        let once = one_left_lem e id name ch now v there in
        then-IsLeft e (one_left e id name ch now) _ id name names once
          (leave_each_lem (one_left e id name ch now) id names now once.sound))

-- The engine when the exact subscriptions are gone, and the index has no entry of the subscriber.
abbrev pub exact_left : Engine → ℕ → ℤ → Engine
exact_left e id now =
    let names = get_channels e.subscriptions id in
    let counted =
      (if ltb 0 (length names)
        then record e { unsubscribe_ops = up e.unsubscribe_ops (length names) }
        else e) in
    let left = leave_each counted id names now in
    record left { subscriptions = remove_all left.subscriptions id }

pub record HasLeft (e f : Engine) (id : ℕ) : Type 0 where
  pub valid : IsValid f
  pub members : (k : ℕ) (j : Bytes) → member f k j ≡ (member e k j && not (nat_eq id k))
  pub same_patterns : f.patterns ≡ e.patterns
  pub same_count : f.pattern_subs ≡ e.pattern_subs

without_index :
    (e c f : Engine) (id : ℕ)
    → IsValid e
    → c.subscriptions ≡ e.subscriptions
    → c.patterns ≡ e.patterns
    → c.pattern_subs ≡ e.pattern_subs
    → ((k : ℕ) (j : Bytes) → member c k j ≡ member e k j)
    → IsLeft c f id (get_channels e.subscriptions id)
    → HasLeft e (record f { subscriptions = remove_all f.subscriptions id }) id
unfolding find get_shard shard_index
without_index e c f id v i p n m l =
    let gone : (k : ℕ) (j : Bytes) → member f k j ≡ (member e k j && not (nat_eq id k)) =
      λ k j. ground (arith, l.members k j, m k j, v.agree k j, nat_eq_iff id k) in
    let same : f.subscriptions ≡ e.subscriptions = l.same_index ∙ i in
    record {
      valid = record {
        sound = record {
          some_shards = l.sound.some_shards;
          fine = l.sound.fine;
          kept = l.sound.kept;
          index = remove_all-IsValid f.subscriptions id l.sound.index;
          wild = l.sound.wild;
        };
        agree = λ k j.
            on-remove_all f.subscriptions id k j l.sound.index
            ∙ ap (λ s. on s k j && not (nat_eq id k)) same
            ∙ ap (λ b. b && not (nat_eq id k)) (v.agree k j)
            ∙ sym (gone k j);
      };
      members = gone;
      same_patterns = l.same_patterns ∙ p;
      same_count = l.same_count ∙ n;
    }

pub exact_left_lem :
    (e : Engine) (id : ℕ) (now : ℤ) → IsValid e → HasLeft e (exact_left e id now) id
unfolding find get_shard shard_index
exact_left_lem e id now v =
    let names = get_channels e.subscriptions id in
    let many = record e { unsubscribe_ops = up e.unsubscribe_ops (length names) } in
    if_cases
      (λ c.
        HasLeft e
          (record (leave_each c id names now) {
            subscriptions = remove_all (leave_each c id names now).subscriptions id;
          })
          id)
      (ltb 0 (length names)) _ _
      (λ _.
        without_index e many (leave_each many id names now) id v refl refl refl (λ k j. refl)
          (leave_each_lem many id names now (same-IsSound e many v.sound refl refl refl refl refl)))
      (λ _.
        without_index e e (leave_each e id names now) id v refl refl refl (λ k j. refl)
          (leave_each_lem e id names now v.sound))

leave_patterns_lem :
    (e : Engine) (id k : ℕ) (j q : Bytes)
    → IsValid e
    → (member (leave_patterns e id) k j ≡ member e k j)
      × (Tables.on (leave_patterns e id).patterns k q
          ≡ (Tables.on e.patterns k q && not (nat_eq id k)))
      × IsValid (leave_patterns e id)
unfolding leave_patterns find get_shard shard_index
leave_patterns_lem e id k j q v =
    let Right : Engine → Type 0 = λ f.
      (member f k j ≡ member e k j)
      × (Tables.on f.patterns k q ≡ (Tables.on e.patterns k q && not (nat_eq id k)))
      × IsValid f in
    let p = (Patterns.remove_all e.patterns id).0 in
    let n = (Patterns.remove_all e.patterns id).1 in
    let gone = Changes.on-remove_all e.patterns id k q v.sound.wild.tables in
    let coherent = remove_all-IsCoherent e.patterns id v.sound.wild in
    let ops = up e.unsubscribe_ops n in
    let subs = down e.subscription_count n in
    let fewer = down e.pattern_subs n in
    if_cases Right (ltb 0 n) _ _
      (λ _. (
        member-reap_if_none e p ops subs fewer k j,
        ap (λ r. Tables.on r k q) (patterns-reap_if_none (with_patterns e p ops subs fewer)) ∙ gone,
        reap_if_none-IsValid e p ops subs fewer v coherent,
      ))
      (λ _. (
        refl,
        gone,
        record {
          sound = record {
            some_shards = v.sound.some_shards;
            fine = v.sound.fine;
            kept = v.sound.kept;
            index = v.sound.index;
            wild = coherent;
          };
          agree = v.agree;
        },
      ))

-- In a valid engine, after `UnsubscribeAll` the subscriber is on no channel and on no pattern, every other subscription is as it
-- was, and the engine is valid again.
pub unsubscribe_all_lem :
    (e : Engine) (id : ℕ) (now : ℤ) (k : ℕ) (j q : Bytes)
    → IsValid e
    → (member (unsubscribe_all e id now) k j ≡ (member e k j && not (nat_eq id k)))
      × (Tables.on (unsubscribe_all e id now).patterns k q
          ≡ (Tables.on e.patterns k q && not (nat_eq id k)))
      × IsValid (unsubscribe_all e id now)
unfolding unsubscribe_all
unsubscribe_all_lem e id now k j q v =
    let left = exact_left_lem e id now v in
    let (kept, wild, valid) = leave_patterns_lem (exact_left e id now) id k j q left.valid in
    (
      kept ∙ left.members k j,
      wild ∙ ap (λ p. Tables.on p k q && not (nat_eq id k)) left.same_patterns,
      valid,
    )
