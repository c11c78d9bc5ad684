-- ===== src/Engine/Members/Invariant.antt =====
-- What holds of the engine between two calls: the index of subscriptions and the channels say the
-- same, no subscriber is listed twice, no limit is passed, and nothing that serves nobody is left.
use gentis.Prelude.{
  ℕ, zero, suc, pos, ◌<◌, ◌≡◌, ◌≢◌, refl, sym, ap, ◌∙◌, subst, Bytes, bytes_Eq, nat_Eq, Option,
  none, some, if◌then◌else◌, ◌==◌, Bool, false, length, contains, Distinct, arith, true, Bool-cases,
  inl, inr, ◌≤ℤ◌, replicate, length-replicate, get_or, lookup,
}
use gentis.Namespace.Settings.{is_positive}
use gentis.Engine.Channel.{Channel, subscribers, subscriber_count}
use gentis.Engine.Subscriptions.Index as Index
use gentis.Engine.Subscriptions.Index.{on}
use gentis.Engine.Subscriptions.Reach.{new_subscriptions-IsValid, on-new_subscriptions}
use gentis.Engine.Patterns.Coherence.{IsCoherent, new_registry-IsCoherent}
use gentis.Engine.State.{
  Engine, Live, Config, find, get_shard, shard_index, new_engine, empty_shard, has_registry,
}
use gentis.Engine.Members.{is_drained}

abbrev pub holds : Option Live → ℕ → Bool
holds none id = false
holds (some ch) id = contains (subscribers ch.members) id

-- Whether a subscriber is on a channel.
abbrev pub member : Engine → ℕ → Bytes → Bool
member e id name = holds (find e name) id

pub record IsFine (ch : Live) : Type 0 where
  pub once : Distinct (subscribers ch.members)
  pub within : is_positive ch.max_subs ≡ true → pos (length (subscribers ch.members)) ≤ℤ ch.max_subs

-- What the channels and the patterns promise, the index aside.
pub record IsSound (e : Engine) : Type 0 where
  pub some_shards : 0 < length e.shards
  pub fine : (name : Bytes) (ch : Live) → find e name ≡ some ch → IsFine ch
  pub kept :
      (name : Bytes) (ch : Live) → find e name ≡ some ch → is_drained ch ≡ true → e.pattern_subs ≢ 0
  pub index : Index.IsValid e.subscriptions
  pub wild : IsCoherent e.patterns

pub record IsValid (e : Engine) : Type 0 where
  pub sound : IsSound e
  pub agree : (id : ℕ) (name : Bytes) → on e.subscriptions id name ≡ member e id name

-- A call that changes what one name stands for.
pub change-IsSound :
    (e f : Engine) (name : Bytes) (o : Option Live)
    → IsSound e
    → length f.shards ≡ length e.shards
    → ((j : Bytes) → find f j ≡ (if name == j then o else find e j))
    → ((ch : Live) → o ≡ some ch → IsFine ch × (is_drained ch ≡ true → f.pattern_subs ≢ 0))
    → Index.IsValid f.subscriptions
    → f.patterns ≡ e.patterns
    → f.pattern_subs ≡ e.pattern_subs
    → IsSound f
change-IsSound e f name o v n found ok index same_patterns same_subs = record {
  some_shards = subst (λ k. 0 < k) (sym n) v.some_shards;
  fine = λ j ch h. elim (Bool-cases (name == j)) [
    | inl here ↦ (ok ch (ground (arith, found j))).0
    | inr other ↦ v.fine j ch (ground (arith, found j))
  ];
  kept = λ j ch h d. elim (Bool-cases (name == j)) [
    | inl here ↦ (ok ch (ground (arith, found j))).1 d
    | inr other ↦ subst (λ k. k ≢ 0) (sym same_subs) (v.kept j ch (ground (arith, found j)) d)
  ];
  index = index;
  wild = subst IsCoherent (sym same_patterns) v.wild;
}

-- A call that changes no channel and no subscription, but counters.
pub same-IsSound :
    (e f : Engine)
    → IsSound e
    → f.shards ≡ e.shards
    → f.hash ≡ e.hash
    → f.subscriptions ≡ e.subscriptions
    → f.patterns ≡ e.patterns
    → f.pattern_subs ≡ e.pattern_subs
    → IsSound f
unfolding find get_shard shard_index
same-IsSound e f v s h i p n = record {
  some_shards = rw (s) v.some_shards;
  fine = rw (s, h) v.fine;
  kept = rw (s, h, n) v.kept;
  index = rw (i) v.index;
  wild = rw (p) v.wild;
}

pub count-length : (c : Channel) → subscriber_count c ≡ length (subscribers c)
unfolding subscriber_count subscribers
count-length c = ground arith

nothing-there :
    (n i : ℕ) (name : Bytes)
    → lookup name (get_or (replicate n empty_shard) i empty_shard).channels ≡ none
unfolding lookup
nothing-there zero i name = refl
nothing-there (suc n) zero name = refl
nothing-there (suc n) (suc i) name = nothing-there n i name

pub new_engine-IsValid :
    (cfg : Config) (hash pattern_hash : Bytes → ℕ)
    → 0 < cfg.num_shards
    → IsValid (new_engine cfg hash pattern_hash)
unfolding new_engine find get_shard
new_engine-IsValid cfg hash pattern_hash h =
    let e = new_engine cfg hash pattern_hash in
    let absent : (name : Bytes) → find e name ≡ none =
      λ name. nothing-there cfg.num_shards _ name in
    record {
      sound = record {
        some_shards = rw (length-replicate cfg.num_shards empty_shard) h;
        fine = λ name ch f. absurd (ground (arith, absent name));
        kept = λ name ch f. absurd (ground (arith, absent name));
        index = new_subscriptions-IsValid;
        wild = new_registry-IsCoherent (has_registry cfg);
      };
      agree = λ id name. on-new_subscriptions id name ∙ sym (ap (λ o. holds o id) (absent name));
    }
