-- ===== src/Engine/Publish/Moving.antt =====
-- How a publication moves its channel on.
use gentis.Prelude.{
  ℕ, ℤ, ◌<◌, ◌≡◌, refl, sym, ap, ◌∙◌, subst, inl, inr, Bytes, bytes_Eq, bytes_eq_iff, List, some,
  if◌then◌else◌, ◌==◌, length, nat_eq, nat_Eq, arith, if_cases, some_inj, is_some, Option-cases,
}
use gentis.Engine.Subscriptions.Index as Index
use gentis.Engine.Subscriptions.Index.{on}
use gentis.Engine.Patterns.Answers.{subscribers_for-IsCoherent}
use gentis.Engine.State.{Engine, Live, find, get_shard, shard_index, put_shard, put_live}
use gentis.Engine.State.Find.{find-put_shard, length-put_shard, find-put_live}
use gentis.Engine.Members.{is_drained}
use gentis.Engine.Members.Invariant.{IsValid, IsSound, IsFine, member, change-IsSound}
use gentis.Engine.Fanout.{Counts}
use gentis.Engine.Publish.{write_back, wildcard_ids, stamp, count_fan_out}

pub wildcard_ids-keeps :
    (order : List Bytes) (e : Engine) (name : Bytes)
    → IsSound e
    → IsSound (wildcard_ids order e name).0
unfolding wildcard_ids find get_shard shard_index
wildcard_ids-keeps order e name v =
    if_cases (λ (r : Engine × List ℕ). IsSound r.0) (nat_eq e.pattern_subs 0) _ _ (λ _. v)
      (λ _. record {
        some_shards = v.some_shards;
        fine = v.fine;
        kept = v.kept;
        index = v.index;
        wild = subscribers_for-IsCoherent e.pattern_hash order e.patterns name v.wild;
      })

pub wildcard_ids-find :
    (order : List Bytes) (e : Engine) (name j : Bytes)
    → (find (wildcard_ids order e name).0 j ≡ find e j)
      × ((wildcard_ids order e name).0.subscriptions ≡ e.subscriptions)
unfolding wildcard_ids find get_shard shard_index
wildcard_ids-find order e name j = (ground arith, ground arith)

-- The channel keeps its subscribers and its limit, and whether it has a history.
pub stamp-keeps :
    (ch : Live) (payload : Bytes) (now : ℤ) (rr : ℕ)
    → (IsFine ch → IsFine (record (stamp ch payload now).0 { rr = rr }))
      × (is_drained (record (stamp ch payload now).0 { rr = rr }) ≡ is_drained ch)
      × ((stamp ch payload now).0.members ≡ ch.members)
unfolding stamp is_drained
stamp-keeps ch payload now rr = elim (Option-cases ch.hist) [
  | inl e ↦
      (λ f. record { once = rw (e) f.once; within = rw (e) f.within }, ground arith, ground arith)
  | inr (h, e) ↦
      (λ f. record { once = rw (e) f.once; within = rw (e) f.within }, ground arith, ground arith)
]

-- An engine in which one channel has moved on.
pub record Moved (e g : Engine) (name : Bytes) (ch : Live) : Type 0 where
  pub as_many : length g.shards ≡ length e.shards
  pub found : (j : Bytes) → find g j ≡ (if name == j then some ch else find e j)
  pub same_index : g.subscriptions ≡ e.subscriptions
  pub same_patterns : g.patterns ≡ e.patterns
  pub same_count : g.pattern_subs ≡ e.pattern_subs

pub write_back-Moved :
    (e : Engine) (name : Bytes) (ch now : Live)
    → 0 < length e.shards
    → find e name ≡ some ch
    → Moved e (write_back e name now) name now
unfolding write_back put_live put_shard
write_back-Moved e name ch now h there =
    if_cases (λ g. Moved e g name now) (is_some (find e name)) _ _
      (λ _. record {
        as_many = length-put_shard e name _;
        found = λ j. find-put_live e name j now h;
        same_index = refl;
        same_patterns = refl;
        same_count = refl;
      })
      (λ missing. absurd (ground (arith, there, missing)))

counted-find :
    (g : Engine) (name j : Bytes) (c : Counts)
    → 0 < length g.shards
    → find (count_fan_out g name c) j ≡ find g j
unfolding count_fan_out find
counted-find g name j c h =
    find-put_shard g name j _ (find g name) h (λ k. ground (arith, bytes_eq_iff name k))
    ∙ ground (arith, bytes_eq_iff name j)

pub count_fan_out-Moved :
    (e g : Engine) (name : Bytes) (ch : Live) (c : Counts)
    → 0 < length e.shards
    → Moved e g name ch
    → Moved e (count_fan_out g name c) name ch
unfolding count_fan_out put_shard
count_fan_out-Moved e g name ch c h m = record {
  as_many = length-put_shard g name _ ∙ m.as_many;
  found = λ j. counted-find g name j c (subst (λ n. 0 < n) (sym m.as_many) h) ∙ m.found j;
  same_index = m.same_index;
  same_patterns = m.same_patterns;
  same_count = m.same_count;
}

Moved-member :
    (e g : Engine) (name : Bytes) (ch now : Live) (id : ℕ) (j : Bytes)
    → find e name ≡ some ch
    → Moved e g name now
    → now.members ≡ ch.members
    → member g id j ≡ member e id j
Moved-member e g name ch now id j there m members = ground (arith, m.found j, bytes_eq_iff name j)

pub Moved-IsValid :
    (e g : Engine) (name : Bytes) (ch now : Live)
    → IsValid e
    → find e name ≡ some ch
    → Moved e g name now
    → (IsFine ch → IsFine now)
    → is_drained now ≡ is_drained ch
    → now.members ≡ ch.members
    → IsValid g
Moved-IsValid e g name ch now v there m fine drained members = record {
  sound =
      change-IsSound e g name (some now) v.sound m.as_many m.found
        (λ c same. (
          subst IsFine (some_inj same) (fine (v.sound.fine name ch there)),
          λ d none_left.
              v.sound.kept name ch there (sym drained ∙ ap is_drained (some_inj same) ∙ d)
                (sym m.same_count ∙ none_left),
        ))
        (subst Index.IsValid (sym m.same_index) v.sound.index) m.same_patterns m.same_count;
  agree = λ id j.
      ap (λ s. on s id j) m.same_index
      ∙ v.agree id j
      ∙ sym (Moved-member e g name ch now id j there m members);
}
