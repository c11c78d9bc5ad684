-- ===== src/Engine/Publish/Kept.antt =====
-- A publication keeps the engine valid.
use gentis.Prelude.{
  ℕ, ℤ, ◌<◌, ◌≡◌, ◌≢◌, refl, sym, ap, ◌∙◌, subst, Bytes, bytes_Eq, bytes_eq_iff, List, Option, none,
  some, Bool, false, ◌&&◌, length, nat_eq, nat_eq_iff, nat_Eq, arith, if_cases, option_cases,
  some_inj, is_some, Option-cases,
}
use gentis.Engine.Subscriptions.Index as Index
use gentis.Engine.Subscriptions.Index.{on}
use gentis.Engine.Patterns.Coherence.{IsCoherent}
use gentis.Engine.State.{
  Engine, Live, find, get_shard, put_shard, create_channel, new_live, channel_settings, up,
}
use gentis.Engine.State.Find.{find-put_shard, length-put_shard, find-create_channel}
use gentis.Namespace.Settings.{Settings}
use gentis.Engine.Members.Joining.{new_live-IsFine, nobody}
use gentis.Engine.Members.Invariant.{IsValid, IsFine, holds, change-IsSound}
use gentis.Engine.Fanout.{Delivery, plus, deliver_patterns}
use gentis.Engine.Publish.{
  PublishResult, materialize_channel, write_back, wildcard_ids, target, stamp, recipients, fan_out,
  publish_to, publish,
}
use gentis.Engine.Publish.Moving.{
  wildcard_ids-keeps, wildcard_ids-find, stamp-keeps, write_back-Moved, count_fan_out-Moved,
  Moved-IsValid,
}

-- An engine in which every name stands for what it stood for.
same_names-IsValid :
    (e g : Engine)
    → IsValid e
    → length g.shards ≡ length e.shards
    → ((j : Bytes) → find g j ≡ find e j)
    → g.subscriptions ≡ e.subscriptions
    → IsCoherent g.patterns
    → g.pattern_subs ≡ e.pattern_subs
    → IsValid g
same_names-IsValid e g v n found index wild count = record {
  sound = record {
    some_shards = subst (λ k. 0 < k) (sym n) v.sound.some_shards;
    fine = λ j ch there. v.sound.fine j ch (sym (found j) ∙ there);
    kept = λ j ch there d none_left.
        v.sound.kept j ch (sym (found j) ∙ there) d (sym count ∙ none_left);
    index = subst Index.IsValid (sym index) v.sound.index;
    wild = wild;
  };
  agree = λ id j. ap (λ s. on s id j) index ∙ v.agree id j ∙ ap (λ o. holds o id) (sym (found j));
}

pub asked-IsValid :
    (order : List Bytes) (e : Engine) (name : Bytes)
    → IsValid e
    → IsValid (wildcard_ids order e name).0
asked-IsValid order e name v = record {
  sound = wildcard_ids-keeps order e name v.sound;
  agree = λ id j.
      ap (λ s. on s id j) (wildcard_ids-find order e name j).1
      ∙ v.agree id j
      ∙ ap (λ o. holds o id) (sym (wildcard_ids-find order e name j).0);
}

-- A channel that `Publish` is about to write to is one of the engine's.
record IsReady (name : Bytes) (r : Engine × Option Live) : Type 0 where
  valid : IsValid r.0
  there : (ch : Live) → r.1 ≡ some ch → find r.0 name ≡ some ch

nothing_held : (ch : Live) → ¬ (◌≡◌ {A = Option Live} none (some ch))
nothing_held ch e = cc

created-IsReady :
    (e : Engine) (name : Bytes) (s : Settings) (epoch : ℕ) (now : ℤ)
    → IsValid e
    → find e name ≡ none
    → e.pattern_subs ≢ 0
    → IsReady name ((create_channel e name s epoch now).0, some (new_live s epoch now))
unfolding create_channel
created-IsReady e name s epoch now v absent busy =
    let found = λ (j : Bytes). find-create_channel e name j s epoch now v.sound.some_shards in
    record {
      valid = record {
        sound =
            change-IsSound e _ name (some (new_live s epoch now)) v.sound
              (length-put_shard e name _) found
              (λ c same. (subst IsFine (some_inj same) (new_live-IsFine s epoch now), λ _. busy))
              v.sound.index refl refl;
        agree = λ id j.
            v.agree id j ∙ ground (arith, found j, nobody s epoch now id, bytes_eq_iff name j);
      };
      there = λ ch same. found name ∙ ground (arith, bytes_eq_iff name name, same);
    }

made-IsReady :
    (e : Engine) (name : Bytes) (epoch : ℕ) (now : ℤ)
    → IsValid e
    → find e name ≡ none
    → e.pattern_subs ≢ 0
    → IsReady name (materialize_channel e name epoch now)
unfolding materialize_channel create_channel
made-IsReady e name epoch now v absent busy =
    option_cases (IsReady name) (channel_settings e.config name) _ _
      (λ _. record { valid = v; there = λ ch same. absurd (nothing_held ch same) })
      (λ s _.
        option_cases (IsReady name) (find e name) _ _
          (λ _. created-IsReady e name s epoch now v absent busy)
          (λ ch there. record { valid = v; there = λ c same. there ∙ same }))

made-count :
    (e : Engine) (name : Bytes) (epoch : ℕ) (now : ℤ)
    → (materialize_channel e name epoch now).0.pattern_subs ≡ e.pattern_subs
unfolding materialize_channel create_channel put_shard
made-count e name epoch now =
    ground (arith, Option-cases (channel_settings e.config name), Option-cases (find e name))

wildcard_ids-busy :
    (order : List Bytes) (e : Engine) (name : Bytes)
    → nat_eq (length (wildcard_ids order e name).1) 0 ≡ false
    → (wildcard_ids order e name).0.pattern_subs ≢ 0
unfolding wildcard_ids
wildcard_ids-busy order e name some_ids e0 = ground (arith, nat_eq_iff e.pattern_subs 0)

target-IsReady :
    (order : List Bytes) (e : Engine) (name : Bytes) (epoch : ℕ) (now : ℤ)
    → IsValid e
    → IsReady name (target order e name epoch now)
unfolding target
target-IsReady order e name epoch now v =
    let asked = (wildcard_ids order e name).0 in
    let valid = asked-IsValid order e name v in
    let made = materialize_channel asked name epoch now in
    option_cases (IsReady name) (find e name) _ _
      (λ absent.
        if_cases (IsReady name) (nat_eq (length (wildcard_ids order e name).1) 0) _ _
          (λ _. record { valid = valid; there = λ ch same. absurd (nothing_held ch same) })
          (λ some_ids.
            let busy = wildcard_ids-busy order e name some_ids in
            if_cases (IsReady name) (is_some made.1 && nat_eq made.0.pattern_subs 0) _ _
              (λ gone. absurd (
                ground (
                  arith,
                  gone,
                  made-count asked name epoch now,
                  nat_eq_iff made.0.pattern_subs 0,
                  busy,
                )))
              (λ _.
                made-IsReady asked name epoch now valid
                  ((wildcard_ids-find order e name name).0 ∙ absent) busy)))
      (λ ch there. record { valid = v; there = λ c same. there ∙ same })

-- The engine that counts a publication.
abbrev pub noted : Engine → Bytes → Bytes → Engine
noted e name payload =
    let sh = get_shard e name in
    put_shard e name (record sh {
      publish_count = up sh.publish_count 1;
      message_bytes = up sh.message_bytes (length payload);
    })

pub noted-IsValid : (e : Engine) (name payload : Bytes) → IsValid e → IsValid (noted e name payload)
unfolding find put_shard
noted-IsValid e name payload v =
    same_names-IsValid e (noted e name payload) v (length-put_shard e name _)
      (λ j.
        find-put_shard e name j _ (find e name) v.sound.some_shards
          (λ k. ground (arith, bytes_eq_iff name k))
        ∙ ground (arith, bytes_eq_iff name j))
      refl v.sound.wild refl

module _ (deliver : ℕ → Delivery → Bool) (exclude : ℕ) (order : List Bytes) where
  publish_to-IsValid :
      (e : Engine) (name : Bytes) (ch : Live) (payload : Bytes) (now : ℤ)
      → IsValid e
      → find e name ≡ some ch
      → IsValid (publish_to deliver exclude order e name ch payload now).0
  unfolding publish_to
  publish_to-IsValid e name ch payload now v there =
      let asked = (wildcard_ids order e name).0 in
      let valid = asked-IsValid order e name v in
      let held = (wildcard_ids-find order e name name).0 ∙ there in
      let Valid : Engine × Option (PublishResult × List ℕ) → Type 0 =
        λ (r : Engine × Option (PublishResult × List ℕ)). IsValid r.0 in
      let d : Delivery = record {
        channel = name;
        payload = payload;
        offset = (stamp ch payload now).1;
        epoch = ch.epoch;
        framed = false;
      } in
      let fan =
        fan_out deliver exclude e.config d (stamp ch payload now).0 (wildcard_ids order e name).1 in
      let after : Live = record (stamp ch payload now).0 { rr = fan.2 } in
      let (fine, drained, members) = stamp-keeps ch payload now fan.2 in
      let moved = write_back-Moved asked name ch after valid.sound.some_shards held in
      option_cases Valid fan.0 _ _
        (λ _.
          Moved-IsValid asked (write_back asked name after) name ch after valid held moved fine
            drained members)
        (λ exact _.
          Moved-IsValid asked _ name ch after valid held
            (count_fan_out-Moved asked (write_back asked name after) name after
              (plus exact (
                deliver_patterns deliver fan.1 exclude (recipients (stamp ch payload now).0)
                  (wildcard_ids order e name).1))
              valid.sound.some_shards moved)
            fine drained members)

  -- After `Publish` a valid engine is valid again, whether the channel was there, was made, or not.
  pub publish-IsValid :
      (e : Engine) (name payload : Bytes) (epoch : ℕ) (now : ℤ)
      → IsValid e
      → IsValid (publish deliver exclude order e name payload epoch now).0
  unfolding publish
  publish-IsValid e name payload epoch now v =
      let ready =
        target-IsReady order (noted e name payload) name epoch now
          (noted-IsValid e name payload v) in
      option_cases (λ (r : Engine × Option (PublishResult × List ℕ)). IsValid r.0)
        (target order (noted e name payload) name epoch now).1 _ _ (λ _. ready.valid)
        (λ ch found.
          publish_to-IsValid (target order (noted e name payload) name epoch now).0 name ch payload
            now ready.valid (ready.there ch found))
