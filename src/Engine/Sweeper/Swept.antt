-- ===== src/Engine/Sweeper/Swept.antt =====
-- What a tick of the sweeper leaves of each channel.
use gentis.Prelude.{
  ℕ, zero, suc, ℤ, ◌%◌, ◌<◌, ◌≡◌, refl, sym, ap, ◌∙◌, subst, Bytes, bytes_Eq, bytes_eq_iff, nat_Eq,
  List, [], ◌∷◌, Option, none, some, if◌then◌else◌, length, contains, lookup, get_or, arith, true,
  false, Bool-cases, Option-cases, inl, inr,
}
use gentis.Engine.Channel.{subscribers}
use gentis.Engine.State.{
  Engine, Live, Shard, find, get_shard, shard_index, drop_from, empty_shard, down,
}
use gentis.Engine.State.Find.{lookup-drop_from}
use gentis.Engine.Subscriptions.Index as Index
use gentis.Engine.Subscriptions.Index.{on}
use gentis.Engine.Patterns.Coherence.{IsCoherent}
use gentis.Engine.Members.{is_drained}
use gentis.Engine.Members.Invariant.{IsValid, IsFine, holds, member}
use gentis.Engine.Members.Reaping.{nobody_on}
use gentis.Engine.Sweeper.{
  is_reapable, sweep_live, sweep_channels, reap_drained, sweep_shard, sweep_shards, sweep_engine,
}

-- A channel after the reaping, and after the sweep.
abbrev purged : ℤ → Option Live → Option Live
purged now none = none
purged now (some ch) = if is_reapable ch now then none else some ch

abbrev pub swept : ℤ → Option Live → Option Live
swept now none = none
swept now (some ch) = if is_reapable (sweep_live ch now) now then none else some (sweep_live ch now)

abbrev aged : ℤ → Option Live → Option Live
aged now none = none
aged now (some ch) = some (sweep_live ch now)

lookup-sweep_channels :
    (channels : List (Bytes × Live)) (now : ℤ) (j : Bytes)
    → (lookup j (sweep_channels channels now).0 ≡ aged now (lookup j channels))
      × ((ch : Live)
          → lookup j (sweep_channels channels now).0 ≡ some ch
          → is_reapable ch now ≡ true
          → contains (sweep_channels channels now).1 j ≡ true)
unfolding sweep_channels lookup
lookup-sweep_channels [] now j = (refl, λ ch h. absurd (ground arith))
lookup-sweep_channels ((name, ch) ∷ channels) now j =
    let (rest, listed) = lookup-sweep_channels channels now j in
    (ground (arith, rest), λ c h r. ground (arith, listed c, bytes_eq_iff name j))

lookup-reap_drained :
    (names : List Bytes) (now : ℤ) (sh : Shard) (count : ℕ) (j : Bytes)
    → lookup j (reap_drained names now sh count).0.channels
      ≡ (if contains names j then purged now (lookup j sh.channels) else lookup j sh.channels)
unfolding reap_drained
lookup-reap_drained [] now sh count j = refl
lookup-reap_drained (name ∷ names) now sh count j = elim (Option-cases (lookup name sh.channels)) [
  | inl absent ↦ ground (arith, lookup-reap_drained names now sh count j, bytes_eq_iff name j)
  | inr (ch, there) ↦ elim (Bool-cases (is_reapable ch now)) [
    | inl gone ↦ ground (
      arith,
      lookup-reap_drained names now (drop_from sh name) (down count 1) j,
      lookup-drop_from sh name j,
      bytes_eq_iff name j,
    )
    | inr alive ↦ ground (arith, lookup-reap_drained names now sh count j, bytes_eq_iff name j)
  ]
]

purged-aged : (o : Option Live) (now : ℤ) → purged now (aged now o) ≡ swept now o
purged-aged none now = refl
purged-aged (some ch) now = refl

lookup-sweep_shard :
    (sh : Shard) (now : ℤ) (count : ℕ) (j : Bytes)
    → lookup j (sweep_shard sh now count).0.channels ≡ swept now (lookup j sh.channels)
unfolding sweep_shard
lookup-sweep_shard sh now count j =
    let (channels, drained) = sweep_channels sh.channels now in
    let (aged_all, listed) = lookup-sweep_channels sh.channels now j in
    lookup-reap_drained drained now (record sh { channels = channels }) count j
    ∙ whole drained (lookup j channels) listed
    ∙ ap (purged now) aged_all
    ∙ purged-aged (lookup j sh.channels) now
  where
    whole :
        (drained : List Bytes) (o : Option Live)
        → ((ch : Live) → o ≡ some ch → is_reapable ch now ≡ true → contains drained j ≡ true)
        → (if contains drained j then purged now o else o) ≡ purged now o
    whole drained none h = ground arith
    whole drained (some ch) h = elim (Bool-cases (is_reapable ch now)) [
      | inl gone ↦ ground (arith, h ch refl gone)
      | inr alive ↦ ground arith
    ]

lookup-sweep_shards :
    (shards : List Shard) (now : ℤ) (count i : ℕ) (j : Bytes)
    → lookup j (get_or (sweep_shards shards now count).0 i empty_shard).channels
      ≡ swept now (lookup j (get_or shards i empty_shard).channels)
unfolding sweep_shards lookup
lookup-sweep_shards [] now count i j = refl
lookup-sweep_shards (sh ∷ shards) now count zero j = lookup-sweep_shard sh now count j
lookup-sweep_shards (sh ∷ shards) now count (suc i) j =
    lookup-sweep_shards shards now (sweep_shard sh now count).1 i j

length-sweep_shards :
    (shards : List Shard) (now : ℤ) (count : ℕ)
    → length (sweep_shards shards now count).0 ≡ length shards
unfolding sweep_shards
length-sweep_shards [] now count = refl
length-sweep_shards (sh ∷ shards) now count =
    ap suc (length-sweep_shards shards now (sweep_shard sh now count).1)

pub find-sweep :
    (e : Engine) (now : ℤ) (j : Bytes) → find (sweep_engine e now) j ≡ swept now (find e j)
unfolding sweep_engine find get_shard shard_index
find-sweep e now j =
    rw (length-sweep_shards e.shards now e.channel_count)
      (lookup-sweep_shards e.shards now e.channel_count (e.hash j % length e.shards) j)

swept-some :
    (o : Option Live) (now : ℤ) (ch : Live)
    → swept now o ≡ some ch
    → (was : Live) × (o ≡ some was) × (sweep_live was now ≡ ch)
swept-some none now ch e = absurd (ground arith)
swept-some (some c) now ch e =
    (c, refl, ground (arith, Bool-cases (is_reapable (sweep_live c now) now)))

sweep_live-keeps :
    (ch : Live) (now : ℤ)
    → (IsFine ch → IsFine (sweep_live ch now))
      × (is_drained (sweep_live ch now) ≡ is_drained ch)
      × ((sweep_live ch now).members ≡ ch.members)
unfolding sweep_live is_drained
sweep_live-keeps ch now = elim (Option-cases ch.hist) [
  | inl e ↦
      (λ f. record { once = rw (e) f.once; within = rw (e) f.within }, ground arith, ground arith)
  | inr (h, e) ↦
      (λ f. record { once = rw (e) f.once; within = rw (e) f.within }, ground arith, ground arith)
]

served :
    (ch : Live) (now : ℤ) (id : ℕ)
    → is_reapable ch now ≡ true
    → contains (subscribers ch.members) id ≡ false
unfolding is_reapable
served ch now id h = nobody_on ch.members id (ground arith)

holds-swept : (o : Option Live) (now : ℤ) (id : ℕ) → holds (swept now o) id ≡ holds o id
holds-swept none now id = refl
holds-swept (some ch) now id = ground (
  arith,
  Bool-cases (is_reapable (sweep_live ch now) now),
  (sweep_live-keeps ch now).2,
  served (sweep_live ch now) now id,
)

pub member-sweep :
    (e : Engine) (now : ℤ) (id : ℕ) (j : Bytes) → member (sweep_engine e now) id j ≡ member e id j
member-sweep e now id j = ap (λ o. holds o id) (find-sweep e now j) ∙ holds-swept (find e j) now id

same-sweep :
    (e : Engine) (now : ℤ)
    → ((sweep_engine e now).subscriptions ≡ e.subscriptions)
      × ((sweep_engine e now).patterns ≡ e.patterns)
      × ((sweep_engine e now).pattern_subs ≡ e.pattern_subs)
      × (length (sweep_engine e now).shards ≡ length e.shards)
unfolding sweep_engine
same-sweep e now = (refl, refl, refl, length-sweep_shards e.shards now e.channel_count)

-- A tick of the sweeper on a valid engine drops a channel exactly if, after its history gave up what
-- had expired, it has no subscriber and either keeps an empty history or was idle for longer than it
-- may; each other channel loses only the expired part of its history. The engine stays valid and nobody leaves a channel.
pub sweep_engine_lem :
    (e : Engine) (now : ℤ) (id : ℕ) (name : Bytes)
    → IsValid e
    → (find (sweep_engine e now) name ≡ swept now (find e name))
      × (member (sweep_engine e now) id name ≡ member e id name)
      × IsValid (sweep_engine e now)
sweep_engine_lem e now id name v =
    let (subs, patterns, count, shards) = same-sweep e now in
    let back = λ (j : Bytes) (ch : Live) (there : find (sweep_engine e now) j ≡ some ch).
      swept-some (find e j) now ch (sym (find-sweep e now j) ∙ there) in
    (
      find-sweep e now name,
      member-sweep e now id name,
      record {
        sound = record {
          some_shards = subst (λ k. 0 < k) (sym shards) v.sound.some_shards;
          fine = λ j ch there.
              let (was, before, same) = back j ch there in
              subst IsFine same ((sweep_live-keeps was now).0 (v.sound.fine j was before));
          kept = λ j ch there drained none_left.
              let (was, before, same) = back j ch there in
              v.sound.kept j was before
                (sym (sweep_live-keeps was now).1 ∙ ap is_drained same ∙ drained)
                (sym count ∙ none_left);
          index = subst Index.IsValid (sym subs) v.sound.index;
          wild = subst IsCoherent (sym patterns) v.sound.wild;
        };
        agree = λ i j. ap (λ s. on s i j) subs ∙ v.agree i j ∙ sym (member-sweep e now i j);
      },
    )
