-- ===== src/Engine/Sweeper/Expired.antt =====
-- Which channels a tick of the sweeper drops, and what it leaves of the others, by their logs.
use gentis.Prelude.{
  ℕ, ℤ, pos, ◌-ℤ◌, ltb_ℤ, ◌<ℤ◌, ◌≡◌, refl, sym, ap, ◌∙◌, subst, ◌↔◌, ◌⊎◌, inl, inr, Bytes, bytes_Eq,
  nat_eq, nat_Eq, List, [], ◌∷◌, Option, none, some, some_inj, if◌then◌else◌, ◌&&◌, ◌||◌, length,
  arith, Bool, true, false, Bool-cases, Option-cases, false≢true,
}
use gentis.Namespace.Settings.{is_positive}
use gentis.Engine.History.{Item, History, sweep, size, tail}
use gentis.Engine.History.Log
use gentis.Engine.History.Append as Append
use gentis.Engine.History.Append.{contents}
use gentis.Engine.History.Segment.{length-segment}
use gentis.Engine.History.Sweep.{sweep_refines}
use gentis.Engine.Channel.{subscribers, subscriber_count}
use gentis.Engine.State.{Engine, Live, find}
use gentis.Engine.Members.Invariant.{IsValid, member, count-length}
use gentis.Engine.Sweeper.{is_reapable, sweep_live, sweep_engine}
use gentis.Engine.Sweeper.Swept.{swept, sweep_engine_lem}

-- The log of a channel, and what of it has not expired.
abbrev pub log_of : Live → Option (List Item)
log_of ch = elim ch.hist [ none ↦ none | some h ↦ some (contents h) ]

abbrev pub left : Live → ℤ → Option (List Item)
left ch now = elim ch.hist [
  | none ↦ none
  | some h ↦
      some (if ltb_ℤ (pos 0) h.ttl then Log.expire (now -ℤ h.ttl) (contents h) else contents h)
]

-- Nobody is there, and the whole log has expired or the channel was idle for longer than it may.
abbrev pub IsOver : Live → ℤ → Type 0
IsOver ch now =
    (subscribers ch.members ≡ [])
    × ((left ch now ≡ some [])
        ⊎ ((pos 0 <ℤ ch.idle_reap) × (ch.idle_reap <ℤ now -ℤ ch.last_active)))

-- The channel without the expired part of its log.
pub record IsAged (ch after : Live) (now : ℤ) : Type 0 where
  pub log : log_of after ≡ left ch now
  pub others : after ≡ record ch { hist = after.hist }
  pub valid : (h : History) → after.hist ≡ some h → Append.IsValid h

abbrev HistoryValid : Live → Type 0
HistoryValid ch = (h : History) → ch.hist ≡ some h → Append.IsValid h

length-nil {ℓ} : {A : Type ℓ} (xs : List A) → (nat_eq (length xs) 0 ≡ true) ↔ (xs ≡ [])
length-nil [] = (λ h. refl, λ h. refl)
length-nil (x ∷ xs) = (λ h. absurd (ground arith), λ h. absurd (ground arith))

nobody_iff :
    (ch : Live) → (nat_eq (subscriber_count ch.members) 0 ≡ true) ↔ (subscribers ch.members ≡ [])
nobody_iff ch =
    let (to, back) = length-nil (subscribers ch.members) in
    (
      λ h. to (ap (λ n. nat_eq n 0) (sym (count-length ch.members)) ∙ h),
      λ h. ap (λ n. nat_eq n 0) (count-length ch.members) ∙ back h,
    )

size_iff : (h : History) → (nat_eq (size h) 0 ≡ true) ↔ (contents h ≡ [])
unfolding size
size_iff h =
    let n = length-segment h.entries (length h.entries) (tail h) h.count in
    let (to, back) = length-nil (contents h) in
    (λ e. to (ap (λ k. nat_eq k 0) n ∙ e), λ e. ap (λ k. nat_eq k 0) (sym n) ∙ back e)

-- The two kinds of channel, without a history and with one.
sweep_live-none : (ch : Live) (now : ℤ) → ch.hist ≡ none → sweep_live ch now ≡ ch
unfolding sweep_live
sweep_live-none ch now e = ground (arith, e)

sweep_live-some :
    (ch : Live) (now : ℤ) (h : History)
    → ch.hist ≡ some h
    → sweep_live ch now ≡ record ch { hist = some (sweep h now) }
unfolding sweep_live
sweep_live-some ch now h e = ground (arith, e)

abbrev still : History → ℤ → List Item
still h now = if ltb_ℤ (pos 0) h.ttl then Log.expire (now -ℤ h.ttl) (contents h) else contents h

left-some :
    (ch : Live) (now : ℤ) (h : History) → ch.hist ≡ some h → left ch now ≡ some (still h now)
left-some ch now h e = rw e refl

left-none : (ch : Live) (now : ℤ) → ch.hist ≡ none → left ch now ≡ none
left-none ch now e = rw e refl

sweep_live-IsAged : (ch : Live) (now : ℤ) → HistoryValid ch → IsAged ch (sweep_live ch now) now
sweep_live-IsAged ch now v = elim (Option-cases ch.hist) [
  | inl e ↦
      subst (λ c. IsAged ch c now) (sym (sweep_live-none ch now e))
        (record { log = rw e refl; others = refl; valid = v })
  | inr (h, e) ↦
      let (same, valid, _) = sweep_refines h now (v h e) in
      subst (λ c. IsAged ch c now) (sym (sweep_live-some ch now h e))
        (record {
          log = ap some same ∙ sym (left-some ch now h e);
          others = refl;
          valid = λ k at. subst Append.IsValid (some_inj at) valid;
        })
]

abbrev is_idle : Live → ℤ → Bool
is_idle ch now = is_positive ch.idle_reap && ltb_ℤ ch.idle_reap (now -ℤ ch.last_active)

idle_iff :
    (ch : Live) (now : ℤ)
    → (is_idle ch now ≡ true) ↔ ((pos 0 <ℤ ch.idle_reap) × (ch.idle_reap <ℤ now -ℤ ch.last_active))
idle_iff ch now = (λ h. (ground arith, ground arith), λ (a, b). ground arith)

nothing_held : {l : List Item} → ¬ (◌≡◌ {A = Option (List Item)} none (some l))
nothing_held e = cc

both_iff :
    (nobody expired idle : Bool) {N X I : Type 0}
    → (nobody ≡ true) ↔ N
    → (expired ≡ true) ↔ X
    → (idle ≡ true) ↔ I
    → ((nobody && (expired || idle)) ≡ true) ↔ (N × (X ⊎ I))
both_iff true true idle n x i = (λ h. (n.0 refl, inl (x.0 refl)), λ h. refl)
both_iff true false true n x i = (λ h. (n.0 refl, inr (i.0 refl)), λ h. refl)
both_iff true false false n x i =
    (λ h. absurd (false≢true h), λ (_, why). elim why [ inl over ↦ x.1 over | inr late ↦ i.1 late ])
both_iff false expired idle n x i = (λ h. absurd (false≢true h), λ (nobody, _). n.1 nobody)

reapable_iff :
    (ch : Live) (now : ℤ)
    → HistoryValid ch
    → (is_reapable (sweep_live ch now) now ≡ true) ↔ IsOver ch now
unfolding is_reapable
reapable_iff ch now v = elim (Option-cases ch.hist) [
  | inl e ↦
      rw (sweep_live-none ch now e, left-none ch now e, e)
        (both_iff _ false _ (nobody_iff ch)
          (λ h. absurd (false≢true h), λ over. absurd (nothing_held over)) (idle_iff ch now))
  | inr (h, e) ↦
      let (same, _, _) = sweep_refines h now (v h e) in
      let (to, back) = size_iff (sweep h now) in
      rw (sweep_live-some ch now h e, left-some ch now h e)
        (both_iff _ (nat_eq (size (sweep h now)) 0) _ (nobody_iff ch)
          (λ z. ap some (sym same ∙ to z), λ over. back (same ∙ some_inj over)) (idle_iff ch now))
]

-- At a channel of a valid engine whose history, if it has one, is valid: a tick of the sweeper drops it
-- exactly if it has no subscriber and either keeps a history of which everything has expired, or was
-- idle for longer than it may. Otherwise the tick takes the expired part off its history, which stays
-- valid, and leaves the rest of the channel alone. Nobody leaves a channel, and the engine stays valid.
pub sweep_engine-expires :
    (e : Engine) (now : ℤ) (id : ℕ) (name : Bytes) (ch : Live)
    → IsValid e
    → find e name ≡ some ch
    → ((h : History) → ch.hist ≡ some h → Append.IsValid h)
    → ((IsOver ch now × (find (sweep_engine e now) name ≡ none))
        ⊎ ((¬ IsOver ch now)
            × ((after : Live) × (find (sweep_engine e now) name ≡ some after)
                × IsAged ch after now)))
      × (member (sweep_engine e now) id name ≡ member e id name)
      × IsValid (sweep_engine e now)
sweep_engine-expires e now id name ch v there hist =
    let (found, members, valid) = sweep_engine_lem e now id name v in
    (outcome (found ∙ ap (swept now) there), members, valid)
  where
    outcome :
        {o : Option Live}
        → o ≡ swept now (some ch)
        → (IsOver ch now × (o ≡ none))
          ⊎ ((¬ IsOver ch now) × ((after : Live) × (o ≡ some after) × IsAged ch after now))
    outcome o = elim (Bool-cases (is_reapable (sweep_live ch now) now)) [
      | inl gone ↦ inl ((reapable_iff ch now hist).0 gone, o ∙ ground (arith, gone))
      | inr stays ↦ inr (
        λ over. false≢true (sym stays ∙ (reapable_iff ch now hist).1 over),
        (sweep_live ch now, o ∙ ground (arith, stays), sweep_live-IsAged ch now hist),
      )
    ]
