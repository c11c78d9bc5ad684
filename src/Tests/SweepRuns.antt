-- ===== src/Tests/SweepRuns.antt =====
-- A tick of the sweeper, its cadence, and a round of the rotation, at concrete inputs.
use gentis.Prelude.{
  ◌⊎◌, none, some_inj, subst, [], ◌∷◌, nat_eq, arith, pos, ◌≡◌, refl, true, false, some,
}
use gentis.Namespace.Settings.{Settings, at_most_once, broadcast, is_positive}
use gentis.Engine.State.{Config, Live, find, channel_settings}
use gentis.Engine.Members.Invariant.{IsValid, member}
use gentis.Engine.Sweeper.{sweep_engine}
use gentis.Engine.History.{History}
use gentis.Engine.History.Append as Append
use gentis.Engine.Sweeper.Expired.{IsOver, IsAged, sweep_engine-expires}
use gentis.Tests.RecoverRuns.{ring-IsValid}
use gentis.Engine.Sweeper.Cadence.{history_sweep_interval, perishable-swept}
use gentis.Engine.Fanout.{Delivery, round_robin_deliver}
use gentis.Engine.Fanout.Rotation.{IsHandedOver, round_robin_deliver-finds}
use gentis.Tests.CallRuns.{small, both, both-IsValid, held, held-found, news}

held-HistoryValid : (h : History) → held.hist ≡ some h → Append.IsValid h
held-HistoryValid h e = subst Append.IsValid (some_inj e) ring-IsValid

sweep_engine-expires_example :
    ((IsOver held (pos 9) × (find (sweep_engine both (pos 9)) news ≡ none))
      ⊎ ((¬ IsOver held (pos 9))
          × ((after : Live) × (find (sweep_engine both (pos 9)) news ≡ some after)
              × IsAged held after (pos 9))))
    × (member (sweep_engine both (pos 9)) 7 news ≡ member both 7 news)
    × IsValid (sweep_engine both (pos 9))
sweep_engine-expires_example =
    sweep_engine-expires both (pos 9) 7 news held both-IsValid held-found held-HistoryValid

abbrev fleeting : Config
fleeting = record small { history_ttl = pos 50 }

abbrev fleeting_settings : Settings
fleeting_settings = record {
  history_size = pos 4;
  history_ttl = pos 50;
  allow_publish = true;
  max_subscribers = pos 0;
  qos = at_most_once;
  redelivery_timeout = pos 0;
  max_redeliveries = pos 0;
  fanout = broadcast;
  allow_wildcard = false;
  idle_reap = pos 0;
}

fleeting-governs : channel_settings fleeting news ≡ some fleeting_settings
unfolding channel_settings
fleeting-governs = refl

perishable-swept_example : is_positive (history_sweep_interval fleeting) ≡ true
perishable-swept_example = perishable-swept fleeting news fleeting_settings fleeting-governs refl

abbrev parcel : Delivery
parcel = record { channel = news; payload = news; offset = 1; epoch = 5; framed = false }

-- 2 alone accepts, and the cursor stands before it.
round_robin_deliver-finds_example :
    IsHandedOver
      (λ id d. nat_eq id 2)
      parcel
      3
      (4 ∷ 3 ∷ 2 ∷ [])
      []
      (round_robin_deliver (λ id d. nat_eq id 2) parcel 3 0 (4 ∷ 3 ∷ 2 ∷ [])).0
    × ((round_robin_deliver (λ id d. nat_eq id 2) parcel 3 0 (4 ∷ 3 ∷ 2 ∷ [])).1 ≡ 1)
round_robin_deliver-finds_example =
    round_robin_deliver-finds (λ id d. nat_eq id 2) parcel 3 0 (4 ∷ 3 ∷ 2 ∷ []) 2 (omega arith) refl
      refl refl
