-- ===== src/Qos/Consumer/Runs.antt =====
-- A consumer over any sequence of its calls (internal/qos/consumer.go, internal/qos/sweeper.go).
use gentis.Prelude.{
  ℕ, ℤ, ◌<◌, ◌≡◌, Bytes, bytes_Eq, List, [], ◌∷◌, Bool, false, not, ◌&&◌, arith, u64_mod,
  Option-cases,
}
use gentis.Qos.Window.{Window}
use gentis.Qos.Window.Invariant.{admit-IsValid}
use gentis.Qos.Window.Invariant as Invariant
use gentis.Qos.Consumer.{
  Consumer, add, remove, subscribe, unsubscribe, stop, stop_sweeper, window, deliver,
}
use gentis.Qos.Consumer.Laws.{
  IsValid, subscribe-IsValid, unsubscribe-IsValid, stop-IsValid, stop_sweeper-IsValid,
  deliver-IsValid,
}

-- The calls of a session on its consumer, and the stop of the sweeper.
pub data Call : Type 0 where
  subscribes : Bytes → Window → Call
  unsubscribes : Bytes → Call
  delivers : Bytes → ℕ → ℕ → ℕ → ℤ → Bool → Call
  stops : Call
  sweeper_stops : Call

unfoldable pub run : Consumer → List Call → Consumer
run c [] = c
run c (subscribes channel w ∷ cs) = run (subscribe c channel w).0 cs
run c (unsubscribes channel ∷ cs) = run (unsubscribe c channel) cs
run c (delivers channel offset epoch size now sent ∷ cs) =
    run (deliver c channel offset epoch size now sent).0 cs
run c (stops ∷ cs) = run (stop c) cs
run c (sweeper_stops ∷ cs) = run (stop_sweeper c) cs

-- The windows handed over are valid, and the offsets are words.
abbrev pub Good : List Call → Type 0
Good [] = Unit
Good (subscribes channel w ∷ cs) = Invariant.IsValid w × Good cs
Good (unsubscribes channel ∷ cs) = Good cs
Good (delivers channel offset epoch size now sent ∷ cs) = (offset < u64_mod) × Good cs
Good (stops ∷ cs) = Good cs
Good (sweeper_stops ∷ cs) = Good cs

run_keeps : (c : Consumer) (cs : List Call) → Good cs → IsValid c → IsValid (run c cs)
unfolding run
run_keeps c [] g v = v
run_keeps c (subscribes channel w ∷ cs) g v =
    run_keeps (subscribe c channel w).0 cs g.1 (subscribe-IsValid c channel w g.0 v)
run_keeps c (unsubscribes channel ∷ cs) g v =
    run_keeps (unsubscribe c channel) cs g (unsubscribe-IsValid c channel v)
run_keeps c (delivers channel offset epoch size now sent ∷ cs) g v =
    run_keeps (deliver c channel offset epoch size now sent).0 cs g.1
      (deliver-IsValid c channel offset epoch size now sent g.0 v)
run_keeps c (stops ∷ cs) g v = run_keeps (stop c) cs g (stop-IsValid c v)
run_keeps c (sweeper_stops ∷ cs) g v = run_keeps (stop_sweeper c) cs g (stop_sweeper-IsValid c v)

-- A stopped sweeper stays stopped, and nobody joins it any more.
record IsFenced (c d : Consumer) : Type 0 where
  stays : (c.sweeper_stopped && not d.sweeper_stopped) ≡ false
  shut : (c.sweeper_stopped && (d.in_sweeper && not c.in_sweeper)) ≡ false

IsFenced-trans : (c d e : Consumer) → IsFenced c d → IsFenced d e → IsFenced c e
IsFenced-trans c d e f g = record {
  stays = ground (arith, f.stays, g.stays);
  shut = ground (arith, f.stays, f.shut, g.shut);
}

subscribe-IsFenced :
    (c : Consumer) (channel : Bytes) (w : Window) → IsFenced c (subscribe c channel w).0
unfolding subscribe add
subscribe-IsFenced c channel w = record { stays = ground arith; shut = ground arith }

unsubscribe-IsFenced : (c : Consumer) (channel : Bytes) → IsFenced c (unsubscribe c channel)
unfolding unsubscribe remove
unsubscribe-IsFenced c channel = record { stays = ground arith; shut = ground arith }

deliver-IsFenced :
    (c : Consumer) (channel : Bytes) (offset epoch size : ℕ) (now : ℤ) (sent : Bool)
    → IsFenced c (deliver c channel offset epoch size now sent).0
unfolding deliver
deliver-IsFenced c channel offset epoch size now sent = record {
  stays = ground (arith, Option-cases (window c channel));
  shut = ground (arith, Option-cases (window c channel));
}

stop-IsFenced : (c : Consumer) → IsFenced c (stop c)
unfolding stop remove
stop-IsFenced c = record { stays = ground arith; shut = ground arith }

stop_sweeper-IsFenced : (c : Consumer) → IsFenced c (stop_sweeper c)
unfolding stop_sweeper
stop_sweeper-IsFenced c = record { stays = ground arith; shut = ground arith }

run-IsFenced : (c : Consumer) (cs : List Call) → IsFenced c (run c cs)
unfolding run
run-IsFenced c [] = record { stays = ground arith; shut = ground arith }
run-IsFenced c (subscribes channel w ∷ cs) =
    IsFenced-trans c _ _ (subscribe-IsFenced c channel w)
      (run-IsFenced (subscribe c channel w).0 cs)
run-IsFenced c (unsubscribes channel ∷ cs) =
    IsFenced-trans c _ _ (unsubscribe-IsFenced c channel) (run-IsFenced (unsubscribe c channel) cs)
run-IsFenced c (delivers channel offset epoch size now sent ∷ cs) =
    IsFenced-trans c _ _ (deliver-IsFenced c channel offset epoch size now sent)
      (run-IsFenced (deliver c channel offset epoch size now sent).0 cs)
run-IsFenced c (stops ∷ cs) = IsFenced-trans c _ _ (stop-IsFenced c) (run-IsFenced (stop c) cs)
run-IsFenced c (sweeper_stops ∷ cs) =
    IsFenced-trans c _ _ (stop_sweeper-IsFenced c) (run-IsFenced (stop_sweeper c) cs)

-- Whatever sequence of subscribes, unsubscribes, deliveries and stops, of the consumer or its sweeper,
-- runs on a valid consumer, with valid windows and 64-bit offsets: the active flag is set exactly if
-- there is a window, the sweeper ticks the consumer exactly if there is a sweeper that was not stopped,
-- the consumer runs, and it has a window, and each window is valid. A consumer that is not in the set of
-- a stopped sweeper does not join it.
pub run-IsValid :
    (c : Consumer) (cs : List Call)
    → Good cs
    → IsValid c
    → IsValid (run c cs)
      × ((c.sweeper_stopped && ((run c cs).in_sweeper && not c.in_sweeper)) ≡ false)
run-IsValid c cs g v = (run_keeps c cs g v, (run-IsFenced c cs).shut)
