-- ===== src/Tests/ConsumerRuns.antt =====
-- A consumer at concrete inputs (internal/qos/consumer.go).
use gentis.Prelude.{◌&&◌, ◌≡◌, not, false, pos, bytes_Eq, codes, List, [], ◌∷◌, true, arith}
use gentis.Qos.Window.{new_window}
use gentis.Qos.Window.Invariant.{new_window-IsValid}
use gentis.Qos.Consumer.{Consumer, new_consumer}
use gentis.Qos.Consumer.Laws.{IsValid, new_consumer-IsValid}
use gentis.Qos.Consumer.Runs.{
  Call, subscribes, unsubscribes, delivers, stops, sweeper_stops, run, run-IsValid,
}

abbrev calls : List Call
calls =
    subscribes (codes "a") (new_window 4 (pos 0) (pos 9) (pos 3))
    ∷ delivers (codes "a") 1 7 5 (pos 1) true
    ∷ unsubscribes (codes "b")
    ∷ sweeper_stops
    ∷ stops
    ∷ []

abbrev begun : Consumer
begun = new_consumer true false

run-IsValid_example :
    IsValid (run begun calls)
    × ((begun.sweeper_stopped && ((run begun calls).in_sweeper && not begun.in_sweeper)) ≡ false)
run-IsValid_example =
    run-IsValid begun calls (new_window-IsValid 4 (pos 0) (pos 9) (pos 3), (omega arith, tt))
      (new_consumer-IsValid true false)
