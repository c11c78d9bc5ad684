-- ===== src/Qos/Consumer.antt =====
-- `Consumer` (internal/qos/consumer.go): the windows of one session by channel, with the flags that
-- the delivery path and the sweeper read. The pump and the tick, which drive `Window`, are left out.
pub mod Laws
pub mod Runs
use gentis.Prelude.{
  ℕ, ℤ, Bytes, bytes_Eq, List, [], Option, none, some, Bool, true, false, not, ◌&&◌, if◌then◌else◌,
  nat_eq, length, lookup, insert, delete, is_some,
}
use gentis.Qos.Window.{Window, Verdict, admitted, full, dup, refused, admit}

-- `in_sweeper` tells if the tick set of the sweeper holds the consumer, `sweeper_stopped` if that
-- sweeper was stopped (internal/qos/sweeper.go); other consumers may share it.
pub record Consumer : Type 0 where
  pub windows : List (Bytes × Window)
  pub stopped : Bool
  pub active : Bool
  pub has_sweeper : Bool
  pub sweeper_stopped : Bool
  pub in_sweeper : Bool

-- `NewConsumer`
unfoldable pub new_consumer : Bool → Bool → Consumer
new_consumer has_sweeper sweeper_stopped = record {
  windows = [];
  stopped = false;
  active = false;
  has_sweeper = has_sweeper;
  sweeper_stopped = sweeper_stopped;
  in_sweeper = false;
}

-- `Sweeper.add`, `Sweeper.remove` and `Sweeper.Stop`, as the consumer sees them
unfoldable pub add : Consumer → Consumer
add c = if c.sweeper_stopped then c else record c { in_sweeper = true }

unfoldable pub remove : Consumer → Consumer
remove c = record c { in_sweeper = false }

unfoldable pub stop_sweeper : Consumer → Consumer
stop_sweeper c = record c { sweeper_stopped = true }

-- `Subscribe`
unfoldable pub subscribe : Consumer → Bytes → Window → Consumer × Bool
unfolding add
subscribe c channel w =
    if is_some (lookup channel c.windows)
    then (c, false)
    else let windows = insert channel w c.windows in
      let joins = not c.stopped && (nat_eq (length windows) 1 && c.has_sweeper) in
      let put = record c { windows = windows } in
      (record (if joins then add put else put) { active = true }, true)

-- `Unsubscribe`
unfoldable pub unsubscribe : Consumer → Bytes → Consumer
unfolding remove
unsubscribe c channel =
    let windows = delete channel c.windows in
    let left = record c { windows = windows; active = false } in
    if nat_eq (length windows) 0
    then (if c.has_sweeper then remove left else left)
    else record c { windows = windows }

-- `Stop`
unfoldable pub stop : Consumer → Consumer
unfolding remove
stop c =
    let stopped = record c { stopped = true } in
    if c.stopped then c else if c.has_sweeper then remove stopped else stopped

-- `window`
unfoldable pub window : Consumer → Bytes → Option Window
window c channel = if c.active then lookup channel c.windows else none

unfoldable pub is_refused : Verdict → Bool
is_refused refused = true
is_refused _ = false

-- `Deliver`, where `sent` is what the transport returns if it is called.
unfoldable pub deliver : Consumer → Bytes → ℕ → ℕ → ℕ → ℤ → Bool → Consumer × Bool
unfolding is_refused
deliver c channel offset epoch size now sent = elim (window c channel) [
  | none ↦ (c, sent)
  | some w ↦
      let (w', v) = admit w offset epoch size now sent in
      (record c { windows = insert channel w' c.windows }, not (is_refused v))
]
