-- ===== src/Qos/Consumer/Laws.antt =====
-- The flags say what the windows are, and the windows stay valid.
use gentis.Prelude.{
  ℕ, ℤ, ◌<◌, ◌≡◌, refl, Bytes, bytes_Eq, List, [], ◌∷◌, none, some, Bool, true, false, not, ◌&&◌,
  if◌then◌else◌, nat_eq, length, is_empty, lookup, insert, delete, is_some, lookup-insert,
  lookup-delete, length-insert, arith, u64_mod, ◌==◌, Option-cases, inl, inr, lookup-delete_inv,
  sym, ◌∙◌, lookup-insert_inv,
}
use gentis.Qos.Window.{Window, admit}
use gentis.Qos.Window.Invariant.{admit-IsValid}
use gentis.Qos.Window.Invariant as Invariant
use gentis.Qos.Consumer.{
  Consumer, new_consumer, add, remove, subscribe, unsubscribe, stop, stop_sweeper, window, deliver,
}

-- The sweeper's loop runs and meets the consumer.
abbrev pub is_ticked : Consumer → Bool
is_ticked c = c.in_sweeper && not c.sweeper_stopped

-- The delivery path sees a window exactly if there is one; the sweeper ticks the consumer exactly if
-- there is a sweeper that was not stopped, the consumer runs, and it has a window; and each window is valid.
pub record IsValid (c : Consumer) : Type 0 where
  pub active : c.active ≡ not (is_empty c.windows)
  pub ticked :
      is_ticked c
      ≡ (c.has_sweeper && (not c.sweeper_stopped && (not c.stopped && not (is_empty c.windows))))
  pub sound :
      (channel : Bytes) (w : Window) → lookup channel c.windows ≡ some w → Invariant.IsValid w

empty-length : (m : List (Bytes × Window)) → nat_eq (length m) 0 ≡ is_empty m
empty-length [] = refl
empty-length (x ∷ m) = ground arith

empty-lookup : (m : List (Bytes × Window)) (j : Bytes) → is_empty m ≡ true → lookup j m ≡ none
unfolding lookup
empty-lookup [] j e = refl
empty-lookup (x ∷ m) j e = cc

empty-insert :
    (j : Bytes) (w : Window) (m : List (Bytes × Window)) → is_empty (insert j w m) ≡ false
unfolding insert
empty-insert j w [] = refl
empty-insert j w ((i, v) ∷ m) = ground arith

empty-delete :
    (j : Bytes) (m : List (Bytes × Window)) → is_empty m ≡ true → is_empty (delete j m) ≡ true
unfolding delete
empty-delete j [] e = refl
empty-delete j (x ∷ m) e = cc

pub new_consumer-IsValid : (s off : Bool) → IsValid (new_consumer s off)
unfolding new_consumer lookup
new_consumer-IsValid s off = record {
  active = refl;
  ticked = ground arith;
  sound = λ j w h. ground arith;
}

-- The window that a channel has, by the list alone.
window-lookup : (c : Consumer) (j : Bytes) → IsValid c → window c j ≡ lookup j c.windows
unfolding window
window-lookup c j v = ground (arith, v.active, empty-lookup c.windows j)

pub subscribe-IsValid :
    (c : Consumer) (channel : Bytes) (w : Window)
    → Invariant.IsValid w
    → IsValid c
    → IsValid (subscribe c channel w).0
unfolding subscribe add
subscribe-IsValid c channel w good v = elim (Option-cases (lookup channel c.windows)) [
  | inr (old, e) ↦ ground arith
  | inl e ↦
      let put = length-insert channel w c.windows in
      let some_now = empty-insert channel w c.windows in
      let none_before = empty-length c.windows in
      record {
        active = ground arith;
        ticked = ground (arith, v.ticked);
        sound = λ j x h. ground (arith, v.sound j x, lookup-insert_inv channel j w x c.windows);
      }
]

pub unsubscribe-IsValid :
    (c : Consumer) (channel : Bytes) → IsValid c → IsValid (unsubscribe c channel)
unfolding unsubscribe remove
unsubscribe-IsValid c channel v =
    let left = delete channel c.windows in
    let none_left = empty-length left in
    let fewer = empty-delete channel c.windows in
    record {
      active = ground (arith, v.active);
      ticked = ground (arith, v.ticked);
      sound = λ j x h. ground (arith, v.sound j x, lookup-delete_inv channel j x c.windows);
    }

pub stop-IsValid : (c : Consumer) → IsValid c → IsValid (stop c)
unfolding stop remove
stop-IsValid c v = record {
  active = ground (arith, v.active);
  ticked = ground (arith, v.ticked);
  sound = λ j x h. ground (arith, v.sound j x);
}

pub stop_sweeper-IsValid : (c : Consumer) → IsValid c → IsValid (stop_sweeper c)
unfolding stop_sweeper
stop_sweeper-IsValid c v = record {
  active = v.active;
  ticked = ground (arith, v.ticked);
  sound = λ j x h. v.sound j x h;
}

pub deliver-IsValid :
    (c : Consumer) (channel : Bytes) (offset epoch size : ℕ) (now : ℤ) (sent : Bool)
    → offset < u64_mod
    → IsValid c
    → IsValid (deliver c channel offset epoch size now sent).0
unfolding deliver
deliver-IsValid c channel offset epoch size now sent k v = elim (Option-cases (window c channel)) [
  | inl e ↦ ground arith
  | inr (w, e) ↦
      let there = window-lookup c channel v in
      let after = (admit w offset epoch size now sent).0 in
      let good = admit-IsValid w offset epoch size now sent k (v.sound channel w (sym there ∙ e)) in
      let some_now = empty-insert channel after c.windows in
      let before = empty-lookup c.windows channel in
      record {
        active = ground (arith, v.active);
        ticked = ground (arith, v.ticked);
        sound = λ j x h. ground (arith, v.sound j x, lookup-insert_inv channel j after x c.windows);
      }
]

unsubscribe-windows :
    (c : Consumer) (channel : Bytes) → (unsubscribe c channel).windows ≡ delete channel c.windows
unfolding unsubscribe remove
unsubscribe-windows c channel = ground arith

-- On a valid consumer `Subscribe` and `Unsubscribe` meet the laws that the protocol's ops ask of a
-- consumer: an installation is reported exactly where the channel had no window and then changes that
-- channel alone, and what is taken away is that channel's window alone.
pub window_laws :
    (c : Consumer) (channel j : Bytes) (w : Window)
    → Invariant.IsValid w
    → IsValid c
    → ((subscribe c channel w).1 ≡ not (is_some (window c channel)))
      × (window (subscribe c channel w).0 j
          ≡ (if not (is_some (window c channel)) && channel == j then some w else window c j))
      × (window (unsubscribe c channel) j ≡ (if channel == j then none else window c j))
unfolding subscribe
window_laws c channel j w good v =
    let here = window-lookup c channel v in
    let there = window-lookup c j v in
    let after = window-lookup (subscribe c channel w).0 j (subscribe-IsValid c channel w good v) in
    let left = window-lookup (unsubscribe c channel) j (unsubscribe-IsValid c channel v) in
    let put = lookup-insert channel j w c.windows in
    let cut = lookup-delete channel j c.windows in
    let same = unsubscribe-windows c channel in ground arith
