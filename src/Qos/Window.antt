-- ===== src/Qos/Window.antt =====
-- `Window` (internal/qos/window.go): the unconfirmed deliveries of one subscription. The lock makes
-- each method one step. Offsets and epochs are `uint64`; sizes are lengths of payloads in memory.
pub mod Invariant
pub mod Delivery
pub mod Gapless
pub mod Abandoned
use gentis.Prelude.{
  ℕ, ℤ, pos, sub_ℕ, suc, ◌+◌, ◌-◌, ◌%◌, ◌^◌, ◌<◌, ◌-ℤ◌, Bool, true, false, not, ◌&&◌, if◌then◌else◌,
  List, [], ◌∷◌, ◌++◌, length, leb, ltb, ltb_ℤ, leb_ℤ, nat_eq, u64_mod, drop, is_empty,
}

pub data Verdict : Type 0 where
  admitted full dup refused : Verdict

pub record Entry : Type 0 where
  pub offset : ℕ
  pub size : ℕ

pub record Window : Type 0 where
  pub max_count : ℕ
  pub max_bytes : ℤ
  pub timeout : ℤ
  pub max_redeliveries : ℤ
  pub epoch : ℕ
  pub baselined : Bool
  pub delivered : ℕ
  pub confirmed : ℕ
  pub inflight : List Entry
  pub inflight_bytes : ℕ
  pub attempts : ℕ
  pub attempts_offset : ℕ
  pub oldest_at : ℤ

-- `RedeliveryAction`; 0 stands for "none" in both fields.
pub record RedeliveryAction : Type 0 where
  pub resend_from : ℕ
  pub poisoned : ℕ

-- `uint64` addition of one
abbrev pub next : ℕ → ℕ
next x = (x + 1) % u64_mod

-- `NewWindow`
unfoldable pub new_window : ℕ → ℤ → ℤ → ℤ → Window
new_window max_count max_bytes timeout max_redeliveries = record {
  max_count = max_count;
  max_bytes = max_bytes;
  timeout = timeout;
  max_redeliveries = max_redeliveries;
  epoch = 0;
  baselined = false;
  delivered = 0;
  confirmed = 0;
  inflight = [];
  inflight_bytes = 0;
  attempts = 0;
  attempts_offset = 0;
  oldest_at = pos 0;
}

-- The first part of `Admit`: the first delivery, or one of a new epoch, pins the cursor. It runs
-- only at `offset ≢ 0`.
unfoldable pub rebase : Window → ℕ → ℕ → Window
rebase w offset epoch =
    if not w.baselined
    then record w {
      baselined = true;
      epoch = epoch;
      delivered = offset - 1;
      confirmed = offset - 1;
    }
    else if not (nat_eq epoch w.epoch)
    then record w {
      epoch = epoch;
      delivered = offset - 1;
      confirmed = offset - 1;
      inflight = [];
      inflight_bytes = 0;
      attempts = 0;
      attempts_offset = 0;
    }
    else w

-- The rest of `Admit`. `sent` is what `send` returns; it is called only where the verdict is
-- `admitted` or `refused`.
unfoldable pub try_send : Window → ℕ → ℕ → ℤ → Bool → Window × Verdict
try_send w offset size now sent =
    if leb offset w.delivered
    then (w, dup)
    else if not (nat_eq offset (next w.delivered))
    then (w, full)
    else if ltb 0 w.max_count && leb w.max_count (length w.inflight)
    then (w, full)
    else if ltb_ℤ (pos 0) w.max_bytes
        && (not (is_empty w.inflight) && ltb_ℤ w.max_bytes (pos (w.inflight_bytes + size)))
    then (w, full)
    else if not sent
    then (w, refused)
    else (
      record w {
        oldest_at = if is_empty w.inflight then now else w.oldest_at;
        inflight = w.inflight ++ (record { offset = offset; size = size } ∷ []);
        inflight_bytes = w.inflight_bytes + size;
        delivered = offset;
      },
      admitted,
    )

-- `Admit`
unfoldable pub admit : Window → ℕ → ℕ → ℕ → ℤ → Bool → Window × Verdict
unfolding rebase try_send
admit w offset epoch size now sent =
    if nat_eq offset 0 then (w, dup) else try_send (rebase w offset epoch) offset size now sent

-- `Baseline`
unfoldable pub baseline : Window → ℕ → ℕ → Window
baseline w offset epoch =
    if w.baselined
    then w
    else record w { baselined = true; epoch = epoch; delivered = offset; confirmed = offset }

-- `Reset`
unfoldable pub reset : Window → Window
reset w = record w {
  baselined = false;
  epoch = 0;
  delivered = 0;
  confirmed = 0;
  inflight = [];
  inflight_bytes = 0;
  attempts = 0;
  attempts_offset = 0;
}

-- The loop of `Confirm`: the entries up to the offset go, and their bytes; the number that went.
unfoldable pub trim : ℕ → List Entry → ℕ → List Entry × ℕ × ℕ
trim offset [] bytes = ([], bytes, 0)
trim offset (e ∷ es) bytes =
    let (left, bytes', trimmed) = trim offset es (bytes - e.size) in
    if ltb offset e.offset then (e ∷ es, bytes, 0) else (left, bytes', suc trimmed)

-- `Confirm`
unfoldable pub confirm : Window → ℕ → ℤ → Window
unfolding trim
confirm w offset now =
    let upto = if ltb w.delivered offset then w.delivered else offset in
    let (left, bytes, trimmed) = trim upto w.inflight w.inflight_bytes in
    if leb upto w.confirmed then w else record w {
      confirmed = upto;
      inflight = left;
      inflight_bytes = bytes;
      oldest_at = if ltb 0 trimmed then now else w.oldest_at;
    }

-- What `CheckRedelivery` does once the head has timed out.
unfoldable pub redeliver : Window → ℕ → ℤ → Window × RedeliveryAction
redeliver w oldest now =
    let tried = if nat_eq w.attempts_offset oldest then w.attempts else 0 in
    let poison = leb_ℤ w.max_redeliveries (pos tried) in
    let confirmed = if poison then oldest else w.confirmed in
    (
      record w {
        confirmed = confirmed;
        attempts = if poison then 0 else tried + 1;
        attempts_offset = if poison then 0 else oldest;
        inflight = [];
        inflight_bytes = 0;
        delivered = confirmed;
        oldest_at = now;
      },
      record { resend_from = next confirmed; poisoned = if poison then oldest else 0 },
    )

abbrev pub no_action : RedeliveryAction
no_action = record { resend_from = 0; poisoned = 0 }

abbrev pub head_offset : List Entry → ℕ
head_offset [] = 0
head_offset (e ∷ es) = e.offset

-- `CheckRedelivery`
unfoldable pub check_redelivery : Window → ℤ → Window × RedeliveryAction
unfolding redeliver
check_redelivery w now =
    if is_empty w.inflight
    then (w, no_action)
    else if leb_ℤ w.timeout (pos 0)
    then (w, no_action)
    else if ltb_ℤ (now -ℤ w.oldest_at) w.timeout
    then (w, no_action)
    else redeliver w (head_offset w.inflight) now

-- `PumpPoint`: the last delivered offset, the epoch, and the room that is left.
unfoldable pub pump_point : Window → ℕ × ℕ × ℤ
pump_point w = if not w.baselined then (0, 0, pos 0) else (
  w.delivered,
  w.epoch,
  if nat_eq w.max_count 0 then pos (2 ^ 20) else sub_ℕ w.max_count (length w.inflight),
)
