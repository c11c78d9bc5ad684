-- ===== src/Tests/ProtocolRuns.antt =====
-- The protocol's ops over a small engine and a small consumer (internal/protocol).
use gentis.Prelude.{
  ◌⊎◌, pos, Bytes, bytes_Eq, codes, List, [], ◌∷◌, none, some, Bool, true, false, not, ◌&&◌,
  if◌then◌else◌, ◌==◌, ◌≡◌, refl, arith, is_some, lookup, insert, delete, lookup-insert,
  lookup-delete, inr, contains,
}
use gentis.Auth.Claims.{Claims}
use gentis.Auth.Claims as Claims
use gentis.Auth.Verify.{ok}
use gentis.Pattern.{is_pattern, has_reserved}
use gentis.Client.{mark, can_publish, subject, subscription_count}
use gentis.Qos.Window.{Window}
use gentis.Protocol.Types.{
  SubscribeRequest, PublishRequest, err_already_subscribed, err_publish_denied, not_authenticated,
  Code,
}
use gentis.Protocol.Session.{Engine, Consumer, Session, Limits, emit, failed}
use gentis.Protocol.Ops as Ops
use gentis.Protocol.Calls.{Call, is_open, id_of, call, calls, connect, subscribe, publish}
use gentis.Protocol.Gate.{call-gated}
use gentis.Protocol.Identity.{SpeaksFor, calls-SpeaksFor}
use gentis.Protocol.Limit.{IsWithin, calls-IsWithin}
use gentis.Protocol.Rollback.{subscribe-refused}
use gentis.Protocol.Publish.{IsAllowed, IsPublished, publish-decides}

-- An engine that remembers the channels subscribed to, refuses a second subscribe, and counts what is
-- published in the entries of the channel "log".
abbrev small_engine : Engine (List Bytes)
small_engine = record {
  qos_policy = λ e ch. record { enabled = true; timeout = pos 5; max_redeliveries = pos 2 };
  subscribe_priority =
      λ e id ch prio. if contains e ch then (e, some err_already_subscribed) else (ch ∷ e, none);
  subscribe_pattern =
      λ e id ch. if contains e ch then (e, some err_already_subscribed) else (ch ∷ e, none);
  unsubscribe = λ e id ch. (e, contains e ch);
  unsubscribe_pattern = λ e id ch. (e, contains e ch);
  recover = λ e ch off ep. ([], true);
  check_publish = λ e ch. if ch == codes "closed" then some err_publish_denied else none;
  publish = λ e ch payload id.
      (codes "log" ∷ e, record { channel = ch; offset = 1; epoch = 1; delivered = 0; dropped = 0 });
}

abbrev Windows : Type 0
Windows = List (Bytes × Window)

abbrev put_window : Windows → Bytes → Window → Windows × Bool
put_window c channel w =
    if is_some (lookup channel c) then (c, false) else (insert channel w c, true)

put_window-installs :
    (c : Windows) (channel : Bytes) (w : Window)
    → (put_window c channel w).1 ≡ not (is_some (lookup channel c))
put_window-installs c channel w = ground arith

lookup-put_window :
    (c : Windows) (channel j : Bytes) (w : Window)
    → lookup j (put_window c channel w).0
      ≡ (if not (is_some (lookup channel c)) && channel == j then some w else lookup j c)
lookup-put_window c channel j w = ground (arith, lookup-insert channel j w c)

-- A consumer that keeps windows, and lets every delivery and confirm pass.
abbrev small_consumer : Consumer Windows
small_consumer = record {
  subscribe = put_window;
  unsubscribe = λ c channel. delete channel c;
  confirm = λ c channel offset. c;
  deliver = λ c d. c;
  window = λ c channel. lookup channel c;
  subscribe_installs = put_window-installs;
  window-subscribe = lookup-put_window;
  window-unsubscribe = λ c channel j. lookup-delete channel j c;
}

abbrev small_limits : Limits
small_limits = record {
  subscriber = 7;
  max_subscriptions = pos 2;
  max_message_size = pos 16;
  hooks = record { has_on_subscribed = false; has_on_unsubscribed = false; publish_plan = none };
}

abbrev ann_claims : Claims
ann_claims = record { subject = codes "ann"; expires_at = none; channels = none; publishes = none }

abbrev stranger : Session (List Bytes) Windows
stranger = record {
  state = record {
    authenticated = false;
    claims = record ann_claims { subject = [] };
    subscriptions = [];
  };
  engine = codes "old" ∷ [];
  qos = [];
  version = 0;
  events = [];
}

abbrev ann : Session (List Bytes) Windows
ann = record stranger {
  state = record {
    authenticated = true;
    claims = ann_claims;
    subscriptions = (codes "old", mark) ∷ [];
  };
}

abbrev ask_old : SubscribeRequest
ask_old = record {
  channel = codes "old";
  priority = pos 0;
  window = some (record { count = 4; bytes = 0 });
  recover = none;
}

abbrev say : Bytes → PublishRequest
say channel = record { channel = channel; payload = codes "hi" }

abbrev bob_claims : Claims
bob_claims = record ann_claims { subject = codes "bob" }

abbrev busy_calls : List Call
busy_calls =
    connect (ok bob_claims) 2 (codes "1")
    ∷ subscribe ask_old (codes "2")
    ∷ publish (say (codes "news")) (codes "3")
    ∷ []

call-gated_example :
    call small_engine small_consumer small_limits stranger (subscribe ask_old (codes "2"))
    ≡ emit stranger (failed not_authenticated (codes "2"))
unfolding is_open id_of
call-gated_example =
    call-gated small_engine small_consumer small_limits stranger (subscribe ask_old (codes "2"))
      refl refl

calls-SpeaksFor_example :
    SpeaksFor (codes "ann") (calls small_engine small_consumer small_limits ann busy_calls).state
unfolding subject
calls-SpeaksFor_example =
    calls-SpeaksFor small_engine small_consumer small_limits (codes "ann") ann busy_calls
      (refl, refl)

calls-IsWithin_example :
    IsWithin (pos 2) (calls small_engine small_consumer small_limits ann busy_calls).state
unfolding subscription_count
calls-IsWithin_example =
    calls-IsWithin small_engine small_consumer small_limits ann busy_calls (omega arith)
      (omega arith)

subscribe-refused_example :
    (lookup
        (codes "old")
        (Ops.subscribe small_engine small_consumer small_limits ann ask_old (codes "2")).qos
      ≡ lookup (codes "old") [])
    × ((Ops.subscribe small_engine small_consumer small_limits ann ask_old (codes "2")).state
        ≡ ann.state)
unfolding is_pattern
subscribe-refused_example =
    subscribe-refused small_engine small_consumer small_limits ann ask_old (codes "2") (codes "old")
      err_already_subscribed refl refl

news-IsAllowed : IsAllowed small_engine small_limits ann (say (codes "news"))
unfolding Ops.valid_channel has_reserved is_pattern can_publish Claims.can_publish Claims.match_any
news-IsAllowed = record {
  authenticated = refl;
  valid = refl;
  plain = refl;
  permitted = refl;
  small = inr (omega arith);
  accepted = refl;
}

publish-decides_example :
    (IsAllowed small_engine small_limits ann (say (codes "news"))
      × IsPublished small_engine small_consumer small_limits ann
          (Ops.publish small_engine small_consumer small_limits ann
            (say (codes "news"))
            (codes "3"))
          (say (codes "news"))
          (codes "3"))
    ⊎ ((¬ IsAllowed small_engine small_limits ann (say (codes "news")))
        × ((c : Code) × (Ops.publish small_engine small_consumer small_limits ann
                (say (codes "news"))
                (codes "3")
              ≡ emit ann (failed c (codes "3")))))
publish-decides_example =
    publish-decides small_engine small_consumer small_limits ann (say (codes "news")) (codes "3")
