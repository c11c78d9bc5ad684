-- ===== src/Protocol/Ops.antt =====
-- The ops (internal/protocol/ops.go), each from a session to the session it leaves. `verified` is
-- what the verifier returned for the request's token. Logging is left out.
use gentis.Prelude.{
  ℕ, ℤ, pos, negsuc, sub_ℕ, ◌^◌, ◌/◌, ◌-◌, min, Bytes, bytes_Eq, List, [], ◌∷◌, Option, none, some,
  Bool, true, false, not, ◌&&◌, ◌||◌, if◌then◌else◌, ◌==◌, ltb, leb, nat_eq, ltb_ℤ, leb_ℤ, length,
  is_empty, u64_mod, is_some,
}
use gentis.Pattern.{is_pattern, has_reserved}
use gentis.Auth.Verify.{Verified}
use gentis.Auth.Verify as Verify
use gentis.Client.{
  authenticate, subject, can_subscribe, can_publish, add_subscription, remove_subscription,
  subscription_count,
}
use gentis.Qos.Window.{Window, new_window, baseline}
use gentis.Protocol.Types.{
  Point, Delivery, PublishRequest, SubscribeRequest, PublishResult, Code, not_authenticated,
  invalid_payload, permission_denied, subscription_limit, not_subscribed, message_too_large,
  unknown_message, subscribe_code, publish_code,
}
use gentis.Protocol.Session.{
  Engine, Consumer, Session, Limits, Event, emit, connected, refreshed, subscribed, unsubscribed,
  published, pong, failed, on_subscribed, on_unsubscribed, forwarded, expiry,
}

abbrev pub max_channel_name_len : ℕ
max_channel_name_len = 256

abbrev pub server_protocol_version : ℕ
server_protocol_version = 2

-- The conversion `int64(x)` of a `uint64`
unfoldable pub int64 : ℕ → ℤ
int64 x = if ltb x (2 ^ 63) then pos x else sub_ℕ x u64_mod

-- `uint64(t.Unix())`, or 0 for the zero time
unfoldable pub expires_word : Option ℤ → ℕ
expires_word none = 0
expires_word (some (pos t)) = t / 10 ^ 9
expires_word (some (negsuc t)) = u64_mod - t / 10 ^ 9 - 1

-- `validateChannel`
unfoldable pub valid_channel : Bytes → Bool
valid_channel name =
    ltb 0 (length name) && (leb (length name) max_channel_name_len && not (has_reserved name))

-- A version that a client asks for, brought into what the server speaks.
unfoldable pub negotiate : ℕ → ℕ
negotiate asked =
    if nat_eq (min asked server_protocol_version) 0 then 1 else min asked server_protocol_version

-- `Baseline`, where the request has a point to recover from
unfoldable pub pin : Window → Option Point → Window
pin w none = w
pin w (some p) = baseline w p.offset p.epoch

-- `PublishPlan`, or the plan of a session without that hook: whether to fan out here, and to forward
unfoldable pub plan : Option (Bytes → Bool × Bool) → Bytes → Bool × Bool
plan none channel = (true, false)
plan (some p) channel = p channel

module _ {E C : Type 0} (eng : Engine E) (con : Consumer C) (limits : Limits) where
  unfoldable pub fail : Session E C → Code → Bytes → Session E C
  fail s code req_id = emit s (failed code req_id)

  -- `Connect`
  unfoldable pub connect : Session E C → Verified → ℕ → Bytes → Session E C
  connect s (Verify.err e) asked req_id = fail s not_authenticated req_id
  connect s (Verify.ok claims) asked req_id =
      if s.state.authenticated && not (claims.subject == subject s.state)
      then fail s not_authenticated req_id
      else let s₁ = record s { state = authenticate s.state claims } in
        let s₂ = record (emit s₁ (expiry claims.expires_at)) { version = negotiate asked } in
        emit s₂ (connected req_id (negotiate asked))

  -- `Refresh`
  unfoldable pub refresh : Session E C → Verified → Bytes → Session E C
  refresh s verified req_id =
      if not s.state.authenticated then fail s not_authenticated req_id else elim verified [
        | Verify.err e ↦ fail s not_authenticated req_id
        | Verify.ok claims ↦
            if not (claims.subject == subject s.state)
            then fail s not_authenticated req_id
            else let s₁ = record s { state = authenticate s.state claims } in
              emit (emit s₁ (expiry claims.expires_at))
                (refreshed req_id (expires_word claims.expires_at))
      ]

  -- `Ping`
  unfoldable pub ping : Session E C → Bytes → Session E C
  ping s req_id = emit s (pong req_id)

  -- `Confirm`
  unfoldable pub confirm : Session E C → Bytes → ℕ → Bytes → Session E C
  confirm s channel offset req_id =
      if not s.state.authenticated
      then fail s not_authenticated req_id
      else record s { qos = con.confirm s.qos channel offset }

  -- `Unknown`
  unfoldable pub unknown : Session E C → Bytes → Session E C
  unknown s req_id =
      if not s.state.authenticated
      then fail s not_authenticated req_id
      else fail s unknown_message req_id

  -- The session after a hook that is called where it is set
  unfoldable pub hook : Bool → Session E C → Event → Session E C
  hook set s e = if set then emit s e else s

  -- `subscribePattern`
  unfoldable pub subscribe_pattern : Session E C → SubscribeRequest → Bytes → Session E C
  subscribe_pattern s req req_id = elim req.window [
    | some w ↦ fail s invalid_payload req_id
    | none ↦ elim req.recover [
      | some p ↦ fail s invalid_payload req_id
      | none ↦
          let (e, err) = eng.subscribe_pattern s.engine limits.subscriber req.channel in
          let s₁ = record s { engine = e } in
          elim err [
            | some error ↦ fail s₁ (subscribe_code error) req_id
            | none ↦
                let s₂ = record s₁ { state = (add_subscription s₁.state req.channel).0 } in
                let s₃ = hook limits.hooks.has_on_subscribed s₂ (on_subscribed req.channel) in
                emit s₃ (subscribed req_id req.channel false false)
          ]
    ]
  ]

  unfoldable pub deliver_all : C → List Delivery → C
  deliver_all c [] = c
  deliver_all c (d ∷ ds) = deliver_all (con.deliver c d) ds

  -- `Recover`, where the request has a point to recover from
  unfoldable pub recover_from : E → Bytes → Option Point → List Delivery × Bool
  recover_from e channel none = ([], false)
  recover_from e channel (some p) = eng.recover e channel p.offset p.epoch

  -- The window that `Subscribe` installs for a request, or none where the namespace offers none.
  unfoldable pub install : Session E C → SubscribeRequest → Option (Session E C × Bool)
  install s req = elim req.window [
    | none ↦ some (s, false)
    | some win ↦
        let policy = eng.qos_policy s.engine req.channel in
        if not policy.enabled
        then none
        else let w =
            new_window win.count (int64 win.bytes) policy.timeout policy.max_redeliveries in
          let (c, installed) = con.subscribe s.qos req.channel (pin w req.recover) in
          some (record s { qos = c }, installed)
  ]

  -- What `Subscribe` does once the window is in: `installed` tells if this request put it there.
  unfoldable pub attach : Session E C → SubscribeRequest → Bool → Bytes → Session E C
  unfolding deliver_all
  attach s req installed req_id =
      let (e, err) = eng.subscribe_priority s.engine limits.subscriber req.channel req.priority in
      let s₁ = record s { engine = e } in
      elim err [
        | some error ↦
            let s₂ =
              if installed then record s₁ { qos = con.unsubscribe s₁.qos req.channel } else s₁ in
            fail s₂ (subscribe_code error) req_id
        | none ↦
            let s₂ = record s₁ { state = (add_subscription s₁.state req.channel).0 } in
            let (replay, recovered) = recover_from s₂.engine req.channel req.recover in
            let s₃ = hook limits.hooks.has_on_subscribed s₂ (on_subscribed req.channel) in
            let s₄ = emit s₃ (subscribed req_id req.channel recovered (is_some req.recover)) in
            record s₄ { qos = deliver_all s₄.qos replay }
      ]

  -- `Subscribe`
  unfoldable pub subscribe : Session E C → SubscribeRequest → Bytes → Session E C
  subscribe s req req_id =
      if not s.state.authenticated
      then fail s not_authenticated req_id
      else if not (valid_channel req.channel)
      then fail s invalid_payload req_id
      else if not (can_subscribe s.state req.channel)
      then fail s permission_denied req_id
      else if ltb_ℤ (pos 0) limits.max_subscriptions
          && leb_ℤ limits.max_subscriptions (pos (subscription_count s.state))
      then fail s subscription_limit req_id
      else if is_pattern req.channel
      then subscribe_pattern s req req_id
      else elim (install s req) [
        | none ↦ fail s permission_denied req_id
        | some (s₁, installed) ↦ attach s₁ req installed req_id
      ]

  -- `Unsubscribe`
  unfoldable pub unsubscribe : Session E C → Bytes → Bytes → Session E C
  unsubscribe s channel req_id =
      if not s.state.authenticated
      then fail s not_authenticated req_id
      else if not (valid_channel channel)
      then fail s invalid_payload req_id
      else let (e, removed) =
          (if is_pattern channel
            then eng.unsubscribe_pattern s.engine limits.subscriber channel
            else eng.unsubscribe s.engine limits.subscriber channel) in
        let s₁ = record s { engine = e } in
        if not removed
        then fail s₁ not_subscribed req_id
        else let s₂ = record s₁ {
          state = remove_subscription s₁.state channel;
          qos = con.unsubscribe s₁.qos channel;
        } in
          let s₃ = hook limits.hooks.has_on_unsubscribed s₂ (on_unsubscribed channel) in
          emit s₃ (unsubscribed req_id channel)

  -- The result of a publish that is not made here: the zero value.
  abbrev pub no_result : PublishResult
  no_result = record { channel = []; offset = 0; epoch = 0; delivered = 0; dropped = 0 }

  -- `Publish`
  unfoldable pub publish : Session E C → PublishRequest → Bytes → Session E C
  publish s req req_id =
      if not s.state.authenticated
      then fail s not_authenticated req_id
      else if not (valid_channel req.channel) || is_pattern req.channel
      then fail s invalid_payload req_id
      else if not (can_publish s.state req.channel)
      then fail s permission_denied req_id
      else if ltb_ℤ (pos 0) limits.max_message_size
          && ltb_ℤ limits.max_message_size (pos (length req.payload))
      then fail s message_too_large req_id
      else elim (eng.check_publish s.engine req.channel) [
        | some error ↦ fail s (publish_code error) req_id
        | none ↦
            let (here, forward) = plan limits.hooks.publish_plan req.channel in
            let (e, result) =
              (if here
                then eng.publish s.engine req.channel req.payload limits.subscriber
                else (s.engine, no_result)) in
            let s₁ = record s { engine = e } in
            let s₂ = hook forward s₁ (forwarded req.channel req.payload) in
            if is_empty req_id then s₂ else emit s₂ (published req_id req.channel result)
      ]
