-- ===== src/Protocol/Limit.antt =====
-- The cap on the subscriptions of one session.
use gentis.Prelude.{
  ℤ, pos, ◌≤ℤ◌, ◌<ℤ◌, ◌+◌, ◌≤◌, Bool, arith, Bytes, bytes_Eq, List, [], ◌∷◌, Option-cases, inl, inr,
  length-insert, length-delete-le,
}
use gentis.Client.{
  State, mark, authenticate, add_subscription, remove_subscription, subscription_count,
}
use gentis.Protocol.Types.{SubscribeRequest}
use gentis.Protocol.Session.{Engine, Consumer, Session, Limits, emit}
use gentis.Auth.Verify as Verify
use gentis.Protocol.Ops as Ops
use gentis.Protocol.Identity.{install-state}
use gentis.Protocol.Calls.{
  Call, call, calls, connect, refresh, ping, confirm, unknown, subscribe, unsubscribe, publish,
}

abbrev pub IsWithin : ℤ → State → Type 0
IsWithin cap s = pos (subscription_count s) ≤ℤ cap

add_subscription-count :
    (s : State) (channel : Bytes)
    → subscription_count (add_subscription s channel).0 ≤ subscription_count s + 1
unfolding subscription_count add_subscription
add_subscription-count s channel = ground (arith, length-insert channel mark s.subscriptions)

remove_subscription-count :
    (s : State) (channel : Bytes)
    → subscription_count (remove_subscription s channel) ≤ subscription_count s
unfolding subscription_count remove_subscription
remove_subscription-count s channel = length-delete-le channel s.subscriptions

module _ {E C : Type 0} (eng : Engine E) (con : Consumer C) (limits : Limits) where
  subscribe_pattern-count :
      (s : Session E C) (req : SubscribeRequest) (id : Bytes)
      → subscription_count (Ops.subscribe_pattern eng con limits s req id).state
        ≤ subscription_count s.state + 1
  unfolding Ops.subscribe_pattern Ops.fail emit Ops.hook
  subscribe_pattern-count s req id = ground (arith, add_subscription-count s.state req.channel)

  attach-count :
      (s : Session E C) (req : SubscribeRequest) (b : Bool) (id : Bytes)
      → subscription_count (Ops.attach eng con limits s req b id).state
        ≤ subscription_count s.state + 1
  unfolding Ops.attach Ops.fail emit Ops.hook
  attach-count s req b id = ground (arith, add_subscription-count s.state req.channel)

  subscribe-IsWithin :
      (s : Session E C) (req : SubscribeRequest) (id : Bytes)
      → pos 0 <ℤ limits.max_subscriptions
      → IsWithin limits.max_subscriptions s.state
      → IsWithin limits.max_subscriptions (Ops.subscribe eng con limits s req id).state
  unfolding Ops.subscribe Ops.fail emit
  subscribe-IsWithin s req id p h =
      let pattern_count = subscribe_pattern-count s req id in
      elim (Option-cases (Ops.install eng con limits s req)) [
        | inl refused ↦ ground arith
        | inr ((s₁, put), made) ↦
            let same = install-state eng con limits s s₁ req put made in
            let count = attach-count s₁ req put id in ground arith
      ]

  call-IsWithin :
      (s : Session E C) (c : Call)
      → pos 0 <ℤ limits.max_subscriptions
      → IsWithin limits.max_subscriptions s.state
      → IsWithin limits.max_subscriptions (call eng con limits s c).state
  unfolding call Ops.connect Ops.refresh Ops.ping Ops.confirm Ops.unknown Ops.unsubscribe
      Ops.publish Ops.fail emit Ops.hook authenticate subscription_count
  call-IsWithin s (connect (Verify.err e) n id) p h = h
  call-IsWithin s (connect (Verify.ok c) n id) p h = ground arith
  call-IsWithin s (refresh (Verify.err e) id) p h = ground arith
  call-IsWithin s (refresh (Verify.ok c) id) p h = ground arith
  call-IsWithin s (ping id) p h = h
  call-IsWithin s (confirm ch off id) p h = ground arith
  call-IsWithin s (unknown id) p h = ground arith
  call-IsWithin s (subscribe req id) p h = subscribe-IsWithin s req id p h
  call-IsWithin s (unsubscribe ch id) p h = ground (arith, remove_subscription-count s.state ch)
  call-IsWithin s (publish req id) p h = ground arith

  -- With a positive cap on subscriptions, a session that is within it stays within it, whatever
  -- sequence of calls follows.
  pub calls-IsWithin :
      (s : Session E C) (cs : List Call)
      → pos 0 <ℤ limits.max_subscriptions
      → IsWithin limits.max_subscriptions s.state
      → IsWithin limits.max_subscriptions (calls eng con limits s cs).state
  unfolding calls
  calls-IsWithin s [] p h = h
  calls-IsWithin s (c ∷ cs) p h =
      calls-IsWithin (call eng con limits s c) cs p (call-IsWithin s c p h)
