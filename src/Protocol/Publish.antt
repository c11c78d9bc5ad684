-- ===== src/Protocol/Publish.antt =====
-- Which publications reach the engine.
use gentis.Prelude.{
  [], ◌∷◌, ◌++◌, is_empty, append-nil, Option, Bool, some, ◌≡◌, pos, ◌≤ℤ◌, ◌⊎◌, true, false, not,
  ◌||◌, ◌&&◌, if◌then◌else◌, arith, Bytes, none, length, Option-cases, inl, inr, Bool-cases, ltb_ℤ,
}
use gentis.Pattern.{is_pattern}
use gentis.Client.{can_publish}
use gentis.Protocol.Types.{
  PublishRequest, Code, not_authenticated, invalid_payload, permission_denied, message_too_large,
  publish_code,
}
use gentis.Protocol.Session.{Engine, Consumer, Session, Limits, emit, failed, forwarded, published}
use gentis.Protocol.Ops as Ops

-- Why a publication may go ahead: who sends it, where to, and how large it is.
pub record IsAllowed {E C : Type 0} (eng : Engine E) (limits : Limits) (s : Session E C)
    (req : PublishRequest) : Type 0 where
  pub authenticated : s.state.authenticated ≡ true
  pub valid : Ops.valid_channel req.channel ≡ true
  pub plain : is_pattern req.channel ≡ false
  pub permitted : can_publish s.state req.channel ≡ true
  pub small :
      (limits.max_message_size ≤ℤ pos 0) ⊎ (pos (length req.payload) ≤ℤ limits.max_message_size)
  pub accepted : eng.check_publish s.engine req.channel ≡ none

module _ {E C : Type 0} (eng : Engine E) (con : Consumer C) (limits : Limits) where
  -- Whether a session fans a publication out here: yes without a hook, and else as the hook's plan says.
  abbrev pub fans_out : Option (Bytes → Bool × Bool) → Bytes → Bool
  fans_out none channel = true
  fans_out (some p) channel = (p channel).0

  -- Whether it hands the publication to the hook that forwards it: only as the plan of a hook says.
  abbrev pub forwards : Option (Bytes → Bool × Bool) → Bytes → Bool
  forwards none channel = false
  forwards (some p) channel = (p channel).1

  -- What an allowed publication leaves.
  pub record IsPublished (s t : Session E C) (req : PublishRequest) (id : Bytes) : Type 0 where
    pub engine : t.engine ≡ (
        if fans_out limits.hooks.publish_plan req.channel
        then (eng.publish s.engine req.channel req.payload limits.subscriber).0
        else s.engine)
    pub state : t.state ≡ s.state
    pub qos : t.qos ≡ s.qos
    pub version : t.version ≡ s.version
    pub events :
        t.events
        ≡ (s.events
            ++ (if forwards limits.hooks.publish_plan req.channel
                then forwarded req.channel req.payload ∷ []
                else []))
          ++ (if is_empty id
              then []
              else published id req.channel (
                  if fans_out limits.hooks.publish_plan req.channel
                  then (eng.publish s.engine req.channel req.payload limits.subscriber).1
                  else Ops.no_result eng con limits)
                ∷ [])

  publish-allowed :
      (s : Session E C) (req : PublishRequest) (id : Bytes)
      → IsAllowed eng limits s req
      → IsPublished s (Ops.publish eng con limits s req id) req id
  unfolding Ops.publish Ops.fail emit Ops.hook Ops.plan
  publish-allowed s req id h = elim (Option-cases limits.hooks.publish_plan) [
    | inl plain ↦ record {
      engine = ground arith;
      state = ground arith;
      qos = ground arith;
      version = ground arith;
      events = ground (
        arith,
        append-nil s.events,
        append-nil (s.events ++ (forwarded req.channel req.payload ∷ [])),
      );
    }
    | inr (p, hooked) ↦ record {
      engine = ground arith;
      state = ground arith;
      qos = ground arith;
      version = ground arith;
      events = ground (
        arith,
        append-nil s.events,
        append-nil (s.events ++ (forwarded req.channel req.payload ∷ [])),
      );
    }
  ]

  cases_of :
      (s : Session E C) (req : PublishRequest) (id : Bytes)
      → ((¬ IsAllowed eng limits s req)
          × ((c : Code) × (Ops.publish eng con limits s req id ≡ emit s (failed c id))))
        ⊎ IsAllowed eng limits s req
  unfolding Ops.publish Ops.fail
  cases_of s req id = elim (Bool-cases s.state.authenticated) [
    | inr unknown ↦ inl (λ h. ground arith, (not_authenticated, ground arith))
    | inl authenticated ↦
        elim (Bool-cases (not (Ops.valid_channel req.channel) || is_pattern req.channel)) [
          | inl bad ↦ inl (λ h. ground arith, (invalid_payload, ground arith))
          | inr valid ↦ elim (Bool-cases (can_publish s.state req.channel)) [
            | inr denied ↦ inl (λ h. ground arith, (permission_denied, ground arith))
            | inl permitted ↦
                elim (Bool-cases (
                  ltb_ℤ (pos 0) limits.max_message_size
                  && ltb_ℤ limits.max_message_size (pos (length req.payload)))) [
                    | inl large ↦ inl (λ h. ground arith, (message_too_large, ground arith))
                    | inr small ↦ elim (Option-cases (eng.check_publish s.engine req.channel)) [
                      | inr (e, error) ↦ inl (λ h. ground arith, (publish_code e, ground arith))
                      | inl accepted ↦ inr (record {
                        authenticated = authenticated;
                        valid = ground arith;
                        plain = ground arith;
                        permitted = permitted;
                        small = ground arith;
                        accepted = accepted;
                      })
                    ]
                  ]
          ]
        ]
  ]

  -- Every publish is either allowed, and then runs the engine's fan-out exactly where there is no hook
  -- or the plan of the hook says so, and leaves the client's state, the windows and the version alone; it
  -- is forwarded only where the plan says so, and answered with the result if the request has an id. Or it is not allowed, and changes nothing but to send one error under the request's id.
  pub publish-decides :
      (s : Session E C) (req : PublishRequest) (id : Bytes)
      → (IsAllowed eng limits s req × IsPublished s (Ops.publish eng con limits s req id) req id)
        ⊎ ((¬ IsAllowed eng limits s req)
            × ((c : Code) × (Ops.publish eng con limits s req id ≡ emit s (failed c id))))
  publish-decides s req id = elim (cases_of s req id) [
    | inl refused ↦ inr refused
    | inr allowed ↦ inl (allowed, publish-allowed s req id allowed)
  ]
