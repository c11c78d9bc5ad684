-- ===== src/Protocol/Types.antt =====
-- The requests and the error codes of the protocol (internal/protocol/types.go, errors.go), and the
-- errors of the engine they stand for (internal/engine/engine.go).
use gentis.Prelude.{ℕ, ℤ, Bytes, Option}

pub record Point : Type 0 where
  pub offset : ℕ
  pub epoch : ℕ

pub record WindowRequest : Type 0 where
  pub count : ℕ
  pub bytes : ℕ

-- `SubscribeRequest`; `Window` with `HasWindow`, and `Recover` with `HasRecover`, are options.
pub record SubscribeRequest : Type 0 where
  pub channel : Bytes
  pub priority : ℤ
  pub window : Option WindowRequest
  pub recover : Option Point

pub record PublishRequest : Type 0 where
  pub channel : Bytes
  pub payload : Bytes

-- `ErrorCode`
pub data Code : Type 0 where
  unknown_message invalid_payload not_authenticated already_subscribed not_subscribed : Code
  permission_denied message_too_large subscription_limit channel_not_found internal : Code

-- The error values of the engine, and any other.
pub data EngineError : Type 0 where
  err_already_subscribed err_unknown_namespace err_channel_full : EngineError
  err_publish_denied err_wildcard_denied err_other : EngineError

-- `SubscribeErrorCode`
unfoldable pub subscribe_code : EngineError → Code
subscribe_code err_already_subscribed = already_subscribed
subscribe_code err_unknown_namespace = channel_not_found
subscribe_code err_channel_full = subscription_limit
subscribe_code err_wildcard_denied = permission_denied
subscribe_code _ = internal

-- `PublishErrorCode`
unfoldable pub publish_code : EngineError → Code
publish_code err_unknown_namespace = channel_not_found
publish_code err_publish_denied = permission_denied
publish_code _ = internal

-- `engine.Delivery`, without the memoized frame
pub record Delivery : Type 0 where
  pub channel : Bytes
  pub payload : Bytes
  pub offset : ℕ
  pub epoch : ℕ

-- `engine.PublishResult`
pub record PublishResult : Type 0 where
  pub channel : Bytes
  pub offset : ℕ
  pub epoch : ℕ
  pub delivered : ℕ
  pub dropped : ℕ
