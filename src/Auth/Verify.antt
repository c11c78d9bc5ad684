-- ===== src/Auth/Verify.antt =====
-- `HMACVerifier.Verify` (internal/auth/auth.go). Base64, JSON and HMAC are the operations of a
-- record; the two readings of the clock are arguments.
pub mod Trust
use gentis.Prelude.{
  ℕ, ℤ, pos, negsuc, suc, ◌+◌, ◌-◌, ◌*◌, ◌^◌, Bytes, codes, bytes_Eq, List, [], ◌∷◌, ◌++◌, Bool,
  true, false, not, ◌&&◌, ◌||◌, ◌==◌, if◌then◌else◌, length, take, contains, nat_Eq, Option, none,
  some, is_empty, ltb, sub_ℕ, ltb_ℤ, leb_ℤ,
}
use gentis.Namespace.Name.{cut}
use gentis.Auth.Claims.{Claims, valid_entries}

pub data VerifyError : Type 0 where
  malformed_token unsupported_alg bad_signature invalid_claims token_expired token_not_yet_valid :
      VerifyError

pub data Verified : Type 0 where
  ok : Claims → Verified
  err : VerifyError → Verified

-- `claimsJSON`; a JSON null or an absent list is `none`.
pub record Payload : Type 0 where
  pub sub : Bytes
  pub exp : ℤ
  pub nbf : ℤ
  pub channels : Option (List Bytes)
  pub publishes : Option (List Bytes)

-- What the verifier calls: `base64.RawURLEncoding.DecodeString`, `json.Unmarshal` into the header
-- (its `alg` field) and into the payload, and HMAC-SHA256 of a message under a secret.
pub record Crypto : Type 0 where
  pub decode : Bytes → Option Bytes
  pub header_alg : Bytes → Option Bytes
  pub payload : Bytes → Option Payload
  pub mac : Bytes → Bytes → Bytes

abbrev pub dot : ℕ
dot = b'.'

-- The seconds from the year 1 to 1970, which `time.Time` adds to those that `time.Unix` is given
abbrev unix_to_internal : ℕ
unix_to_internal = 62135596800

-- `time.Unix(s, 0)` of an `int64`, in nanoseconds after 1970. The addition wraps around, so that the
-- last seconds of `int64` stand for times long past.
unfoldable pub unix : ℤ → ℤ
unix (pos s) =
    if ltb (s + unix_to_internal) (2 ^ 63)
    then pos (s * 10 ^ 9)
    else sub_ℕ (s * 10 ^ 9) (2 ^ 64 * 10 ^ 9)
unix (negsuc s) = negsuc (s * 10 ^ 9 + (10 ^ 9 - 1))

abbrev entries : Option (List Bytes) → List Bytes
entries none = []
entries (some es) = es

module _ (crypto : Crypto) (secret : Bytes) where
  open crypto use {decode, header_alg, payload, mac}

  -- The checks of a decoded payload, in their order.
  unfoldable pub check_payload : ℤ → ℤ → Payload → Verified
  check_payload now₁ now₂ p =
      let claims : Claims = record {
        subject = p.sub;
        expires_at = some (unix p.exp);
        channels = p.channels;
        publishes = p.publishes;
      } in
      if is_empty p.sub || leb_ℤ p.exp (pos 0)
      then err invalid_claims
      else if not (valid_entries (entries p.channels)) || not (valid_entries (entries p.publishes))
      then err invalid_claims
      else if ltb_ℤ (pos 0) p.nbf && ltb_ℤ now₁ (unix p.nbf)
      then err token_not_yet_valid
      else if not (ltb_ℤ now₂ (unix p.exp))
      then err token_expired
      else ok claims

  -- From the three decoded parts on: the header, the signature over the signed text, the payload.
  unfoldable pub check_parts : ℤ → ℤ → Bytes → Bytes → Bytes → Bytes → Verified
  check_parts now₁ now₂ signed header_raw payload_raw sig = elim (header_alg header_raw) [
    | none ↦ err malformed_token
    | some alg ↦
        if not (alg == codes "HS256")
        then err unsupported_alg
        else if not (sig == mac secret signed)
        then err bad_signature
        else elim (payload payload_raw) [
          | none ↦ err invalid_claims
          | some p ↦ check_payload now₁ now₂ p
        ]
  ]

  abbrev pub decode_all : Bytes → Bytes → Bytes → Option (Bytes × Bytes × Bytes)
  decode_all h p s = elim (decode h) [
    | none ↦ none
    | some header_raw ↦ elim (decode p) [
      | none ↦ none
      | some payload_raw ↦ elim (decode s) [
        | none ↦ none
        | some sig ↦ some (header_raw, payload_raw, sig)
      ]
    ]
  ]

  -- `Verify`; `now₁` and `now₂` are the clock at the tests of `nbf` and of `exp`.
  unfoldable pub verify : ℤ → ℤ → Bytes → Verified
  unfolding check_parts check_payload
  verify now₁ now₂ token =
      let (header64, rest, found₁) = cut dot token in
      let (payload64, sig64, found₂) = cut dot rest in
      if not found₁
      then err malformed_token
      else if not found₂ || contains sig64 dot
      then err malformed_token
      else elim (decode_all header64 payload64 sig64) [
        | none ↦ err malformed_token
        | some (header_raw, payload_raw, sig) ↦
            check_parts now₁ now₂ (take (length header64 + 1 + length payload64) token) header_raw
              payload_raw sig
      ]

-- `InsecureVerifier.Verify`
unfoldable pub insecure_verify : Bytes → Verified
insecure_verify token =
    ok
      (record { subject = codes "anonymous"; expires_at = none; channels = none; publishes = none })
