-- ===== src/Auth/Verify/Trust.antt =====
-- What a token that the verifier accepts has been checked for.
use gentis.Prelude.{
  ℤ, pos, Bytes, codes, bytes_Eq, bytes_eq_iff, ◌∷◌, ◌++◌, true, false, ◌≡◌, ◌↔◌, arith, some, ◌<ℤ◌,
  ◌≤ℤ◌, ◌+◌, is_empty, contains, nat_Eq, take, length, ◌⊎◌, inl, inr, Option-cases, ap₂, sym, ◌∙◌,
  append_assoc, length-append, take-append_length, bytes_eq_refl,
}
use gentis.Namespace.Name.{cut, cut_lem, cut-append}
use gentis.Auth.Claims.{Claims, valid_entries}
use gentis.Auth.Verify.{
  Crypto, Payload, ok, check_payload, check_parts, verify, unix, dot, entries, decode_all,
}

-- The payload may speak for the claims at the two readings of the clock.
pub record IsCurrent (now₁ now₂ : ℤ) (p : Payload) (c : Claims) : Type 0 where
  pub named : is_empty p.sub ≡ false
  pub positive : pos 0 <ℤ p.exp
  pub channels_valid : valid_entries (entries p.channels) ≡ true
  pub publishes_valid : valid_entries (entries p.publishes) ≡ true
  pub started : (p.nbf ≤ℤ pos 0) ⊎ (unix p.nbf ≤ℤ now₁)
  pub unexpired : now₂ <ℤ unix p.exp
  pub subject : c.subject ≡ p.sub
  pub expires : c.expires_at ≡ some (unix p.exp)
  pub channels : c.channels ≡ p.channels
  pub publishes : c.publishes ≡ p.publishes

module _ (crypto : Crypto) (secret : Bytes) (now₁ now₂ : ℤ) where
  open crypto use {decode, header_alg, payload, mac}

  check_payload_iff :
      (p : Payload) (c : Claims)
      → (check_payload crypto secret now₁ now₂ p ≡ ok c) ↔ IsCurrent now₁ now₂ p c
  unfolding check_payload
  check_payload_iff p c = (λ h. ground arith, λ h. ground arith)

  -- A token is three parts without dots; the third is the MAC of the first two as they stand in the
  -- token, the first says HS256, and the second speaks for the claims.
  pub record IsTrusted (token : Bytes) (c : Claims) : Type 0 where
    pub header64 : Bytes
    pub payload64 : Bytes
    pub sig64 : Bytes
    pub shape : token ≡ header64 ++ dot ∷ (payload64 ++ dot ∷ sig64)
    pub header_plain : contains header64 dot ≡ false
    pub payload_plain : contains payload64 dot ≡ false
    pub sig_plain : contains sig64 dot ≡ false
    pub header_raw : Bytes
    pub payload_raw : Bytes
    pub header_decodes : decode header64 ≡ some header_raw
    pub payload_decodes : decode payload64 ≡ some payload_raw
    pub alg : header_alg header_raw ≡ some (codes "HS256")
    pub signature : decode sig64 ≡ some (mac secret (header64 ++ dot ∷ payload64))
    pub content : Payload
    pub content_parses : payload payload_raw ≡ some content
    pub current : IsCurrent now₁ now₂ content c

  check_parts_inv :
      (signed header_raw payload_raw sig : Bytes) (c : Claims)
      → check_parts crypto secret now₁ now₂ signed header_raw payload_raw sig ≡ ok c
      → (p : Payload) × (header_alg header_raw ≡ some (codes "HS256"))
        × (sig ≡ mac secret signed)
        × (payload payload_raw ≡ some p)
        × (check_payload crypto secret now₁ now₂ p ≡ ok c)
  unfolding check_parts
  check_parts_inv signed header_raw payload_raw sig c h =
      elim (Option-cases (header_alg header_raw)) [
        | inl e ↦ ground arith
        | inr (alg, e) ↦ elim (Option-cases (payload payload_raw)) [
          | inl e' ↦ ground (arith, bytes_eq_iff alg (codes "HS256"))
          | inr (p, e') ↦ (
            p,
            ground (arith, bytes_eq_iff alg (codes "HS256")),
            ground (arith, bytes_eq_iff sig (mac secret signed)),
            e',
            ground arith,
          )
        ]
      ]

  decode_all_inv :
      (h64 p64 s64 h p s : Bytes)
      → decode_all crypto secret h64 p64 s64 ≡ some (h, p, s)
      → (decode h64 ≡ some h) × (decode p64 ≡ some p) × (decode s64 ≡ some s)
  decode_all_inv h64 p64 s64 h p s e = ground arith

  decode_all_ok :
      (h64 p64 s64 h p s : Bytes)
      → decode h64 ≡ some h
      → decode p64 ≡ some p
      → decode s64 ≡ some s
      → decode_all crypto secret h64 p64 s64 ≡ some (h, p, s)
  decode_all_ok h64 p64 s64 h p s dh dp ds = ground arith

  verify_inv :
      (token : Bytes) (c : Claims)
      → verify crypto secret now₁ now₂ token ≡ ok c
      → let (header64, rest, found₁) = cut dot token in
        let (payload64, sig64, found₂) = cut dot rest in
        (h p s : Bytes) × (found₁ ≡ true)
        × (found₂ ≡ true)
        × (contains sig64 dot ≡ false)
        × (decode_all crypto secret header64 payload64 sig64 ≡ some (h, p, s))
        × (check_parts crypto secret now₁ now₂
              (take (length header64 + 1 + length payload64) token)
              h
              p
              s
            ≡ ok c)
  unfolding verify
  verify_inv token c e =
      elim (Option-cases (
        decode_all crypto secret (cut dot token).0 (cut dot (cut dot token).1).0
          (cut dot (cut dot token).1).1)) [
            | inl n ↦ ground arith
            | inr ((h, p, s), d) ↦
                (h, p, s, ground arith, ground arith, ground arith, d, ground arith)
          ]

  -- The signed text is the token without its last part.
  signed_text :
      (h p s : Bytes) → take (length h + 1 + length p) (h ++ dot ∷ (p ++ dot ∷ s)) ≡ h ++ dot ∷ p
  signed_text h p s =
      ap₂ take size (sym (append_assoc h (dot ∷ p) (dot ∷ s)))
      ∙ take-append_length (h ++ dot ∷ p) (dot ∷ s)
    where
      size : length h + 1 + length p ≡ length (h ++ dot ∷ p)
      size = omega (arith, length-append h (dot ∷ p))

  verify→IsTrusted :
      (token : Bytes) (c : Claims) → verify crypto secret now₁ now₂ token ≡ ok c → IsTrusted token c
  verify→IsTrusted token c e =
      let (h, p, s, f₁, f₂, plain, decoded, accepted) = verify_inv token c e in
      let (dh, dp, ds) = decode_all_inv _ _ _ h p s decoded in
      let (content, alg, same, parsed, checked) = check_parts_inv _ h p s c accepted in
      let (plain₁, _, whole₁) = cut_lem dot token in
      let (plain₂, _, whole₂) = cut_lem dot (cut dot token).1 in
      let h64 = (cut dot token).0 in
      let p64 = (cut dot (cut dot token).1).0 in
      let s64 = (cut dot (cut dot token).1).1 in
      let whole : token ≡ h64 ++ dot ∷ (p64 ++ dot ∷ s64) = ground (arith, whole₁, whole₂) in
      record {
        header64 = h64;
        payload64 = p64;
        sig64 = s64;
        shape = whole;
        header_plain = plain₁;
        payload_plain = plain₂;
        sig_plain = plain;
        header_raw = h;
        payload_raw = p;
        header_decodes = dh;
        payload_decodes = dp;
        alg = alg;
        signature = cc (signed_text h64 p64 s64);
        content = content;
        content_parses = parsed;
        current = (check_payload_iff content c).0 checked;
      }

  check_parts_ok :
      (signed h p : Bytes) (content : Payload) (c : Claims)
      → header_alg h ≡ some (codes "HS256")
      → payload p ≡ some content
      → IsCurrent now₁ now₂ content c
      → check_parts crypto secret now₁ now₂ signed h p (mac secret signed) ≡ ok c
  unfolding check_parts
  check_parts_ok signed h p content c alg parsed current =
      let accepted = (check_payload_iff content c).1 current in
      ground (arith, bytes_eq_refl (mac secret signed))

  IsTrusted→verify :
      (token : Bytes) (c : Claims) → IsTrusted token c → verify crypto secret now₁ now₂ token ≡ ok c
  unfolding verify
  IsTrusted→verify token c t =
      let h = t.header64 in
      let p = t.payload64 in
      let e₁ : cut dot token ≡ (h, p ++ dot ∷ t.sig64, true) =
        rw t.shape (cut-append dot h (p ++ dot ∷ t.sig64) t.header_plain) in
      let e₂ = cut-append dot p t.sig64 t.payload_plain in
      let text : take (length h + 1 + length p) token ≡ h ++ dot ∷ p =
        rw t.shape (signed_text h p t.sig64) in
      let accepted =
        check_parts_ok (h ++ dot ∷ p) t.header_raw t.payload_raw t.content c t.alg t.content_parses
          t.current in
      let d = decode_all_ok h p t.sig64 _ _ _ t.header_decodes t.payload_decodes t.signature in
      let plain = t.sig_plain in ground arith

  -- `Verify` accepts a token with given claims exactly when the token is three parts signed under
  -- the secret with HS256, and its payload names a subject, has valid allowlists, has begun by the
  -- first reading of the clock, has not run out by the second, and says these claims. Both times are
  -- as `time.Unix` reads their seconds, which wraps around near the end of `int64`.
  pub verify_iff :
      (token : Bytes) (c : Claims)
      → (verify crypto secret now₁ now₂ token ≡ ok c) ↔ IsTrusted token c
  verify_iff token c = (verify→IsTrusted token c, IsTrusted→verify token c)
