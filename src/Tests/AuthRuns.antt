-- ===== src/Tests/AuthRuns.antt =====
-- Tokens and claims at concrete inputs (internal/auth).
use gentis.Prelude.{ltb_ℤ, ◌^◌, ◌-◌, pos, codes, [], ◌∷◌, ◌++◌, none, some, true, ◌≡◌, ◌↔◌, refl}
use gentis.Pattern.{match}
use gentis.Auth.Claims.{Claims, valid_entry, valid_entries, match_pattern}
use gentis.Namespace.Name.{cut}
use gentis.Auth.Verify.{unix, Crypto, ok, verify}
use gentis.Auth.Verify.Trust.{IsTrusted, verify_iff}
use gentis.Auth.Grants.{match_pattern-match}

-- An encoding that is the identity, one known header, and a MAC that puts the key in front.
abbrev toy : Crypto
toy = record {
  decode = λ s. some s;
  header_alg = λ s. some (codes "HS256");
  payload = λ s. some (record {
    sub = s;
    exp = pos 10;
    nbf = pos 0;
    channels = some (codes "a*" ∷ []);
    publishes = none;
  });
  mac = λ key s. key ++ codes "-";
}

abbrev ann : Claims
ann = record {
  subject = codes "ann";
  expires_at = some (pos 10000000000);
  channels = some (codes "a*" ∷ []);
  publishes = none;
}

verify-ann : verify toy (codes "k") (pos 5) (pos 5) (codes "h.ann.k-") ≡ ok ann
unfolding verify cut valid_entries valid_entry unix
verify-ann = refl

-- The last second of `int64` lies before 1970.
unix_wraps : ltb_ℤ (unix (pos (2 ^ 63 - 1))) (pos 0) ≡ true
unfolding unix
unix_wraps = refl

verify_iff_example :
    (verify toy (codes "k") (pos 5) (pos 5) (codes "h.ann.k-") ≡ ok ann)
    ↔ IsTrusted toy (codes "k") (pos 5) (pos 5) (codes "h.ann.k-") ann
verify_iff_example = verify_iff toy (codes "k") (pos 5) (pos 5) (codes "h.ann.k-") ann

entry_valid : valid_entry (codes "room.*") ≡ true
unfolding valid_entry
entry_valid = refl

match_pattern-match_example :
    match (codes "room.*") (codes "room.1") ≡ some (match_pattern (codes "room.*") (codes "room.1"))
match_pattern-match_example = match_pattern-match (codes "room.*") (codes "room.1") entry_valid
