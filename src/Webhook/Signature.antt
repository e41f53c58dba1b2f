-- ===== src/Webhook/Signature.antt =====
-- internal/webhook/verify.go: `VerifySignature` against a description of what it accepts.
use autoscaler.Common.{Option-cases, arith, inl, inr, refl, some, true, ◌++◌, ◌↔◌, ◌≡◌}
use autoscaler.Env.{Env}
use autoscaler.Text.{Bytes, codes, hex_decode, hex_encode, strip_prefix}
use autoscaler.Text.Equality.{bytes_eq_refl, eq_of_bytes_eq}
use autoscaler.Text.Laws.{IsBytes, hex_decode-encode, strip_prefix-append, strip_prefix-some}
use autoscaler.Webhook.{verify_signature}

-- The header is `sha256=` and a hexadecimal text of the HMAC of the body under the secret.
pub record Signs (e : Env) (body header secret : Bytes) : Type 0 where
  pub digest : Bytes
  pub spelled : header ≡ codes "sha256=" ++ digest
  pub decoded : hex_decode digest ≡ some (e.hmac_sha256 secret body)

module _ (e : Env) (body header secret : Bytes) where
  verify-Signs : verify_signature e body header secret ≡ true → Signs e body header secret
  unfolding verify_signature
  verify-Signs h = elim (Option-cases (strip_prefix (codes "sha256=") header)) [
    | inl none_left ↦ ground arith
    | inr (digest, left) ↦ elim (Option-cases (hex_decode digest)) [
      | inl bad ↦ ground arith
      | inr (got, good) ↦ record {
        digest = digest;
        spelled = strip_prefix-some (codes "sha256=") header left;
        decoded = ground (arith, eq_of_bytes_eq got (e.hmac_sha256 secret body));
      }
    ]
  ]

  Signs-verify : Signs e body header secret → verify_signature e body header secret ≡ true
  unfolding verify_signature
  Signs-verify s = ground (
    arith,
    s.spelled,
    strip_prefix-append (codes "sha256=") s.digest,
    s.decoded,
    bytes_eq_refl (e.hmac_sha256 secret body),
  )

  -- VerifySignature accepts a header exactly if it is sha256= followed by a text that decodes
  -- to the HMAC-SHA256 of the body under the secret.
  pub verify_signature_iff :
      (verify_signature e body header secret ≡ true) ↔ Signs e body header secret
  verify_signature_iff = (verify-Signs, Signs-verify)

-- The header that GitHub makes, `sha256=` and the HMAC in lower-case hexadecimal, is accepted,
-- where the HMAC is a list of bytes.
pub verify-signed :
    (e : Env) (body secret : Bytes)
    → IsBytes (e.hmac_sha256 secret body)
    → verify_signature e body (codes "sha256=" ++ hex_encode (e.hmac_sha256 secret body)) secret
      ≡ true
verify-signed e body secret h =
    Signs-verify e body (codes "sha256=" ++ hex_encode (e.hmac_sha256 secret body)) secret (record {
      digest = hex_encode (e.hmac_sha256 secret body);
      spelled = refl;
      decoded = hex_decode-encode (e.hmac_sha256 secret body) h;
    })
