-- ===== src/Identity/Verified.antt =====
-- What an identity of frontend/src/identity.ts signs, verifies under its public key.
use private_chat.Prelude.{◌≡◌, refl, Bool, true, false, arith}
use private_chat.Result.{ok}
use private_chat.Text.{Text, is_b64url}
use private_chat.Text.Utf8.{utf8_encode}
use private_chat.E2ee.Base64.{Bytes, base64_url_encode}
use private_chat.E2ee.Base64.RoundTrip.{base64_url_decode-encode}
use private_chat.E2ee.Base64.Shape.{length-base64_url_encode, base64_url_encode-is_b64url}
use private_chat.E2ee.Envelope.{is_room_key_b64}
use private_chat.Identity.{
  Signing, Identity, is_identity_pub_b64, fp_of, generate_identity, sign_identity, verify_decoded,
  verify_identity,
}

module _ (S : Signing) where
  public_class : (k : Bytes) → is_b64url (base64_url_encode (S.public_of k)) ≡ true
  public_class k =
      base64_url_encode-is_b64url (S.public_of k) (S.public_of-IsBytes k)
        (omega (arith, S.length-public_of k))

  pub public-is_identity_pub_b64 :
      (k : Bytes) → is_identity_pub_b64 (base64_url_encode (S.public_of k)) ≡ true
  unfolding is_identity_pub_b64 is_room_key_b64 is_b64url
  public-is_identity_pub_b64 k =
      let n = length-base64_url_encode (S.public_of k) (S.public_of-IsBytes k) in
      let l = S.length-public_of k in let class = public_class k in ground arith

  pub sign-is_b64url : (k : Bytes) (d : Text) → is_b64url (sign_identity S k d) ≡ true
  unfolding sign_identity
  sign-is_b64url k d =
      base64_url_encode-is_b64url (S.sign k (utf8_encode d)) (S.sign-IsBytes k (utf8_encode d))
        (omega (arith, S.length-sign k (utf8_encode d)))

  -- What an identity signs verifies under its public key.
  pub verify_identity-sign :
      (k : Bytes) (d : Text)
      → verify_identity S (base64_url_encode (S.public_of k)) (sign_identity S k d) d ≡ true
  unfolding verify_identity verify_decoded sign_identity
  verify_identity-sign k d =
      let e = utf8_encode d in
      rw
        (
          public-is_identity_pub_b64 k,
          sign-is_b64url k d,
          base64_url_decode-encode (S.sign k e) (S.sign-IsBytes k e),
          base64_url_decode-encode (S.public_of k) (S.public_of-IsBytes k),
          S.length-sign k e,
          S.verify-sign k e,
        )
        refl

  abbrev pub identity_of : Bytes → Identity
  identity_of k =
      let pub_b64 = base64_url_encode (S.public_of k) in
      record { private_key = k; pub_b64 = pub_b64; fp = fp_of pub_b64 }

  -- With Web Crypto at hand an identity is always generated.
  pub generate_total : (k : Bytes) → generate_identity S true k ≡ ok (identity_of k)
  unfolding generate_identity
  generate_total k = rw (public-is_identity_pub_b64 k) refl

  pub generate-identity_of :
      (available : Bool) (k : Bytes) (identity : Identity)
      → generate_identity S available k ≡ ok identity
      → identity ≡ identity_of k
  unfolding generate_identity
  generate-identity_of true k identity h = cc (generate_total k, h)
  generate-identity_of false k identity h = cc
