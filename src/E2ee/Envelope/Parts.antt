-- ===== src/E2ee/Envelope/Parts.antt =====
-- On the three parts of an envelope, as `isValidEnvelope` of frontend/src/e2ee.ts reads them.
use private_chat.Prelude.{
  ℕ, ◌≤◌, ◌≡◌, refl, ap, inl, inr, Bool, true, false, some, List, [], ◌∷◌, ◌++◌, arith, leb, ◌==◌,
  Bool-cases, Option-cases, length, all,
}
use private_chat.Text.{Text, includes, split, is_truthy, is_b64url, is_b64url_char}
use private_chat.Text.Laws.{split_none, split_first}
use private_chat.E2ee.Base64.{Bytes, base64_url_decode}
use private_chat.E2ee.Envelope.{
  join_envelope, decoded_length, parts_valid, is_valid_envelope, or_null, second_part,
  extract_message_id_b64,
}

-- A code unit outside the class does not occur in a text of the class.
pub all_class-includes :
    (c : ℕ) (s : Text)
    → is_b64url_char c ≡ false
    → all is_b64url_char s ≡ true
    → includes c s ≡ false
unfolding includes
all_class-includes c [] n h = refl
all_class-includes c (d ∷ s) n h = elim (Bool-cases (d == c)) [
  | inl same ↦ let e : d ≡ c = ground arith in absurd (ground (arith, e, ap is_b64url_char e))
  | inr other ↦ rw other (all_class-includes c s n (ground arith))
]

dot_out : is_b64url_char b'.' ≡ false
unfolding is_b64url_char
dot_out = refl

pub bar_out : is_b64url_char b'|' ≡ false
unfolding is_b64url_char
bar_out = refl

pub all_of_is_b64url : (s : Text) → is_b64url s ≡ true → all is_b64url_char s ≡ true
unfolding is_b64url
all_of_is_b64url s h = ground arith

pub no_dot : (s : Text) → is_b64url s ≡ true → includes b'.' s ≡ false
no_dot s h = all_class-includes b'.' s dot_out (all_of_is_b64url s h)

pub split-join_envelope :
    (iv mid ct : Text)
    → is_b64url iv ≡ true
    → is_b64url mid ≡ true
    → is_b64url ct ≡ true
    → split b'.' (join_envelope iv mid ct) ≡ iv ∷ mid ∷ ct ∷ []
unfolding join_envelope
split-join_envelope iv mid ct h k l =
    rw
      (
        split_first b'.' iv (mid ++ b'.' ∷ ct) (no_dot iv h),
        split_first b'.' mid ct (no_dot mid k),
        split_none b'.' ct (no_dot ct l),
      )
      refl

-- A part of the class that decodes to a number of bytes.
pub record Decodes (s : Text) (bytes : Bytes) : Type 0 where
  pub in_class : is_b64url s ≡ true
  pub decoded : base64_url_decode s ≡ some bytes

truthy_of_class : (s : Text) → is_b64url s ≡ true → is_truthy s ≡ true
unfolding is_b64url
truthy_of_class s h = ground arith

or_null_truthy : (s : Text) → is_truthy s ≡ true → or_null s ≡ some s
or_null_truthy [] e = cc
or_null_truthy (d ∷ s) e = refl

-- The envelope of three parts of the class that decode to 12, 16 and at least 16 bytes is valid,
-- and its message id is the second part.
pub join_envelope-valid :
    (iv mid ct : Text) (iv' mid' ct' : Bytes)
    → Decodes iv iv'
    → Decodes mid mid'
    → Decodes ct ct'
    → length iv' ≡ 12
    → length mid' ≡ 16
    → 16 ≤ length ct'
    → (is_valid_envelope (join_envelope iv mid ct) ≡ true)
      × (extract_message_id_b64 (join_envelope iv mid ct) ≡ some mid)
unfolding is_valid_envelope extract_message_id_b64 parts_valid second_part
join_envelope-valid iv mid ct iv' mid' ct' a b c h k l =
    rw (split-join_envelope iv mid ct a.in_class b.in_class c.in_class) (
      ground (
        arith,
        truthy_of_class iv a.in_class,
        truthy_of_class mid b.in_class,
        truthy_of_class ct c.in_class,
        a.decoded,
        b.decoded,
        c.decoded,
      ),
      or_null_truthy mid (truthy_of_class mid b.in_class),
    )

-- What a valid envelope is made of.
pub record Opened (payload : Text) : Type 0 where
  pub iv : Text
  pub mid : Text
  pub ct : Text
  pub iv_bytes : Bytes
  pub mid_bytes : Bytes
  pub ct_bytes : Bytes
  pub parts : split b'.' payload ≡ iv ∷ mid ∷ ct ∷ []
  pub iv_decodes : Decodes iv iv_bytes
  pub mid_decodes : Decodes mid mid_bytes
  pub ct_decodes : Decodes ct ct_bytes
  pub iv_length : length iv_bytes ≡ 12
  pub mid_length : length mid_bytes ≡ 16
  pub ct_length : 16 ≤ length ct_bytes

decoded_length-inv :
    (s : Text) (test : ℕ → Bool)
    → decoded_length s test ≡ true
    → (bs : Bytes) × (base64_url_decode s ≡ some bs) × (test (length bs) ≡ true)
decoded_length-inv s test h = elim (Option-cases (base64_url_decode s)) [
  | inl e ↦ absurd (ground arith)
  | inr (bs, e) ↦ (bs, e, ground arith)
]

parts_valid-Opened :
    (payload : Text) (ps : List Text)
    → split b'.' payload ≡ ps
    → parts_valid ps ≡ true
    → Opened payload
unfolding parts_valid
parts_valid-Opened payload [] e h = cc
parts_valid-Opened payload (a ∷ []) e h = cc
parts_valid-Opened payload (a ∷ b ∷ []) e h = cc
parts_valid-Opened payload (a ∷ b ∷ c ∷ d ∷ ps) e h = cc
parts_valid-Opened payload (iv ∷ mid ∷ ct ∷ []) e h =
    let (iv_bytes, iv_decoded, iv_test) = decoded_length-inv iv (λ n. n == 12) (ground arith) in
    let (mid_bytes, mid_decoded, mid_test) = decoded_length-inv mid (λ n. n == 16) (ground arith) in
    let (ct_bytes, ct_decoded, ct_test) = decoded_length-inv ct (λ n. leb 16 n) (ground arith) in
    record {
      iv = iv;
      mid = mid;
      ct = ct;
      iv_bytes = iv_bytes;
      mid_bytes = mid_bytes;
      ct_bytes = ct_bytes;
      parts = e;
      iv_decodes = record { in_class = ground arith; decoded = iv_decoded };
      mid_decodes = record { in_class = ground arith; decoded = mid_decoded };
      ct_decodes = record { in_class = ground arith; decoded = ct_decoded };
      iv_length = ground arith;
      mid_length = ground arith;
      ct_length = ground arith;
    }

pub valid-Opened : (payload : Text) → is_valid_envelope payload ≡ true → Opened payload
unfolding is_valid_envelope
valid-Opened payload h = parts_valid-Opened payload (split b'.' payload) refl h

-- A valid envelope has a message id.
pub extract-Opened :
    (payload : Text) (o : Opened payload) → extract_message_id_b64 payload ≡ some o.mid
unfolding extract_message_id_b64 second_part
extract-Opened payload o =
    rw o.parts (or_null_truthy o.mid (truthy_of_class o.mid o.mid_decodes.in_class))
