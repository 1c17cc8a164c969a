-- ===== src/E2ee/AesGcm/RoundTrip.antt =====
-- On `encrypt` and `decrypt` of `createAesGcmCrypto` in frontend/src/e2ee.ts.
use private_chat.Prelude.{
  ◌≤◌, ◌<◌, ◌≡◌, refl, ap, ◌∙◌, inl, inr, Bool, true, false, Option, none, some, ◌∷◌, arith,
  Option-cases, length,
}
use private_chat.Result.{ok, ◌>>=◌, or_throw, >>=-eq-ok, operation_failed}
use private_chat.Text.{Text}
use private_chat.Text.Utf8.{utf8_encode, utf8_decode}
use private_chat.Text.Utf8.Range.{IsUnits, utf8_encode-IsByte}
use private_chat.Text.Utf8.Decoding.{
  IsWellFormed, has_bom, utf8_decode-utf8_encode, utf8_decode-bom,
}
use private_chat.E2ee.Base64.{Bytes, IsBytes, base64_url_encode, base64_url_decode}
use private_chat.E2ee.Base64.RoundTrip.{base64_url_decode-encode}
use private_chat.E2ee.Base64.Shape.{base64_url_encode-is_b64url}
use private_chat.E2ee.Envelope.{is_valid_envelope, extract_message_id_b64, join_envelope}
use private_chat.E2ee.Envelope.Parts.{Decodes, Opened, join_envelope-valid, split-join_envelope}
use private_chat.E2ee.AesGcm.{
  Aead, RoomKey, Random, IsRandom, aad_text, choose_message_id, three_parts, aes_gcm_encrypt,
  aes_gcm_decrypt,
}

pub encode-Decodes : (bs : Bytes) → IsBytes bs → 0 < length bs → Decodes (base64_url_encode bs) bs
encode-Decodes bs h k = record {
  in_class = base64_url_encode-is_b64url bs h k;
  decoded = base64_url_decode-encode bs h;
}

-- The message id that `encrypt` takes: 16 bytes, and the preset one if there is one.
pub record Chosen (preset : Option Text) (mid : Text) : Type 0 where
  pub bytes : Bytes
  pub decodes : Decodes mid bytes
  pub count : length bytes ≡ 16
  pub preset_kept : (p : Text) → preset ≡ some p → mid ≡ p

pub choose-Chosen :
    (preset : Option Text) (r : Random) (mid : Text)
    → IsRandom r
    → choose_message_id preset r.message_id ≡ ok mid
    → Chosen preset mid
unfolding choose_message_id
choose-Chosen none r mid h e = record {
  bytes = r.message_id;
  decodes =
      ground (
        arith,
        encode-Decodes r.message_id h.message_id_bytes (omega (arith, h.message_id_length)),
      );
  count = h.message_id_length;
  preset_kept = λ p k. cc;
}
choose-Chosen (some preset) r mid h e = elim (Option-cases (base64_url_decode preset)) [
  | inl f ↦ absurd (ground arith)
  | inr (bs, f) ↦ record {
    bytes = bs;
    decodes = record { in_class = ground arith; decoded = ground arith };
    count = ground arith;
    preset_kept = λ p k. ground arith;
  }
]

module _ (aead : Aead) (key : RoomKey) (channel_id : Text) where
  -- The three parts of what `encrypt` returns.
  pub record Sealed (plain : Text) (preset : Option Text) (r : Random) (out : Text) : Type 0 where
    pub mid : Text
    pub plain_bytes : IsBytes (utf8_encode plain)
    pub chosen : Chosen preset mid
    pub chosen_from : choose_message_id preset r.message_id ≡ ok mid
    pub ct : Bytes
    pub sealed :
        ct ≡ aead.seal key.raw r.iv (utf8_encode (aad_text channel_id mid)) (utf8_encode plain)
    pub joined : out ≡ join_envelope (base64_url_encode r.iv) mid (base64_url_encode ct)

  pub encrypt-Sealed :
      (available : Bool) (plain : Text) (preset : Option Text) (r : Random) (out : Text)
      → IsRandom r
      → IsUnits plain
      → aes_gcm_encrypt aead available key channel_id plain preset r ≡ ok out
      → Sealed plain preset r out
  unfolding aes_gcm_encrypt
  encrypt-Sealed false plain preset r out h u e = cc
  encrypt-Sealed true plain preset r out h u e =
      let (mid, chosen, rest) = >>=-eq-ok (choose_message_id preset r.message_id) _ e in
      record {
        mid = mid;
        plain_bytes = utf8_encode-IsByte plain u;
        chosen = choose-Chosen preset r mid h chosen;
        chosen_from = chosen;
        ct = aead.seal key.raw r.iv (utf8_encode (aad_text channel_id mid)) (utf8_encode plain);
        sealed = refl;
        joined = ground arith;
      }

  module _ (plain : Text) (preset : Option Text) (r : Random) (out : Text) (h : IsRandom r)
      (s : Sealed plain preset r out) where
    sealed-IsBytes : IsBytes s.ct
    sealed-IsBytes = rw s.sealed (aead.seal-IsBytes _ _ _ _ s.plain_bytes)

    sealed_length : 16 ≤ length s.ct
    sealed_length = rw s.sealed (
        omega (
          arith,
          aead.length-seal key.raw r.iv (utf8_encode (aad_text channel_id s.mid))
              (utf8_encode plain),
        ))

    ct-Decodes : Decodes (base64_url_encode s.ct) s.ct
    ct-Decodes = encode-Decodes s.ct sealed-IsBytes (omega (arith, sealed_length))

    iv-Decodes : Decodes (base64_url_encode r.iv) r.iv
    iv-Decodes = encode-Decodes r.iv h.iv_bytes (omega (arith, h.iv_length))

    sealed-valid : (is_valid_envelope out ≡ true) × (extract_message_id_b64 out ≡ some s.mid)
    sealed-valid = rw s.joined (
        join_envelope-valid (base64_url_encode r.iv) s.mid (base64_url_encode s.ct) r.iv
          s.chosen.bytes s.ct iv-Decodes s.chosen.decodes ct-Decodes h.iv_length s.chosen.count
          sealed_length)

    sealed-Opened : Opened out
    sealed-Opened = record {
      iv = base64_url_encode r.iv;
      mid = s.mid;
      ct = base64_url_encode s.ct;
      iv_bytes = r.iv;
      mid_bytes = s.chosen.bytes;
      ct_bytes = s.ct;
      parts = rw s.joined (
          split-join_envelope (base64_url_encode r.iv) s.mid (base64_url_encode s.ct)
            iv-Decodes.in_class s.chosen.decodes.in_class ct-Decodes.in_class);
      iv_decodes = iv-Decodes;
      mid_decodes = s.chosen.decodes;
      ct_decodes = ct-Decodes;
      iv_length = h.iv_length;
      mid_length = s.chosen.count;
      ct_length = sealed_length;
    }

  -- On an envelope that opens into its three parts, decrypt fails only if AES-GCM refuses, and
  -- gives the decoded plaintext otherwise; the additional data are those of this channel and of the
  -- envelope's message id.
  pub decrypt-Opened :
      (payload : Text) (o : Opened payload)
      → aes_gcm_decrypt aead true key channel_id payload ≡ (
          or_throw
            (aead.unseal key.raw o.iv_bytes (utf8_encode (aad_text channel_id o.mid)) o.ct_bytes)
            operation_failed
          >>= λ plain. ok (utf8_decode plain))
  unfolding aes_gcm_decrypt three_parts
  decrypt-Opened payload o = rw (
    o.parts, o.iv_decodes.decoded, o.mid_decodes.decoded, o.iv_length, o.mid_length,
    o.ct_decodes.decoded,
  )

  decrypt-Sealed :
      (plain : Text) (preset : Option Text) (r : Random) (out : Text)
      → IsRandom r
      → Sealed plain preset r out
      → aes_gcm_decrypt aead true key channel_id out ≡ ok (utf8_decode (utf8_encode plain))
  unfolding sealed-Opened
  decrypt-Sealed plain preset r out h s =
      decrypt-Opened out (sealed-Opened plain preset r out h s)
      ∙ ap (λ (m : Option Bytes). or_throw m operation_failed >>= λ bytes. ok (utf8_decode bytes))
          back
    where
      aad : Bytes
      aad = utf8_encode (aad_text channel_id s.mid)

      back : aead.unseal key.raw r.iv aad s.ct ≡ some (utf8_encode plain)
      back =
          ap (aead.unseal key.raw r.iv aad) s.sealed
          ∙ aead.unseal-seal key.raw r.iv aad (utf8_encode plain) s.plain_bytes

  -- Whatever encrypt returns for a string is a valid envelope, and the message id read from it is
  -- the preset one if there is one.
  pub encrypt-valid :
      (available : Bool) (plain : Text) (preset : Option Text) (r : Random) (out : Text)
      → IsRandom r
      → IsUnits plain
      → aes_gcm_encrypt aead available key channel_id plain preset r ≡ ok out
      → (is_valid_envelope out ≡ true)
        × (mid : Text) × (extract_message_id_b64 out ≡ some mid)
        × ((p : Text) → preset ≡ some p → mid ≡ p)
  encrypt-valid available plain preset r out h u e =
      let s = encrypt-Sealed available plain preset r out h u e in
      let (valid, extracted) = sealed-valid plain preset r out h s in
      (valid, s.mid, extracted, s.chosen.preset_kept)

  -- With no preset the message id of an envelope is made of the bytes drawn.
  pub extract-encrypt :
      (available : Bool) (plain : Text) (r : Random) (out : Text)
      → IsRandom r
      → IsUnits plain
      → aes_gcm_encrypt aead available key channel_id plain none r ≡ ok out
      → extract_message_id_b64 out ≡ some (base64_url_encode r.message_id)
  unfolding choose_message_id
  extract-encrypt available plain r out h u e =
      let s = encrypt-Sealed available plain none r out h u e in
      let (_, extracted) = sealed-valid plain none r out h s in
      let drawn : s.mid ≡ base64_url_encode r.message_id = ground (arith, s.chosen_from) in
      extracted ∙ ap some drawn

  -- A preset that `encrypt` takes.
  abbrev pub IsPreset : Option Text → Type 0
  IsPreset none = Unit {0}
  IsPreset (some p) = (bytes : Bytes) × Decodes p bytes × (length bytes ≡ 16)

  choose_total :
      (preset : Option Text) (r : Random)
      → IsPreset preset
      → (mid : Text) × (choose_message_id preset r.message_id ≡ ok mid)
  unfolding choose_message_id
  choose_total none r h = (base64_url_encode r.message_id, refl)
  choose_total (some p) r (bytes, d, n) = (p, ground (arith, d.in_class, d.decoded))

  encrypt_total :
      (plain : Text) (preset : Option Text) (r : Random)
      → IsPreset preset
      → (out : Text) × (aes_gcm_encrypt aead true key channel_id plain preset r ≡ ok out)
  unfolding aes_gcm_encrypt
  encrypt_total plain preset r h =
      let (mid, e) = choose_total preset r h in
      let ct = aead.seal key.raw r.iv (utf8_encode (aad_text channel_id mid)) (utf8_encode plain) in
      (join_envelope (base64_url_encode r.iv) mid (base64_url_encode ct), rw e)

  -- With Web Crypto at hand, and a preset message id that decodes to 16 bytes or none, encrypt
  -- succeeds, and decrypt with the same key and channel gives back any well-formed plaintext that
  -- does not begin with a byte order mark.
  pub decrypt-encrypt :
      (plain : Text) (preset : Option Text) (r : Random)
      → IsRandom r
      → IsPreset preset
      → IsWellFormed plain
      → has_bom plain ≡ false
      → (out : Text) × (aes_gcm_encrypt aead true key channel_id plain preset r ≡ ok out)
        × (aes_gcm_decrypt aead true key channel_id out ≡ ok plain)
  decrypt-encrypt plain preset r h k w b =
      let (out, e) = encrypt_total plain preset r k in
      let s = encrypt-Sealed true plain preset r out h w.narrow e in
      (out, e, decrypt-Sealed plain preset r out h s ∙ ap ok (utf8_decode-utf8_encode plain w b))

  -- A byte order mark in front of a well-formed plaintext is lost on the way through encrypt and
  -- decrypt.
  pub decrypt-encrypt_bom :
      (plain : Text) (preset : Option Text) (r : Random)
      → IsRandom r
      → IsPreset preset
      → IsWellFormed (0xfeff ∷ plain)
      → (out : Text) × (aes_gcm_encrypt aead true key channel_id (0xfeff ∷ plain) preset r ≡ ok out)
        × (aes_gcm_decrypt aead true key channel_id out ≡ ok plain)
  decrypt-encrypt_bom plain preset r h k w =
      let (out, e) = encrypt_total (0xfeff ∷ plain) preset r k in
      let s = encrypt-Sealed true (0xfeff ∷ plain) preset r out h w.narrow e in
      (out, e, decrypt-Sealed (0xfeff ∷ plain) preset r out h s ∙ ap ok (utf8_decode-bom plain w))
