-- ===== src/Tests/Ciphers.antt =====
-- Envelopes, keys and encryption on concrete data.
use private_chat.Prelude.{◌≡◌, refl, true, none, some, ◌∷◌, arith, replicate}
use private_chat.Result.{ok}
use private_chat.Text.{Text, codes, is_b64url, is_b64url_char}
use private_chat.Text.Utf8.{pending}
use private_chat.Text.Utf8.Decoding.{IsWellFormed}
use private_chat.E2ee.Base64.{
  char_of, value_of, from_url, drop_spaces, drop_pad, values, join_sextets, decode_unpadded, atob,
  pad_to_four, base64_url_decode,
}
use private_chat.E2ee.Envelope.{
  is_valid_envelope, extract_message_id_b64, join_envelope, is_channel_id,
}
use private_chat.E2ee.Envelope.Parts.{Decodes, Opened, split-join_envelope}
use private_chat.E2ee.AesGcm.{aes_gcm_encrypt, aes_gcm_decrypt}
use private_chat.E2ee.AesGcm.RoundTrip.{encrypt-valid, decrypt-encrypt, decrypt-encrypt_bom}
use private_chat.Tests.Fixtures.{
  tagging, zeros, zeros-IsRandom, zero_key, room, iv_text, mid_text, envelope,
}

-- Zero bytes are the letter A.
iv-Decodes : Decodes iv_text (replicate 12 0)
unfolding is_b64url is_b64url_char char_of value_of from_url drop_spaces drop_pad values
    join_sextets decode_unpadded atob pad_to_four base64_url_decode
iv-Decodes = record { in_class = refl; decoded = refl }

mid-Decodes : Decodes mid_text (replicate 16 0)
unfolding is_b64url is_b64url_char char_of value_of from_url drop_spaces drop_pad values
    join_sextets decode_unpadded atob pad_to_four base64_url_decode
mid-Decodes = record { in_class = refl; decoded = refl }

envelope_opened : Opened envelope
unfolding join_envelope
envelope_opened = record {
  iv = iv_text;
  mid = mid_text;
  ct = mid_text;
  iv_bytes = replicate 12 0;
  mid_bytes = replicate 16 0;
  ct_bytes = replicate 16 0;
  parts =
      split-join_envelope iv_text mid_text mid_text iv-Decodes.in_class mid-Decodes.in_class
        mid-Decodes.in_class;
  iv_decodes = iv-Decodes;
  mid_decodes = mid-Decodes;
  ct_decodes = mid-Decodes;
  iv_length = refl;
  mid_length = refl;
  ct_length = omega arith;
}

hi-IsWellFormed : IsWellFormed (codes "hi")
unfolding pending
hi-IsWellFormed = record { narrow = omega arith; paired = refl }

bom_hi-IsWellFormed : IsWellFormed (0xfeff ∷ codes "hi")
unfolding pending
bom_hi-IsWellFormed = record { narrow = omega arith; paired = refl }

decrypt-encrypt_example :
    (out : Text) × (aes_gcm_encrypt tagging true zero_key room (codes "hi") none zeros ≡ ok out)
    × (aes_gcm_decrypt tagging true zero_key room out ≡ ok (codes "hi"))
decrypt-encrypt_example =
    decrypt-encrypt tagging zero_key room (codes "hi") none zeros zeros-IsRandom tt hi-IsWellFormed
      refl

decrypt-encrypt_bom_example :
    (out : Text) × (aes_gcm_encrypt tagging true zero_key room (0xfeff ∷ codes "hi") none zeros
      ≡ ok out)
    × (aes_gcm_decrypt tagging true zero_key room out ≡ ok (codes "hi"))
decrypt-encrypt_bom_example =
    decrypt-encrypt_bom tagging zero_key room (codes "hi") none zeros zeros-IsRandom tt
      bom_hi-IsWellFormed

sealed_hi :
    (out : Text) × (aes_gcm_encrypt tagging true zero_key room (codes "hi") none zeros ≡ ok out)
sealed_hi =
    let (out, e, _) =
      decrypt-encrypt tagging zero_key room (codes "hi") none zeros zeros-IsRandom tt
        hi-IsWellFormed refl in
    (out, e)

encrypt-valid_example :
    (is_valid_envelope sealed_hi.0 ≡ true)
    × (mid : Text) × (extract_message_id_b64 sealed_hi.0 ≡ some mid)
    × ((p : Text) → none ≡ some p → mid ≡ p)
encrypt-valid_example =
    encrypt-valid tagging zero_key room true (codes "hi") none zeros sealed_hi.0 zeros-IsRandom
      hi-IsWellFormed.narrow sealed_hi.1

room-is_channel_id : is_channel_id room ≡ true
unfolding is_channel_id is_b64url_char
room-is_channel_id = refl
