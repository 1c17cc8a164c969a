-- ===== src/Tests/Fixtures.antt =====
-- Stand-ins for the platform: numbers that are naturals, a cipher that only appends its tag, signatures
-- that always verify, handlers that do nothing; and a room to run them in.
use private_chat.Prelude.{
  ℕ, ◌-◌, ◌<◌, ◌≡◌, refl, ap, true, false, some, ◌∷◌, ◌++◌, arith, ltb, ◌==◌, length, length-append,
  take, replicate, take-length-append, All-append,
}
use private_chat.Text.{Text, codes}
use private_chat.Text.Decimal.{decimal, value, value-decimal}
use private_chat.Json.{Numbers}
use private_chat.E2ee.Base64.{Bytes, IsBytes}
use private_chat.E2ee.AesGcm.{
  Aead, RoomKey, Random, IsRandom, Crypto, aes_gcm_encrypt, aes_gcm_decrypt,
}
use private_chat.Identity.{Signing}
use private_chat.Transport.{Transport, Handlers, create}
use private_chat.Transport.Invariant.{IsPassive, IsValid, create-IsValid}
use private_chat.Channel.{ChannelStore, new_store}

abbrev pub naturals : Numbers
naturals = record {
  Number = ℕ;
  of_literal = value;
  to_literal = decimal;
  of_nat = λ n. n;
  equal = λ m n. m == n;
  less = ltb;
  to_literal-of_nat = λ n h. refl;
  of_literal-decimal = λ n h. value-decimal n;
  equal-of_nat = λ m n h k. refl;
  less-of_nat = λ m n h k. refl;
}

abbrev pub tag : Bytes
tag = replicate 16 0

pub tag-IsBytes : IsBytes tag
tag-IsBytes = omega arith

pub take_plain : (p : Bytes) → take (length (p ++ tag) - 16) (p ++ tag) ≡ p
take_plain p =
    let n : length (p ++ tag) - 16 ≡ length p = omega (arith, length-append p tag) in
    rw n (take-length-append p tag)

abbrev pub tagging : Aead
tagging = record {
  seal = λ key iv aad plain. plain ++ tag;
  unseal = λ key iv aad ct. some (take (length ct - 16) ct);
  unseal-seal = λ key iv aad plain h. ap some (take_plain plain);
  length-seal = λ key iv aad plain. length-append plain tag;
  seal-IsBytes = λ key iv aad plain h. All-append (λ b. b < 256) plain tag h tag-IsBytes;
}

abbrev pub trusting : Signing
trusting = record {
  public_of = λ k. replicate 32 0;
  sign = λ k d. replicate 64 0;
  verify = λ key sig d. some true;
  verify-sign = λ k d. refl;
  length-sign = λ k d. refl;
  sign-IsBytes = λ k d. omega arith;
  length-public_of = λ k. refl;
  public_of-IsBytes = λ k. omega arith;
}

abbrev pub idle_handlers : Handlers
idle_handlers = record { on_status = λ s w. w; on_message = λ d w. w; send_throws = λ d. false }

pub idle_handlers-IsPassive : IsPassive idle_handlers
idle_handlers-IsPassive = record { on_status_lem = λ s w. refl; on_message_lem = λ d w. refl }

abbrev pub zeros : Random
zeros = record { iv = replicate 12 0; message_id = replicate 16 0 }

pub zeros-IsRandom : IsRandom zeros
zeros-IsRandom = record {
  iv_length = refl;
  iv_bytes = omega arith;
  message_id_length = refl;
  message_id_bytes = omega arith;
}

abbrev pub zero_key : RoomKey
zero_key = record { raw = replicate 32 0; extractable = true }

abbrev pub room : Text
room = codes "room"

-- 12, 16 and 16 zero bytes.
abbrev pub iv_text : Text
iv_text = replicate 16 b'A'

abbrev pub mid_text : Text
mid_text = replicate 22 b'A'

abbrev pub envelope : Text
envelope = iv_text ++ b'.' ∷ (mid_text ++ b'.' ∷ mid_text)

abbrev pub room_crypto : Crypto
room_crypto = record {
  encrypt = aes_gcm_encrypt tagging true zero_key room;
  decrypt = aes_gcm_decrypt tagging true zero_key room;
}

abbrev pub room_store : ChannelStore ℕ
room_store = new_store room room_crypto

-- A new transport, and one with socket 0.
abbrev pub fresh_link : Transport
fresh_link = create true 500 30000

abbrev pub linked : Transport
linked = record fresh_link { ws = some 0; should_reconnect = true; next_socket = 1 }

pub linked-IsValid : IsValid linked
unfolding create
linked-IsValid =
    let v = create-IsValid true 500 30000 in
    record { bounded = v.bounded; one_timer = v.one_timer; wanted = λ e. refl }
