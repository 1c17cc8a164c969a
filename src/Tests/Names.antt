-- ===== src/Tests/Names.antt =====
-- Wrapped room names and signed claims on concrete data.
use private_chat.Prelude.{◌≡◌, refl, true, none, some, [], arith}
use private_chat.Result.{ok}
use private_chat.Text.{Text, codes, trim, includes}
use private_chat.Text.Utf8.{pending}
use private_chat.Text.Utf8.Decoding.{IsWellFormed}
use private_chat.Json.Print.{stringify, quote, quote_from, quote_at, quote_unit}
use private_chat.Text.Decimal.{decimal}
use private_chat.E2ee.AesGcm.{Crypto, noop_crypto, aes_gcm_encrypt, aes_gcm_decrypt}
use private_chat.E2ee.AesGcm.RoundTrip.{decrypt-encrypt}
use private_chat.E2ee.Names.{wrap_room_name, unwrap_room_name, is_valid_room_name}
use private_chat.E2ee.Names.RoundTrip.{Seals, unwrap_room_name-wrap}
use private_chat.E2ee.Names.{is_valid_nick, unwrap_nick}
use private_chat.Identity.{Identity, wrap_signed_nick, verify_signed_nick}
use private_chat.Identity.RoundTrip.{unwrap-wrap_signed_nick}
use private_chat.Identity.Verified.{identity_of, generate_total}
use private_chat.Tests.Fixtures.{trusting, naturals, tagging, zeros, zeros-IsRandom, zero_key, room}

abbrev crypto : Crypto
crypto = record {
  encrypt = aes_gcm_encrypt tagging true zero_key room;
  decrypt = aes_gcm_decrypt tagging true zero_key room;
}

abbrev al : Identity
al = identity_of trusting []

abbrev team_json : Text
team_json = codes "{\"t\":\"room_name\",\"v\":1,\"name\":\"team\",\"initial\":true}"

team_json-IsWellFormed : IsWellFormed team_json
unfolding pending
team_json-IsWellFormed = record { narrow = omega arith; paired = refl }

team-Seals : Seals crypto zeros team_json
team-Seals =
    decrypt-encrypt tagging zero_key room team_json none zeros zeros-IsRandom tt
      team_json-IsWellFormed refl

unwrap_room_name-wrap_example :
    (c : Text) × (wrap_room_name naturals crypto (codes " team ") true zeros ≡ ok c)
    × (unwrap_room_name naturals crypto c ≡ ok (record { name = codes "team"; initial = true }))
unfolding trim is_valid_room_name includes stringify quote quote_from quote_at quote_unit decimal
unwrap_room_name-wrap_example =
    unwrap_room_name-wrap naturals crypto (codes " team ") true zeros (omega arith) refl team-Seals

unwrap-wrap_signed_nick_example :
    (c sig : Text) × (wrap_signed_nick naturals trusting al noop_crypto room (codes "Al") zeros
      ≡ ok c)
    × (unwrap_nick naturals noop_crypto c
        ≡ ok (record { nick = codes "Al"; pk = some al.pub_b64; sig = some sig }))
    × (verify_signed_nick trusting room (codes "Al") al.pub_b64 sig ≡ true)
unfolding is_valid_nick trim includes noop_crypto
unwrap-wrap_signed_nick_example =
    unwrap-wrap_signed_nick naturals trusting true [] al noop_crypto room (codes "Al") zeros
      (generate_total trusting []) refl (omega arith) (_, refl, refl)
