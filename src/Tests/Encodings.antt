-- ===== src/Tests/Encodings.antt =====
-- Base64, UTF-8 and the replay cache on concrete data.
use private_chat.Prelude.{◌≡◌, refl, true, some, [], ◌∷◌, ◌++◌, arith, all}
use private_chat.Text.{Text, codes, is_b64url_char}
use private_chat.Text.Utf8.{pending}
use private_chat.Text.Utf8.Decoding.{IsWellFormed}
use private_chat.E2ee.Base64.{base64_url_encode, base64_url_decode}
use private_chat.E2ee.Base64.RoundTrip.{base64_url_decode-encode}
use private_chat.E2ee.ReplayCache.{create}
use private_chat.E2ee.ReplayCache.Fifo.{create-IsValid}
use private_chat.E2ee.ReplayCache.Memory.{add_all, accepted, last_of, queue-add_all}

base64_url_decode-encode_example :
    base64_url_decode (base64_url_encode (1 ∷ 255 ∷ 62 ∷ 7 ∷ [])) ≡ some (1 ∷ 255 ∷ 62 ∷ 7 ∷ [])
base64_url_decode-encode_example = base64_url_decode-encode (1 ∷ 255 ∷ 62 ∷ 7 ∷ []) (omega arith)

dashes_class : all is_b64url_char (codes "-_8") ≡ true
unfolding is_b64url_char
dashes_class = refl

-- "é", a rocket as a surrogate pair, and "!".
abbrev rocket : Text
rocket = 0xe9 ∷ 0xd83d ∷ 0xde80 ∷ b'!' ∷ []

rocket-IsWellFormed : IsWellFormed rocket
unfolding pending
rocket-IsWellFormed = record { narrow = omega arith; paired = refl }

queue-add_all_example :
    (add_all (create 2) (codes "a" ∷ codes "b" ∷ codes "a" ∷ codes "c" ∷ [])).queue
    ≡ last_of (create 2).max (
        (create 2).queue
        ++ accepted (create 2) (codes "a" ∷ codes "b" ∷ codes "a" ∷ codes "c" ∷ []))
queue-add_all_example =
    queue-add_all (codes "a" ∷ codes "b" ∷ codes "a" ∷ codes "c" ∷ []) (create 2) (create-IsValid 2)
