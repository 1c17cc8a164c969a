-- ===== src/E2ee/Names/RoundTrip.antt =====
-- The wrapped payloads of frontend/src/e2ee.ts, unwrapped again.
use private_chat.Prelude.{◌≡◌, refl, Bool, true, false, none, [], ◌∷◌, arith, ltb, all}
use private_chat.Result.{ok}
use private_chat.Text.{Text, codes, text_eq, trim, is_b64url_char}
use private_chat.Text.Utf8.Range.{IsUnits}
use private_chat.Text.Laws.{trim_twice}
use private_chat.Json.{Numbers, end, get}
use private_chat.Json.Print.{stringify}
use private_chat.Json.RoundTrip.{parse-stringify}
use private_chat.Json.RoundTrip.Printed.{IsPlain, IsPlainFields}
use private_chat.E2ee.Envelope.{is_room_key_b64}
use private_chat.E2ee.AesGcm.{Crypto, Random}
use private_chat.E2ee.Names.{
  is_valid_room_name, is_valid_nick, new_key_json, wrap_new_key, read_new_key, unwrap_new_key,
  room_name_json, wrap_room_name, read_room_name, unwrap_room_name, nick_json, wrap_nick, read_nick,
  unwrap_nick,
}

-- The crypto encrypts `plain` with what `r` draws, and decrypts that to `plain` again.
abbrev pub Seals : Crypto → Random → Text → Type 0
Seals crypto r plain =
    (c : Text) × (crypto.encrypt plain none r ≡ ok c) × (crypto.decrypt c ≡ ok plain)

pub IsUnits-codes : (s : Text) → all (λ c. ltb c 0x10000) s ≡ true → IsUnits s
IsUnits-codes [] h = tt
IsUnits-codes (c ∷ s) h = (ground arith, IsUnits-codes s (ground arith))

pub class-IsUnits : (s : Text) → all is_b64url_char s ≡ true → IsUnits s
unfolding is_b64url_char
class-IsUnits [] h = tt
class-IsUnits (c ∷ s) h = (ground arith, class-IsUnits s (ground arith))

pub key-IsUnits : (s : Text) → is_room_key_b64 s ≡ true → IsUnits s
unfolding is_room_key_b64
key-IsUnits s h = class-IsUnits s (ground arith)

module _ (N : Numbers) where
  open N use {Number, of_nat}

  one_equal : N.equal (of_nat 1) (of_nat 1) ≡ true
  one_equal = N.equal-of_nat 1 1 (omega arith) (omega arith)

  read_room_name-json :
      (n : Text) (initial : Bool)
      → is_valid_room_name n ≡ true
      → read_room_name N (room_name_json N n initial)
        ≡ ok (record { name = trim n; initial = initial })
  unfolding read_room_name get text_eq
  read_room_name-json n true h = rw (read_room_name, one_equal, h) refl
  read_room_name-json n false h = rw (read_room_name, one_equal, h) refl

  room_name_json-IsPlain :
      (n : Text) (initial : Bool) → IsUnits n → IsPlain N (room_name_json N n initial)
  unfolding IsPlain IsPlainFields
  room_name_json-IsPlain n true u = (
    IsUnits-codes (codes "t") refl,
    IsUnits-codes (codes "room_name") refl,
    (
      IsUnits-codes (codes "v") refl,
      (1, omega arith, refl),
      (IsUnits-codes (codes "name") refl, u, (IsUnits-codes (codes "initial") refl, tt, tt)),
    ),
  )
  room_name_json-IsPlain n false u = (
    IsUnits-codes (codes "t") refl,
    IsUnits-codes (codes "room_name") refl,
    (
      IsUnits-codes (codes "v") refl,
      (1, omega arith, refl),
      (IsUnits-codes (codes "name") refl, u, tt),
    ),
  )

  -- Where the crypto opens what it makes of the payload, wrapRoomName succeeds for a valid name,
  -- and unwrapRoomName reads the trimmed name and the initial flag from its result.
  pub unwrap_room_name-wrap :
      (crypto : Crypto) (name : Text) (initial : Bool) (r : Random)
      → IsUnits (trim name)
      → is_valid_room_name (trim name) ≡ true
      → Seals crypto r (stringify N (room_name_json N (trim name) initial))
      → (c : Text) × (wrap_room_name N crypto name initial r ≡ ok c)
        × (unwrap_room_name N crypto c ≡ ok (record { name = trim name; initial = initial }))
  unfolding wrap_room_name unwrap_room_name
  unwrap_room_name-wrap crypto name initial r u valid (c, e, o) =
      let n = trim name in
      let read =
        parse-stringify N (room_name_json N n initial) (room_name_json-IsPlain n initial u) in
      (
        c,
        rw (valid, e) refl,
        rw (o, read, read_room_name-json n initial valid, trim_twice name) refl,
      )

  read_nick-json :
      (n : Text)
      → is_valid_nick n ≡ true
      → read_nick N (nick_json N n end) ≡ ok (record { nick = trim n; pk = none; sig = none })
  unfolding read_nick get text_eq
  read_nick-json n h = rw (read_nick, one_equal, h) refl

  nick_json-IsPlain : (n : Text) → IsUnits n → IsPlain N (nick_json N n end)
  unfolding IsPlain IsPlainFields
  nick_json-IsPlain n u = (
    IsUnits-codes (codes "t") refl,
    IsUnits-codes (codes "nick") refl,
    (
      IsUnits-codes (codes "v") refl,
      (1, omega arith, refl),
      (IsUnits-codes (codes "nick") refl, u, tt),
    ),
  )

  -- A valid nickname is wrapped, and what comes out is unwrapped to it, trimmed and with no claim.
  pub unwrap_nick-wrap :
      (crypto : Crypto) (nick : Text) (r : Random)
      → IsUnits (trim nick)
      → is_valid_nick (trim nick) ≡ true
      → Seals crypto r (stringify N (nick_json N (trim nick) end))
      → (c : Text) × (wrap_nick N crypto nick r ≡ ok c)
        × (unwrap_nick N crypto c ≡ ok (record { nick = trim nick; pk = none; sig = none }))
  unfolding wrap_nick unwrap_nick
  unwrap_nick-wrap crypto nick r u valid (c, e, o) =
      let n = trim nick in
      let read = parse-stringify N (nick_json N n end) (nick_json-IsPlain n u) in
      (c, rw (valid, e) refl, rw (o, read, read_nick-json n valid, trim_twice nick) refl)

  read_new_key-json :
      (k : Text) → is_room_key_b64 k ≡ true → read_new_key N (new_key_json N k) ≡ ok k
  unfolding read_new_key get text_eq
  read_new_key-json k h = rw (read_new_key, one_equal, h) refl

  pub new_key_json-IsPlain : (k : Text) → IsUnits k → IsPlain N (new_key_json N k)
  unfolding IsPlain IsPlainFields
  new_key_json-IsPlain k u = (
    IsUnits-codes (codes "k") refl,
    u,
    (IsUnits-codes (codes "v") refl, (1, omega arith, refl), tt),
  )

  -- A valid room key is wrapped, and what comes out is unwrapped to it.
  pub unwrap_new_key-wrap :
      (crypto : Crypto) (key : Text) (r : Random)
      → is_room_key_b64 key ≡ true
      → Seals crypto r (stringify N (new_key_json N key))
      → (c : Text) × (wrap_new_key N crypto key r ≡ ok c) × (unwrap_new_key N crypto c ≡ ok key)
  unfolding wrap_new_key unwrap_new_key
  unwrap_new_key-wrap crypto key r valid (c, e, o) =
      let read =
        parse-stringify N (new_key_json N key) (new_key_json-IsPlain key (key-IsUnits key valid)) in
      (c, rw (valid, e) refl, rw (o, read, read_new_key-json key valid) refl)
