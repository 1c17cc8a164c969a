-- ===== src/Result.antt =====
-- Results of code that throws, and of `async` code whose promise rejects: a constructor of `Error`
-- for each error that the client makes or that the platform hands it.
use private_chat.Text.{Text}
use private_chat.Prelude.{◌⊎◌, inl, inr, ◌≡◌, refl, Bool, true, false, Option, none, some}

pub data Error : Type 0 where
  -- e2ee.ts
  crypto_unavailable invalid_channel_id_for_aad : Error
  invalid_preset_message_id invalid_preset_message_id_length : Error
  invalid_cipher_format invalid_iv_length invalid_message_id_length : Error
  invalid_key_format invalid_key_length : Error
  invalid_new_key_format invalid_key_update_payload invalid_key_update_version invalid_wrapped_key :
      Error
  invalid_room_name invalid_room_name_payload invalid_room_name_fields : Error
  invalid_nick invalid_nick_payload invalid_nick_fields : Error
  -- identity.ts
  ed25519_unavailable unexpected_public_key : Error
  -- codec.ts
  invalid_json message_missing_type invalid_channel_id payload_not_string payload_too_large : Error
  invalid_online invalid_from invalid_count invalid_error_code : Error
  unknown_message_type missing : Text → Error
  -- `InvalidCharacterError` of `atob`, `OperationError` and `InvalidAccessError` of Web Crypto
  invalid_character operation_failed invalid_access : Error

pub data Result {ℓ} (A : Type ℓ) : Type ℓ where
  ok : A → Result A
  throw : Error → Result A

-- The rest of the block, unless the first part threw.
infixl 5 ◌>>=◌
abbrev pub ◌>>=◌ {κ ℓ} : {S : Type κ} {T : Type ℓ} → Result S → (S → Result T) → Result T
throw reason >>= rest = throw reason
ok value >>= rest = rest value

infixl 5 ◌>>◌
abbrev pub ◌>>◌ {ℓ} : {T : Type ℓ} → Result (Unit {0}) → Result T → Result T
first >> rest = first >>= λ done. rest

-- `if (!test) throw e;`
abbrev pub require : Bool → Error → Result (Unit {0})
require true e = ok tt
require false e = throw e

pub require-eq-ok :
    (test : Bool) (e : Error) {done : Unit {0}} → require test e ≡ ok done → test ≡ true
require-eq-ok true e h = refl
require-eq-ok false e h = cc

abbrev pub or_throw {ℓ} : {A : Type ℓ} → Option A → Error → Result A
or_throw none e = throw e
or_throw (some a) e = ok a

-- A block that returned went through its first part.
pub >>=-eq-ok {κ ℓ} :
    {S : Type κ} {T : Type ℓ} (first : Result S) (rest : S → Result T) {out : T}
    → (first >>= rest) ≡ ok out
    → (value : S) × (first ≡ ok value) × (rest value ≡ ok out)
>>=-eq-ok (throw reason) rest e = cc
>>=-eq-ok (ok value) rest e = (value, refl, e)

-- Either it returned or it threw.
pub Result-cases {ℓ} :
    {A : Type ℓ} (r : Result A) → ((a : A) × (r ≡ ok a)) ⊎ ((e : Error) × (r ≡ throw e))
Result-cases (ok a) = inl (a, refl)
Result-cases (throw e) = inr (e, refl)
