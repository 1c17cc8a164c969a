-- ===== src/E2ee/Base64.antt =====
-- `base64UrlEncode` and `base64UrlDecode` of frontend/src/e2ee.ts, with the `btoa` and `atob` of
-- the HTML standard. A `Uint8Array` is a list of numbers below 256.
pub mod RoundTrip
pub mod Shape
use private_chat.Prelude.{
  ℕ, zero, suc, ◌+◌, ◌-◌, ◌*◌, ◌/◌, ◌%◌, ◌^◌, ◌≤◌, ◌<◌, min, ◌≡◌, refl, sym, ap, ap₂, subst, ◌∙◌,
  ◌≢◌, ◌↔◌, ◌⊎◌, inl, inr, Bool, true, false, not, ◌&&◌, ◌||◌, Option, none, some, List, [], ◌∷◌,
  ◌++◌, map, reverse, append-nil, append_assoc, arith, ltb, leb, ◌==◌, if◌then◌else◌, ltb→lt,
  lt→ltb, leb→le, ==_iff, Bool-cases, Option-cases, length, length-append, take, drop, replicate,
  length-replicate, take-length-append, drop-length-append, take-append-drop, length-drop, all, All,
  All-append, All-all, all-All,
}
use private_chat.Text.{Text}

abbrev pub Bytes : Type 0
Bytes = List ℕ

abbrev pub IsBytes : Bytes → Type 0
IsBytes = All (λ b. b < 256)

-- The alphabet of `btoa`.
unfoldable pub char_of : ℕ → ℕ
char_of v =
    if ltb v 26
    then b'A' + v
    else if ltb v 52
    then b'a' + (v - 26)
    else if ltb v 62
    then b'0' + (v - 52)
    else if v == 62
    then b'+'
    else b'/'

unfoldable pub value_of : ℕ → Option ℕ
value_of c =
    if leb b'A' c && leb c b'Z'
    then some (c - b'A')
    else if leb b'a' c && leb c b'z'
    then some (c - b'a' + 26)
    else if leb b'0' c && leb c b'9'
    then some (c - b'0' + 52)
    else if c == b'+'
    then some 62
    else if c == b'/'
    then some 63
    else none

-- The sextets of the bytes, the last one filled up with zero bits.
unfoldable pub sextets : Bytes → List ℕ
sextets [] = []
sextets (a ∷ []) = a / 4 ∷ a % 4 * 16 ∷ []
sextets (a ∷ b ∷ []) = a / 4 ∷ (a % 4 * 16 + b / 16) ∷ b % 16 * 4 ∷ []
sextets (a ∷ b ∷ c ∷ bs) =
    a / 4 ∷ (a % 4 * 16 + b / 16) ∷ (b % 16 * 4 + c / 64) ∷ c % 64 ∷ sextets bs

-- The padding that `btoa` writes.
unfoldable pub padding : Bytes → Text
padding [] = []
padding (a ∷ []) = b'=' ∷ b'=' ∷ []
padding (a ∷ b ∷ []) = b'=' ∷ []
padding (a ∷ b ∷ c ∷ bs) = padding bs

unfoldable pub btoa : Bytes → Text
btoa bs = map char_of (sextets bs) ++ padding bs

-- `.replace(/\+/g, "-").replace(/\//g, "_")`
unfoldable pub to_url : ℕ → ℕ
to_url c = if c == b'+' then b'-' else if c == b'/' then b'_' else c

-- `.replace(/=+$/g, "")`
unfoldable pub strip_padding : Text → Text
strip_padding [] = []
strip_padding (c ∷ s) =
    let rest = strip_padding s in if c == b'=' && length rest == 0 then [] else c ∷ rest

unfoldable pub base64_url_encode : Bytes → Text
base64_url_encode bytes = strip_padding (map to_url (btoa bytes))

-- `.replace(/-/g, "+").replace(/_/g, "/")`
unfoldable pub from_url : ℕ → ℕ
from_url c = if c == b'-' then b'+' else if c == b'_' then b'/' else c

-- What `atob` skips: ASCII white space.
abbrev pub is_ascii_space : ℕ → Bool
is_ascii_space c = c == 9 || c == 10 || c == 12 || c == 13 || c == 32

unfoldable pub drop_spaces : Text → Text
drop_spaces [] = []
drop_spaces (c ∷ s) = let rest = drop_spaces s in if is_ascii_space c then rest else c ∷ rest

-- Removes one `=` at the end.
unfoldable pub drop_pad : Text → Text
drop_pad [] = []
drop_pad (c ∷ []) = if c == b'=' then [] else c ∷ []
drop_pad (c ∷ d ∷ s) = c ∷ drop_pad (d ∷ s)

unfoldable pub values : Text → Option (List ℕ)
values [] = some []
values (c ∷ s) = elim (value_of c) [
  | none ↦ none
  | some v ↦ elim (values s) [ none ↦ none | some vs ↦ some (v ∷ vs) ]
]

-- Bits that do not fill a byte at the end are dropped.
unfoldable pub join_sextets : List ℕ → Bytes
join_sextets [] = []
join_sextets (a ∷ []) = []
join_sextets (a ∷ b ∷ []) = (a * 4 + b / 16) ∷ []
join_sextets (a ∷ b ∷ c ∷ []) = (a * 4 + b / 16) ∷ (b % 16 * 16 + c / 4) ∷ []
join_sextets (a ∷ b ∷ c ∷ d ∷ vs) =
    (a * 4 + b / 16) ∷ (b % 16 * 16 + c / 4) ∷ (c % 4 * 64 + d) ∷ join_sextets vs

unfoldable pub decode_unpadded : Text → Option Bytes
decode_unpadded s =
    if length s % 4 == 1
    then none
    else elim (values s) [ none ↦ none | some vs ↦ some (join_sextets vs) ]

abbrev pub unpad : Text → Text
unpad s = if length s % 4 == 0 then drop_pad (drop_pad s) else s

-- `none` is an `InvalidCharacterError`.
unfoldable pub atob : Text → Option Bytes
atob s = decode_unpadded (unpad (drop_spaces s))

-- `if (pad) b64 += "=".repeat(4 - pad)`
unfoldable pub pad_to_four : Text → Text
pad_to_four b64 =
    let pad : ℕ = length b64 % 4 in if pad == 0 then b64 else b64 ++ replicate (4 - pad) b'='

unfoldable pub base64_url_decode : Text → Option Bytes
base64_url_decode s = atob (pad_to_four (map from_url s))
