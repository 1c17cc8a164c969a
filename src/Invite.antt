-- ===== src/Invite.antt =====
-- frontend/src/invite.ts: invite links and keys in the hash of a URL. A regular expression is a scan
-- for the first place where it matches; each of its parts takes as much as it can.
pub mod Links
use private_chat.Prelude.{
  ℕ, zero, suc, ◌+◌, ◌-◌, ◌*◌, ◌/◌, ◌%◌, ◌^◌, ◌≤◌, ◌<◌, min, ◌≡◌, refl, sym, ap, ap₂, subst, ◌∙◌,
  ◌≢◌, ◌↔◌, ◌⊎◌, inl, inr, Bool, true, false, not, ◌&&◌, ◌||◌, Option, none, some, List, [], ◌∷◌,
  ◌++◌, map, reverse, append-nil, append_assoc, arith, ltb, leb, ◌==◌, if◌then◌else◌, ltb→lt,
  lt→ltb, leb→le, ==_iff, Bool-cases, Option-cases, length, length-append, take, drop, replicate,
  length-replicate, take-length-append, drop-length-append, take-append-drop, length-drop, all, All,
  All-append, All-all, all-All, all_below, all_below_sound, length-map, map-map,
}
use private_chat.Text.{Text, codes, is_truthy, trim, is_space, is_b64url_char}
use private_chat.Text.Utf8.{units, text_of_points, Decoder, idle, decode_from, utf8_encode}
use private_chat.Text.{text_eq}
use private_chat.Json.Scan.{hex_value}

pub record Invite : Type 0 where
  pub id : Text
  pub key : Option Text

-- The text behind a literal prefix.
unfoldable pub strip_prefix : Text → Text → Option Text
strip_prefix [] s = some s
strip_prefix (p ∷ ps) [] = none
strip_prefix (p ∷ ps) (c ∷ s) = let rest = strip_prefix ps s in if c == p then rest else none

-- The longest part at the front of at most so many characters of a class, and what follows it.
unfoldable pub take_while : (ℕ → Bool) → ℕ → Text → Text × Text
take_while test zero s = ([], s)
take_while test (suc n) [] = ([], [])
take_while test (suc n) (c ∷ s) =
    let (part, rest) = take_while test n s in if test c then (c ∷ part, rest) else ([], c ∷ s)

-- Valid UTF-8 bytes as text: what the decoder makes of other bytes is never encoded as they are.
unfoldable pub strict_utf8 : List ℕ → Option Text
strict_utf8 bytes =
    let text = text_of_points (decode_from idle bytes) in
    if text_eq (utf8_encode text) bytes then some text else none

-- Where the scan of percent-encoding stands: between characters, behind `%`, behind `%` and a digit.
pub data Percent : Type 0 where
  between sign : Percent
  half : ℕ → Percent

abbrev pub joined : Option Text → ℕ → Option Text → Option Text
joined (some s) c (some t) = some (s ++ c ∷ t)
joined _ c _ = none

-- `decodeURIComponent`, behind a run of encoded bytes; `none` is a `URIError`.
unfoldable pub decode_percent : Percent → List ℕ → Text → Option Text
decode_percent between bytes [] = strict_utf8 bytes
decode_percent sign bytes [] = none
decode_percent (half h) bytes [] = none
decode_percent between bytes (c ∷ s) = elim (c == b'%') [
  | true ↦ decode_percent sign bytes s
  | false ↦ joined (strict_utf8 bytes) c (decode_percent between [] s)
]
decode_percent sign bytes (c ∷ s) = elim (hex_value c) [
  | none ↦ none
  | some h ↦ decode_percent (half h) bytes s
]
decode_percent (half h) bytes (c ∷ s) = elim (hex_value c) [
  | none ↦ none
  | some l ↦ decode_percent between (bytes ++ (h * 16 + l) ∷ []) s
]

-- `catch { return v; }`
unfoldable pub decode_key_param : Text → Text
decode_key_param v = elim (decode_percent between [] v) [ none ↦ v | some s ↦ s ]

abbrev pub decoded : Option Text → Option Text
decoded none = none
decoded (some v) = some (decode_key_param v)

-- `\/r\/([a-zA-Z0-9_-]{1,64})` at this place: the id, and what follows.
unfoldable pub room_at : Text → Option (Text × Text)
room_at s = elim (strip_prefix (codes "/r/") s) [
  | none ↦ none
  | some t ↦
      let (id, rest) = take_while is_b64url_char 64 t in
      if is_truthy id then some (id, rest) else none
]

unfoldable pub match_room : Text → Option (Text × Text)
match_room [] = none
match_room (c ∷ s) =
    let later = match_room s in elim (room_at (c ∷ s)) [ some m ↦ some m | none ↦ later ]

-- `[^&\s]` and `[^&]`
abbrev pub in_link : ℕ → Bool
in_link c = not (c == b'&') && not (is_space c)

abbrev pub in_hash : ℕ → Bool
in_hash c = not (c == b'&')

abbrev pub nonempty : Text → Option Text
nonempty s = if is_truthy s then some s else none

-- `(?:#k=([^&\s]+))?`
unfoldable pub key_behind : Text → Option Text
key_behind rest = elim (strip_prefix (codes "#k=") rest) [
  | none ↦ none
  | some t ↦ nonempty (take_while in_link (length t) t).0
]

unfoldable pub parse_invite : Text → Invite
parse_invite raw =
    let s = trim raw in
    elim (match_room s) [
      | none ↦ record { id = s; key = none }
      | some (id, rest) ↦ record { id = id; key = decoded (key_behind rest) }
    ]

-- `[#&]name([^&]+)` at this place, and at the first where it matches.
unfoldable pub value_at : Text → Text → Option Text
value_at name [] = none
value_at name (c ∷ s) = elim (strip_prefix name s) [
  | none ↦ none
  | some t ↦ if c == b'#' || c == b'&' then nonempty (take_while in_hash (length t) t).0 else none
]

unfoldable pub match_value : Text → Text → Option Text
match_value name [] = none
match_value name (c ∷ s) =
    let later = match_value name s in
    elim (value_at name (c ∷ s)) [ some v ↦ some v | none ↦ later ]

unfoldable pub parse_key_from_hash : Text → Option Text
parse_key_from_hash hash = elim (match_value (codes "k=") hash) [
  | some v ↦ some (decode_key_param v)
  | none ↦ decoded (match_value (codes "key=") hash)
]
