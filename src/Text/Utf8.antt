-- ===== src/Text/Utf8.antt =====
-- `new TextEncoder().encode(s)` and `new TextDecoder().decode(b)` over UTF-16 code units: scalar
-- values with U+FFFD for a lone surrogate, their UTF-8 bytes, and the decoder of the Encoding
-- standard, which puts U+FFFD for a malformed sequence and drops a byte order mark in front.
pub mod Framing
pub mod Sequences
pub mod Decoding
pub mod Range
use mathlib.Core.List.{flat_map}
use private_chat.Prelude.{
  ℕ, zero, suc, ◌+◌, ◌-◌, ◌*◌, ◌/◌, ◌%◌, ◌^◌, ◌≤◌, ◌<◌, min, ◌≡◌, refl, sym, ap, ap₂, subst, ◌∙◌,
  ◌≢◌, ◌↔◌, ◌⊎◌, inl, inr, Bool, true, false, not, ◌&&◌, ◌||◌, Option, none, some, List, [], ◌∷◌,
  ◌++◌, map, reverse, append-nil, append_assoc, arith, ltb, leb, ◌==◌, if◌then◌else◌, ltb→lt,
  lt→ltb, leb→le, ==_iff, Bool-cases, Option-cases, length, length-append, take, drop, replicate,
  length-replicate, take-length-append, drop-length-append, take-append-drop, length-drop, all, All,
  All-append, All-all, all-All,
}
use private_chat.Text.{Text}

-- The lead and trail surrogates.
abbrev pub is_lead : ℕ → Bool
is_lead c = leb 0xd800 c && leb c 0xdbff

abbrev pub is_trail : ℕ → Bool
is_trail c = leb 0xdc00 c && leb c 0xdfff

abbrev pub replacement : ℕ
replacement = 0xfffd

-- The scalar values that code unit `c` completes, behind a pending lead surrogate or none.
unfoldable pub emit : Option ℕ → ℕ → List ℕ
emit none c = if is_lead c then [] else (if is_trail c then replacement else c) ∷ []
emit (some h) c =
    if is_trail c
    then (0x10000 + (h - 0xd800) * 0x400 + (c - 0xdc00)) ∷ []
    else if is_lead c
    then replacement ∷ []
    else replacement ∷ c ∷ []

unfoldable pub pending : ℕ → Option ℕ
pending c = if is_lead c then some c else none

unfoldable pub points_from : Option ℕ → Text → List ℕ
unfolding emit pending
points_from none [] = []
points_from (some h) [] = replacement ∷ []
points_from p (c ∷ s) = emit p c ++ points_from (pending c) s

-- The scalar values of a string.
abbrev pub points : Text → List ℕ
points = points_from none

unfoldable pub bytes_of : ℕ → List ℕ
bytes_of cp =
    if ltb cp 0x80
    then cp ∷ []
    else if ltb cp 0x800
    then (0xc0 + cp / 0x40) ∷ (0x80 + cp % 0x40) ∷ []
    else if ltb cp 0x10000
    then (0xe0 + cp / 0x1000) ∷ (0x80 + cp / 0x40 % 0x40) ∷ (0x80 + cp % 0x40) ∷ []
    else (0xf0 + cp / 0x40000)
      ∷ (0x80 + cp / 0x1000 % 0x40)
      ∷ (0x80 + cp / 0x40 % 0x40)
      ∷ (0x80 + cp % 0x40)
      ∷ []

unfoldable pub bytes_of_points : List ℕ → List ℕ
bytes_of_points [] = []
bytes_of_points (cp ∷ cps) = bytes_of cp ++ bytes_of_points cps

unfoldable pub utf8_encode : Text → List ℕ
unfolding points_from bytes_of bytes_of_points
utf8_encode s = bytes_of_points (points s)

-- `utf8Length` of codec.ts
unfoldable pub utf8_length : Text → ℕ
unfolding utf8_encode
utf8_length s = length (utf8_encode s)

-- The decoder: between sequences, or with `more + 1` bytes to come, the next one in `lo..hi`.
pub data Decoder : Type 0 where
  idle : Decoder
  within : (more value lo hi : ℕ) → Decoder

unfoldable pub start_byte : ℕ → List ℕ × Decoder
start_byte b =
    if ltb b 0x80
    then (b ∷ [], idle)
    else if ltb b 0xc2
    then (replacement ∷ [], idle)
    else if ltb b 0xe0
    then ([], within 0 (b - 0xc0) 0x80 0xbf)
    else if ltb b 0xf0
    then (
      [],
      within 1 (b - 0xe0) (if b == 0xe0 then 0xa0 else 0x80) (if b == 0xed then 0x9f else 0xbf),
    )
    else if ltb b 0xf5
    then (
      [],
      within 2 (b - 0xf0) (if b == 0xf0 then 0x90 else 0x80) (if b == 0xf4 then 0x8f else 0xbf),
    )
    else (replacement ∷ [], idle)

abbrev pub continue_with : ℕ → ℕ → List ℕ × Decoder
continue_with zero value = (value ∷ [], idle)
continue_with (suc more) value = ([], within more value 0x80 0xbf)

abbrev pub after_error : List ℕ × Decoder → List ℕ × Decoder
after_error (out, d) = (replacement ∷ out, d)

unfoldable pub decode_byte : Decoder → ℕ → List ℕ × Decoder
unfolding start_byte
decode_byte idle b = start_byte b
decode_byte (within more value lo hi) b =
    if leb lo b && leb b hi
    then continue_with more (value * 0x40 + (b - 0x80))
    else after_error (start_byte b)

unfoldable pub decode_from : Decoder → List ℕ → List ℕ
unfolding decode_byte
decode_from idle [] = []
decode_from (within more value lo hi) [] = replacement ∷ []
decode_from d (b ∷ bs) = let (out, d') = decode_byte d b in out ++ decode_from d' bs

-- The code units of a scalar value.
unfoldable pub units : ℕ → Text
units cp =
    if ltb cp 0x10000
    then cp ∷ []
    else (0xd800 + (cp - 0x10000) / 0x400) ∷ (0xdc00 + (cp - 0x10000) % 0x400) ∷ []

unfoldable pub text_of_points : List ℕ → Text
text_of_points [] = []
text_of_points (cp ∷ cps) = units cp ++ text_of_points cps

abbrev pub drop_bom : List ℕ → List ℕ
drop_bom [] = []
drop_bom (cp ∷ cps) = if cp == 0xfeff then cps else cp ∷ cps

unfoldable pub utf8_decode : List ℕ → Text
unfolding decode_from units text_of_points
utf8_decode bs = text_of_points (drop_bom (decode_from idle bs))
