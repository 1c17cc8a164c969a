-- ===== src/Text/Utf8/Sequences.antt =====
-- Each scalar value is decoded from the bytes that encode it, as `TextDecoder` does in e2ee.ts.
use private_chat.Prelude.{
  ℕ, ◌+◌, ◌-◌, ◌*◌, ◌/◌, ◌%◌, ◌≤◌, ◌<◌, ◌≡◌, ◌⊎◌, List, [], ◌∷◌, ◌++◌, arith, ◌==◌, if◌then◌else◌,
}
use private_chat.Text.Utf8.{
  bytes_of, Decoder, idle, within, decode_byte, decode_from, start_byte, continue_with,
}

-- A Unicode scalar value.
abbrev pub IsScalar : ℕ → Type 0
IsScalar cp = (cp < 0x110000) × ((cp < 0xd800) ⊎ (0xe000 ≤ cp))

decode_from-step :
    (d d' : Decoder) (b : ℕ) (bs out : List ℕ)
    → decode_byte d b ≡ (out, d')
    → decode_from d (b ∷ bs) ≡ out ++ decode_from d' bs
unfolding decode_from
decode_from-step idle d' b bs out e = rw e
decode_from-step (within more value lo hi) d' b bs out e = rw e

decode_from-continue :
    (more value lo hi b : ℕ) (bs : List ℕ)
    → lo ≤ b
    → b ≤ hi
    → decode_from (within more value lo hi) (b ∷ bs)
      ≡ (continue_with more (value * 0x40 + (b - 0x80))).0
        ++ decode_from (continue_with more (value * 0x40 + (b - 0x80))).1 bs
unfolding decode_byte
decode_from-continue more value lo hi b bs h k =
    decode_from-step (within more value lo hi) _ b bs _ (ground arith)

one_byte :
    (cp : ℕ) (bs : List ℕ)
    → cp < 0x80
    → decode_from idle (bytes_of cp ++ bs) ≡ cp ∷ decode_from idle bs
unfolding bytes_of decode_from
one_byte cp bs h = ground arith

two_bytes :
    (cp : ℕ) (bs : List ℕ)
    → 0x80 ≤ cp
    → cp < 0x800
    → decode_from idle (bytes_of cp ++ bs) ≡ cp ∷ decode_from idle bs
unfolding bytes_of decode_byte
two_bytes cp bs h k =
    let first : start_byte (0xc0 + cp / 0x40) ≡ ([], within 0 (cp / 0x40) 0x80 0xbf) =
      ground arith in
    let step = decode_from-step idle _ (0xc0 + cp / 0x40) ((0x80 + cp % 0x40) ∷ bs) [] first in
    let last =
      decode_from-continue 0 (cp / 0x40) 0x80 0xbf (0x80 + cp % 0x40) bs (omega arith)
        (omega arith) in
    ground (arith, step, last)

-- The range of the second byte of a long sequence.
abbrev low_2 : ℕ → ℕ
low_2 value = if value == 0 then 0xa0 else 0x80

abbrev high_2 : ℕ → ℕ
high_2 value = if value == 13 then 0x9f else 0xbf

abbrev low_3 : ℕ → ℕ
low_3 value = if value == 0 then 0x90 else 0x80

abbrev high_3 : ℕ → ℕ
high_3 value = if value == 4 then 0x8f else 0xbf

start_byte_three : (v : ℕ) → v < 16 → start_byte (0xe0 + v) ≡ ([], within 1 v (low_2 v) (high_2 v))
unfolding start_byte
start_byte_three v h = ground arith

start_byte_four : (v : ℕ) → v < 5 → start_byte (0xf0 + v) ≡ ([], within 2 v (low_3 v) (high_3 v))
unfolding start_byte
start_byte_four v h = ground arith

second_of_three :
    (cp : ℕ)
    → 0x800 ≤ cp
    → cp < 0x10000
    → (cp < 0xd800) ⊎ (0xe000 ≤ cp)
    → (low_2 (cp / 0x1000) ≤ 0x80 + cp / 0x40 % 0x40)
      × (0x80 + cp / 0x40 % 0x40 ≤ high_2 (cp / 0x1000))
second_of_three cp h k u = ground arith

second_of_four :
    (cp : ℕ)
    → 0x10000 ≤ cp
    → cp < 0x110000
    → (low_3 (cp / 0x40000) ≤ 0x80 + cp / 0x1000 % 0x40)
      × (0x80 + cp / 0x1000 % 0x40 ≤ high_3 (cp / 0x40000))
second_of_four cp h k = ground arith

three_bytes :
    (cp : ℕ) (bs : List ℕ)
    → 0x800 ≤ cp
    → cp < 0x10000
    → (cp < 0xd800) ⊎ (0xe000 ≤ cp)
    → decode_from idle (bytes_of cp ++ bs) ≡ cp ∷ decode_from idle bs
unfolding bytes_of decode_byte
three_bytes cp bs h k u =
    let v = cp / 0x1000 in
    let b = 0x80 + cp / 0x40 % 0x40 in
    let c = 0x80 + cp % 0x40 in
    let (low, high) = second_of_three cp h k u in
    let first =
      decode_from-step idle _ (0xe0 + v) (b ∷ c ∷ bs) [] (start_byte_three v (omega arith)) in
    let second = decode_from-continue 1 v (low_2 v) (high_2 v) b (c ∷ bs) low high in
    let third =
      decode_from-continue 0 (v * 0x40 + (b - 0x80)) 0x80 0xbf c bs (omega arith) (omega arith) in
    let value : (v * 0x40 + (b - 0x80)) * 0x40 + (c - 0x80) ≡ cp = omega arith in
    ground (arith, first, second, third, value)

four_bytes :
    (cp : ℕ) (bs : List ℕ)
    → 0x10000 ≤ cp
    → cp < 0x110000
    → decode_from idle (bytes_of cp ++ bs) ≡ cp ∷ decode_from idle bs
unfolding bytes_of decode_byte
four_bytes cp bs h k =
    let v = cp / 0x40000 in
    let b = 0x80 + cp / 0x1000 % 0x40 in
    let c = 0x80 + cp / 0x40 % 0x40 in
    let d = 0x80 + cp % 0x40 in
    let (low, high) = second_of_four cp h k in
    let first =
      decode_from-step idle _ (0xf0 + v) (b ∷ c ∷ d ∷ bs) [] (start_byte_four v (omega arith)) in
    let second = decode_from-continue 2 v (low_3 v) (high_3 v) b (c ∷ d ∷ bs) low high in
    let third =
      decode_from-continue 1 (v * 0x40 + (b - 0x80)) 0x80 0xbf c (d ∷ bs) (omega arith)
        (omega arith) in
    let fourth =
      decode_from-continue 0 ((v * 0x40 + (b - 0x80)) * 0x40 + (c - 0x80)) 0x80 0xbf d bs
        (omega arith) (omega arith) in
    let value : ((v * 0x40 + (b - 0x80)) * 0x40 + (c - 0x80)) * 0x40 + (d - 0x80) ≡ cp =
      omega arith in
    ground (arith, first, second, third, fourth, value)

pub decode_from-bytes_of :
    (cp : ℕ) (bs : List ℕ)
    → IsScalar cp
    → decode_from idle (bytes_of cp ++ bs) ≡ cp ∷ decode_from idle bs
decode_from-bytes_of cp bs (h, k) =
    ground (arith, one_byte cp bs, two_bytes cp bs, three_bytes cp bs, four_bytes cp bs)
