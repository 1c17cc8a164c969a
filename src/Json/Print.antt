-- ===== src/Json/Print.antt =====
-- `JSON.stringify` of a value that holds no `undefined`.
use private_chat.Prelude.{
  ℕ, ◌+◌, ◌-◌, ◌/◌, ◌%◌, Bool, true, false, ◌&&◌, ◌||◌, Option, none, some, [], ◌∷◌, ◌++◌, ltb, leb,
  ◌==◌, if◌then◌else◌,
}
use private_chat.Text.{Text, codes}
use private_chat.Json.{
  Numbers, Json, null, bool, num, str, arr, obj, Items, nil, cons, Fields, end, field,
}

abbrev pub hex_char : ℕ → ℕ
hex_char d = if ltb d 10 then b'0' + d else b'a' + (d - 10)

-- `\u` and four hexadecimal digits
unfoldable pub unicode_escape : ℕ → Text
unicode_escape c =
    b'\\'
    ∷ b'u'
    ∷ hex_char (c / 4096 % 16)
    ∷ hex_char (c / 256 % 16)
    ∷ hex_char (c / 16 % 16)
    ∷ hex_char (c % 16)
    ∷ []

abbrev pub is_surrogate : ℕ → Bool
is_surrogate c = leb 0xd800 c && leb c 0xdfff

-- One code unit that is no half of a surrogate pair.
unfoldable pub quote_unit : ℕ → Text
quote_unit c =
    if c == b'"' || c == b'\\'
    then b'\\' ∷ c ∷ []
    else if c == 8
    then b'\\' ∷ b'b' ∷ []
    else if c == 9
    then b'\\' ∷ b't' ∷ []
    else if c == 10
    then b'\\' ∷ b'n' ∷ []
    else if c == 12
    then b'\\' ∷ b'f' ∷ []
    else if c == 13
    then b'\\' ∷ b'r' ∷ []
    else if ltb c 32 || is_surrogate c
    then unicode_escape c
    else c ∷ []

abbrev pub lead_of : ℕ → Option ℕ
lead_of c = if leb 0xd800 c && leb c 0xdbff then some c else none

-- What is written at code unit `c`, behind a lead surrogate that is not written yet or none: a pair
-- stands for itself, a lone surrogate is escaped.
unfoldable pub quote_at : Option ℕ → ℕ → Text
quote_at none c = if leb 0xd800 c && leb c 0xdbff then [] else quote_unit c
quote_at (some h) c =
    if leb 0xdc00 c && leb c 0xdfff
    then h ∷ c ∷ []
    else if leb 0xd800 c && leb c 0xdbff
    then unicode_escape h
    else unicode_escape h ++ quote_unit c

unfoldable pub quote_from : Option ℕ → Text → Text
quote_from none [] = []
quote_from (some h) [] = unicode_escape h
quote_from p (c ∷ s) = quote_at p c ++ quote_from (lead_of c) s

unfoldable pub quote : Text → Text
quote s = b'"' ∷ (quote_from none s ++ b'"' ∷ [])

module _ (N : Numbers) where
  open N use {Number, to_literal}

  unfoldable mutual
    pub stringify : Json Number → Text
    stringify null = codes "null"
    stringify (bool true) = codes "true"
    stringify (bool false) = codes "false"
    stringify (num x) = to_literal x
    stringify (str s) = quote s
    stringify (arr xs) = b'[' ∷ (stringify_items xs ++ b']' ∷ [])
    stringify (obj fs) = b'{' ∷ (stringify_fields fs ++ b'}' ∷ [])

    pub stringify_items : Items Number → Text
    stringify_items nil = []
    stringify_items (cons x nil) = stringify x
    stringify_items (cons x (cons y xs)) = stringify x ++ b',' ∷ stringify_items (cons y xs)

    pub stringify_fields : Fields Number → Text
    stringify_fields end = []
    stringify_fields (field k x end) = quote k ++ b':' ∷ stringify x
    stringify_fields (field k x (field l y fs)) =
        quote k ++ b':' ∷ (stringify x ++ b',' ∷ stringify_fields (field l y fs))
