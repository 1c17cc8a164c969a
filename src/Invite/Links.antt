-- ===== src/Invite/Links.antt =====
-- On the links and hashes that `parseInvite` and `parseKeyFromHash` of frontend/src/invite.ts read.
pub mod Scans
use mathlib.Core.List.{reverse-reverse, reverse-append, reverse-cons}
use private_chat.Prelude.{
  ℕ, zero, suc, ◌≤◌, ◌≡◌, refl, sym, ap, subst, ◌∙◌, Bool, true, false, not, ◌&&◌, Option, none,
  some, [], ◌∷◌, ◌++◌, reverse, append-nil, append_assoc, arith, ◌==◌, length, length-append, all,
}
use private_chat.Text.{Text, codes, is_truthy, text_eq, trim, trim_start, is_space, is_b64url_char}
use private_chat.Text.Utf8.{utf8_encode, decode_from, text_of_points}
use private_chat.E2ee.Envelope.{is_channel_id, is_room_key_b64}
use private_chat.E2ee.AesGcm.Binding.{class_of_channel_id}
use private_chat.E2ee.AesGcm.Keys.{class-is_space, all-reverse}
use private_chat.Invite.{
  strip_prefix, take_while, strict_utf8, between, decode_percent, decode_key_param, room_at,
  match_room, in_link, in_hash, key_behind, parse_invite, value_at, match_value,
  parse_key_from_hash,
}
use private_chat.Invite.Links.Scans.{
  strip_prefix-same, is_absent, strip_prefix-extend, stops, take_while-all, all-head,
  decode_key_param-class, class_in_link, class_in_hash,
}

-- What stands in front of `/r/`: the pattern matches at none of its places.
abbrev pub is_origin : Text → Bool
is_origin [] = true
is_origin (c ∷ s) = is_absent (strip_prefix (codes "/r/") (c ∷ s ++ codes "/r/")) && is_origin s

absent-none : (m : Option Text) → is_absent m ≡ true → m ≡ none
absent-none none h = refl
absent-none (some s) h = cc

room_at-none : (s : Text) → strip_prefix (codes "/r/") s ≡ none → room_at s ≡ none
unfolding room_at
room_at-none s e = rw (room_at, e) refl

match_room-skip : (c : ℕ) (s : Text) → room_at (c ∷ s) ≡ none → match_room (c ∷ s) ≡ match_room s
unfolding match_room
match_room-skip c s e = rw (match_room, e) refl

match_room-origin :
    (o t : Text)
    → is_origin o ≡ true
    → match_room ((o ++ codes "/r/") ++ t) ≡ match_room (codes "/r/" ++ t)
match_room-origin [] t h = refl
match_room-origin (c ∷ o) t h =
    let absent : is_absent (strip_prefix (codes "/r/") ((c ∷ o) ++ codes "/r/")) ≡ true =
      ground arith in
    let no =
      strip_prefix-extend (codes "/r/") ((c ∷ o) ++ codes "/r/") t
        (omega (arith, length-append o (codes "/r/"))) (absent-none _ absent) in
    match_room-skip c ((o ++ codes "/r/") ++ t) (room_at-none _ no)
    ∙ match_room-origin o t (ground arith)

-- `/r/`, an id of the class, and `#k=` with a key, or nothing.
room_at-id :
    (id rest : Text)
    → is_channel_id id ≡ true
    → stops is_b64url_char rest ≡ true
    → room_at (codes "/r/" ++ (id ++ rest)) ≡ some (id, rest)
unfolding room_at is_channel_id
room_at-id id rest h e =
    let class = class_of_channel_id id h in
    let short : length id ≤ 64 = ground arith in
    let some_char : is_truthy id ≡ true = ground arith in
    rw
      (
        room_at,
        strip_prefix-same (codes "/r/") (id ++ rest),
        take_while-all is_b64url_char 64 id rest class short e,
        some_char,
      )
      refl

key_behind-key :
    (key : Text)
    → all is_b64url_char key ≡ true
    → is_truthy key ≡ true
    → key_behind (codes "#k=" ++ key) ≡ some key
unfolding key_behind stops
key_behind-key key h e =
    let whole : take_while in_link (length key) key ≡ (key, []) =
      ap (take_while in_link (length key)) (sym (append-nil key))
      ∙ take_while-all in_link (length key) key [] (class_in_link key h) (omega arith) refl in
    rw (key_behind, strip_prefix-same (codes "#k=") key, whole, e) refl

trim_start-class :
    (t s : Text) → is_truthy t ≡ true → all is_b64url_char t ≡ true → trim_start (t ++ s) ≡ t ++ s
unfolding trim_start
trim_start-class [] s e h = cc
trim_start-class (c ∷ t) s e h =
    let (head, _) = all-head is_b64url_char c t h in rw (class-is_space c head) refl

truthy-append : (s : Text) (c : ℕ) → is_truthy (s ++ c ∷ []) ≡ true
truthy-append [] c = refl
truthy-append (d ∷ s) c = refl

truthy-reverse : (t : Text) → is_truthy t ≡ true → is_truthy (reverse t) ≡ true
truthy-reverse [] e = cc
truthy-reverse (c ∷ t) e = rw (reverse-cons c t) (truthy-append (reverse t) c)

-- A text that begins with no white space and ends in characters of the class is trimmed already.
trim-ends :
    (c : ℕ) (s t : Text)
    → is_space c ≡ false
    → is_truthy t ≡ true
    → all is_b64url_char t ≡ true
    → trim ((c ∷ s) ++ t) ≡ (c ∷ s) ++ t
unfolding trim trim_start
trim-ends c s t h e k =
    let x = (c ∷ s) ++ t in
    let front : trim_start x ≡ x = rw h refl in
    let back : trim_start (reverse x) ≡ reverse x =
      ap trim_start (reverse-append (c ∷ s) t)
      ∙ trim_start-class (reverse t) (reverse (c ∷ s)) (truthy-reverse t e)
          (all-reverse is_b64url_char t ∙ k)
      ∙ sym (reverse-append (c ∷ s) t) in
    ap (λ y. reverse (trim_start (reverse y))) front ∙ ap reverse back ∙ reverse-reverse x

-- The link to a room: what stands in front of `/r/`, the id, and the key in the hash.
abbrev pub link_of : (origin id key : Text) → Text
link_of origin id key = (origin ++ codes "/r/") ++ (id ++ (codes "#k=" ++ key))

match_room-here :
    (id rest : Text)
    → room_at (codes "/r/" ++ (id ++ rest)) ≡ some (id, rest)
    → match_room (codes "/r/" ++ (id ++ rest)) ≡ some (id, rest)
unfolding match_room
match_room-here id rest e = rw (match_room, e) refl

match_room-link :
    (origin id key : Text)
    → is_origin origin ≡ true
    → is_channel_id id ≡ true
    → match_room (link_of origin id key) ≡ some (id, codes "#k=" ++ key)
unfolding stops is_b64url_char
match_room-link origin id key o h =
    match_room-origin origin (id ++ (codes "#k=" ++ key)) o
    ∙ match_room-here id (codes "#k=" ++ key) (room_at-id id (codes "#k=" ++ key) h refl)

-- The link of a room, an origin in which the pattern of a room occurs nowhere and which begins with
-- no white space, then /r/ and a valid id, then #k= and a room key, is parsed to that id and key.
pub parse_invite-link :
    (c : ℕ) (origin id key : Text)
    → is_space c ≡ false
    → is_origin (c ∷ origin) ≡ true
    → is_channel_id id ≡ true
    → is_room_key_b64 key ≡ true
    → parse_invite (link_of (c ∷ origin) id key) ≡ record { id = id; key = some key }
unfolding parse_invite is_room_key_b64
parse_invite-link c origin id key h o i k =
    let class : all is_b64url_char key ≡ true = ground arith in
    let full : is_truthy key ≡ true = ground arith in
    let before = (origin ++ codes "/r/") ++ (id ++ codes "#k=") in
    let shape : (c ∷ before) ++ key ≡ link_of (c ∷ origin) id key =
      ap (λ s. c ∷ s)
        (append_assoc (origin ++ codes "/r/") (id ++ codes "#k=") key
          ∙ ap (λ s. (origin ++ codes "/r/") ++ s) (append_assoc id (codes "#k=") key)) in
    let trimmed : trim (link_of (c ∷ origin) id key) ≡ link_of (c ∷ origin) id key =
      subst (λ s. trim s ≡ s) shape (trim-ends c before key h full class) in
    rw
      (
        parse_invite,
        trimmed,
        match_room-link (c ∷ origin) id key o i,
        key_behind-key key class full,
        decode_key_param-class key class,
      )
      refl

value_at-key :
    (key : Text)
    → all is_b64url_char key ≡ true
    → is_truthy key ≡ true
    → value_at (codes "k=") (codes "#k=" ++ key) ≡ some key
unfolding value_at stops
value_at-key key h e =
    let whole : take_while in_hash (length key) key ≡ (key, []) =
      ap (take_while in_hash (length key)) (sym (append-nil key))
      ∙ take_while-all in_hash (length key) key [] (class_in_hash key h) (omega arith) refl in
    rw (value_at, strip_prefix-same (codes "k=") key, whole, e) refl

match_value-here :
    (name : Text) (c : ℕ) (s v : Text)
    → value_at name (c ∷ s) ≡ some v
    → match_value name (c ∷ s) ≡ some v
unfolding match_value
match_value-here name c s v e = rw (match_value, e) refl

-- A hash of #k= and a room key is parsed to that key.
pub parse_key_from_hash-key :
    (key : Text) → is_room_key_b64 key ≡ true → parse_key_from_hash (codes "#k=" ++ key) ≡ some key
unfolding parse_key_from_hash is_room_key_b64
parse_key_from_hash-key key k =
    let class : all is_b64url_char key ≡ true = ground arith in
    let full : is_truthy key ≡ true = ground arith in
    let found =
      match_value-here (codes "k=") b'#' (codes "k=" ++ key) key (value_at-key key class full) in
    rw (parse_key_from_hash, found, decode_key_param-class key class) refl
