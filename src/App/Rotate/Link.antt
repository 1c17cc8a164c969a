-- ===== src/App/Rotate/Link.antt =====
-- The invite links that frontend/src/App.svelte copies, as frontend/src/invite.ts reads them.
use private_chat.Prelude.{
  ℕ, ◌≡◌, refl, sym, ap, ◌∙◌, true, false, some, [], ◌∷◌, ◌++◌, append_assoc, arith, all,
}
use private_chat.Text.{Text, codes, is_truthy, is_b64url_char, is_space}
use private_chat.Collections.{map_get}
use private_chat.E2ee.Envelope.{is_room_key_b64, is_channel_id}
use private_chat.E2ee.AesGcm.Binding.{utf8_encode-class}
use private_chat.Invite.{parse_invite}
use private_chat.Invite.Links.{is_origin, link_of, parse_invite-link}
use private_chat.App.{App, channel_id, room_path}
use private_chat.App.Rotate.{encode_bytes, encode_uri_component, invite_link, copied_link}

encode_bytes-class : (s : Text) → all is_b64url_char s ≡ true → encode_bytes s ≡ s
unfolding encode_bytes
encode_bytes-class [] h = refl
encode_bytes-class (c ∷ s) h = ground (arith, encode_bytes-class s)

encode_uri_component-class : (s : Text) → all is_b64url_char s ≡ true → encode_uri_component s ≡ s
unfolding encode_uri_component
encode_uri_component-class s h = ap encode_bytes (utf8_encode-class s h) ∙ encode_bytes-class s h

class_of_key : (key : Text) → is_room_key_b64 key ≡ true → all is_b64url_char key ≡ true
unfolding is_room_key_b64
class_of_key key h = ground arith

truthy_id : (id : Text) → is_channel_id id ≡ true → is_truthy id ≡ true
unfolding is_channel_id
truthy_id [] h = cc
truthy_id (c ∷ id) h = refl

truthy_key : (key : Text) → is_room_key_b64 key ≡ true → is_truthy key ≡ true
unfolding is_room_key_b64
truthy_key [] h = cc
truthy_key (c ∷ key) h = refl

invite_link-link_of :
    (origin id key : Text)
    → is_room_key_b64 key ≡ true
    → invite_link origin id key ≡ link_of origin id key
unfolding invite_link room_path
invite_link-link_of origin id key h = rw (encode_uri_component-class key (class_of_key key h)) (
    append_assoc (origin ++ (codes "/r/" ++ id)) (codes "#k=") key
    ∙ (append_assoc origin (codes "/r/" ++ id) (codes "#k=" ++ key)
        ∙ sym (append_assoc origin (codes "/r/") (id ++ (codes "#k=" ++ key)))))

copied_link-key :
    {F : Type 0} (a : App F) (key : Text)
    → is_truthy (channel_id a) ≡ true
    → map_get a.room_key_b64 (channel_id a) ≡ some key
    → is_truthy key ≡ true
    → copied_link a ≡ invite_link a.location.origin (channel_id a) key
unfolding copied_link
copied_link-key a key t e h = rw (copied_link, t, e, h) refl

-- The invite link that is copied on the page of a room with a valid id and a room key is parsed to
-- that id and key, for an origin in which the pattern of a room occurs nowhere and which begins
-- with no white space.
pub parse_invite-copied_link :
    {F : Type 0} (a : App F) (c : ℕ) (origin key : Text)
    → a.location.origin ≡ c ∷ origin
    → is_space c ≡ false
    → is_origin (c ∷ origin) ≡ true
    → is_channel_id (channel_id a) ≡ true
    → map_get a.room_key_b64 (channel_id a) ≡ some key
    → is_room_key_b64 key ≡ true
    → parse_invite (copied_link a) ≡ record { id = channel_id a; key = some key }
parse_invite-copied_link a c origin key q h o i e k =
    let full : copied_link a ≡ link_of (c ∷ origin) (channel_id a) key =
      copied_link-key a key (truthy_id (channel_id a) i) e (truthy_key key k)
      ∙ (invite_link-link_of a.location.origin (channel_id a) key k
          ∙ ap (λ w. link_of w (channel_id a) key) q) in
    ap parse_invite full ∙ parse_invite-link c origin (channel_id a) key h o i k
