-- ===== src/View.antt =====
-- frontend/src/MessageList.svelte: how the messages of a room are shown, and the guards on what
-- frontend/src/Sidebar.svelte, CreateRoomView.svelte and Composer.svelte hand to the application.
pub mod Shown
use private_chat.Prelude.{
  ℕ, zero, suc, ◌+◌, ◌-◌, ◌*◌, ◌/◌, ◌%◌, ◌^◌, ◌≤◌, ◌<◌, min, ◌≡◌, refl, sym, ap, ap₂, subst, ◌∙◌,
  ◌≢◌, ◌↔◌, ◌⊎◌, inl, inr, Bool, true, false, not, ◌&&◌, ◌||◌, Option, none, some, List, [], ◌∷◌,
  ◌++◌, map, reverse, append-nil, append_assoc, arith, ltb, leb, ◌==◌, if◌then◌else◌, ltb→lt,
  lt→ltb, leb→le, ==_iff, Bool-cases, Option-cases, length, length-append, take, drop, replicate,
  length-replicate, take-length-append, drop-length-append, take-append-drop, length-drop, all, All,
  All-append, All-all, all-All, all_below, all_below_sound, length-map, map-map,
}
use private_chat.Text.{Text, codes, text_eq, is_truthy, trim}
use private_chat.Collections.{map_get}
use private_chat.Json.{Numbers, Json, null, bool, num, str, arr, obj, Items, nil, cons, Fields, get}
use private_chat.Json.Read.{is_text, is_truthy_value}
use private_chat.Identity.{Signing}
use private_chat.E2ee.AesGcm.{Aead}
use private_chat.Channel.{
  IdentStatus, verified, invalid, conflict, MessageIdent, SysKind, room_name, key_rotation,
  identity_conflict, ChatMessage, from_frame, system, text_of, warning,
}
use private_chat.App.{or_else, peer_key, hue}
use private_chat.App.Gate.{if_truthy}

-- The properties of the component that its functions read.
pub record RoomView : Type 0 where
  pub room_id : Text
  pub peer_nicks : List (Text × Text)
  pub self_nicks : List (Text × Text)

-- `m.ident?.nick && m.ident.status !== "invalid"`, and the nick
unfoldable pub claimed_nick : Option MessageIdent → Option Text
claimed_nick none = none
claimed_nick (some i) = elim i.status [
  | invalid ↦ none
  | verified ↦ if_truthy i.nick
  | conflict ↦ if_truthy i.nick
]

unfoldable pub ident_title : MessageIdent → Text
ident_title i = elim i.status [
  | verified ↦ codes "Identity verified (TOFU, this session) · pk " ++ i.pk
  | conflict ↦ warning (codes "Same nick claimed by a different identity · claimed pk " ++ i.pk)
  | invalid ↦ warning (codes "Signature invalid — content hidden · claimed pk " ++ i.pk)
]

unfoldable pub ident_chip_class : MessageIdent → Text
ident_chip_class i = elim i.status [
  | verified ↦ codes "bg-zinc-100 text-zinc-500"
  | conflict ↦ codes "bg-amber-100 text-amber-700"
  | invalid ↦ codes "bg-red-100 text-red-700"
]

-- `submitJoin` of Sidebar.svelte: whether `onJoin` is called.
unfoldable pub submit_join : (join_input : Text) → Bool
submit_join join_input = is_truthy (trim join_input)

-- `submit` of CreateRoomView.svelte: whether `onCreate` is called.
unfoldable pub submit_create : (creating : Bool) → Bool
submit_create creating = not creating

-- `onkeydown` of Composer.svelte: whether `onSend` is called.
unfoldable pub sends_on_key : (is_composing shift : Bool) → (key : Text) → Bool
sends_on_key is_composing shift key =
    not (is_composing || text_eq key (codes "Process"))
    && (text_eq key (codes "Enter") && not shift)

module _ (N : Numbers) where
  open N use {Number, to_literal}

  -- `String(v)` of a value that `JSON.parse` gave; in an array, null is empty.
  unfoldable mutual
    pub text_of_value : Json Number → Text
    text_of_value null = codes "null"
    text_of_value (bool true) = codes "true"
    text_of_value (bool false) = codes "false"
    text_of_value (num x) = to_literal x
    text_of_value (str s) = s
    text_of_value (arr xs) = text_of_items xs
    text_of_value (obj o) = codes "[object Object]"

    pub text_of_items : Items Number → Text
    text_of_items nil = []
    text_of_items (cons null nil) = []
    text_of_items (cons v nil) = text_of_value v
    text_of_items (cons null rest) = b',' ∷ text_of_items rest
    text_of_items (cons v rest) = text_of_value v ++ b',' ∷ text_of_items rest

  abbrev pub text_or_undefined : Option (Json Number) → Text
  text_or_undefined none = codes "undefined"
  text_or_undefined (some v) = text_of_value v

  -- `m.sys`, as far as it is read: of a frame it is a property that the relay may have put there.
  pub record Sys : Type 0 where
    pub sys_kind : Option (Json Number)
    pub actor : Option (Json Number)
    pub nick : Option (Json Number)
    pub fp : Option (Json Number)

  -- Property access on a truthy value.
  abbrev pub property : Json Number → Text → Option (Json Number)
  property (obj o) name = get o name
  property _ name = none

  abbrev pub text_or_none : Option Text → Option (Json Number)
  text_or_none none = none
  text_or_none (some t) = some (str t)

  unfoldable pub sys_of : ChatMessage Number → Option Sys
  sys_of (from_frame o payload ts ident) = elim (get o (codes "sys")) [
    | none ↦ none
    | some v ↦
        if is_truthy_value N (some v)
        then some (record {
          sys_kind = property v (codes "sysKind");
          actor = property v (codes "actor");
          nick = property v (codes "nick");
          fp = property v (codes "fp");
        })
        else none
  ]
  sys_of (system channel_id payload ts room_name actor) = some (record {
    sys_kind = some (str (codes "room_name"));
    actor = some (str actor);
    nick = none;
    fp = none;
  })
  sys_of (system channel_id payload ts key_rotation actor) = some (record {
    sys_kind = some (str (codes "key_rotation"));
    actor = some (str actor);
    nick = none;
    fp = none;
  })
  sys_of (system channel_id payload ts (identity_conflict nick fp) actor) = some (record {
    sys_kind = some (str (codes "identity_conflict"));
    actor = some (str actor);
    nick = text_or_none nick;
    fp = some (str fp);
  })

  abbrev pub payload_of : ChatMessage Number → Text
  payload_of (from_frame o payload ts ident) = payload
  payload_of (system channel_id payload ts sys_kind actor) = payload

  abbrev pub from_of : ChatMessage Number → Text
  from_of (from_frame o payload ts ident) = text_of o (codes "from")
  from_of (system channel_id payload ts sys_kind actor) = codes "system"

  abbrev pub is_self : ChatMessage Number → Bool
  is_self (from_frame o payload ts ident) = is_truthy_value N (get o (codes "self"))
  is_self (system channel_id payload ts sys_kind actor) = false

  abbrev pub ident_of : ChatMessage Number → Option MessageIdent
  ident_of (from_frame o payload ts ident) = ident
  ident_of (system channel_id payload ts sys_kind actor) = none

  -- `peerNicks.get(`${roomId}:${id}`) ?? id`
  abbrev pub peer_name : RoomView → Text → Text
  peer_name v id = or_else (map_get v.peer_nicks (peer_key v.room_id id)) id

  unfoldable pub display_nick : RoomView → ChatMessage Number → Text
  display_nick v m =
      if text_eq (from_of m) (codes "system")
      then codes "System"
      else if is_self m
      then or_else (map_get v.self_nicks v.room_id) (codes "You")
      else or_else (claimed_nick (ident_of m)) (peer_name v (from_of m))

  -- The hue of `avatarColor`
  unfoldable pub avatar_hue : ChatMessage Number → ℕ
  avatar_hue m = hue (elim (ident_of m) [ none ↦ from_of m | some i ↦ i.fp ])

  abbrev pub quoted : Text → Text
  quoted s = b'"' ∷ s ++ b'"' ∷ []

  -- The label and the key, characters beyond the basic plane
  abbrev pub label : Text → Text
  label text = 0xd83c ∷ 0xdff7 ∷ 0xfe0f ∷ b' ' ∷ text

  abbrev pub key_sign : Text → Text
  key_sign text = 0xd83d ∷ 0xdd11 ∷ b' ' ∷ text

  unfoldable pub sys_text : RoomView → ChatMessage Number → Text
  sys_text v m = elim (sys_of m) [
    | none ↦ payload_of m
    | some sys ↦
        let nick = peer_name v (text_or_undefined sys.actor) in
        if is_text sys.sys_kind (codes "room_name")
        then label (codes "Room name updated to " ++ quoted (payload_of m) ++ codes " by " ++ nick)
        else if is_text sys.sys_kind (codes "key_rotation")
        then key_sign (codes "Key rotated by " ++ nick)
        else if is_text sys.sys_kind (codes "identity_conflict")
        then warning (
            codes "Nick "
            ++ quoted (text_or_undefined sys.nick)
            ++ codes " is now claimed by a different session identity ("
            ++ text_or_undefined sys.fp
            ++ codes "…) — could be a fresh session identity or impersonation")
        else payload_of m
  ]

  -- The text in the bubble.
  unfoldable pub bubble_text : RoomView → ChatMessage Number → Text
  bubble_text v m = if is_self m then payload_of m else sys_text v m
