-- ===== src/Channel.antt =====
-- class ChannelStore of frontend/src/channel.svelte.ts: its state, the identities it pins, and what it
-- adds to the timeline. The handlers of messages are in Channel/Receive, the calls that send in
-- Channel/Send.
pub mod Receive
pub mod Send
pub mod Create
pub mod Replay
pub mod Pins
pub mod Authentic
pub mod World
pub mod Budget
pub mod Delivery
use private_chat.Prelude.{
  ℕ, zero, suc, ◌+◌, ◌-◌, ◌*◌, ◌/◌, ◌%◌, ◌^◌, ◌≤◌, ◌<◌, min, ◌≡◌, refl, sym, ap, ap₂, subst, ◌∙◌,
  ◌≢◌, ◌↔◌, ◌⊎◌, inl, inr, Bool, true, false, not, ◌&&◌, ◌||◌, Option, none, some, List, [], ◌∷◌,
  ◌++◌, map, reverse, append-nil, append_assoc, arith, ltb, leb, ◌==◌, if◌then◌else◌, ltb→lt,
  lt→ltb, leb→le, ==_iff, Bool-cases, Option-cases, length, length-append, take, drop, replicate,
  length-replicate, take-length-append, drop-length-append, take-append-drop, length-drop, all, All,
  All-append, All-all, all-All, all_below, all_below_sound, length-map, map-map,
}
use private_chat.Result.{Error}
use private_chat.Text.{Text, codes, text_eq, is_truthy}
use private_chat.Collections.{set_has, set_add, map_get, map_set}
use private_chat.Json.{Json, Fields, get}
use private_chat.Json.Read.{as_string}
use private_chat.E2ee.ReplayCache.{ReplayCache, create, has, add, clear}
use private_chat.E2ee.AesGcm.{Crypto}
use private_chat.Identity.{Identity, fp_of}
use private_chat.Transport.{Status, idle}

pub data IdentStatus : Type 0 where
  verified invalid conflict : IdentStatus

pub record MessageIdent : Type 0 where
  pub fp : Text
  pub nick : Option Text
  pub pk : Text
  pub status : IdentStatus

-- `sysKind`, with the fields that only `identity_conflict` has.
pub data SysKind : Type 0 where
  room_name key_rotation : SysKind
  identity_conflict : (nick : Option Text) (fp : Text) → SysKind

-- A `ChatMessage`: `{ ...msg, payload, ts, ident }` keeps the frame that it spreads; a system message
-- is one that the store makes.
pub data ChatMessage (F : Type 0) : Type 0 where
  from_frame :
      (frame : Fields F) (payload : Text) (ts : ℕ) (ident : Option MessageIdent) → ChatMessage F
  system : (channel_id payload : Text) (ts : ℕ) (sys_kind : SysKind) (actor : Text) → ChatMessage F

-- The text of `error`: a literal, or the message of what was thrown.
pub data Notice : Type 0 where
  said : Text → Notice
  thrown : Error → Notice

-- The calls of the options' functions, in their order.
pub data Callback : Type 0 where
  key_rotated : (new_key_b64 : Text) → Crypto → Callback
  room_name_updated : (name from : Text) → Callback
  nickname_updated : (from nick : Text) → Callback

pub record ChannelStore (F : Type 0) : Type 0 where
  pub channel_id : Text
  pub messages : List (ChatMessage F)
  pub online : Option F
  pub status : Status
  pub error : Option Notice
  pub crypto : Crypto
  pub replay_cache : ReplayCache
  pub last_room_name : Option Text
  pub identity : Option Identity
  pub nick_to_fp : List (Text × Text)
  pub fp_by_conn : List (Text × Text)
  pub conflict_warned : List Text
  pub called : List Callback

-- `owner && owner !== fp`
unfoldable pub differs : Option Text → Text → Bool
differs none fp = false
differs (some owner) fp = is_truthy owner && not (text_eq owner fp)

abbrev pub lacks : Option Text → Bool
lacks none = true
lacks (some owner) = not (is_truthy owner)

-- The key of `conflictWarned`; a conflict always has a nick.
unfoldable pub warning_key : MessageIdent → Text
warning_key ident =
    elim ident.nick [ none ↦ codes "undefined" | some nick ↦ nick ] ++ b':' ∷ ident.fp

-- `"⚠" + VARIATION SELECTOR-16 + " " + text`
abbrev pub warning : Text → Text
warning text = 0x26a0 ∷ 0xfe0f ∷ b' ' ∷ text

module _ {F : Type 0} where
  -- `new ChannelStore(channelId, crypto)`; `online` is `none` for the 0 it starts with.
  unfoldable pub new_store : Text → Crypto → ChannelStore F
  new_store channel_id crypto = record {
    channel_id = channel_id;
    messages = [];
    online = none;
    status = idle;
    error = none;
    crypto = crypto;
    replay_cache = create 1000;
    last_room_name = none;
    identity = none;
    nick_to_fp = [];
    fp_by_conn = [];
    conflict_warned = [];
    called = [];
  }

  abbrev pub complain : Text → ChannelStore F → ChannelStore F
  complain notice s = record s { error = some (said notice) }

  abbrev pub append : ChatMessage F → ChannelStore F → ChannelStore F
  append m s = record s { messages = s.messages ++ m ∷ [] }

  abbrev pub call : Callback → ChannelStore F → ChannelStore F
  call c s = record s { called = s.called ++ c ∷ [] }

  -- A string property of a decoded frame; `decode` has seen that it is one.
  unfoldable pub text_of : Fields F → Text → Text
  text_of o name = elim (as_string (get o name)) [ none ↦ [] | some s ↦ s ]

  -- `mid && this.replayCache.has(mid)`
  unfoldable pub is_replay : Option Text → ChannelStore F → Bool
  is_replay none s = false
  is_replay (some mid) s = is_truthy mid && has s.replay_cache mid

  -- `if (mid) this.replayCache.add(mid);`
  unfoldable pub remember : Option Text → ChannelStore F → ChannelStore F
  remember none s = s
  remember (some mid) s =
      if is_truthy mid then record s { replay_cache = add s.replay_cache mid } else s

  unfoldable pub update_crypto : Crypto → ChannelStore F → ChannelStore F
  update_crypto crypto s = record s { crypto = crypto; replay_cache = clear s.replay_cache }

  unfoldable pub record_identity : (nick pk : Text) → ChannelStore F → MessageIdent × ChannelStore F
  record_identity nick pk s =
      let owner = map_get s.nick_to_fp nick in
      let ident : MessageIdent = record {
        fp = fp_of pk;
        nick = some nick;
        pk = pk;
        status = verified;
      } in
      if differs owner (fp_of pk)
      then (record ident { status = conflict }, s)
      else if lacks owner
      then (ident, record s { nick_to_fp = map_set s.nick_to_fp nick (fp_of pk) })
      else (ident, s)

  unfoldable pub warn_conflict :
      MessageIdent → (channel_id from : Text) → ℕ → ChannelStore F → ChannelStore F
  warn_conflict ident channel_id from ts s =
      if set_has s.conflict_warned (warning_key ident)
      then s
      else append (system channel_id [] ts (identity_conflict ident.nick ident.fp) from)
          (record s { conflict_warned = set_add s.conflict_warned (warning_key ident) })

  -- One connection that presents two identities.
  unfoldable pub check_connection : (fp from : Text) → ChannelStore F → ChannelStore F
  check_connection fp from s =
      if differs (map_get s.fp_by_conn from) fp
      then complain (codes "identity mismatch on connection (possible impersonation)") s
      else record s { fp_by_conn = map_set s.fp_by_conn from fp }

  unfoldable pub note_ident :
      Option MessageIdent → (channel_id from : Text) → ℕ → ChannelStore F → ChannelStore F
  note_ident none channel_id from ts s = s
  note_ident (some ident) channel_id from ts s = elim ident.status [
    | invalid ↦ s
    | verified ↦ check_connection ident.fp from s
    | conflict ↦ check_connection ident.fp from (warn_conflict ident channel_id from ts s)
  ]
