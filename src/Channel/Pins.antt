-- ===== src/Channel/Pins.antt =====
-- On `recordIdentity` of frontend/src/channel.svelte.ts and the pins that it keeps.
pub mod Runs
use private_chat.Prelude.{
  ℕ, zero, suc, ◌+◌, ◌-◌, ◌*◌, ◌/◌, ◌%◌, ◌^◌, ◌≤◌, ◌<◌, min, ◌≡◌, refl, sym, ap, ap₂, subst, ◌∙◌,
  ◌≢◌, ◌↔◌, ◌⊎◌, inl, inr, Bool, true, false, not, ◌&&◌, ◌||◌, Option, none, some, List, [], ◌∷◌,
  ◌++◌, map, reverse, append-nil, append_assoc, arith, ltb, leb, ◌==◌, if◌then◌else◌, ltb→lt,
  lt→ltb, leb→le, ==_iff, Bool-cases, Option-cases, length, length-append, take, drop, replicate,
  length-replicate, take-length-append, drop-length-append, take-append-drop, length-drop, all, All,
  All-append, All-all, all-All, all_below, all_below_sound, length-map, map-map,
}
use private_chat.Result.{Result, ok, throw, Result-cases}
use private_chat.Text.{Text, codes, is_truthy, text_eq}
use private_chat.Text.Laws.{text_eq_iff}
use private_chat.Collections.{map_get, map_set, map_get-set}
use private_chat.Json.Read.{is_truthy_value}
use private_chat.Json.{Numbers, Fields, get}
use private_chat.E2ee.Envelope.{is_valid_envelope}
use private_chat.E2ee.AesGcm.{Aead, Crypto}
use private_chat.E2ee.Names.{RoomName, UnwrappedNick}
use private_chat.Identity.{
  Signing, SignedMessagePayload, fp_of, parse_signed_message, stale_signed_message_pk,
  is_unknown_structured_payload, verify_signed_message,
}
use private_chat.Codec.{
  Kind, message, key_updated, room_name_updated, nickname_updated, joined, online_count, error,
  decode,
}
use private_chat.Transport.{Status}
use private_chat.Channel.{
  ChannelStore, IdentStatus, MessageIdent, verified, invalid, conflict, from_frame, complain,
  append, is_replay, remember, differs, lacks, update_crypto, note_ident, warn_conflict,
  check_connection, record_identity,
}
use private_chat.Channel.Receive.{
  Job, open_message, rotate, name_room, open_nick, claim_nick, Content, ignored, shown, payload_of,
  from_of, id_of, mid_of, guarded, show_content, finish_message, finish_rotation, finish_room_name,
  finish_nick, finish_claim, claim_of, receive_message, receive_key, receive_frame, receive, resume,
  mid_text, read_plain, read_signed, read_unsigned,
}
use private_chat.Channel.Send.{on_status}

-- A claim counts as verified exactly if its nick is pinned to its fingerprint afterwards; the pins
-- of other nicks stay.
pub record_identity-pins :
    {F : Type 0} (nick pk : Text) (s : ChannelStore F)
    → let r = record_identity nick pk s in
      ((r.0.status ≡ verified) ↔ (map_get r.1.nick_to_fp nick ≡ some (fp_of pk)))
      × ((other : Text)
          → text_eq nick other ≡ false
          → map_get r.1.nick_to_fp other ≡ map_get s.nick_to_fp other)
unfolding record_identity differs
record_identity-pins nick pk s =
    let set = λ (k : Text). map_get-set s.nick_to_fp nick k (fp_of pk) in
    let same : text_eq nick nick ≡ true = ground (arith, text_eq_iff nick nick) in
    elim (Option-cases (map_get s.nick_to_fp nick)) [
      | inl e ↦ (
        (λ h. ground (arith, set nick, same, e), λ h. ground (arith, e)),
        λ other ne. ground (arith, set other, e),
      )
      | inr (owner, e) ↦ elim (Bool-cases (text_eq owner (fp_of pk))) [
        | inl t ↦ (
          (
            λ h. ground (arith, set nick, same, e, t, text_eq_iff owner (fp_of pk)),
            λ h. ground (arith, e, t),
          ),
          λ other ne. ground (arith, set other, e, t),
        )
        | inr t ↦ (
          (
            λ h. ground (arith, set nick, same, e, t, text_eq_iff owner (fp_of pk)),
            λ h. ground (arith, set nick, same, e, t, text_eq_iff owner (fp_of pk)),
          ),
          λ other ne. ground (arith, set other, e, t),
        )
      ]
    ]

module _ {F : Type 0} where
  -- The nick is pinned to the fingerprint.
  abbrev pub Pinned : Text → Text → ChannelStore F → Type 0
  Pinned nick fp s = (map_get s.nick_to_fp nick ≡ some fp) × (is_truthy fp ≡ true)

  pub record_identity-Pinned :
      (nick fp claimed pk : Text) (s : ChannelStore F)
      → Pinned nick fp s
      → Pinned nick fp (record_identity claimed pk s).1
  unfolding record_identity differs
  record_identity-Pinned nick fp claimed pk s (e, t) = (
    ground (arith, map_get-set s.nick_to_fp claimed nick (fp_of pk), text_eq_iff claimed nick),
    t,
  )

  pub remember-pins :
      (mid : Option Text) (s : ChannelStore F) → (remember mid s).nick_to_fp ≡ s.nick_to_fp
  unfolding remember
  remember-pins none s = refl
  remember-pins (some mid) s = ground arith

  pub guarded-pins :
      (a b : Text) (o : Fields F) (job : Job F) (s : ChannelStore F)
      → (guarded a b o job s).0.nick_to_fp ≡ s.nick_to_fp
  unfolding guarded
  guarded-pins a b o job s = ground arith

  warn_conflict-pins :
      (i : MessageIdent) (id from : Text) (ts : ℕ) (s : ChannelStore F)
      → (warn_conflict i id from ts s).nick_to_fp ≡ s.nick_to_fp
  unfolding warn_conflict
  warn_conflict-pins i id from ts s = ground arith

  check_connection-pins :
      (fp from : Text) (s : ChannelStore F) → (check_connection fp from s).nick_to_fp ≡ s.nick_to_fp
  unfolding check_connection
  check_connection-pins fp from s = ground arith

  note_ident-pins :
      (i : Option MessageIdent) (id from : Text) (ts : ℕ) (s : ChannelStore F)
      → (note_ident i id from ts s).nick_to_fp ≡ s.nick_to_fp
  unfolding note_ident
  note_ident-pins none id from ts s = refl
  note_ident-pins (some i) id from ts s = split i.status
    where
      act : IdentStatus → ChannelStore F
      act st = elim st [
        | invalid ↦ s
        | verified ↦ check_connection i.fp from s
        | conflict ↦ check_connection i.fp from (warn_conflict i id from ts s)
      ]

      split : (st : IdentStatus) → (act st).nick_to_fp ≡ s.nick_to_fp
      split invalid = refl
      split verified = check_connection-pins i.fp from s
      split conflict =
          check_connection-pins i.fp from (warn_conflict i id from ts s)
          ∙ warn_conflict-pins i id from ts s

  pub show_content-pins :
      (o : Fields F) (now : ℕ) (c : Content) (s : ChannelStore F)
      → (show_content o now c s).nick_to_fp ≡ s.nick_to_fp
  unfolding show_content
  show_content-pins o now ignored s = remember-pins (mid_of o) s
  show_content-pins o now (shown p i) s = note_ident-pins i _ _ now _ ∙ remember-pins (mid_of o) s

  pub finish_rotation-pins :
      (o : Fields F) (now : ℕ) (r : Result (Text × Crypto)) (s : ChannelStore F)
      → (finish_rotation o now r s).nick_to_fp ≡ s.nick_to_fp
  unfolding finish_rotation
  finish_rotation-pins o now (throw e) s = refl
  finish_rotation-pins o now (ok (k, c)) s = remember-pins (mid_of o) _

  pub finish_room_name-pins :
      (o : Fields F) (now : ℕ) (r : Result RoomName) (s : ChannelStore F)
      → (finish_room_name o now r s).nick_to_fp ≡ s.nick_to_fp
  unfolding finish_room_name
  finish_room_name-pins o now (throw e) s = refl
  finish_room_name-pins o now (ok r) s = ground (arith, remember-pins (mid_of o) s)
