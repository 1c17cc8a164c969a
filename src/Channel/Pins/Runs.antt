-- ===== src/Channel/Pins/Runs.antt =====
-- The pins of frontend/src/channel.svelte.ts while frames arrive and jobs are resumed.
use private_chat.Prelude.{
  ℕ, ◌≡◌, refl, ap, ◌∙◌, inl, inr, Bool, true, false, Option, some, List, arith, Bool-cases,
  Option-cases,
}
use private_chat.Result.{Result, ok, throw, Result-cases}
use private_chat.Text.{Text, codes, is_truthy}
use private_chat.Collections.{map_get}
use private_chat.Json.Read.{is_truthy_value}
use private_chat.Json.{Numbers, Fields, get}
use private_chat.E2ee.Envelope.{is_valid_envelope}
use private_chat.E2ee.AesGcm.{Aead}
use private_chat.E2ee.Names.{UnwrappedNick}
use private_chat.Identity.{
  Signing, parse_signed_message, stale_signed_message_pk, verify_signed_message,
}
use private_chat.Codec.{Kind, message, key_updated, room_name_updated, nickname_updated, decode}
use private_chat.Channel.{ChannelStore, update_crypto}
use private_chat.Channel.Receive.{
  Job, open_message, rotate, name_room, open_nick, claim_nick, payload_of, mid_of, show_content,
  finish_message, finish_rotation, finish_room_name, finish_nick, finish_claim, claim_of,
  receive_message, receive_key, receive_frame, receive, resume, mid_text, read_plain, read_signed,
  read_unsigned,
}
use private_chat.Channel.Send.{on_status}
use private_chat.Channel.World.{
  World, Step, arrives, resumes, switches, reports, Reach, at_start, next,
}
use private_chat.Channel.Pins.{
  Pinned, record_identity-Pinned, remember-pins, guarded-pins, show_content-pins,
  finish_rotation-pins, finish_room_name-pins,
}

module _ (N : Numbers) (S : Signing) (aead : Aead) where
  open N use {Number}

  module _ (nick fp : Text) where
    keep :
        (m m' : List (Text × Text))
        → m' ≡ m
        → (map_get m nick ≡ some fp) × (is_truthy fp ≡ true)
        → (map_get m' nick ≡ some fp) × (is_truthy fp ≡ true)
    keep m m' e (p, t) = (ap (λ n. map_get n nick) e ∙ p, t)

    read_plain-Pinned :
        (mid : Option Text) (answer : Result Text) (s : ChannelStore Number)
        → Pinned nick fp s
        → Pinned nick fp (read_plain N S aead mid answer s).0
    unfolding read_plain read_signed read_unsigned
    read_plain-Pinned mid (throw e) s p = p
    read_plain-Pinned mid (ok plain) s p = elim (Option-cases (parse_signed_message N plain)) [
      | inr (m, e) ↦ elim (Bool-cases (verify_signed_message S s.channel_id (mid_text mid) m)) [
        | inl v ↦ rw (read_plain, e, v) (record_identity-Pinned nick fp m.nick m.pk s p)
        | inr v ↦ rw (read_plain, e, v) p
      ]
      | inl e ↦
          rw (read_plain, e)
            (elim (Option-cases (stale_signed_message_pk N plain)) [
              | inl f ↦ rw (read_unsigned, f) p
              | inr (k, f) ↦ rw (read_unsigned, f) p
            ])
    ]

    receive_frame-pins :
        (available : Bool) (now : ℕ) (k : Kind) (o : Fields Number) (s : ChannelStore Number)
        → (receive_frame N S aead available now k o s).0.nick_to_fp ≡ s.nick_to_fp
    unfolding receive_frame receive_message receive_key
    receive_frame-pins available now message o s =
        elim (Bool-cases (is_valid_envelope (payload_of o))) [
          | inl v ↦ rw v (guarded-pins _ _ o _ s)
          | inr v ↦ rw v refl
        ]
    receive_frame-pins available now key_updated o s =
        elim (Bool-cases (is_truthy_value N (get o (codes "self")))) [
          | inl own ↦ rw own refl
          | inr other ↦ rw other (guarded-pins _ _ o _ s)
        ]
    receive_frame-pins available now room_name_updated o s = guarded-pins _ _ o _ s
    receive_frame-pins available now nickname_updated o s = guarded-pins _ _ o _ s
    receive_frame-pins available now k o s = ground arith

    receive-pins :
        (available : Bool) (now : ℕ) (raw : Text) (s : ChannelStore Number)
        → (receive N S aead available now raw s).0.nick_to_fp ≡ s.nick_to_fp
    unfolding receive
    receive-pins available now raw s = elim (Result-cases (decode N raw)) [
      | inl (f, e) ↦ rw (receive, e) (receive_frame-pins available now f.kind f.object s)
      | inr (x, e) ↦ rw (receive, e) refl
    ]

    finish_nick-pins :
        (o : Fields Number) (u : UnwrappedNick) (s : ChannelStore Number)
        → (finish_nick N S aead o (ok u) s).0.nick_to_fp ≡ s.nick_to_fp
    unfolding finish_nick finish_claim
    finish_nick-pins o u s = elim (Option-cases (claim_of N S aead u)) [
      | inl e ↦ rw (finish_nick, e) (remember-pins (mid_of o) s)
      | inr (c, e) ↦ rw (finish_nick, e) (remember-pins (mid_of o) s)
    ]

    resume-Pinned :
        (now : ℕ) (job : Job Number) (s : ChannelStore Number)
        → Pinned nick fp s
        → Pinned nick fp (resume N S aead now job s).0
    unfolding resume finish_message finish_nick finish_claim
    resume-Pinned now (open_message o answer) s p =
        let read = read_plain N S aead (mid_of o) answer s in
        keep read.0.nick_to_fp (show_content o now read.1 read.0).nick_to_fp
          (show_content-pins o now read.1 read.0) (read_plain-Pinned (mid_of o) answer s p)
    resume-Pinned now (rotate o answer) s p =
        keep s.nick_to_fp (finish_rotation o now answer s).nick_to_fp
          (finish_rotation-pins o now answer s) p
    resume-Pinned now (name_room o answer) s p =
        keep s.nick_to_fp (finish_room_name o now answer s).nick_to_fp
          (finish_room_name-pins o now answer s) p
    resume-Pinned now (open_nick o (throw e)) s p = p
    resume-Pinned now (open_nick o (ok u)) s p =
        keep s.nick_to_fp (finish_nick N S aead o (ok u) s).0.nick_to_fp (finish_nick-pins o u s) p
    resume-Pinned now (claim_nick o claimed pk false) s p = p
    resume-Pinned now (claim_nick o claimed pk true) s p =
        record_identity-Pinned nick fp claimed pk s p

    Step-Pinned :
        {w w' : World Number}
        → Step N S aead w w'
        → Pinned nick fp w.store
        → Pinned nick fp w'.store
    unfolding update_crypto on_status
    Step-Pinned (arrives available now raw w) p =
        keep w.store.nick_to_fp (receive N S aead available now raw w.store).0.nick_to_fp
          (receive-pins available now raw w.store) p
    Step-Pinned (resumes now before after job s) p = resume-Pinned now job s p
    Step-Pinned (switches crypto w) p = p
    Step-Pinned (reports status w) p =
        keep w.store.nick_to_fp (on_status status w.store).0.nick_to_fp (ground arith) p

    -- Once a nick is pinned to a fingerprint that is not empty it stays pinned to it, whatever
    -- frames arrive, in whatever order their jobs are resumed, and whatever keys and statuses are
    -- set in between.
    pub pin_kept :
        {w w' : World Number}
        → Reach N S aead w w'
        → Pinned nick fp w.store
        → Pinned nick fp w'.store
    pin_kept at_start p = p
    pin_kept (next r s) p = Step-Pinned s (pin_kept r p)
