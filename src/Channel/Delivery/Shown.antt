-- ===== src/Channel/Delivery/Shown.antt =====
-- What the message handler of frontend/src/channel.svelte.ts does with a signed message that verifies.
use private_chat.Prelude.{
  ℕ, ◌≡◌, refl, sym, ap, ◌∙◌, ◌≢◌, inl, inr, true, Option, none, some, List, [], ◌∷◌, ◌++◌,
  append-nil, append_assoc, arith, Bool-cases,
}
use private_chat.Result.{ok}
use private_chat.Text.{Text}
use private_chat.Json.{Numbers, Fields}
use private_chat.Collections.{map_get, set_has}
use private_chat.E2ee.AesGcm.{Aead}
use private_chat.Identity.{
  Signing, fp_of, SignedMessagePayload, parse_signed_message, verify_signed_message,
}
use private_chat.Channel.{
  ChannelStore, ChatMessage, MessageIdent, verified, invalid, conflict, from_frame, system,
  identity_conflict, append, differs, lacks, remember, record_identity, note_ident, warn_conflict,
  check_connection, warning_key,
}
use private_chat.Channel.Receive.{
  Content, shown, mid_text, from_of, id_of, mid_of, show_content, read_signed, read_plain,
  finish_message,
}

module _ {F : Type 0} where
  remember-messages :
      (mid : Option Text) (s : ChannelStore F) → (remember mid s).messages ≡ s.messages
  unfolding remember
  remember-messages none s = refl
  remember-messages (some mid) s = ground arith

  record_identity-messages :
      (nick pk : Text) (s : ChannelStore F)
      → let r = record_identity nick pk s in
        (r.1.messages ≡ s.messages)
        × (r.0.nick ≡ some nick)
        × (r.0.pk ≡ pk)
        × (r.0.status ≢ invalid)
  unfolding record_identity
  record_identity-messages nick pk s =
      elim (Bool-cases (differs (map_get s.nick_to_fp nick) (fp_of pk))) [
        | inl d ↦ rw d (refl, refl, refl, λ e. ground (arith, e))
        | inr d ↦ elim (Bool-cases (lacks (map_get s.nick_to_fp nick))) [
          | inl l ↦ rw (d, l) (refl, refl, refl, λ e. ground (arith, e))
          | inr l ↦ rw (d, l) (refl, refl, refl, λ e. ground (arith, e))
        ]
      ]

  -- The second store has the messages of the first, and more behind them.
  abbrev Extends : ChannelStore F → ChannelStore F → Type 0
  Extends s s' = (more : List (ChatMessage F)) × (s'.messages ≡ s.messages ++ more)

  check_connection-Extends :
      (fp from : Text) (s s' : ChannelStore F)
      → Extends s s'
      → Extends s (check_connection fp from s')
  unfolding check_connection
  check_connection-Extends fp from s s' (more, e) =
      elim (Bool-cases (differs (map_get s'.fp_by_conn from) fp)) [
        | inl d ↦ (more, rw d e)
        | inr d ↦ (more, rw d e)
      ]

  warn_conflict-Extends :
      (ident : MessageIdent) (id from : Text) (ts : ℕ) (s : ChannelStore F)
      → Extends s (warn_conflict ident id from ts s)
  unfolding warn_conflict
  warn_conflict-Extends ident id from ts s =
      elim (Bool-cases (set_has s.conflict_warned (warning_key ident))) [
        | inl w ↦ ([], rw w (sym (append-nil s.messages)))
        | inr w ↦ (system id [] ts (identity_conflict ident.nick ident.fp) from ∷ [], rw w refl)
      ]

  note_ident-Extends :
      (ident : Option MessageIdent) (id from : Text) (ts : ℕ) (s : ChannelStore F)
      → Extends s (note_ident ident id from ts s)
  unfolding note_ident
  note_ident-Extends none id from ts s = ([], sym (append-nil s.messages))
  note_ident-Extends (some ident) id from ts s =
      let same : Extends s s = ([], sym (append-nil s.messages)) in
      elim ident.status
        as (λ st. Extends s (elim st [
          | verified ↦ check_connection ident.fp from s
          | invalid ↦ s
          | conflict ↦ check_connection ident.fp from (warn_conflict ident id from ts s)
        ])) [
          | verified ↦ check_connection-Extends ident.fp from s s same
          | invalid ↦ same
          | conflict ↦
              check_connection-Extends ident.fp from s (warn_conflict ident id from ts s)
                (warn_conflict-Extends ident id from ts s)
        ]

module _ (N : Numbers) (S : Signing) (aead : Aead) where
  open N use {Number}

  -- The message is shown with the text, the nick and the key, and not as invalid.
  pub record IsShown (o : Fields Number) (now : ℕ) (text nick pk : Text)
      (s s' : ChannelStore Number) : Type 0 where
    pub ident : MessageIdent
    pub more : List (ChatMessage Number)
    pub messages : s'.messages ≡ s.messages ++ from_frame o text now (some ident) ∷ more
    pub same_nick : ident.nick ≡ some nick
    pub same_key : ident.pk ≡ pk
    pub not_invalid : ident.status ≢ invalid

  pub finish_signed :
      (o : Fields Number) (now : ℕ) (plain : Text) (m : SignedMessagePayload)
      (s : ChannelStore Number) {text nick pk : Text}
      → m.text ≡ text
      → m.nick ≡ nick
      → m.pk ≡ pk
      → parse_signed_message N plain ≡ some m
      → verify_signed_message S s.channel_id (mid_text (mid_of o)) m ≡ true
      → IsShown o now text nick pk s (finish_message N S aead o now (ok plain) s)
  unfolding finish_message read_plain read_signed show_content
  finish_signed o now plain m s p q r parsed good =
      let (ident, known) = record_identity m.nick m.pk s in
      let (kept, claimed, key, valid) = record_identity-messages m.nick m.pk s in
      let entered = append (from_frame o m.text now (some ident)) (remember (mid_of o) known) in
      let (more, e) = note_ident-Extends (some ident) (id_of o) (from_of o) now entered in
      let content = shown m.text (some ident) in
      let reads : read_plain N S aead (mid_of o) (ok plain) s ≡ (known, content) =
        rw (read_plain, parsed, good) refl in
      let shows : finish_message N S aead o now (ok plain) s
          ≡ note_ident (some ident) (id_of o) (from_of o) now entered =
        ap (λ (r : ChannelStore Number × Content). show_content o now r.1 r.0) reads in
      let before = remember-messages (mid_of o) known ∙ kept in
      let line = from_frame o m.text now (some ident) in
      record {
        ident = ident;
        more = more;
        messages =
            ap (λ (t : ChannelStore Number). t.messages) shows
            ∙ e
            ∙ ap (λ ms. (ms ++ line ∷ []) ++ more) before
            ∙ append_assoc s.messages (line ∷ []) more
            ∙ ap (λ x. s.messages ++ from_frame o x now (some ident) ∷ more) p;
        same_nick = claimed ∙ ap some q;
        same_key = key ∙ r;
        not_invalid = valid;
      }
