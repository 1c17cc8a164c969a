-- ===== src/Channel/Authentic.antt =====
-- On the identities that the message handler of frontend/src/channel.svelte.ts displays.
use private_chat.Prelude.{
  ◌≡◌, refl, sym, ap, ◌∙◌, ◌≢◌, inl, inr, true, Option, none, some, [], arith, Bool-cases,
  Option-cases,
}
use private_chat.Result.{Result, ok, throw}
use private_chat.Text.{Text, codes}
use private_chat.Json.{Numbers}
use private_chat.E2ee.AesGcm.{Aead}
use private_chat.Identity.{
  Signing, SignedMessagePayload, fp_of, parse_signed_message, stale_signed_message_pk,
  is_unknown_structured_payload, verify_signed_message,
}
use private_chat.Channel.{
  ChannelStore, MessageIdent, invalid, warning, differs, lacks, record_identity,
}
use private_chat.Collections.{map_get}
use private_chat.Channel.Receive.{
  Content, ignored, shown, rejected, mid_text, read_plain, read_signed, read_unsigned,
}

module _ (N : Numbers) (S : Signing) (aead : Aead) where
  open N use {Number}

  -- The decrypted text is a signed message whose signature is good for this channel and message id; the
  -- displayed text is the signed one, and the identity is that of the signer.
  pub record IsAuthentic (mid : Option Text) (answer : Result Text) (s : ChannelStore Number)
      (text : Text) (i : MessageIdent) : Type 0 where
    pub plain : Text
    pub signed : SignedMessagePayload
    pub decrypted : answer ≡ ok plain
    pub parsed : parse_signed_message N plain ≡ some signed
    pub good : verify_signed_message S s.channel_id (mid_text mid) signed ≡ true
    pub same_text : text ≡ signed.text
    pub same_nick : i.nick ≡ some signed.nick
    pub same_key : i.pk ≡ signed.pk

  abbrev Claims : MessageIdent → Text → Text → Type 0
  Claims i nick pk = (i.nick ≡ some nick) × (i.pk ≡ pk)

  record_identity-Claims :
      (nick pk : Text) (s : ChannelStore Number) → Claims (record_identity nick pk s).0 nick pk
  unfolding record_identity
  record_identity-Claims nick pk s =
      elim (Bool-cases (differs (map_get s.nick_to_fp nick) (fp_of pk))) [
        | inl d ↦ rw d (refl, refl)
        | inr d ↦ elim (Bool-cases (lacks (map_get s.nick_to_fp nick))) [
          | inl l ↦ rw (d, l) (refl, refl)
          | inr l ↦ rw (d, l) (refl, refl)
        ]
      ]

  abbrev text_shown : Content → Text
  text_shown ignored = []
  text_shown (shown t i) = t

  abbrev ident_shown : MessageIdent → Content → MessageIdent
  ident_shown d ignored = d
  ident_shown d (shown t none) = d
  ident_shown d (shown t (some i)) = i

  shown_inj :
      (t t' : Text) (i i' : MessageIdent)
      → shown t (some i) ≡ shown t' (some i')
      → (t ≡ t') × (i ≡ i')
  shown_inj t t' i i' e = (ap text_shown e, ap (ident_shown i) e)

  -- A message is displayed with an identity that is not marked invalid only if it is authentic: the
  -- decrypted plaintext parses as a signed message whose signature verifies for this channel and
  -- message id, and the text, nick and key displayed are those that were signed.
  pub shown-IsAuthentic :
      (mid : Option Text) (answer : Result Text) (s : ChannelStore Number) (text : Text)
      (i : MessageIdent)
      → (read_plain N S aead mid answer s).1 ≡ shown text (some i)
      → i.status ≢ invalid
      → IsAuthentic mid answer s text i
  unfolding read_plain read_signed read_unsigned
  shown-IsAuthentic mid (throw x) s text i e h = absurd (ground (arith, e))
  shown-IsAuthentic mid (ok plain) s text i e h =
      elim (Option-cases (parse_signed_message N plain)) [
        | inr (m, p) ↦ elim (Bool-cases (verify_signed_message S s.channel_id (mid_text mid) m)) [
          | inl v ↦
              let shows : (read_plain N S aead mid (ok plain) s).1
                  ≡ shown m.text (some (record_identity m.nick m.pk s).0) =
                rw (read_plain, p, v) refl in
              let (same_text, same) = shown_inj text m.text i _ (sym e ∙ shows) in
              let (nick, pk) = record_identity-Claims m.nick m.pk s in
              record {
                plain = plain;
                signed = m;
                decrypted = refl;
                parsed = p;
                good = v;
                same_text = same_text;
                same_nick = ap (λ (j : MessageIdent). j.nick) same ∙ nick;
                same_key = ap (λ (j : MessageIdent). j.pk) same ∙ pk;
              }
          | inr v ↦
              let shows : (read_plain N S aead mid (ok plain) s).1
                  ≡ shown (warning (codes "invalid signature")) (rejected (some m.nick) m.pk) =
                rw (read_plain, p, v) refl in
              let (_, same) = shown_inj text _ i _ (sym e ∙ shows) in
              absurd (h (ap (λ (j : MessageIdent). j.status) same))
        ]
        | inl p ↦ elim (Option-cases (stale_signed_message_pk N plain)) [
          | inr (k, f) ↦
              let shows : (read_plain N S aead mid (ok plain) s).1
                  ≡ shown (warning (codes "stale signature — refresh to upgrade"))
                      (rejected none k) =
                rw (read_plain, p) (rw (read_unsigned, f) refl) in
              let (_, same) = shown_inj text _ i _ (sym e ∙ shows) in
              absurd (h (ap (λ (j : MessageIdent). j.status) same))
          | inl f ↦ elim (Bool-cases (is_unknown_structured_payload N plain)) [
            | inl u ↦
                let shows : (read_plain N S aead mid (ok plain) s).1 ≡ ignored =
                  rw (read_plain, p) (rw (read_unsigned, f, u) refl) in
                absurd (ground (arith, shows, e))
            | inr u ↦
                let shows : (read_plain N S aead mid (ok plain) s).1 ≡ shown plain none =
                  rw (read_plain, p) (rw (read_unsigned, f, u) refl) in
                absurd (ground (arith, shows, e))
          ]
        ]
      ]
