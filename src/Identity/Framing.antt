-- ===== src/Identity/Framing.antt =====
-- On `messageSigData` and `nickSigData` of frontend/src/identity.ts.
use private_chat.Prelude.{
  ◌≡◌, sym, ap, ap₂, ◌∙◌, ◌≢◌, true, List, [], ◌∷◌, ◌++◌, append-nil, append_assoc, arith, length,
}
use private_chat.Text.{Text, codes, is_b64url}
use private_chat.Text.Laws.{first_separator}
use private_chat.Text.Decimal.{decimal, decimal_injective, decimal-includes, decimal-ascii}
use private_chat.Text.Utf8.{utf8_encode, utf8_length}
use private_chat.Text.Utf8.Framing.{
  utf8_encode-split, utf8_encode-cons, utf8_encode-ascii, append-cancel_length,
}
use private_chat.Text.Utf8.Decoding.{IsWellFormed, utf8_encode_injective}
use private_chat.E2ee.Base64.{Bytes}
use private_chat.E2ee.Envelope.{is_channel_id}
use private_chat.E2ee.Envelope.Parts.{all_class-includes, all_of_is_b64url, bar_out}
use private_chat.E2ee.AesGcm.Binding.{
  utf8_encode-class, class_of_channel_id, channel_id-includes_bar,
}
use private_chat.Identity.{frame, message_sig_data, nick_sig_data}

-- A framed row of bytes.
abbrev framed : Bytes → Bytes
framed bs = decimal (length bs) ++ b':' ∷ bs

utf8_encode-frame : (field' : Text) → utf8_encode (frame field') ≡ framed (utf8_encode field')
unfolding frame utf8_length
utf8_encode-frame field' =
    utf8_encode-ascii (decimal (length (utf8_encode field'))) (b':' ∷ field') (decimal-ascii _)
    ∙ ap (λ s. decimal (length (utf8_encode field')) ++ s)
        (utf8_encode-cons b':' field' (omega arith))

-- Behind a length prefix a field cannot absorb what follows it.
framed-cancel : (a b s t : Bytes) → framed a ++ s ≡ framed b ++ t → (a ≡ b) × (s ≡ t)
framed-cancel a b s t e =
    let open' : decimal (length a) ++ b':' ∷ (a ++ s) ≡ decimal (length b) ++ b':' ∷ (b ++ t) =
      sym (append_assoc (decimal (length a)) (b':' ∷ a) s)
      ∙ e
      ∙ append_assoc (decimal (length b)) (b':' ∷ b) t in
    let (digits, rest) =
      first_separator b':' (decimal (length a)) (decimal (length b)) (a ++ s) (b ++ t)
        (decimal-includes (length a) b':' (omega arith))
        (decimal-includes (length b) b':' (omega arith)) open' in
    append-cancel_length a b s t (decimal_injective (length a) (length b) digits) rest

utf8_encode-part :
    (part rest : Text)
    → is_b64url part ≡ true
    → utf8_encode (part ++ b'|' ∷ rest) ≡ part ++ b'|' ∷ utf8_encode rest
utf8_encode-part part rest h =
    utf8_encode-split part b'|' rest (omega arith)
    ∙ ap (λ s. s ++ b'|' ∷ utf8_encode rest) (utf8_encode-class part (all_of_is_b64url part h))

utf8_encode-channel :
    (id rest : Text)
    → is_channel_id id ≡ true
    → utf8_encode (id ++ b'|' ∷ rest) ≡ id ++ b'|' ∷ utf8_encode rest
utf8_encode-channel id rest h =
    utf8_encode-split id b'|' rest (omega arith)
    ∙ ap (λ s. s ++ b'|' ∷ utf8_encode rest) (utf8_encode-class id (class_of_channel_id id h))

utf8_encode-message :
    (id mid nick text : Text)
    → is_channel_id id ≡ true
    → is_b64url mid ≡ true
    → utf8_encode (message_sig_data id mid nick text)
      ≡ codes "identity-v2|msg|"
        ++ (id
            ++ b'|'
              ∷ (mid ++ b'|' ∷ (framed (utf8_encode nick) ++ b'|' ∷ framed (utf8_encode text))))
unfolding message_sig_data
utf8_encode-message id mid nick text h k =
    utf8_encode-ascii (codes "identity-v2|msg|") _ (omega arith)
    ∙ ap (λ s. codes "identity-v2|msg|" ++ s)
        (utf8_encode-channel id _ h
          ∙ ap (λ s. id ++ b'|' ∷ s)
              (utf8_encode-part mid _ k
                ∙ ap (λ s. mid ++ b'|' ∷ s)
                    (utf8_encode-split (frame nick) b'|' (frame text) (omega arith)
                      ∙ ap₂ (λ s t. s ++ b'|' ∷ t) (utf8_encode-frame nick)
                          (utf8_encode-frame text))))

utf8_encode-nick :
    (id nick : Text)
    → is_channel_id id ≡ true
    → utf8_encode (nick_sig_data id nick)
      ≡ codes "identity-v2|nick|" ++ (id ++ b'|' ∷ framed (utf8_encode nick))
unfolding nick_sig_data
utf8_encode-nick id nick h =
    utf8_encode-ascii (codes "identity-v2|nick|") _ (omega arith)
    ∙ ap (λ s. codes "identity-v2|nick|" ++ s)
        (utf8_encode-channel id (frame nick) h ∙ ap (λ s. id ++ b'|' ∷ s) (utf8_encode-frame nick))

append-cancel {ℓ} : {A : Type ℓ} (xs ys zs : List A) → xs ++ ys ≡ xs ++ zs → ys ≡ zs
append-cancel [] ys zs e = e
append-cancel (x ∷ xs) ys zs e = append-cancel xs ys zs (ground arith)

-- The signed bytes of a message determine the channel, the message id and the bytes of nick and text.
message_bytes_injective :
    (id id' mid mid' nick nick' text text' : Text)
    → is_channel_id id ≡ true
    → is_channel_id id' ≡ true
    → is_b64url mid ≡ true
    → is_b64url mid' ≡ true
    → utf8_encode (message_sig_data id mid nick text)
      ≡ utf8_encode (message_sig_data id' mid' nick' text')
    → (id ≡ id')
      × (mid ≡ mid')
      × (utf8_encode nick ≡ utf8_encode nick')
      × (utf8_encode text ≡ utf8_encode text')
message_bytes_injective id id' mid mid' nick nick' text text' h h' k k' e =
    let e1 = append-cancel (codes "identity-v2|msg|") _ _ (
      sym (utf8_encode-message id mid nick text h k)
      ∙ e
      ∙ utf8_encode-message id' mid' nick' text' h' k') in
    let (same_id, e2) =
      first_separator b'|' id id' _ _ (channel_id-includes_bar id h)
        (channel_id-includes_bar id' h') e1 in
    let (same_mid, e3) =
      first_separator b'|' mid mid' _ _
        (all_class-includes b'|' mid bar_out (all_of_is_b64url mid k))
        (all_class-includes b'|' mid' bar_out (all_of_is_b64url mid' k')) e2 in
    let (same_nick, e4) =
      framed-cancel (utf8_encode nick) (utf8_encode nick') (b'|' ∷ framed (utf8_encode text))
        (b'|' ∷ framed (utf8_encode text')) e3 in
    let e5 =
      append-cancel (b'|' ∷ []) (framed (utf8_encode text)) (framed (utf8_encode text')) e4 in
    let (same_text, _) = framed-cancel (utf8_encode text) (utf8_encode text') [] [] (
      append-nil (framed (utf8_encode text))
      ∙ e5
      ∙ sym (append-nil (framed (utf8_encode text')))) in
    (same_id, same_mid, same_nick, same_text)

-- For channels and message ids of the allowed characters and well-formed nicks and texts, two
-- messages with the same signed bytes are the same message.
pub message_sig_data_injective :
    (id id' mid mid' nick nick' text text' : Text)
    → is_channel_id id ≡ true
    → is_channel_id id' ≡ true
    → is_b64url mid ≡ true
    → is_b64url mid' ≡ true
    → IsWellFormed nick
    → IsWellFormed nick'
    → IsWellFormed text
    → IsWellFormed text'
    → utf8_encode (message_sig_data id mid nick text)
      ≡ utf8_encode (message_sig_data id' mid' nick' text')
    → (id ≡ id') × (mid ≡ mid') × (nick ≡ nick') × (text ≡ text')
message_sig_data_injective id id' mid mid' nick nick' text text' h h' k k' w w' v v' e =
    let (a, b, c, d) = message_bytes_injective id id' mid mid' nick nick' text text' h h' k k' e in
    (a, b, utf8_encode_injective nick nick' w w' c, utf8_encode_injective text text' v v' d)

-- For valid channels and well-formed nicks, two nick claims with the same signed bytes are the same
-- claim.
pub nick_sig_data_injective :
    (id id' nick nick' : Text)
    → is_channel_id id ≡ true
    → is_channel_id id' ≡ true
    → IsWellFormed nick
    → IsWellFormed nick'
    → utf8_encode (nick_sig_data id nick) ≡ utf8_encode (nick_sig_data id' nick')
    → (id ≡ id') × (nick ≡ nick')
nick_sig_data_injective id id' nick nick' h h' w w' e =
    let e1 =
      append-cancel (codes "identity-v2|nick|") _ _
        (sym (utf8_encode-nick id nick h) ∙ e ∙ utf8_encode-nick id' nick' h') in
    let (same_id, e2) =
      first_separator b'|' id id' _ _ (channel_id-includes_bar id h)
        (channel_id-includes_bar id' h') e1 in
    let (same_nick, _) =
      framed-cancel (utf8_encode nick) (utf8_encode nick') [] []
        (append-nil _ ∙ e2 ∙ sym (append-nil _)) in
    (same_id, utf8_encode_injective nick nick' w w' same_nick)

-- For valid channels and a message id of the class, no bytes are signed both for a message and for
-- a nick claim.
pub message-ne-nick :
    (id id' mid nick nick' text : Text)
    → is_channel_id id ≡ true
    → is_channel_id id' ≡ true
    → is_b64url mid ≡ true
    → utf8_encode (message_sig_data id mid nick text) ≢ utf8_encode (nick_sig_data id' nick')
message-ne-nick id id' mid nick nick' text h h' k e =
    let joined =
      sym (utf8_encode-message id mid nick text h k) ∙ e ∙ utf8_encode-nick id' nick' h' in
    absurd (ground (arith, joined))
