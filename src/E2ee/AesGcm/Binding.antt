-- ===== src/E2ee/AesGcm/Binding.antt =====
-- On the additional data of `encrypt` and `decrypt` in frontend/src/e2ee.ts.
use private_chat.Prelude.{
  ℕ, ◌<◌, ◌≡◌, sym, ap, ◌∙◌, true, false, [], ◌∷◌, ◌++◌, append-nil, arith, all, All,
}
use private_chat.Text.{Text, codes, includes, is_b64url, is_b64url_char}
use private_chat.Text.Laws.{first_separator}
use private_chat.Text.Utf8.{utf8_encode}
use private_chat.Text.Utf8.Framing.{utf8_encode-split, utf8_encode-ascii}
use private_chat.E2ee.Envelope.{is_channel_id}
use private_chat.E2ee.Envelope.Parts.{all_class-includes, all_of_is_b64url, bar_out}
use private_chat.E2ee.AesGcm.{aad_text}

class_ascii : (c : ℕ) → is_b64url_char c ≡ true → c < 0x80
unfolding is_b64url_char
class_ascii c h = ground arith

pub All-ascii : (s : Text) → all is_b64url_char s ≡ true → All (λ c. c < 0x80) s
All-ascii [] h = tt
All-ascii (c ∷ s) h = (class_ascii c (ground arith), All-ascii s (ground arith))

-- A text of the class is its own encoding.
pub utf8_encode-class : (s : Text) → all is_b64url_char s ≡ true → utf8_encode s ≡ s
unfolding utf8_encode
utf8_encode-class s h =
    ap utf8_encode (sym (append-nil s)) ∙ utf8_encode-ascii s [] (All-ascii s h) ∙ append-nil s

pub class_of_channel_id : (id : Text) → is_channel_id id ≡ true → all is_b64url_char id ≡ true
unfolding is_channel_id
class_of_channel_id id h = ground arith

pub channel_id-includes_bar : (id : Text) → is_channel_id id ≡ true → includes b'|' id ≡ false
channel_id-includes_bar id h = all_class-includes b'|' id bar_out (class_of_channel_id id h)

utf8_encode-aad :
    (id mid : Text)
    → is_channel_id id ≡ true
    → utf8_encode (aad_text id mid) ≡ codes "v1|" ++ (id ++ b'|' ∷ utf8_encode mid)
unfolding aad_text
utf8_encode-aad id mid h =
    utf8_encode-ascii (codes "v1|") (id ++ b'|' ∷ mid) (omega arith)
    ∙ ap (λ s. codes "v1|" ++ s)
        (utf8_encode-split id b'|' mid (omega arith)
          ∙ ap (λ s. s ++ b'|' ∷ utf8_encode mid) (utf8_encode-class id (class_of_channel_id id h)))

-- For valid channels and message ids of the class, two channels, or two message ids, never share
-- their additional data.
aad_injective :
    (id id' mid mid' : Text)
    → is_channel_id id ≡ true
    → is_channel_id id' ≡ true
    → is_b64url mid ≡ true
    → is_b64url mid' ≡ true
    → utf8_encode (aad_text id mid) ≡ utf8_encode (aad_text id' mid')
    → (id ≡ id') × (mid ≡ mid')
aad_injective id id' mid mid' h h' k k' e =
    let joined = sym (utf8_encode-aad id mid h) ∙ e ∙ utf8_encode-aad id' mid' h' in
    let (same, rest) =
      first_separator b'|' id id' (utf8_encode mid) (utf8_encode mid')
        (channel_id-includes_bar id h) (channel_id-includes_bar id' h') (ground (arith, joined)) in
    (
      same,
      sym (utf8_encode-class mid (all_of_is_b64url mid k))
          ∙ rest
          ∙ utf8_encode-class mid' (all_of_is_b64url mid' k'),
    )
