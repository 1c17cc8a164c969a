-- ===== src/View/Shown.antt =====
-- The names and texts that frontend/src/MessageList.svelte shows.
use private_chat.Prelude.{
  ℕ, ◌≡◌, refl, sym, ap, ◌∙◌, ◌≢◌, ◌⊎◌, inl, inr, false, Option, none, some, [], ◌∷◌, Option-cases,
}
use private_chat.Result.{Result}
use private_chat.Text.{Text, codes, text_eq}
use private_chat.Json.{Numbers, Fields, get}
use private_chat.Json.Read.{is_truthy_value}
use private_chat.Identity.{Signing}
use private_chat.E2ee.AesGcm.{Aead}
use private_chat.Channel.{
  ChannelStore, IdentStatus, verified, invalid, conflict, MessageIdent, from_frame, text_of,
}
use private_chat.Channel.Receive.{shown, read_plain}
use private_chat.Channel.Authentic.{IsAuthentic, shown-IsAuthentic}
use private_chat.App.{or_else}
use private_chat.App.Gate.{if_truthy}
use private_chat.View.{RoomView, claimed_nick, peer_name, display_nick}

if_truthy-some : (o : Option Text) (n : Text) → if_truthy o ≡ some n → o ≡ some n
if_truthy-some none n e = cc
if_truthy-some (some []) n e = cc
if_truthy-some (some (c ∷ s)) n e = e

status-valid :
    (status : IdentStatus) (o : Option Text) (n : Text)
    → elim status [ invalid ↦ none | verified ↦ if_truthy o | conflict ↦ if_truthy o ] ≡ some n
    → (status ≢ invalid) × (o ≡ some n)
status-valid verified o n e = (λ q. cc, if_truthy-some o n e)
status-valid invalid o n e = cc
status-valid conflict o n e = (λ q. cc, if_truthy-some o n e)

-- A name that is claimed is that of an identity that is not marked invalid.
claimed_nick-valid :
    (i : MessageIdent) (nick : Text)
    → claimed_nick (some i) ≡ some nick
    → (i.status ≢ invalid) × (i.nick ≡ some nick)
unfolding claimed_nick
claimed_nick-valid i nick e = status-valid i.status i.nick nick e

claimed_some :
    (ident : Option MessageIdent) (nick : Text)
    → claimed_nick ident ≡ some nick
    → (i : MessageIdent) × (ident ≡ some i)
unfolding claimed_nick
claimed_some none nick e = cc
claimed_some (some i) nick e = (i, refl)

module _ (N : Numbers) (S : Signing) (aead : Aead) where
  open N use {Number}

  -- Of a peer's message, not marked as system or self, the name shown is the peer's name from the
  -- nick map or its connection id, or else it is the nick of an authentic signed message.
  pub display_nick-IsAuthentic :
      (v : RoomView) (mid : Option Text) (answer : Result Text) (s : ChannelStore Number)
      (o : Fields Number) (now : ℕ) (text : Text) (ident : Option MessageIdent)
      → (read_plain N S aead mid answer s).1 ≡ shown text ident
      → text_eq (text_of o (codes "from")) (codes "system") ≡ false
      → is_truthy_value N (get o (codes "self")) ≡ false
      → let name = display_nick N v (from_frame o text now ident) in
        (name ≡ peer_name N v (text_of o (codes "from")))
        ⊎ ((i : MessageIdent) × (ident ≡ some i)
            × IsAuthentic N S aead mid answer s text i
            × (i.nick ≡ some name))
  unfolding display_nick
  display_nick-IsAuthentic v mid answer s o now text ident e f g =
      let from = text_of o (codes "from") in
      let name : display_nick N v (from_frame o text now ident)
          ≡ or_else (claimed_nick ident) (peer_name N v from) =
        rw (display_nick, f, g) refl in
      elim (Option-cases (claimed_nick ident)) [
        | inl unclaimed ↦ inl (name ∙ ap (λ c. or_else c (peer_name N v from)) unclaimed)
        | inr (nick, claimed) ↦
            let (i, named) = claimed_some ident nick claimed in
            let (valid, same) = claimed_nick-valid i nick (ap claimed_nick (sym named) ∙ claimed) in
            inr (
              i,
              named,
              shown-IsAuthentic N S aead mid answer s text i (e ∙ ap (shown text) named) valid,
              same ∙ ap some (sym (name ∙ ap (λ c. or_else c (peer_name N v from)) claimed)),
            )
      ]
