-- ===== src/App/Join/Creating.antt =====
-- Creating a room in frontend/src/App.svelte, from `handleCreateRoom` to the effect that connects.
use private_chat.Prelude.{true, if◌then◌else◌}
use private_chat.Text.{Text}
use private_chat.Json.{Numbers}
use private_chat.E2ee.Base64.{Bytes}
use private_chat.E2ee.AesGcm.{Aead}
use private_chat.Transport.{Handlers}
use private_chat.Channel.Create.{created}
use private_chat.App.{App}
use private_chat.App.Gate.{through, begin_connect, end_connect}
use private_chat.App.Join.{make_key, begin_create, end_create}

module _ (N : Numbers) (H : Handlers) (aead : Aead) where
  open N use {Number}

  -- The button, the answer of the relay with nothing in between, and the effect that connects.
  abbrev pub create_room : (raw : Bytes) → (id : Text) → App Number → App Number
  create_room raw id a =
      let (begun, goes_on) = begin_create a in
      if goes_on
      then through (begin_connect (end_create true (make_key true raw) (created id) begun))
          (end_connect N H aead true)
      else begun
