-- ===== src/Channel/World.antt =====
-- Class ChannelStore of frontend/src/channel.svelte.ts with its waiting jobs as a state machine.
use private_chat.Prelude.{ℕ, Bool, Option, none, some, List, [], ◌∷◌, ◌++◌}
use private_chat.Text.{Text}
use private_chat.Json.{Numbers}
use private_chat.E2ee.AesGcm.{Aead, Crypto}
use private_chat.Identity.{Signing}
use private_chat.Transport.{Status}
use private_chat.Channel.{ChannelStore, update_crypto}
use private_chat.Channel.Receive.{Job, receive, resume}
use private_chat.Channel.Send.{on_status}

-- The store and the jobs that wait, the oldest first.
pub record World (F : Type 0) : Type 0 where
  pub store : ChannelStore F
  pub jobs : List (Job F)

abbrev pub queued : {F : Type 0} → Option (Job F) → List (Job F) → List (Job F)
queued none jobs = jobs
queued (some job) jobs = jobs ++ job ∷ []

module _ (N : Numbers) (S : Signing) (aead : Aead) where
  open N use {Number}

  -- A frame arrives, any job that waits is resumed, the application switches the key after its own
  -- rotation, or the transport reports its status.
  pub data Step : World Number → World Number → Type 0 where
    arrives :
        (available : Bool) (now : ℕ) (raw : Text) (w : World Number)
        → Step w (
            let (s, job) = receive N S aead available now raw w.store in
            record { store = s; jobs = queued job w.jobs })
    resumes :
        (now : ℕ) (before after : List (Job Number)) (job : Job Number) (s : ChannelStore Number)
        → Step
            (record { store = s; jobs = before ++ job ∷ after })
            (let (s', job') = resume N S aead now job s in
              record { store = s'; jobs = queued job' (before ++ after) })
    switches :
        (crypto : Crypto) (w : World Number)
        → Step w (record w { store = update_crypto crypto w.store })
    reports :
        (status : Status) (w : World Number)
        → Step w (record w { store = (on_status status w.store).0 })

  pub data Reach (w : World Number) : World Number → Type 0 where
    at_start : Reach w w
    next : {u v : World Number} → Reach w u → Step u v → Reach w v
