-- ===== src/Channel/Replay/Runs.antt =====
-- The replay cache of frontend/src/channel.svelte.ts while frames arrive and jobs are resumed.
use private_chat.Prelude.{
  ℕ, ◌≡◌, refl, sym, subst, ◌∙◌, inl, inr, Bool, true, false, Option, none, some, [], arith,
  Bool-cases, Option-cases,
}
use private_chat.Result.{Result, ok, throw, Result-cases}
use private_chat.Text.{Text, codes, is_truthy}
use private_chat.Json.Read.{is_truthy_value}
use private_chat.Json.{Numbers, Fields, get}
use private_chat.E2ee.Envelope.{is_valid_envelope}
use private_chat.E2ee.ReplayCache.{ReplayCache, create, clear}
use private_chat.E2ee.ReplayCache.Fifo.{
  IsValid, create-IsValid, clear-IsValid, add-IsValid, max-add,
}
use private_chat.E2ee.AesGcm.{Aead, Crypto}
use private_chat.E2ee.Names.{RoomName, UnwrappedNick}
use private_chat.Identity.{Signing}
use private_chat.Codec.{Kind, message, key_updated, room_name_updated, nickname_updated, decode}
use private_chat.Channel.{ChannelStore, new_store, remember, update_crypto, record_identity}
use private_chat.Channel.Receive.{
  Job, open_message, rotate, name_room, open_nick, claim_nick, payload_of, mid_of, guarded,
  finish_message, finish_rotation, finish_room_name, finish_nick, finish_claim, claim_of,
  receive_message, receive_key, receive_frame, receive, resume, show_content, read_plain,
}
use private_chat.Channel.Send.{on_status}
use private_chat.Channel.World.{
  World, Step, arrives, resumes, switches, reports, Reach, at_start, next,
}
use private_chat.Channel.Replay.{show_content-cache, read_plain-cache}

-- The cache of a store: valid, and as large as the constructor makes it.
pub record IsSound (c : ReplayCache) : Type 0 where
  pub valid : IsValid c
  pub size_kept : c.max ≡ 1000

IsSound-same : (c c' : ReplayCache) → c' ≡ c → IsSound c → IsSound c'
IsSound-same c c' e h = subst IsSound (sym e) h

clear-IsSound : (c : ReplayCache) → IsSound c → IsSound (clear c)
unfolding clear
clear-IsSound c h = record { valid = clear-IsValid c; size_kept = h.size_kept }

module _ {F : Type 0} where
  remember-IsSound :
      (mid : Option Text) (s : ChannelStore F)
      → IsSound s.replay_cache
      → IsSound (remember mid s).replay_cache
  unfolding remember
  remember-IsSound none s h = h
  remember-IsSound (some mid) s h = elim (Bool-cases (is_truthy mid)) [
    | inr t ↦ rw t h
    | inl t ↦ rw t (record {
      valid = add-IsValid s.replay_cache mid h.valid;
      size_kept = max-add s.replay_cache mid h.valid ∙ h.size_kept;
    })
  ]

  guarded-cache :
      (a b : Text) (o : Fields F) (job : Job F) (s : ChannelStore F)
      → (guarded a b o job s).0.replay_cache ≡ s.replay_cache
  unfolding guarded
  guarded-cache a b o job s = ground arith

  finish_rotation-IsSound :
      (o : Fields F) (now : ℕ) (r : Result (Text × Crypto)) (s : ChannelStore F)
      → IsSound s.replay_cache
      → IsSound (finish_rotation o now r s).replay_cache
  unfolding finish_rotation
  finish_rotation-IsSound o now (throw e) s h = h
  finish_rotation-IsSound o now (ok (k, c)) s h =
      remember-IsSound (mid_of o) (record s { crypto = c; replay_cache = clear s.replay_cache })
        (clear-IsSound s.replay_cache h)

  finish_room_name-cache :
      (o : Fields F) (now : ℕ) (r : RoomName) (s : ChannelStore F)
      → (finish_room_name o now (ok r) s).replay_cache ≡ (remember (mid_of o) s).replay_cache
  unfolding finish_room_name
  finish_room_name-cache o now r s = ground arith

  record_identity-cache :
      (nick pk : Text) (s : ChannelStore F)
      → (record_identity nick pk s).1.replay_cache ≡ s.replay_cache
  unfolding record_identity
  record_identity-cache nick pk s = ground arith

module _ (N : Numbers) (S : Signing) (aead : Aead) where
  open N use {Number}

  receive_frame-cache :
      (available : Bool) (now : ℕ) (k : Kind) (o : Fields Number) (s : ChannelStore Number)
      → (receive_frame N S aead available now k o s).0.replay_cache ≡ s.replay_cache
  unfolding receive_frame receive_message receive_key
  receive_frame-cache available now message o s =
      elim (Bool-cases (is_valid_envelope (payload_of o))) [
        | inl v ↦ rw v (guarded-cache _ _ o _ s)
        | inr v ↦ rw v refl
      ]
  receive_frame-cache available now key_updated o s =
      elim (Bool-cases (is_truthy_value N (get o (codes "self")))) [
        | inl own ↦ rw own refl
        | inr other ↦ rw other (guarded-cache _ _ o _ s)
      ]
  receive_frame-cache available now room_name_updated o s = guarded-cache _ _ o _ s
  receive_frame-cache available now nickname_updated o s = guarded-cache _ _ o _ s
  receive_frame-cache available now k o s = ground arith

  receive-cache :
      (available : Bool) (now : ℕ) (raw : Text) (s : ChannelStore Number)
      → (receive N S aead available now raw s).0.replay_cache ≡ s.replay_cache
  unfolding receive
  receive-cache available now raw s = elim (Result-cases (decode N raw)) [
    | inl (f, e) ↦ rw (receive, e) (receive_frame-cache available now f.kind f.object s)
    | inr (x, e) ↦ rw (receive, e) refl
  ]

  finish_nick-cache :
      (o : Fields Number) (u : UnwrappedNick) (s : ChannelStore Number)
      → (finish_nick N S aead o (ok u) s).0.replay_cache ≡ (remember (mid_of o) s).replay_cache
  unfolding finish_nick finish_claim
  finish_nick-cache o u s = elim (Option-cases (claim_of N S aead u)) [
    | inl e ↦ rw (finish_nick, e) refl
    | inr (c, e) ↦ rw (finish_nick, e) refl
  ]

  resume-IsSound :
      (now : ℕ) (job : Job Number) (s : ChannelStore Number)
      → IsSound s.replay_cache
      → IsSound (resume N S aead now job s).0.replay_cache
  unfolding resume finish_message finish_claim finish_nick finish_room_name
  resume-IsSound now (open_message o answer) s h =
      let read = read_plain N S aead (mid_of o) answer s in
      IsSound-same (remember (mid_of o) read.0).replay_cache
        (show_content o now read.1 read.0).replay_cache (show_content-cache o now read.1 read.0)
        (remember-IsSound (mid_of o) read.0 (
          IsSound-same s.replay_cache read.0.replay_cache
            (read_plain-cache N S aead (mid_of o) answer s) h))
  resume-IsSound now (rotate o answer) s h = finish_rotation-IsSound o now answer s h
  resume-IsSound now (name_room o (throw e)) s h = h
  resume-IsSound now (name_room o (ok r)) s h =
      IsSound-same (remember (mid_of o) s).replay_cache
        (finish_room_name o now (ok r) s).replay_cache (finish_room_name-cache o now r s)
        (remember-IsSound (mid_of o) s h)
  resume-IsSound now (open_nick o (throw e)) s h = h
  resume-IsSound now (open_nick o (ok u)) s h =
      IsSound-same (remember (mid_of o) s).replay_cache
        (finish_nick N S aead o (ok u) s).0.replay_cache (finish_nick-cache o u s)
        (remember-IsSound (mid_of o) s h)
  resume-IsSound now (claim_nick o nick pk false) s h = h
  resume-IsSound now (claim_nick o nick pk true) s h =
      IsSound-same s.replay_cache (record_identity nick pk s).1.replay_cache
        (record_identity-cache nick pk s) h

  Step-IsSound :
      {w w' : World Number}
      → Step N S aead w w'
      → IsSound w.store.replay_cache
      → IsSound w'.store.replay_cache
  unfolding update_crypto on_status
  Step-IsSound (arrives available now raw w) h =
      IsSound-same w.store.replay_cache (receive N S aead available now raw w.store).0.replay_cache
        (receive-cache available now raw w.store) h
  Step-IsSound (resumes now before after job s) h = resume-IsSound now job s h
  Step-IsSound (switches crypto w) h = clear-IsSound w.store.replay_cache h
  Step-IsSound (reports status w) h =
      IsSound-same w.store.replay_cache (on_status status w.store).0.replay_cache (ground arith) h

  Reach-IsSound :
      {w w' : World Number}
      → Reach N S aead w w'
      → IsSound w.store.replay_cache
      → IsSound w'.store.replay_cache
  Reach-IsSound at_start h = h
  Reach-IsSound (next r s) h = Step-IsSound s (Reach-IsSound r h)

  -- The world of a new store.
  abbrev pub new_world : Text → Crypto → World Number
  new_world channel_id crypto = record { store = new_store channel_id crypto; jobs = [] }

  -- In every world reached from a new store, in whatever order jobs are resumed, the replay cache
  -- is a valid queue of distinct ids with the bound of 1000.
  pub reachable-IsSound :
      (channel_id : Text) (crypto : Crypto) {w : World Number}
      → Reach N S aead (new_world channel_id crypto) w
      → IsSound w.store.replay_cache
  unfolding new_store create
  reachable-IsSound channel_id crypto r =
      Reach-IsSound r (record { valid = create-IsValid 1000; size_kept = refl })
