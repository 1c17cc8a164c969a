-- ===== src/Channel/Create.antt =====
-- `createChannel` of frontend/src/channel.svelte.ts: a promise that opens a transport, asks for a
-- channel and settles on the answer, an error or a timeout.
pub mod Settling
use private_chat.Prelude.{
  ℕ, zero, suc, ◌+◌, ◌-◌, ◌*◌, ◌/◌, ◌%◌, ◌^◌, ◌≤◌, ◌<◌, min, ◌≡◌, refl, sym, ap, ap₂, subst, ◌∙◌,
  ◌≢◌, ◌↔◌, ◌⊎◌, inl, inr, Bool, true, false, not, ◌&&◌, ◌||◌, Option, none, some, List, [], ◌∷◌,
  ◌++◌, map, reverse, append-nil, append_assoc, arith, ltb, leb, ◌==◌, if◌then◌else◌, ltb→lt,
  lt→ltb, leb→le, ==_iff, Bool-cases, Option-cases, length, length-append, take, drop, replicate,
  length-replicate, take-length-append, drop-length-append, take-append-drop, length-drop, all, All,
  All-append, All-all, all-All, all_below, all_below_sound, length-map, map-map,
}
use private_chat.Result.{Error, Result, ok, throw, Result-cases}
use private_chat.Text.{Text, codes}
use private_chat.Json.{Numbers, Json, str, obj, Fields, end, field}
use private_chat.Codec.{Kind, channel_created, error, Frame, encode, decode}
use private_chat.Transport.{
  Status, open', Transport, Handlers, create, connect, disconnect, send_raw,
}
use private_chat.Channel.{text_of}

-- What the promise settles with.
pub data Outcome : Type 0 where
  created : (channel_id : Text) → Outcome
  refused : (code message : Text) → Outcome
  failed : Error → Outcome
  timed_out : Outcome

-- The variables of the call: its transport, `done`, whether the timeout is set, whether the two
-- handlers are registered, and the state of the promise.
pub record Creation : Type 0 where
  pub transport : Transport
  pub done : Bool
  pub timer_set : Bool
  pub listening : Bool
  pub settled : Option Outcome

-- `resolve` and `reject`: a settled promise stays as it is.
abbrev pub settle : Option Outcome → Outcome → Option Outcome
settle none v = some v
settle (some u) v = some u

module _ (N : Numbers) (H : Handlers) where
  open N use {Number}

  -- `autoReconnect: false`, and the default delays
  unfoldable pub start_creation : Creation
  start_creation = record {
    transport = connect H (create false 1000 10000);
    done = false;
    timer_set = true;
    listening = true;
    settled = none;
  }

  -- `done = true; clearTimeout(timeout); offMsg(); offStatus(); transport.disconnect();`
  unfoldable pub finish_creation : Outcome → Creation → Creation
  finish_creation v c = record {
    transport = disconnect H c.transport;
    done = true;
    timer_set = false;
    listening = false;
    settled = settle c.settled v;
  }

  -- The callback of the timeout, which is then no longer set.
  unfoldable pub on_timeout : Creation → Creation
  on_timeout c = if c.done then record c { timer_set = false } else finish_creation timed_out c

  unfoldable pub on_answer : Kind → Fields Number → Creation → Creation
  on_answer channel_created o c = finish_creation (created (text_of o (codes "channelId"))) c
  on_answer error o c =
      finish_creation (refused (text_of o (codes "code")) (text_of o (codes "message"))) c
  on_answer _ o c = c

  unfoldable pub on_raw_message : Text → Creation → Creation
  on_raw_message raw c =
      if c.listening
      then (elim (decode N raw) [ throw e ↦ c | ok f ↦ on_answer f.kind f.object c ])
      else c

  -- `{ type: "create_channel" }`
  abbrev pub create_json : Json Number
  create_json = obj (field (codes "type") (str (codes "create_channel")) end)

  unfoldable pub ask : Creation → Creation
  ask c = elim (encode N create_json) [
    | throw e ↦ finish_creation (failed e) c
    | ok raw ↦ record c { transport = (send_raw H raw c.transport).0 }
  ]

  abbrev pub is_open_status : Status → Bool
  is_open_status open' = true
  is_open_status _ = false

  unfoldable pub on_creation_status : Status → Creation → Creation
  on_creation_status s c = if c.listening && is_open_status s then ask c else c

  -- Events of a creation: the timeout while it is set, frames and statuses; in between the transport may
  -- change by itself.
  pub data Event : Creation → Creation → Type 0 where
    times_out : (c : Creation) → c.timer_set ≡ true → Event c (on_timeout c)
    answers : (c : Creation) (raw : Text) → Event c (on_raw_message raw c)
    reports : (c : Creation) (s : Status) → Event c (on_creation_status s c)
    moves : (c : Creation) (w : Transport) → Event c (record c { transport = w })

  pub data Events (c : Creation) : Creation → Type 0 where
    at_start : Events c c
    next : {d e : Creation} → Events c d → Event d e → Events c e

  -- The promise is settled exactly when `done`, and the handlers and the timeout are there until then.
  pub record IsTidy (c : Creation) : Type 0 where
    pub done_settled : (v : Outcome) → c.settled ≡ some v → c.done ≡ true
    pub done_settles : c.done ≡ true → (v : Outcome) × (c.settled ≡ some v)
    pub timer_until_done : c.timer_set ≡ not c.done
    pub listens_until_done : c.listening ≡ not c.done
