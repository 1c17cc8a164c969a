-- ===== src/Transport.antt =====
-- class Transport of frontend/src/transport.ts: the life of the WebSocket, with reconnection and a
-- queue of texts to send. Sockets and timers are numbers; the record holds the fields of the class
-- and, below them, what the platform keeps: the state of each socket, what was handed to it, and the
-- timers that are set.
pub mod Invariant
pub mod Sending
pub mod Reconnect
use private_chat.Prelude.{
  ℕ, zero, suc, ◌+◌, ◌-◌, ◌*◌, ◌/◌, ◌%◌, ◌^◌, ◌≤◌, ◌<◌, min, ◌≡◌, refl, sym, ap, ap₂, subst, ◌∙◌,
  ◌≢◌, ◌↔◌, ◌⊎◌, inl, inr, Bool, true, false, not, ◌&&◌, ◌||◌, Option, none, some, List, [], ◌∷◌,
  ◌++◌, map, reverse, append-nil, append_assoc, arith, ltb, leb, ◌==◌, if◌then◌else◌, ltb→lt,
  lt→ltb, leb→le, ==_iff, Bool-cases, Option-cases, length, length-append, take, drop, replicate,
  length-replicate, take-length-append, drop-length-append, take-append-drop, length-drop, all, All,
  All-append, All-all, all-All, all_below, all_below_sound, length-map, map-map,
}
use private_chat.Text.{Text, is_truthy}

pub data Status : Type 0 where
  idle connecting open' closed failed reconnecting : Status

abbrev pub status_eq : Status → Status → Bool
status_eq idle idle = true
status_eq connecting connecting = true
status_eq open' open' = true
status_eq closed closed = true
status_eq failed failed = true
status_eq reconnecting reconnecting = true
status_eq _ _ = false

-- `WebSocket.readyState`
pub data Ready : Type 0 where
  socket_connecting socket_open socket_closing socket_closed : Ready

pub record Transport : Type 0 where
  pub ws : Option ℕ
  pub status : Status
  pub auto_reconnect : Bool
  pub base_delay_ms : ℕ
  pub max_delay_ms : ℕ
  pub reconnect_attempt : ℕ
  pub reconnect_timer : Option ℕ
  pub should_reconnect : Bool
  pub send_queue : List Text
  pub ready : ℕ → Ready
  pub sent : List (ℕ × Text)
  pub next_socket : ℕ
  pub timers : List (ℕ × ℕ)
  pub next_timer : ℕ

-- `new Transport(url, opts)` with the defaults of the options put in.
unfoldable pub create : Bool → ℕ → ℕ → Transport
create auto_reconnect base_delay_ms max_delay_ms = record {
  ws = none;
  status = idle;
  auto_reconnect = auto_reconnect;
  base_delay_ms = base_delay_ms;
  max_delay_ms = max_delay_ms;
  reconnect_attempt = 0;
  reconnect_timer = none;
  should_reconnect = false;
  send_queue = [];
  ready = λ n. socket_closed;
  sent = [];
  next_socket = 0;
  timers = [];
  next_timer = 0;
}

-- The registered handlers, run in their order with what they throw ignored; and which texts
-- `ws.send` throws on.
pub record Handlers : Type 0 where
  pub on_status : Status → Transport → Transport
  pub on_message : Text → Transport → Transport
  pub send_throws : Text → Bool

abbrev pub remove_timer : ℕ → List (ℕ × ℕ) → List (ℕ × ℕ)
remove_timer t [] = []
remove_timer t ((u, d) ∷ ts) =
    let rest = remove_timer t ts in if u == t then rest else (u, d) ∷ rest

unfoldable pub clear_reconnect_timer : Transport → Transport
clear_reconnect_timer w = elim w.reconnect_timer [
  | none ↦ w
  | some t ↦ record w { timers = remove_timer t w.timers; reconnect_timer = none }
]

abbrev pub is_open : Ready → Bool
is_open socket_open = true
is_open _ = false

abbrev pub is_live : Ready → Bool
is_live socket_connecting = true
is_live socket_open = true
is_live _ = false

-- A test of the current socket.
abbrev pub socket_is : (Ready → Bool) → Transport → Bool
socket_is test w = elim w.ws [ none ↦ false | some n ↦ test (w.ready n) ]

-- `this.ws === ws`
abbrev pub is_current : Transport → ℕ → Bool
is_current w n = elim w.ws [ none ↦ false | some m ↦ m == n ]

abbrev pub set_ready : ℕ → Ready → Transport → Transport
set_ready n r w = record w { ready = λ m. if m == n then r else w.ready m }

abbrev pub queue_limit : ℕ
queue_limit = 100

-- The delay before the next attempt, without the jitter.
unfoldable pub backoff : Transport → ℕ
backoff w = min (w.base_delay_ms * 2 ^ w.reconnect_attempt) w.max_delay_ms

-- `exp * (0.8 + Math.random() * 0.4)` for the random number `random / 2 ^ 53`, in units of
-- 1 / (10 * 2 ^ 53) ms and without the rounding.
unfoldable pub jittered : ℕ → ℕ → ℕ
jittered exp random = exp * (8 * 2 ^ 53 + 4 * random)

abbrev pub close_socket : Option ℕ → Transport → Transport
close_socket none w = w
close_socket (some n) w = set_ready n socket_closing w

module _ (H : Handlers) where
  open H use {on_status, on_message, send_throws}

  unfoldable pub set_status : Status → Transport → Transport
  set_status s w = if status_eq w.status s then w else on_status s (record w { status = s })

  -- `ws.send(data)` on an open socket.
  abbrev pub send_on : Option ℕ → Text → Transport → Transport × Bool
  send_on none data' w = (w, false)
  send_on (some n) data' w =
      if send_throws data'
      then (w, false)
      else (record w { sent = w.sent ++ (n, data') ∷ [] }, true)

  unfoldable pub send_raw : Text → Transport → Transport × Bool
  send_raw data' w =
      if socket_is is_open w
      then send_on w.ws data' w
      else if w.auto_reconnect && w.should_reconnect
      then (
        if ltb (length w.send_queue) queue_limit
            then record w { send_queue = w.send_queue ++ data' ∷ [] }
            else w,
        true,
      )
      else (w, false)

  unfoldable pub send_each : List Text → Transport → Transport
  send_each [] w = w
  send_each (d ∷ ds) w = send_each ds (send_raw d w).0

  unfoldable pub flush_queue : Transport → Transport
  flush_queue w = send_each w.send_queue (record w { send_queue = [] })

  unfoldable pub connect : Transport → Transport
  connect w =
      if socket_is is_live w
      then w
      else (let w' =
            set_status connecting (clear_reconnect_timer (record w { should_reconnect = true })) in
          record w' {
            ws = some w'.next_socket;
            next_socket = w'.next_socket + 1;
            ready = λ m. if m == w'.next_socket then socket_connecting else w'.ready m;
          })

  unfoldable pub schedule_reconnect : ℕ → Transport → Transport
  schedule_reconnect random w =
      if w.auto_reconnect && w.should_reconnect
      then (let w' = clear_reconnect_timer w in
          let delay = jittered (backoff w') random in
          let w'' =
            set_status reconnecting (record w' { reconnect_attempt = w'.reconnect_attempt + 1 }) in
          record w'' {
            timers = w''.timers ++ (w''.next_timer, delay) ∷ [];
            reconnect_timer = some w''.next_timer;
            next_timer = w''.next_timer + 1;
          })
      else w

  -- The socket's events; the platform has changed its state before.
  unfoldable pub on_open : ℕ → Transport → Transport
  on_open n w =
      if is_current w n
      then flush_queue (set_status open' (record w { reconnect_attempt = 0 }))
      else w

  -- `none` is data that is no string.
  unfoldable pub on_socket_message : ℕ → Option Text → Transport → Transport
  on_socket_message n none w = w
  on_socket_message n (some data') w =
      if is_current w n && is_truthy data' then on_message data' w else w

  unfoldable pub on_error : ℕ → Transport → Transport
  on_error n w = if is_current w n then set_status failed w else w

  unfoldable pub on_close : ℕ → ℕ → Transport → Transport
  on_close random n w =
      if is_current w n
      then schedule_reconnect random (set_status closed (record w { ws = none }))
      else w

  -- The callback of the timer.
  unfoldable pub on_timer : Transport → Transport
  on_timer w = connect (record w { reconnect_timer = none })

  unfoldable pub disconnect : Transport → Transport
  disconnect w =
      let cleared = clear_reconnect_timer (record w { should_reconnect = false }) in
      set_status closed
        (close_socket w.ws (record cleared { reconnect_attempt = 0; send_queue = []; ws = none }))
