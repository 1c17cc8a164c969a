-- ===== src/Transport/Invariant.antt =====
-- Class Transport of frontend/src/transport.ts as a state machine of calls and events.
use private_chat.Prelude.{
  ℕ, ◌+◌, ◌≤◌, ◌≡◌, refl, inl, inr, Bool, true, false, ◌&&◌, Option, none, some, List, [], ◌∷◌,
  ◌++◌, arith, ltb, Bool-cases, length, length-append,
}
use private_chat.Text.{Text}
use private_chat.Transport.{
  close_socket, Status, idle, connecting, open', closed, failed, reconnecting, status_eq,
  socket_open, socket_closed, Transport, Handlers, remove_timer, clear_reconnect_timer, is_open,
  is_live, socket_is, is_current, set_ready, queue_limit, create, set_status, send_on, send_raw,
  send_each, flush_queue, connect, backoff, jittered, schedule_reconnect, on_open,
  on_socket_message, on_error, on_close, on_timer, disconnect,
}

-- The handlers leave the transport alone while they run, as those of `ChannelStore` do.
pub record IsPassive (H : Handlers) : Type 0 where
  pub on_status_lem : (s : Status) (w : Transport) → H.on_status s w ≡ w
  pub on_message_lem : (data' : Text) (w : Transport) → H.on_message data' w ≡ w

-- At most one timer is set, the one that `reconnectTimer` names.
abbrev pub TimerAgrees : Option ℕ → List (ℕ × ℕ) → Type 0
TimerAgrees none ts = ts ≡ []
TimerAgrees (some t) ts = (d : ℕ) × (ts ≡ (t, d) ∷ [])

abbrev pub is_set : Option ℕ → Bool
is_set none = false
is_set (some t) = true

pub record IsValid (w : Transport) : Type 0 where
  pub bounded : length w.send_queue ≤ queue_limit
  pub one_timer : TimerAgrees w.reconnect_timer w.timers
  pub wanted : is_set w.reconnect_timer ≡ true → (w.auto_reconnect && w.should_reconnect) ≡ true

pub create-IsValid : (auto : Bool) (base most : ℕ) → IsValid (create auto base most)
unfolding create
create-IsValid auto base most = record { bounded = omega arith; one_timer = refl; wanted = λ e. cc }

remove_timer-one : (t d : ℕ) → remove_timer t ((t, d) ∷ []) ≡ []
remove_timer-one t d = ground arith

-- Clearing the timer leaves none set.
pub clear-none :
    (w : Transport)
    → TimerAgrees w.reconnect_timer w.timers
    → clear_reconnect_timer w ≡ record w { timers = []; reconnect_timer = none }
unfolding clear_reconnect_timer
clear-none w h = split w.reconnect_timer refl h
  where
    split :
        (r : Option ℕ)
        → w.reconnect_timer ≡ r
        → TimerAgrees r w.timers
        → clear_reconnect_timer w ≡ record w { timers = []; reconnect_timer = none }
    split none e a = ground arith
    split (some t) e (d, a) = ground (arith, remove_timer-one t d)

status_eq-eq : (s t : Status) → status_eq s t ≡ true → s ≡ t
status_eq-eq idle idle h = refl
status_eq-eq s t h = ground arith

closed_fields : (n : Option ℕ) (w : Transport) → IsValid w → IsValid (close_socket n w)
closed_fields none w v = v
closed_fields (some n) w v = record {
  bounded = v.bounded;
  one_timer = v.one_timer;
  wanted = v.wanted;
}

-- What `disconnect` leaves, before the socket is closed.
abbrev pub shut_down : Transport → Transport
shut_down w = record w {
  should_reconnect = false;
  timers = [];
  reconnect_timer = none;
  reconnect_attempt = 0;
  send_queue = [];
  ws = none;
}

module _ (H : Handlers) where
  -- Calls of the class, and events of a socket or of the timer that is set.
  pub data Step : Transport → Transport → Type 0 where
    connects : (w : Transport) → Step w (connect H w)
    disconnects : (w : Transport) → Step w (disconnect H w)
    sends : (w : Transport) (d : Text) → Step w (send_raw H d w).0
    opens : (w : Transport) (n : ℕ) → Step w (on_open H n (set_ready n socket_open w))
    receives : (w : Transport) (n : ℕ) (d : Option Text) → Step w (on_socket_message H n d w)
    errs : (w : Transport) (n : ℕ) → Step w (on_error H n w)
    closes : (w : Transport) (r n : ℕ) → Step w (on_close H r n (set_ready n socket_closed w))
    fires :
        (w : Transport) (t d : ℕ)
        → w.timers ≡ (t, d) ∷ []
        → Step w (on_timer H (record w { timers = [] }))

  pub data Reach (w : Transport) : Transport → Type 0 where
    at_start : Reach w w
    next : {u v : Transport} → Reach w u → Step u v → Reach w v

module _ (H : Handlers) (p : IsPassive H) where
  pub set_status-eq : (s : Status) (w : Transport) → set_status H s w ≡ record w { status = s }
  unfolding set_status
  set_status-eq s w = elim (Bool-cases (status_eq w.status s)) [
    | inl same ↦ ground (arith, status_eq-eq w.status s same)
    | inr other ↦ rw other (p.on_status_lem s (record w { status = s }))
  ]

  -- `sendRaw` changes the queue and what was sent, and keeps the queue within its limit.
  pub record Sends (w w' : Transport) : Type 0 where
    pub queue' : List Text
    pub sent' : List (ℕ × Text)
    pub only : w' ≡ record w { send_queue = queue'; sent = sent' }
    pub within : length w.send_queue ≤ queue_limit → length queue' ≤ queue_limit

  send_on-Sends : (d : Text) (n : Option ℕ) (w : Transport) → Sends w (send_on H n d w).0
  send_on-Sends d none w = record {
    queue' = w.send_queue;
    sent' = w.sent;
    only = refl;
    within = λ h. h;
  }
  send_on-Sends d (some n) w = elim (Bool-cases (H.send_throws d)) [
    | inl e ↦ rw e (record { queue' = w.send_queue; sent' = w.sent; only = refl; within = λ h. h })
    | inr e ↦ rw e (record {
      queue' = w.send_queue;
      sent' = w.sent ++ (n, d) ∷ [];
      only = refl;
      within = λ h. h;
    })
  ]

  pub send_raw-Sends : (d : Text) (w : Transport) → Sends w (send_raw H d w).0
  unfolding send_raw
  send_raw-Sends d w = elim (Bool-cases (socket_is is_open w)) [
    | inl ready ↦ rw ready (send_on-Sends d w.ws w)
    | inr other ↦ elim (Bool-cases (w.auto_reconnect && w.should_reconnect)) [
      | inr gone ↦
          rw (other, gone)
            (record { queue' = w.send_queue; sent' = w.sent; only = refl; within = λ h. h })
      | inl queues ↦ elim (Bool-cases (ltb (length w.send_queue) queue_limit)) [
        | inl room ↦
            rw (other, queues, room)
              (record {
                queue' = w.send_queue ++ d ∷ [];
                sent' = w.sent;
                only = refl;
                within = λ h. ground (arith, length-append w.send_queue (d ∷ []));
              })
        | inr full ↦
            rw (other, queues, full)
              (record { queue' = w.send_queue; sent' = w.sent; only = refl; within = λ h. h })
      ]
    ]
  ]

  Sends-IsValid : {w w' : Transport} → Sends w w' → IsValid w → IsValid w'
  Sends-IsValid s v =
      rw s.only
        (record { bounded = s.within v.bounded; one_timer = v.one_timer; wanted = v.wanted })

  send_each-IsValid : (ds : List Text) (w : Transport) → IsValid w → IsValid (send_each H ds w)
  unfolding send_each
  send_each-IsValid [] w v = v
  send_each-IsValid (d ∷ ds) w v =
      send_each-IsValid ds (send_raw H d w).0 (Sends-IsValid (send_raw-Sends d w) v)

  flush_queue-IsValid : (w : Transport) → IsValid w → IsValid (flush_queue H w)
  unfolding flush_queue
  flush_queue-IsValid w v =
      send_each-IsValid w.send_queue (record w { send_queue = [] })
        (record { bounded = omega arith; one_timer = v.one_timer; wanted = v.wanted })

  connect-IsValid : (w : Transport) → IsValid w → IsValid (connect H w)
  unfolding connect
  connect-IsValid w v = elim (Bool-cases (socket_is is_live w)) [
    | inl live ↦ rw live v
    | inr other ↦
        rw
          (
            other,
            clear-none (record w { should_reconnect = true }) v.one_timer,
            set_status-eq connecting
                (record w { should_reconnect = true; timers = []; reconnect_timer = none }),
          )
          (record { bounded = v.bounded; one_timer = refl; wanted = λ e. cc })
  ]

  schedule-IsValid : (r : ℕ) (w : Transport) → IsValid w → IsValid (schedule_reconnect H r w)
  unfolding schedule_reconnect
  schedule-IsValid r w v = elim (Bool-cases (w.auto_reconnect && w.should_reconnect)) [
    | inr no_more ↦ rw no_more v
    | inl again ↦
        let bare = record w { timers = []; reconnect_timer = none } in
        rw
          (
            again,
            clear-none w v.one_timer,
            set_status-eq reconnecting
                (record bare { reconnect_attempt = w.reconnect_attempt + 1 }),
          )
          (record {
            bounded = v.bounded;
            one_timer = (jittered (backoff bare) r, refl);
            wanted = λ e. again;
          })
  ]

  set_status-IsValid : (s : Status) (w : Transport) → IsValid w → IsValid (set_status H s w)
  set_status-IsValid s w v =
      rw (set_status-eq s w)
        (record { bounded = v.bounded; one_timer = v.one_timer; wanted = v.wanted })

  pub disconnect-eq :
      (w : Transport)
      → IsValid w
      → disconnect H w ≡ record (close_socket w.ws (shut_down w)) { status = closed }
  unfolding disconnect
  disconnect-eq w v =
      rw (clear-none (record w { should_reconnect = false }) v.one_timer) (set_status-eq closed _)

  disconnect-IsValid : (w : Transport) → IsValid w → IsValid (disconnect H w)
  disconnect-IsValid w v =
      let c =
        closed_fields w.ws (shut_down w)
          (record { bounded = omega arith; one_timer = refl; wanted = λ e. cc }) in
      rw (disconnect-eq w v)
        (record { bounded = c.bounded; one_timer = c.one_timer; wanted = c.wanted })

  on_open-IsValid : (n : ℕ) (w : Transport) → IsValid w → IsValid (on_open H n w)
  unfolding on_open
  on_open-IsValid n w v = elim (Bool-cases (is_current w n)) [
    | inr stale ↦ rw stale v
    | inl here ↦ rw here (
        flush_queue-IsValid _ (
          set_status-IsValid open' (record w { reconnect_attempt = 0 })
            (record { bounded = v.bounded; one_timer = v.one_timer; wanted = v.wanted })))
  ]

  on_socket_message-eq : (n : ℕ) (d : Option Text) (w : Transport) → on_socket_message H n d w ≡ w
  unfolding on_socket_message
  on_socket_message-eq n none w = refl
  on_socket_message-eq n (some d) w = ground (arith, p.on_message_lem d w)

  on_close-IsValid : (r n : ℕ) (w : Transport) → IsValid w → IsValid (on_close H r n w)
  unfolding on_close
  on_close-IsValid r n w v = elim (Bool-cases (is_current w n)) [
    | inr stale ↦ rw stale v
    | inl here ↦ rw here (
        schedule-IsValid r _ (
          set_status-IsValid closed (record w { ws = none })
            (record { bounded = v.bounded; one_timer = v.one_timer; wanted = v.wanted })))
  ]

  -- Every call and event keeps the queue within 100 texts, at most one timer set, and a timer only while
  -- reconnection is wanted.
  pub Step-IsValid : {w w' : Transport} → Step H w w' → IsValid w → IsValid w'
  unfolding on_error on_timer
  Step-IsValid (connects w) v = connect-IsValid w v
  Step-IsValid (disconnects w) v = disconnect-IsValid w v
  Step-IsValid (sends w d) v = Sends-IsValid (send_raw-Sends d w) v
  Step-IsValid (opens w n) v =
      on_open-IsValid n (set_ready n socket_open w)
        (record { bounded = v.bounded; one_timer = v.one_timer; wanted = v.wanted })
  Step-IsValid (receives w n d) v = rw (on_socket_message-eq n d w) v
  Step-IsValid (errs w n) v = elim (Bool-cases (is_current w n)) [
    | inr stale ↦ rw stale v
    | inl here ↦ rw here (set_status-IsValid failed w v)
  ]
  Step-IsValid (closes w r n) v =
      on_close-IsValid r n (set_ready n socket_closed w)
        (record { bounded = v.bounded; one_timer = v.one_timer; wanted = v.wanted })
  Step-IsValid (fires w t d e) v =
      connect-IsValid (record w { timers = []; reconnect_timer = none })
        (record { bounded = v.bounded; one_timer = refl; wanted = λ e. cc })

  pub Reach-IsValid : {w w' : Transport} → Reach H w w' → IsValid w → IsValid w'
  Reach-IsValid at_start v = v
  Reach-IsValid (next r s) v = Step-IsValid s (Reach-IsValid r v)

  -- After any calls and events from a new transport, with passive handlers, at most 100 texts wait,
  -- at most one timer is set, and one is set only while the transport wants to reconnect.
  pub reachable-IsValid :
      (auto : Bool) (base most : ℕ) {w : Transport} → Reach H (create auto base most) w → IsValid w
  reachable-IsValid auto base most r = Reach-IsValid r (create-IsValid auto base most)
