-- ===== src/Transport/Reconnect.antt =====
-- On reconnection and `disconnect` in frontend/src/transport.ts.
use private_chat.Prelude.{
  ℕ, ◌+◌, ◌*◌, ◌^◌, ◌≤◌, ◌<◌, ◌≡◌, refl, ◌∙◌, true, false, ◌&&◌, Option, none, some, [], ◌∷◌, arith,
}
use private_chat.Text.{Text}
use private_chat.Transport.{
  connecting, closed, reconnecting, Ready, socket_connecting, socket_open, socket_closed, Transport,
  Handlers, close_socket, is_open, is_live, socket_is, is_current, set_ready, send_raw, connect,
  clear_reconnect_timer, backoff, jittered, schedule_reconnect, on_open, on_socket_message,
  on_error, on_close, on_timer, disconnect,
}
use private_chat.Transport.Invariant.{
  IsPassive, IsValid, clear-none, set_status-eq, shut_down, disconnect-eq,
}

jittered_between :
    (exp random : ℕ)
    → random < 2 ^ 53
    → (8 * 2 ^ 53 * exp ≤ jittered exp random) × (jittered exp random ≤ 12 * 2 ^ 53 * exp)
unfolding jittered
jittered_between exp random h = grind arith

backoff_le : (w : Transport) → backoff w ≤ w.max_delay_ms
unfolding backoff
backoff_le w = omega arith

-- In units of 1 / (10 * 2 ^ 53) ms, the delay before an attempt lies within 20 percent of the
-- smaller of the base delay times 2 to the attempt and the maximum, so it is at most 20 percent
-- above the maximum.
pub jittered_bounds :
    (w : Transport) (random : ℕ)
    → random < 2 ^ 53
    → let delay = jittered (backoff w) random in
      (8 * 2 ^ 53 * backoff w ≤ delay)
      × (delay ≤ 12 * 2 ^ 53 * backoff w)
      × (delay ≤ 12 * 2 ^ 53 * w.max_delay_ms)
jittered_bounds w random h =
    let (low, high) = jittered_between (backoff w) random h in
    (low, high, omega (arith, high, backoff_le w))

-- No socket, no timer, no queue, and no wish to reconnect.
pub record IsQuiet (w : Transport) : Type 0 where
  pub no_socket : w.ws ≡ none
  pub no_timer : w.timers ≡ []
  pub no_queue : w.send_queue ≡ []
  pub unwanted : w.should_reconnect ≡ false

close_socket-IsQuiet : (n : Option ℕ) (w : Transport) → IsQuiet w → IsQuiet (close_socket n w)
close_socket-IsQuiet none w q = q
close_socket-IsQuiet (some n) w q = record {
  no_socket = q.no_socket;
  no_timer = q.no_timer;
  no_queue = q.no_queue;
  unwanted = q.unwanted;
}

close_socket-sent : (n : Option ℕ) (w : Transport) → (close_socket n w).sent ≡ w.sent
close_socket-sent none w = refl
close_socket-sent (some n) w = refl

-- The state that waits for the next attempt.
abbrev waiting : ℕ → Transport → Transport
waiting random w = record w {
  ws = none;
  status = reconnecting;
  reconnect_attempt = w.reconnect_attempt + 1;
  timers = (w.next_timer, jittered (backoff w) random) ∷ [];
  reconnect_timer = some w.next_timer;
  next_timer = w.next_timer + 1;
}

module _ (H : Handlers) where
  -- Anything but a call of `connect`: calls of `sendRaw` and `disconnect`, events of any socket, and a
  -- timer that is set.
  pub data Other : Transport → Transport → Type 0 where
    sends : (w : Transport) (d : Text) → Other w (send_raw H d w).0
    opens : (w : Transport) (n : ℕ) → Other w (on_open H n (set_ready n socket_open w))
    receives : (w : Transport) (n : ℕ) (d : Option Text) → Other w (on_socket_message H n d w)
    errs : (w : Transport) (n : ℕ) → Other w (on_error H n w)
    closes : (w : Transport) (r n : ℕ) → Other w (on_close H r n (set_ready n socket_closed w))
    fires :
        (w : Transport) (t d : ℕ)
        → w.timers ≡ (t, d) ∷ []
        → Other w (on_timer H (record w { timers = [] }))

  pub data Others (w : Transport) : Transport → Type 0 where
    at_start : Others w w
    next : {u v : Transport} → Others w u → Other u v → Others w v

  -- Sent, status and quiet are kept.
  pub record Silent (w w' : Transport) : Type 0 where
    pub quiet : IsQuiet w'
    pub nothing_sent : w'.sent ≡ w.sent
    pub same_status : w'.status ≡ w.status

  not_current : (w : Transport) (n : ℕ) → w.ws ≡ none → is_current w n ≡ false
  not_current w n e = ground arith

  Silent-set : (w : Transport) (n : ℕ) (r : Ready) → IsQuiet w → Silent w (set_ready n r w)
  Silent-set w n r q = record {
    quiet = record {
      no_socket = q.no_socket;
      no_timer = q.no_timer;
      no_queue = q.no_queue;
      unwanted = q.unwanted;
    };
    nothing_sent = refl;
    same_status = refl;
  }

  Silent-self : (w : Transport) → IsQuiet w → Silent w w
  Silent-self w q = record { quiet = q; nothing_sent = refl; same_status = refl }

  Other-Silent : {w w' : Transport} → Other w w' → IsQuiet w → Silent w w'
  unfolding send_raw on_open on_socket_message on_error on_close
  Other-Silent (sends w d) q =
      let still : socket_is is_open w ≡ false = ground (arith, q.no_socket) in
      let gone : (w.auto_reconnect && w.should_reconnect) ≡ false = ground (arith, q.unwanted) in
      rw (still, gone) (Silent-self w q)
  Other-Silent (opens w n) q =
      rw (not_current (set_ready n socket_open w) n q.no_socket) (Silent-set w n socket_open q)
  Other-Silent (receives w n none) q = Silent-self w q
  Other-Silent (receives w n (some d)) q = rw (not_current w n q.no_socket) (Silent-self w q)
  Other-Silent (errs w n) q = rw (not_current w n q.no_socket) (Silent-self w q)
  Other-Silent (closes w r n) q =
      rw (not_current (set_ready n socket_closed w) n q.no_socket) (Silent-set w n socket_closed q)
  Other-Silent (fires w t d e) q = absurd (ground (arith, q.no_timer))

  Others-Silent : {w w' : Transport} → Others w w' → IsQuiet w → Silent w w'
  Others-Silent {w} at_start q = Silent-self w q
  Others-Silent (next r s) q =
      let before = Others-Silent r q in
      let after = Other-Silent s before.quiet in
      record {
        quiet = after.quiet;
        nothing_sent = after.nothing_sent ∙ before.nothing_sent;
        same_status = after.same_status ∙ before.same_status;
      }

  disconnect-IsQuiet :
      (w : Transport)
      → IsPassive H
      → IsValid w
      → IsQuiet (disconnect H w)
        × ((disconnect H w).status ≡ closed)
        × ((disconnect H w).sent ≡ w.sent)
  disconnect-IsQuiet w p v =
      let bare : IsQuiet (shut_down w) = record {
        no_socket = refl;
        no_timer = refl;
        no_queue = refl;
        unwanted = refl;
      } in
      let q = close_socket-IsQuiet w.ws (shut_down w) bare in
      rw (disconnect-eq H p w v) (
        record {
          no_socket = q.no_socket;
          no_timer = q.no_timer;
          no_queue = q.no_queue;
          unwanted = q.unwanted;
        },
        refl,
        close_socket-sent w.ws (shut_down w),
      )

  -- After disconnect on a valid transport with passive handlers, whatever sends, socket events and
  -- timers follow, until connect is called: no text is sent, the status stays closed, and no
  -- socket, timer or text waits.
  pub disconnected_for_good :
      (w w' : Transport)
      → IsPassive H
      → IsValid w
      → Others (disconnect H w) w'
      → IsQuiet w' × (w'.status ≡ closed) × (w'.sent ≡ w.sent)
  disconnected_for_good w w' p v r =
      let (quiet, status, sent) = disconnect-IsQuiet w p v in
      let s = Others-Silent r quiet in (s.quiet, s.same_status ∙ status, s.nothing_sent ∙ sent)

  on_close-waiting :
      (w : Transport) (random n : ℕ)
      → IsPassive H
      → IsValid w
      → w.ws ≡ some n
      → (w.auto_reconnect && w.should_reconnect) ≡ true
      → on_close H random n w ≡ waiting random w
  unfolding on_close schedule_reconnect backoff
  on_close-waiting w random n p v e k =
      let current : is_current w n ≡ true = ground arith in
      let shut = record w { ws = none; status = closed } in
      let bare = record shut { timers = []; reconnect_timer = none } in
      rw
        (
          current,
          set_status-eq H p closed (record w { ws = none }),
          k,
          clear-none shut v.one_timer,
          set_status-eq H p reconnecting
              (record bare { reconnect_attempt = w.reconnect_attempt + 1 }),
        )
        refl

  clear_without : (w : Transport) → w.reconnect_timer ≡ none → clear_reconnect_timer w ≡ w
  unfolding clear_reconnect_timer
  clear_without w e = ground arith

  on_timer-connects :
      (w : Transport)
      → IsPassive H
      → w.ws ≡ none
      → ((on_timer H w).ws ≡ some w.next_socket)
        × ((on_timer H w).ready w.next_socket ≡ socket_connecting)
  unfolding on_timer connect
  on_timer-connects w p e =
      let bare = record w { reconnect_timer = none } in
      let dead : socket_is is_live bare ≡ false = ground arith in
      let cleared : clear_reconnect_timer (record bare { should_reconnect = true })
          ≡ record bare { should_reconnect = true } =
        clear_without (record bare { should_reconnect = true }) refl in
      rw (dead, cleared, set_status-eq H p connecting (record bare { should_reconnect = true }))
        (refl, ground arith)

  -- When the current socket of a valid transport closes while reconnection is wanted, one timer is
  -- set, with the backoff of the attempts so far, which are counted, and the queue is kept; when
  -- the timer fires, a new socket is being connected.
  pub on_close-retries :
      (w : Transport) (random n : ℕ)
      → IsPassive H
      → IsValid w
      → w.ws ≡ some n
      → (w.auto_reconnect && w.should_reconnect) ≡ true
      → let w' = on_close H random n w in
        (w'.status ≡ reconnecting)
        × (w'.reconnect_attempt ≡ w.reconnect_attempt + 1)
        × (w'.timers ≡ (w.next_timer, jittered (backoff w) random) ∷ [])
        × (w'.send_queue ≡ w.send_queue)
        × (((on_timer H (record w' { timers = [] })).ws ≡ some w.next_socket)
            × ((on_timer H (record w' { timers = [] })).ready w.next_socket ≡ socket_connecting))
  on_close-retries w random n p v e k =
      rw (on_close-waiting w random n p v e k) (
        refl,
        refl,
        refl,
        refl,
        on_timer-connects (record (waiting random w) { timers = [] }) p refl,
      )
