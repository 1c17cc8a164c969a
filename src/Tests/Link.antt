-- ===== src/Tests/Link.antt =====
-- The transport on concrete data.
use private_chat.Prelude.{◌+◌, ◌≡◌, refl, true, some, [], ◌∷◌, ◌++◌}
use private_chat.Text.{codes}
use private_chat.Transport.{
  Transport, closed, open', reconnecting, socket_open, socket_connecting, socket_closed, set_ready,
  create, send_raw, connect, on_open, on_close, on_timer, backoff, jittered, disconnect,
}
use private_chat.Transport.Invariant.{
  IsValid, at_start, next, connects, sends, closes, reachable-IsValid,
}
use private_chat.Transport.Sending.{on_socket, on_open-flushes}
use private_chat.Transport.Reconnect.{
  IsQuiet, Other, Others, disconnected_for_good, on_close-retries,
}
use private_chat.Tests.Fixtures.{
  idle_handlers, idle_handlers-IsPassive, fresh_link, linked, linked-IsValid,
}

abbrev after_close : Transport
after_close = on_close idle_handlers 7 0 (
    set_ready 0 socket_closed
      (send_raw idle_handlers (codes "x") (connect idle_handlers fresh_link)).0)

reachable-IsValid_example : IsValid after_close
reachable-IsValid_example = reachable-IsValid idle_handlers idle_handlers-IsPassive true 500 30000 (
    next
      (next (next at_start (connects fresh_link))
        (sends (connect idle_handlers fresh_link) (codes "x")))
      (closes (send_raw idle_handlers (codes "x") (connect idle_handlers fresh_link)).0 7 0))

disconnected_for_good_example :
    let late = (send_raw idle_handlers (codes "x") (disconnect idle_handlers linked)).0 in
    let last = on_close idle_handlers 7 0 (set_ready 0 socket_closed late) in
    IsQuiet last × (last.status ≡ closed) × (last.sent ≡ linked.sent)
disconnected_for_good_example =
    let gone = disconnect idle_handlers linked in
    let late = (send_raw idle_handlers (codes "x") gone).0 in
    disconnected_for_good idle_handlers linked
      (on_close idle_handlers 7 0 (set_ready 0 socket_closed late)) idle_handlers-IsPassive
      linked-IsValid
      (Others.next (Others.next Others.at_start (Other.sends gone (codes "x")))
        (Other.closes late 7 0))

on_close-retries_example :
    let w = on_close idle_handlers 7 0 linked in
    (w.status ≡ reconnecting)
    × (w.reconnect_attempt ≡ linked.reconnect_attempt + 1)
    × (w.timers ≡ (linked.next_timer, jittered (backoff linked) 7) ∷ [])
    × (w.send_queue ≡ linked.send_queue)
    × (((on_timer idle_handlers (record w { timers = [] })).ws ≡ some linked.next_socket)
        × ((on_timer idle_handlers (record w { timers = [] })).ready linked.next_socket
            ≡ socket_connecting))
unfolding create
on_close-retries_example =
    on_close-retries idle_handlers linked 7 0 idle_handlers-IsPassive linked-IsValid refl refl

abbrev two_waiting : Transport
two_waiting = record linked { send_queue = codes "a" ∷ codes "b" ∷ [] }

on_open-flushes_example :
    on_open idle_handlers 0 (set_ready 0 socket_open two_waiting)
    ≡ record (set_ready 0 socket_open two_waiting) {
      status = open';
      reconnect_attempt = 0;
      send_queue = [];
      sent = two_waiting.sent ++ on_socket 0 two_waiting.send_queue;
    }
on_open-flushes_example =
    on_open-flushes idle_handlers two_waiting 0 idle_handlers-IsPassive refl (refl, (refl, tt))

abbrev tried_twice : Transport
tried_twice = record linked { reconnect_attempt = 2 }
