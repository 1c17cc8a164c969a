-- ===== src/Tests/Creating.antt =====
-- Asking for a channel, on concrete data.
use private_chat.Prelude.{◌≡◌, refl, ◌⊎◌, true, false, some}
use private_chat.Transport.{connecting}
use private_chat.Channel.Create.{
  Outcome, timed_out, Creation, start_creation, finish_creation, on_timeout, on_creation_status,
  at_start, next, times_out, reports,
}
use private_chat.Channel.Create.Settling.{settles_once, settles_by_timeout}
use private_chat.Tests.Fixtures.{naturals, idle_handlers}

abbrev begun : Creation
begun = start_creation naturals idle_handlers

begun-timer_set : begun.timer_set ≡ true
unfolding start_creation
begun-timer_set = refl

abbrev over : Creation
over = on_timeout naturals idle_handlers begun

over-timed_out : over.settled ≡ some timed_out
unfolding start_creation on_timeout finish_creation
over-timed_out = refl

settles_once_example :
    let late = on_creation_status naturals idle_handlers connecting over in
    (late.settled ≡ some timed_out) × (late.listening ≡ false) × (late.timer_set ≡ false)
settles_once_example =
    settles_once naturals idle_handlers timed_out (next at_start (times_out begun begun-timer_set))
      (next at_start (reports over connecting)) over-timed_out

settles_by_timeout_example :
    ((v : Outcome) × (begun.settled ≡ some v))
    ⊎ ((begun.timer_set ≡ true) × ((v : Outcome) × (over.settled ≡ some v)))
settles_by_timeout_example = settles_by_timeout naturals idle_handlers at_start
