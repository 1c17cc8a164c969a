-- ===== src/Channel/Create/Settling.antt =====
-- On the promise of `createChannel` in frontend/src/channel.svelte.ts.
use private_chat.Prelude.{
  ◌≡◌, refl, sym, subst, ◌⊎◌, inl, inr, true, false, ◌&&◌, Option, none, some, arith, Bool-cases,
}
use private_chat.Result.{Result-cases}
use private_chat.Text.{Text}
use private_chat.Json.{Numbers, Fields}
use private_chat.Codec.{Kind, channel_created, error, encode, decode}
use private_chat.Transport.{Transport, Handlers}
use private_chat.Channel.Create.{
  Outcome, timed_out, settle, Creation, start_creation, finish_creation, on_timeout, on_answer,
  on_raw_message, create_json, ask, is_open_status, on_creation_status, Event, times_out, answers,
  reports, moves, Events, at_start, next, IsTidy,
}

settle-some : (o : Option Outcome) (v : Outcome) → (u : Outcome) × (settle o v ≡ some u)
settle-some none v = (v, refl)
settle-some (some u) v = (u, refl)

module _ (N : Numbers) (H : Handlers) where
  open N use {Number}

  start-IsTidy : IsTidy N H (start_creation N H)
  unfolding start_creation
  start-IsTidy = record {
    done_settled = λ v e. cc;
    done_settles = λ e. cc;
    timer_until_done = refl;
    listens_until_done = refl;
  }

  finish-IsTidy : (v : Outcome) (c : Creation) → IsTidy N H (finish_creation N H v c)
  unfolding finish_creation
  finish-IsTidy v c = record {
    done_settled = λ u e. refl;
    done_settles = λ e. settle-some c.settled v;
    timer_until_done = refl;
    listens_until_done = refl;
  }

  moved-IsTidy :
      (c : Creation) (w : Transport) → IsTidy N H c → IsTidy N H (record c { transport = w })
  moved-IsTidy c w t = record {
    done_settled = t.done_settled;
    done_settles = t.done_settles;
    timer_until_done = t.timer_until_done;
    listens_until_done = t.listens_until_done;
  }

  on_timeout-IsTidy :
      (c : Creation) → c.timer_set ≡ true → IsTidy N H c → IsTidy N H (on_timeout N H c)
  unfolding on_timeout
  on_timeout-IsTidy c set t =
      let open' : c.done ≡ false = ground (arith, t.timer_until_done, set) in
      let settles : on_timeout N H c ≡ finish_creation N H timed_out c = ground arith in
      subst (IsTidy N H) (sym settles) (finish-IsTidy timed_out c)

  on_answer-IsTidy :
      (k : Kind) (o : Fields Number) (c : Creation)
      → IsTidy N H c
      → IsTidy N H (on_answer N H k o c)
  unfolding on_answer
  on_answer-IsTidy channel_created o c t = finish-IsTidy _ c
  on_answer-IsTidy error o c t = finish-IsTidy _ c
  on_answer-IsTidy k o c t = t

  on_raw_message-IsTidy :
      (raw : Text) (c : Creation) → IsTidy N H c → IsTidy N H (on_raw_message N H raw c)
  unfolding on_raw_message
  on_raw_message-IsTidy raw c t = elim (Bool-cases c.listening) [
    | inr deaf ↦
        let same : on_raw_message N H raw c ≡ c = ground arith in subst (IsTidy N H) (sym same) t
    | inl hears ↦ elim (Result-cases (decode N raw)) [
      | inl (f, e) ↦
          let same : on_raw_message N H raw c ≡ on_answer N H f.kind f.object c =
            ground (arith, hears, e) in
          subst (IsTidy N H) (sym same) (on_answer-IsTidy f.kind f.object c t)
      | inr (x, e) ↦
          let same : on_raw_message N H raw c ≡ c = ground (arith, hears, e) in
          subst (IsTidy N H) (sym same) t
    ]
  ]

  ask-IsTidy : (c : Creation) → IsTidy N H c → IsTidy N H (ask N H c)
  unfolding ask
  ask-IsTidy c t = elim (Result-cases (encode N (create_json N H))) [
    | inl (raw, e) ↦ rw (ask, e) (moved-IsTidy c _ t)
    | inr (x, e) ↦ rw (ask, e) (finish-IsTidy _ c)
  ]

  Event-IsTidy : {c d : Creation} → Event N H c d → IsTidy N H c → IsTidy N H d
  unfolding on_creation_status
  Event-IsTidy (times_out c set) t = on_timeout-IsTidy c set t
  Event-IsTidy (answers c raw) t = on_raw_message-IsTidy raw c t
  Event-IsTidy (reports c s) t = elim (Bool-cases (c.listening && is_open_status N H s)) [
    | inl asks ↦ rw asks (ask-IsTidy c t)
    | inr idle ↦ rw idle t
  ]
  Event-IsTidy (moves c w) t = moved-IsTidy c w t

  Events-IsTidy : {c d : Creation} → Events N H c d → IsTidy N H c → IsTidy N H d
  Events-IsTidy at_start t = t
  Events-IsTidy (next r e) t = Event-IsTidy e (Events-IsTidy r t)

  -- With its handlers gone and the timeout cleared, a creation hears of nothing any more.
  Event-settled :
      {c d : Creation} (v : Outcome)
      → Event N H c d
      → IsTidy N H c
      → c.settled ≡ some v
      → d.settled ≡ some v
  unfolding on_raw_message on_creation_status
  Event-settled v (times_out c set) t e =
      absurd (ground (arith, t.done_settled v e, t.timer_until_done, set))
  Event-settled v (answers c raw) t e =
      let deaf : c.listening ≡ false = ground (arith, t.done_settled v e, t.listens_until_done) in
      rw (on_raw_message, deaf) e
  Event-settled v (reports c s) t e =
      let deaf : c.listening ≡ false = ground (arith, t.done_settled v e, t.listens_until_done) in
      rw (on_creation_status, deaf) e
  Event-settled v (moves c w) t e = e

  Events-settled :
      {c d : Creation} (v : Outcome)
      → Events N H c d
      → IsTidy N H c
      → c.settled ≡ some v
      → d.settled ≡ some v
  Events-settled v at_start t e = e
  Events-settled v (next r s) t e = Event-settled v s (Events-IsTidy r t) (Events-settled v r t e)

  -- Once the promise of createChannel is settled, no later event changes what it is settled with,
  -- and neither a handler nor the timeout is left.
  pub settles_once :
      {c d : Creation} (v : Outcome)
      → Events N H (start_creation N H) c
      → Events N H c d
      → c.settled ≡ some v
      → (d.settled ≡ some v) × (d.listening ≡ false) × (d.timer_set ≡ false)
  settles_once v r s e =
      let before = Events-IsTidy r start-IsTidy in
      let after = Events-IsTidy s before in
      let kept = Events-settled v s before e in
      let over = after.done_settled v kept in
      (
        kept,
        ground (arith, after.listens_until_done, over),
        ground (arith, after.timer_until_done, over),
      )

  -- At any time the promise of createChannel is settled, or the timeout is still set and settles it
  -- when it fires.
  pub settles_by_timeout :
      {c : Creation}
      → Events N H (start_creation N H) c
      → ((v : Outcome) × (c.settled ≡ some v))
        ⊎ ((c.timer_set ≡ true) × ((v : Outcome) × ((on_timeout N H c).settled ≡ some v)))
  unfolding on_timeout finish_creation
  settles_by_timeout {c} r =
      let t = Events-IsTidy r start-IsTidy in
      elim (Bool-cases c.done) [
        | inl over ↦ inl (t.done_settles over)
        | inr open' ↦
            inr (
              ground (arith, t.timer_until_done, open'),
              rw open' (settle-some c.settled timed_out),
            )
      ]
