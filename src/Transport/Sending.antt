-- ===== src/Transport/Sending.antt =====
-- On `sendRaw` and `flushQueue` of frontend/src/transport.ts.
use private_chat.Prelude.{
  ℕ, ◌≤◌, ◌<◌, ◌≡◌, refl, sym, ap, ◌∙◌, inl, inr, Bool, true, false, ◌&&◌, Option, none, some, List,
  [], ◌∷◌, ◌++◌, append-nil, append_assoc, arith, ltb, Bool-cases, length, All,
}
use private_chat.Text.{Text}
use private_chat.Transport.{
  open', socket_open, Transport, Handlers, is_open, socket_is, is_current, set_ready, queue_limit,
  send_on, send_raw, send_each, flush_queue, on_open,
}
use private_chat.Transport.Invariant.{IsPassive, set_status-eq}

-- The texts, each on socket `n`.
abbrev pub on_socket : ℕ → List Text → List (ℕ × Text)
on_socket n [] = []
on_socket n (d ∷ ds) = (n, d) ∷ on_socket n ds

module _ (H : Handlers) where
  -- The four outcomes of `sendRaw`.
  pub data Outcome (d : Text) (w : Transport) : Transport × Bool → Type 0 where
    delivered :
        (n : ℕ) {r : Transport × Bool}
        → w.ws ≡ some n
        → w.ready n ≡ socket_open
        → r ≡ (record w { sent = w.sent ++ (n, d) ∷ [] }, true)
        → Outcome d w r
    refused : {r : Transport × Bool} → r ≡ (w, false) → Outcome d w r
    queued :
        {r : Transport × Bool}
        → length w.send_queue < queue_limit
        → r ≡ (record w { send_queue = w.send_queue ++ d ∷ [] }, true)
        → Outcome d w r
    dropped :
        {r : Transport × Bool} → queue_limit ≤ length w.send_queue → r ≡ (w, true) → Outcome d w r

  send_on-Outcome :
      (d : Text) (w : Transport) (n : Option ℕ)
      → w.ws ≡ n
      → socket_is is_open w ≡ true
      → Outcome d w (send_on H n d w)
  send_on-Outcome d w none e h = absurd (ground arith)
  send_on-Outcome d w (some n) e h = elim (Bool-cases (H.send_throws d)) [
    | inl t ↦ refused (ground arith)
    | inr t ↦ delivered n e (ground arith) (ground arith)
  ]

  pub send_raw-Outcome : (d : Text) (w : Transport) → Outcome d w (send_raw H d w)
  unfolding send_raw
  send_raw-Outcome d w = elim (Bool-cases (socket_is is_open w)) [
    | inl ready ↦ rw ready (send_on-Outcome d w w.ws refl ready)
    | inr other ↦ elim (Bool-cases (w.auto_reconnect && w.should_reconnect)) [
      | inr gone ↦ refused (ground arith)
      | inl queues ↦ elim (Bool-cases (ltb (length w.send_queue) queue_limit)) [
        | inl room ↦ queued (ground arith) (ground arith)
        | inr full ↦ dropped (ground arith) (ground arith)
      ]
    ]
  ]

  -- A text for which `sendRaw` answers `false` changes nothing.
  pub send_raw-refused :
      (d : Text) (w : Transport) → (send_raw H d w).1 ≡ false → (send_raw H d w).0 ≡ w
  send_raw-refused d w e = split (send_raw H d w) (send_raw-Outcome d w) e
    where
      split : (r : Transport × Bool) → Outcome d w r → r.1 ≡ false → r.0 ≡ w
      split r (delivered n a b c) f = absurd (ground (arith, c, f))
      split r (refused c) f = ap (λ (p : Transport × Bool). p.0) c
      split r (queued a c) f = absurd (ground (arith, c, f))
      split r (dropped a c) f = absurd (ground (arith, c, f))

  -- `ws.send` takes all of them.
  abbrev pub IsTaken : List Text → Type 0
  IsTaken = All (λ d. H.send_throws d ≡ false)

  send_raw-open :
      (d : Text) (w : Transport) (n : ℕ)
      → w.ws ≡ some n
      → w.ready n ≡ socket_open
      → H.send_throws d ≡ false
      → (send_raw H d w).0 ≡ record w { sent = w.sent ++ (n, d) ∷ [] }
  unfolding send_raw
  send_raw-open d w n e h t = ground arith

  send_each-open :
      (ds : List Text) (w : Transport) (n : ℕ)
      → w.ws ≡ some n
      → w.ready n ≡ socket_open
      → IsTaken ds
      → send_each H ds w ≡ record w { sent = w.sent ++ on_socket n ds }
  unfolding send_each
  send_each-open [] w n e h t = ap (λ s. record w { sent = s }) (sym (append-nil w.sent))
  send_each-open (d ∷ ds) w n e h t =
      ap (send_each H ds) (send_raw-open d w n e h t.0)
      ∙ send_each-open ds (record w { sent = w.sent ++ (n, d) ∷ [] }) n e h t.1
      ∙ ap (λ s. record w { sent = s }) (append_assoc w.sent ((n, d) ∷ []) (on_socket n ds))

  -- When the current socket opens, with passive handlers and texts that the socket takes, the
  -- waiting texts are sent on it in the order in which they were queued, behind all that was sent
  -- before, the queue is empty and the count of attempts is reset.
  pub on_open-flushes :
      (w : Transport) (n : ℕ)
      → IsPassive H
      → w.ws ≡ some n
      → IsTaken w.send_queue
      → on_open H n (set_ready n socket_open w) ≡ record (set_ready n socket_open w) {
        status = open';
        reconnect_attempt = 0;
        send_queue = [];
        sent = w.sent ++ on_socket n w.send_queue;
      }
  unfolding on_open flush_queue
  on_open-flushes w n p e t =
      let w' = record (set_ready n socket_open w) { reconnect_attempt = 0 } in
      let current : is_current (set_ready n socket_open w) n ≡ true = ground arith in
      rw (current, set_status-eq H p open' w')
        (send_each-open w.send_queue (record w' { status = open'; send_queue = [] }) n e
          (ground arith) t)
