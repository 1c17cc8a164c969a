-- ===== src/App/Shown.antt =====
-- What frontend/src/App.svelte derives for its views: the colour of a text, the rooms of the sidebar,
-- and the messages left behind a deletion.
use native.Mathlib.Nat.{pow-succ'}
use private_chat.Prelude.{
  ℕ, zero, suc, ◌+◌, ◌*◌, ◌%◌, ◌^◌, ◌<◌, ◌≡◌, refl, sym, ap, subst, ◌∙◌, inl, inr, Bool, true,
  false, not, ◌&&◌, ◌||◌, some, List, [], ◌∷◌, ◌++◌, arith, ◌==◌, Bool-cases, length, take, drop,
}
use private_chat.Text.{Text, text_eq}
use private_chat.Text.Laws.{text_eq_iff, text_eq_refl}
use private_chat.Collections.{
  set_has, IsDistinct, set_has-append, map_get, map_has, map_get-set_same, map_get-set_other,
}
use private_chat.Channel.{ChatMessage}
use private_chat.App.{
  Session, HistoryEntry, RoomEntry, App, hash_from, hue, in_history, live_rooms, other_rooms,
  sidebar_rooms, filter_from, channel_id, change_store, delete_message,
}

-- The characters as digits to the base 31.
abbrev polynomial : Text → ℕ
polynomial [] = 0
polynomial (c ∷ s) = c * 31 ^ length s + polynomial s

wrap_step : (h c : ℕ) → (h % 2 ^ 32 * 31 + c) % 2 ^ 32 ≡ (h * 31 + c) % 2 ^ 32
wrap_step h c = omega arith

digit_step : (h c p q : ℕ) → (h * 31 + c) * p + q ≡ h * (31 * p) + (c * p + q)
digit_step h c p q = omega arith

hash_from-polynomial :
    (h : ℕ) (s : Text) → hash_from (h % 2 ^ 32) s ≡ (h * 31 ^ length s + polynomial s) % 2 ^ 32
unfolding hash_from
hash_from-polynomial h [] = omega arith
hash_from-polynomial h (c ∷ s) =
    ap (λ x. hash_from x s) (wrap_step h c)
    ∙ hash_from-polynomial (h * 31 + c) s
    ∙ ap (λ x. x % 2 ^ 32)
        (digit_step h c (31 ^ length s) (polynomial s)
          ∙ ap (λ p. h * p + polynomial (c ∷ s)) (sym (pow-succ' 31 (length s))))

-- The hue of a text, from the loop that keeps 32 bits, is the value of its characters as digits to
-- the base 31, modulo 2 ^ 32 and then 360, so it is below 360.
hue-polynomial : (s : Text) → (hue s ≡ polynomial s % 2 ^ 32 % 360) × (hue s < 360)
unfolding hue
hue-polynomial s =
    let e : hue s ≡ polynomial s % 2 ^ 32 % 360 =
      ap (λ x. x % 360) (hash_from-polynomial 0 s) ∙ omega arith in
    (e, rw e (omega arith))

and_no : (b : Bool) → (b && not true) ≡ false
and_no b = ground arith

-- No room is remembered twice.
abbrev pub IsOnce : List HistoryEntry → Type 0
IsOnce [] = Unit {0}
IsOnce (r ∷ rs) = (in_history r.id rs ≡ false) × IsOnce rs

-- Two lists without a common id.
IsDistinct-append :
    (s t : List Text)
    → IsDistinct s
    → IsDistinct t
    → ((x : Text) → set_has s x ≡ true → set_has t x ≡ false)
    → IsDistinct (s ++ t)
unfolding set_has
IsDistinct-append [] t d e h = e
IsDistinct-append (x ∷ s) t (d, ds) e h = (
  ground (arith, set_has-append s t x, h x, text_eq_refl x),
  IsDistinct-append s t ds e (λ y k. ground (arith, h y, text_eq_iff x y)),
)

module _ {F : Type 0} where
  abbrev pub entry_ids : List (RoomEntry F) → List Text
  entry_ids [] = []
  entry_ids (r ∷ rs) = r.id ∷ entry_ids rs

  abbrev pub store_ids : List (Text × Session F) → List Text
  store_ids [] = []
  store_ids ((id, s) ∷ rest) = id ∷ store_ids rest

  entry_ids-append :
      (rs ss : List (RoomEntry F)) → entry_ids (rs ++ ss) ≡ entry_ids rs ++ entry_ids ss
  entry_ids-append [] ss = refl
  entry_ids-append (r ∷ rs) ss = ap (λ ids. r.id ∷ ids) (entry_ids-append rs ss)

  entry_ids-live :
      (stores : List (Text × Session F)) → entry_ids (live_rooms stores) ≡ store_ids stores
  unfolding live_rooms
  entry_ids-live [] = refl
  entry_ids-live ((id, s) ∷ rest) = ap (λ ids. id ∷ ids) (entry_ids-live rest)

  set_has-store_ids :
      (stores : List (Text × Session F)) (id : Text)
      → set_has (store_ids stores) id ≡ map_has stores id
  unfolding set_has map_has
  set_has-store_ids [] id = refl
  set_has-store_ids ((j, s) ∷ rest) id = ap (λ b. text_eq j id || b) (set_has-store_ids rest id)

  -- Of the remembered rooms those without a store are listed.
  set_has-other :
      (stores : List (Text × Session F)) (rs : List HistoryEntry) (id : Text)
      → set_has (entry_ids (other_rooms stores rs)) id
        ≡ (in_history id rs && not (map_has stores id))
  unfolding set_has other_rooms in_history
  set_has-other stores [] id = refl
  set_has-other stores (r ∷ rs) id =
      ground (arith, set_has-other stores rs id, text_eq_iff r.id id, ap (map_has stores))

  set_has-live-other :
      (stores : List (Text × Session F)) (rs : List HistoryEntry) (id : Text)
      → set_has (entry_ids (live_rooms stores ++ other_rooms stores rs)) id
        ≡ (map_has stores id || in_history id rs)
  set_has-live-other stores rs id =
      rw
        (
          entry_ids-append (live_rooms stores) (other_rooms stores rs),
          set_has-append (entry_ids (live_rooms stores)) (entry_ids (other_rooms stores rs)) id,
          entry_ids-live stores,
          set_has-store_ids stores id,
          set_has-other stores rs id,
        )
        (ground arith)

  other-IsDistinct :
      (stores : List (Text × Session F)) (rs : List HistoryEntry)
      → IsOnce rs
      → IsDistinct (entry_ids (other_rooms stores rs))
  unfolding other_rooms
  other-IsDistinct stores [] d = tt
  other-IsDistinct stores (r ∷ rs) (d, ds) =
      let rest = other-IsDistinct stores rs ds in
      elim (Bool-cases (map_has stores r.id)) [
        | inl e ↦ rw (other_rooms, e) rest
        | inr e ↦ rw (other_rooms, e) (ground (arith, set_has-other stores rs r.id), rest)
      ]

  -- The sidebar lists the rooms that have a store or are remembered, and none twice, if no id
  -- occurs twice among the stores or in the history.
  pub sidebar_rooms-once :
      (a : App F)
      → IsDistinct (store_ids a.stores)
      → IsOnce a.room_history
      → IsDistinct (entry_ids (sidebar_rooms a))
        × ((id : Text)
            → set_has (entry_ids (sidebar_rooms a)) id
              ≡ (map_has a.stores id || in_history id a.room_history))
  unfolding sidebar_rooms
  sidebar_rooms-once a d h =
      let others = entry_ids (other_rooms a.stores a.room_history) in
      let apart = λ (x : Text) (k : set_has (store_ids a.stores) x ≡ true).
        set_has-other a.stores a.room_history x
        ∙ ap (λ b. in_history x a.room_history && not b) (sym (set_has-store_ids a.stores x) ∙ k)
        ∙ and_no (in_history x a.room_history) in
      let parts : entry_ids (sidebar_rooms a) ≡ store_ids a.stores ++ others =
        entry_ids-append (live_rooms a.stores) (other_rooms a.stores a.room_history)
        ∙ ap (λ ids. ids ++ others) (entry_ids-live a.stores) in
      (
        subst IsDistinct (sym parts) (
            IsDistinct-append (store_ids a.stores) others d
              (other-IsDistinct a.stores a.room_history h) apart),
        λ id. set_has-live-other a.stores a.room_history id,
      )

  filter_from-past : (i idx : ℕ) (ms : List (ChatMessage F)) → idx < i → filter_from i idx ms ≡ ms
  unfolding filter_from
  filter_from-past i idx [] h = refl
  filter_from-past i idx (m ∷ ms) h = ground (arith, filter_from-past (i + 1) idx ms)

  filter_from-drop :
      (n i : ℕ) (ms : List (ChatMessage F))
      → filter_from i (i + n) ms ≡ take n ms ++ drop (suc n) ms
  unfolding filter_from
  filter_from-drop zero i [] = refl
  filter_from-drop (suc n) i [] = refl
  filter_from-drop zero i (m ∷ ms) = ground (arith, filter_from-past (i + 1) (i + 0) ms)
  filter_from-drop (suc n) i (m ∷ ms) =
      let rest = filter_from-drop n (i + 1) ms in
      let here : (i == (i + suc n)) ≡ false = ground arith in
      let index : i + suc n ≡ (i + 1) + n = omega arith in
      rw here (ap (λ k. m ∷ filter_from (i + 1) k ms) index ∙ ap (λ xs. m ∷ xs) rest)

  -- Deleting drops the message at the index from the store of the room shown, and from no other.
  pub delete_message-drop :
      (idx : ℕ) (a : App F) (s : Session F)
      → map_get a.stores (channel_id a) ≡ some s
      → let messages = take idx s.store.messages ++ drop (suc idx) s.store.messages in
        (map_get (delete_message idx a).stores (channel_id a)
          ≡ some (record s { store = record s.store { messages = messages } }))
        × ((other : Text)
            → text_eq (channel_id a) other ≡ false
            → map_get (delete_message idx a).stores other ≡ map_get a.stores other)
  unfolding delete_message change_store
  delete_message-drop idx a s e =
      let id = channel_id a in
      let zero_index : idx ≡ 0 + idx = omega arith in
      let deleted : Session F = record s {
        store = record s.store { messages = filter_from 0 idx s.store.messages };
      } in
      let filtered : filter_from 0 idx s.store.messages
          ≡ take idx s.store.messages ++ drop (suc idx) s.store.messages =
        ap (λ k. filter_from 0 k s.store.messages) zero_index
        ∙ filter_from-drop idx 0 s.store.messages in
      rw (delete_message, change_store, e)
        (
          map_get-set_same a.stores id deleted
              ∙ ap
                  (λ (ms : List (ChatMessage F)).
                    some (record s { store = record s.store { messages = ms } }))
                  filtered,
          λ other n. map_get-set_other a.stores id other deleted n,
        )
