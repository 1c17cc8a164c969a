-- ===== src/E2ee/ReplayCache/Memory.antt =====
-- On rows of `add` calls of class ReplayCache of frontend/src/e2ee.ts.
use private_chat.Prelude.{
  ℕ, zero, suc, ◌+◌, ◌-◌, ◌≤◌, ◌<◌, ◌≡◌, refl, sym, ap, ◌∙◌, inl, inr, true, false, List, [], ◌∷◌,
  ◌++◌, append-nil, append_assoc, arith, ltb, if◌then◌else◌, Bool-cases, length, length-append,
  drop, length-drop,
}
use private_chat.Text.{Text}
use private_chat.Text.Laws.{text_eq_refl}
use private_chat.Collections.{set_has}
use private_chat.E2ee.ReplayCache.{ReplayCache, has, add}
use private_chat.E2ee.ReplayCache.Fifo.{IsValid, add-queue, add-IsValid, max-add, shift_if_over}

-- A row of calls of `add`.
abbrev pub add_all : ReplayCache → List Text → ReplayCache
add_all c [] = c
add_all c (id ∷ ids) = add_all (add c id) ids

-- `id` stands in the queue with at most `n` ids behind it.
record IsRecent (n : ℕ) (id : Text) (q : List Text) : Type 0 where
  before : List Text
  after : List Text
  here : q ≡ before ++ id ∷ after
  few : length after ≤ n

shift-IsRecent :
    (max n : ℕ) (id x : Text) (q : List Text)
    → n + 2 ≤ max
    → IsRecent n id q
    → IsRecent (suc n) id (shift_if_over max (q ++ x ∷ []))
shift-IsRecent max n id x q h r = rw r.here (split r.before r.after r.few)
  where
    split :
        (before after : List Text)
        → length after ≤ n
        → IsRecent (suc n) id (shift_if_over max ((before ++ id ∷ after) ++ x ∷ []))
    split [] after few = elim (Bool-cases (ltb max (length (id ∷ after ++ x ∷ [])))) [
      | inl over ↦ absurd (ground (arith, length-append after (x ∷ [])))
      | inr fits ↦ rw fits (record {
        before = [];
        after = after ++ x ∷ [];
        here = refl;
        few = omega (arith, length-append after (x ∷ []));
      })
    ]
    split (y ∷ before) after few =
        elim (Bool-cases (ltb max (length (y ∷ (before ++ id ∷ after) ++ x ∷ [])))) [
          | inl over ↦ rw over (record {
            before = before;
            after = after ++ x ∷ [];
            here = append_assoc before (id ∷ after) (x ∷ []);
            few = omega (arith, length-append after (x ∷ []));
          })
          | inr fits ↦ rw fits (record {
            before = y ∷ before;
            after = after ++ x ∷ [];
            here = ap (◌∷◌ y) (append_assoc before (id ∷ after) (x ∷ []));
            few = omega (arith, length-append after (x ∷ []));
          })
        ]

IsRecent-suc : {n : ℕ} {id : Text} {q : List Text} → IsRecent n id q → IsRecent (suc n) id q
IsRecent-suc r = record { before = r.before; after = r.after; here = r.here; few = omega arith }

add-IsRecent :
    (c : ReplayCache) (n : ℕ) (id x : Text)
    → IsValid c
    → n + 2 ≤ c.max
    → IsRecent n id c.queue
    → IsRecent (suc n) id (add c x).queue
add-IsRecent c n id x v h r = rw (add-queue c x v) (elim (Bool-cases (has c x)) [
  | inl old ↦ rw old (IsRecent-suc r)
  | inr new ↦ rw new (shift-IsRecent c.max n id x c.queue h r)
])

set_has-middle : (before after : List Text) (id : Text) → set_has (before ++ id ∷ after) id ≡ true
unfolding set_has
set_has-middle [] after id = ground (arith, text_eq_refl id)
set_has-middle (x ∷ before) after id = ground (arith, set_has-middle before after id)

has_of_IsRecent :
    (c : ReplayCache) (n : ℕ) (id : Text) → IsValid c → IsRecent n id c.queue → has c id ≡ true
unfolding has
has_of_IsRecent c n id v r = rw (v.same, r.here) (set_has-middle r.before r.after id)

add_all-IsRecent :
    (ids : List Text) (c : ReplayCache) (n : ℕ) (id : Text)
    → IsValid c
    → n + 1 + length ids ≤ c.max
    → IsRecent n id c.queue
    → has (add_all c ids) id ≡ true
add_all-IsRecent [] c n id v h r = has_of_IsRecent c n id v r
add_all-IsRecent (x ∷ ids) c n id v h r =
    add_all-IsRecent ids (add c x) (suc n) id (add-IsValid c x v) (omega (arith, max-add c x v))
      (add-IsRecent c n id x v (omega arith) r)

-- A new id just added is the last of the queue.
add-IsRecent_self :
    (c : ReplayCache) (id : Text)
    → IsValid c
    → 0 < c.max
    → has c id ≡ false
    → IsRecent 0 id (add c id).queue
add-IsRecent_self c id v h new = rw (add-queue c id v, new) (last c.queue)
  where
    last : (q : List Text) → IsRecent 0 id (shift_if_over c.max (q ++ id ∷ []))
    last [] = elim (Bool-cases (ltb c.max 1)) [
      | inl over ↦ absurd (ground arith)
      | inr fits ↦ rw fits (record { before = []; after = []; here = refl; few = omega arith })
    ]
    last (y ∷ q) = elim (Bool-cases (ltb c.max (length (y ∷ q ++ id ∷ [])))) [
      | inl over ↦ rw over (record { before = q; after = []; here = refl; few = omega arith })
      | inr fits ↦ rw fits (record { before = y ∷ q; after = []; here = refl; few = omega arith })
    ]

-- In a valid cache, an id that was new is remembered while fewer than max others are added, in any
-- order.
pub remembered :
    (c : ReplayCache) (id : Text) (ids : List Text)
    → IsValid c
    → has c id ≡ false
    → length ids < c.max
    → has (add_all (add c id) ids) id ≡ true
remembered c id ids v new h =
    add_all-IsRecent ids (add c id) 0 id (add-IsValid c id v) (omega (arith, max-add c id v))
      (add-IsRecent_self c id v (omega arith) new)

-- The last `n` entries of a list.
abbrev pub last_of {ℓ} : {A : Type ℓ} → ℕ → List A → List A
last_of n xs = drop (length xs - n) xs

-- The ids that a row of calls really adds.
abbrev pub accepted : ReplayCache → List Text → List Text
accepted c [] = []
accepted c (id ∷ ids) = let rest = accepted (add c id) ids in if has c id then rest else id ∷ rest

shift-eq-last_of :
    (max : ℕ) (q : List Text) → length q ≤ suc max → shift_if_over max q ≡ last_of max q
shift-eq-last_of max [] h = ground arith
shift-eq-last_of max (x ∷ q) h = elim (Bool-cases (ltb max (length (x ∷ q)))) [
  | inl over ↦ let one : suc (length q) - max ≡ 1 = ground arith in rw (over, one) refl
  | inr fits ↦ let zero' : suc (length q) - max ≡ 0 = ground arith in rw (fits, zero') refl
]

drop-nil {ℓ} : {A : Type ℓ} (n : ℕ) → drop {A = A} n [] ≡ []
drop-nil zero = refl
drop-nil (suc n) = refl

drop-drop {ℓ} : {A : Type ℓ} (k m : ℕ) (xs : List A) → drop m (drop k xs) ≡ drop (k + m) xs
drop-drop zero m xs = ap (λ n. drop n xs) (omega arith)
drop-drop (suc k) zero [] = sym (drop-nil (suc k + 0))
drop-drop (suc k) (suc m) [] = sym (drop-nil (suc k + suc m))
drop-drop (suc k) m (x ∷ xs) =
    let e : suc (k + m) ≡ suc k + m = omega arith in drop-drop k m xs ∙ ap (λ n. drop n (x ∷ xs)) e

drop-append {ℓ} :
    {A : Type ℓ} (k : ℕ) (xs ys : List A) → k ≤ length xs → drop k (xs ++ ys) ≡ drop k xs ++ ys
drop-append zero xs ys h = refl
drop-append (suc k) [] ys h = absurd (omega arith)
drop-append (suc k) (x ∷ xs) ys h = drop-append k xs ys (omega arith)

last_of-last_of :
    (n : ℕ) (xs ys : List Text) → last_of n (last_of n xs ++ ys) ≡ last_of n (xs ++ ys)
last_of-last_of n xs ys =
    let d = length xs - n in
    rw
      (← drop-append d xs ys (omega arith), drop-drop d (length (drop d (xs ++ ys)) - n) (xs ++ ys))
      (ap (λ k. drop k (xs ++ ys)) (omega (arith, length-drop d (xs ++ ys), length-append xs ys)))

last_of-push :
    (n : ℕ) (q q' rest : List Text) (id : Text)
    → q' ≡ last_of n (q ++ id ∷ [])
    → last_of n (q' ++ rest) ≡ last_of n (q ++ id ∷ rest)
last_of-push n q q' rest id e =
    rw e (last_of-last_of n (q ++ id ∷ []) rest ∙ ap (last_of n) (append_assoc q (id ∷ []) rest))

queue-add_new :
    (c : ReplayCache) (id : Text)
    → IsValid c
    → has c id ≡ false
    → (add c id).queue ≡ last_of c.max (c.queue ++ id ∷ [])
queue-add_new c id v new =
    rw (add-queue c id v, new)
      (shift-eq-last_of c.max (c.queue ++ id ∷ [])
        (omega (arith, length-append c.queue (id ∷ []), v.within)))

queue-add_old : (c : ReplayCache) (id : Text) → has c id ≡ true → add c id ≡ c
unfolding add
queue-add_old c id old = rw old

-- After a row of add calls on a valid cache, its queue is the last max entries of what it held
-- followed by the ids that were really added.
pub queue-add_all :
    (ids : List Text) (c : ReplayCache)
    → IsValid c
    → (add_all c ids).queue ≡ last_of c.max (c.queue ++ accepted c ids)
queue-add_all [] c v =
    let none_over : length (c.queue ++ []) - c.max ≡ 0 =
      omega (arith, length-append c.queue [], v.within) in
    rw none_over (sym (append-nil c.queue))
queue-add_all (id ∷ ids) c v =
    let rest = accepted (add c id) ids in
    queue-add_all ids (add c id) (add-IsValid c id v)
    ∙ ap (λ m. last_of m ((add c id).queue ++ rest)) (max-add c id v)
    ∙ elim (Bool-cases (has c id)) [
      | inl old ↦
          rw old
            (ap (λ (d : ReplayCache). last_of c.max (d.queue ++ rest)) (queue-add_old c id old))
      | inr new ↦
          rw new (last_of-push c.max c.queue (add c id).queue rest id (queue-add_new c id v new))
    ]
