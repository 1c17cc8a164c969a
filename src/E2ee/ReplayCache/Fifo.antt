-- ===== src/E2ee/ReplayCache/Fifo.antt =====
-- On the queue of class ReplayCache of frontend/src/e2ee.ts and a single `add`.
use private_chat.Prelude.{
  ℕ, suc, ◌+◌, ◌≤◌, ◌≡◌, refl, ap, inl, inr, Bool, false, not, ◌&&◌, ◌||◌, List, [], ◌∷◌, ◌++◌,
  arith, ltb, leb, if◌then◌else◌, Bool-cases, length, length-append,
}
use private_chat.Text.{Text, text_eq}
use private_chat.Text.Laws.{text_eq_iff, text_eq_refl}
use private_chat.Collections.{
  set_has, set_add, set_delete, set_has-append, set_delete-absent, IsDistinct,
  IsDistinct-append_one,
}
use private_chat.E2ee.ReplayCache.{ReplayCache, create, has, evict, bound, add, clear, size}

pub record IsValid (c : ReplayCache) : Type 0 where
  pub same : c.seen ≡ c.queue
  pub distinct : IsDistinct c.queue
  pub within : length c.queue ≤ c.max

-- What `add` does to the queue of a valid cache.
abbrev pub shift_if_over : ℕ → List Text → List Text
shift_if_over max [] = []
shift_if_over max (x ∷ q) = if ltb max (length (x ∷ q)) then q else x ∷ q

abbrev pub queue_after : ReplayCache → Text → List Text
queue_after c id = if has c id then c.queue else shift_if_over c.max (c.queue ++ id ∷ [])

delete_first : (x : Text) (q : List Text) → IsDistinct (x ∷ q) → set_delete (x ∷ q) x ≡ q
unfolding set_delete
delete_first x q d = ground (arith, text_eq_refl x, set_delete-absent q x d.0)

bound_queue :
    (c : ReplayCache) (q : List Text)
    → IsDistinct q
    → bound (record c { seen = q; queue = q })
      ≡ record c { seen = shift_if_over c.max q; queue = shift_if_over c.max q }
unfolding bound evict
bound_queue c [] d = ground arith
bound_queue c (x ∷ q) d = ground (arith, delete_first x q d)

-- On a valid cache `add` is the same change of both collections.
pub add-queue :
    (c : ReplayCache) (id : Text)
    → IsValid c
    → add c id ≡ record c { seen = queue_after c id; queue = queue_after c id }
unfolding add has set_add
add-queue c id v = elim (Bool-cases (set_has c.seen id)) [
  | inl old ↦ ground arith
  | inr new ↦
      let fresh : set_has c.queue id ≡ false = rw (← v.same) new in
      ground (
        arith,
        bound_queue c (c.queue ++ id ∷ []) (IsDistinct-append_one c.queue id v.distinct fresh),
      )
]

shift-IsDistinct : (max : ℕ) (q : List Text) → IsDistinct q → IsDistinct (shift_if_over max q)
shift-IsDistinct max [] d = tt
shift-IsDistinct max (x ∷ q) d = ground arith

shift-within : (max : ℕ) (q : List Text) → length q ≤ suc max → length (shift_if_over max q) ≤ max
shift-within max [] h = omega arith
shift-within max (x ∷ q) h = ground arith

pub create-IsValid : (max : ℕ) → IsValid (create max)
unfolding create
create-IsValid max = record { same = refl; distinct = tt; within = omega arith }

pub clear-IsValid : (c : ReplayCache) → IsValid (clear c)
unfolding clear
clear-IsValid c = record { same = refl; distinct = tt; within = omega arith }

queue_after-IsDistinct : (c : ReplayCache) (id : Text) → IsValid c → IsDistinct (queue_after c id)
unfolding has
queue_after-IsDistinct c id v = elim (Bool-cases (set_has c.seen id)) [
  | inl old ↦ rw old v.distinct
  | inr new ↦
      let fresh : set_has c.queue id ≡ false = rw (← v.same) new in
      rw new (
        shift-IsDistinct c.max (c.queue ++ id ∷ [])
          (IsDistinct-append_one c.queue id v.distinct fresh))
]

queue_after-within : (c : ReplayCache) (id : Text) → IsValid c → length (queue_after c id) ≤ c.max
queue_after-within c id v = elim (Bool-cases (has c id)) [
  | inl old ↦ rw old v.within
  | inr new ↦ rw new (
      shift-within c.max (c.queue ++ id ∷ [])
        (omega (arith, length-append c.queue (id ∷ []), v.within)))
]

-- `add` keeps the cache valid.
pub add-IsValid : (c : ReplayCache) (id : Text) → IsValid c → IsValid (add c id)
add-IsValid c id v = rw (add-queue c id v) (record {
  same = refl;
  distinct = queue_after-IsDistinct c id v;
  within = queue_after-within c id v;
})

pub max-add : (c : ReplayCache) (id : Text) → IsValid c → (add c id).max ≡ c.max
max-add c id v = ap (λ (d : ReplayCache). d.max) (add-queue c id v)

-- The size never exceeds the bound, whatever is added and cleared.
pub size-le : (c : ReplayCache) → IsValid c → size c ≤ c.max
unfolding size
size-le c v = rw v.same v.within

-- The id that `add` evicts: the oldest one of a full cache.
abbrev pub oldest : List Text → Text → Bool
oldest [] id = false
oldest (x ∷ q) id = text_eq x id

abbrev pub is_full : ReplayCache → Bool
is_full c = leb c.max (length c.queue)

has-shift :
    (max : ℕ) (q : List Text) (y : Text)
    → IsDistinct q
    → set_has (shift_if_over max q) y ≡ (set_has q y && not (ltb max (length q) && oldest q y))
unfolding set_has
has-shift max [] y d = refl
has-shift max (x ∷ q) y d = ground (arith, text_eq_iff x y)

full_test :
    (a b o : Bool) (m n : ℕ)
    → ((a || (b || false)) && not (ltb m (n + 1) && o)) ≡ ((a || b) && not (leb m n && o))
full_test a b o m n = ground arith

-- Membership after `add`, for every id: an id that is new comes in, and of a full cache the oldest
-- one goes out; an id that is there changes nothing.
pub has-add :
    (c : ReplayCache) (id y : Text)
    → IsValid c
    → has (add c id) y ≡ (
        if has c id
        then has c y
        else (has c y || text_eq id y) && not (is_full c && oldest (c.queue ++ id ∷ []) y))
unfolding has set_has
has-add c id y v = elim (Bool-cases (set_has c.seen id)) [
  | inl old ↦ rw (add-queue c id v, has, old) (ground (arith, v.same))
  | inr new ↦
      let fresh : set_has c.queue id ≡ false = rw (← v.same) new in
      rw
        (
          add-queue c id v,
          has,
          new,
          has-shift c.max (c.queue ++ id ∷ []) y
              (IsDistinct-append_one c.queue id v.distinct fresh),
          set_has-append c.queue (id ∷ []) y,
          length-append c.queue (id ∷ []),
          v.same,
        )
        (full_test (set_has c.queue y) (text_eq id y) (oldest (c.queue ++ id ∷ []) y) c.max
          (length c.queue))
]
