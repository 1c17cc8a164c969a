-- ===== src/Collections.antt =====
-- JavaScript's `Set` and `Map` with string keys, in insertion order.
use private_chat.Prelude.{
  ◌≡◌, refl, ap, Bool, true, false, not, ◌&&◌, ◌||◌, Option, none, some, List, [], ◌∷◌, ◌++◌, arith,
  if◌then◌else◌,
}
use private_chat.Text.{Text, text_eq}
use private_chat.Text.Laws.{text_eq_iff, text_eq_refl}

unfoldable pub set_has : List Text → Text → Bool
set_has [] x = false
set_has (y ∷ s) x = text_eq y x || set_has s x

unfoldable pub set_add : List Text → Text → List Text
set_add s x = if set_has s x then s else s ++ x ∷ []

unfoldable pub set_delete : List Text → Text → List Text
set_delete [] x = []
set_delete (y ∷ s) x = let rest = set_delete s x in if text_eq y x then rest else y ∷ rest

pub set_has-append :
    (s t : List Text) (x : Text) → set_has (s ++ t) x ≡ (set_has s x || set_has t x)
unfolding set_has
set_has-append [] t x = refl
set_has-append (y ∷ s) t x = ground (arith, set_has-append s t x)

pub set_has-add :
    (s : List Text) (x y : Text) → set_has (set_add s x) y ≡ (set_has s y || text_eq x y)
unfolding set_add set_has
set_has-add s x y = ground (arith, set_has-append s (x ∷ []) y, text_eq_iff x y)

pub set_delete-absent : (s : List Text) (x : Text) → set_has s x ≡ false → set_delete s x ≡ s
unfolding set_has set_delete
set_delete-absent [] x h = refl
set_delete-absent (y ∷ s) x h = ground (arith, set_delete-absent s x)

pub set_has-delete :
    (s : List Text) (x y : Text) → set_has (set_delete s x) y ≡ (set_has s y && not (text_eq x y))
unfolding set_has set_delete
set_has-delete [] x y = refl
set_has-delete (z ∷ s) x y =
    ground (arith, set_has-delete s x y, text_eq_iff z x, text_eq_iff z y, text_eq_iff x y)

-- No key twice.
abbrev pub IsDistinct : List Text → Type 0
IsDistinct [] = Unit {0}
IsDistinct (x ∷ s) = (set_has s x ≡ false) × IsDistinct s

pub IsDistinct-append_one :
    (s : List Text) (x : Text) → IsDistinct s → set_has s x ≡ false → IsDistinct (s ++ x ∷ [])
unfolding set_has
IsDistinct-append_one [] x d h = (refl, tt)
IsDistinct-append_one (y ∷ s) x d h = (
  ground (arith, set_has-append s (x ∷ []) y, text_eq_iff x y, text_eq_iff y x),
  IsDistinct-append_one s x d.1 (ground arith),
)

module _ {ℓ} {V : Type ℓ} where
  unfoldable pub map_get : List (Text × V) → Text → Option V
  map_get [] k = none
  map_get ((j, v) ∷ m) k = if text_eq j k then some v else map_get m k

  unfoldable pub map_set : List (Text × V) → Text → V → List (Text × V)
  map_set [] k v = (k, v) ∷ []
  map_set ((j, w) ∷ m) k v = if text_eq j k then (k, v) ∷ m else (j, w) ∷ map_set m k v

  pub map_get-set :
      (m : List (Text × V)) (k j : Text) (v : V)
      → map_get (map_set m k v) j ≡ (if text_eq k j then some v else map_get m j)
  unfolding map_get map_set
  map_get-set [] k j v = refl
  map_get-set ((i, w) ∷ m) k j v =
      ground (arith, text_eq_iff k j, text_eq_iff i k, text_eq_iff i j, map_get-set m k j v)

  pub map_get-set_same :
      (m : List (Text × V)) (k : Text) (v : V) → map_get (map_set m k v) k ≡ some v
  map_get-set_same m k v = rw (map_get-set m k k v, text_eq_refl k) refl

  pub map_get-set_other :
      (m : List (Text × V)) (k j : Text) (v : V)
      → text_eq k j ≡ false
      → map_get (map_set m k v) j ≡ map_get m j
  map_get-set_other m k j v e = rw (map_get-set m k j v, e) refl

  pub map_get-append :
      (m n : List (Text × V)) (k : Text)
      → map_get (m ++ n) k ≡ elim (map_get m k) [ some v ↦ some v | none ↦ map_get n k ]
  unfolding map_get
  map_get-append [] n k = refl
  map_get-append ((j, v) ∷ m) n k = ground (arith, map_get-append m n k)

  unfoldable pub map_has : List (Text × V) → Text → Bool
  map_has [] k = false
  map_has ((j, v) ∷ m) k = text_eq j k || map_has m k

  unfoldable pub map_delete : List (Text × V) → Text → List (Text × V)
  map_delete [] k = []
  map_delete ((j, v) ∷ m) k =
      let rest = map_delete m k in if text_eq j k then rest else (j, v) ∷ rest

  pub map_get-delete :
      (m : List (Text × V)) (k j : Text)
      → map_get (map_delete m k) j ≡ (if text_eq k j then none else map_get m j)
  unfolding map_get map_delete
  map_get-delete [] k j = ground arith
  map_get-delete ((i, w) ∷ m) k j =
      ground (arith, text_eq_iff k j, text_eq_iff i k, text_eq_iff i j, map_get-delete m k j)

  pub map_has-get :
      (m : List (Text × V)) (k : Text) (v : V) → map_get m k ≡ some v → map_has m k ≡ true
  unfolding map_get map_has
  map_has-get [] k v e = cc
  map_has-get ((j, w) ∷ m) k v e = ground (arith, map_has-get m k v)

  pub map_has-none : (m : List (Text × V)) (k : Text) → map_get m k ≡ none → map_has m k ≡ false
  unfolding map_get map_has
  map_has-none [] k e = refl
  map_has-none ((j, w) ∷ m) k e = ground (arith, map_has-none m k)

  -- Deletes every key that the test accepts.
  unfoldable pub map_delete_if : (Text → Bool) → List (Text × V) → List (Text × V)
  map_delete_if test [] = []
  map_delete_if test ((j, v) ∷ m) =
      let rest = map_delete_if test m in if test j then rest else (j, v) ∷ rest

  pub map_get-delete_if :
      (test : Text → Bool) (m : List (Text × V)) (k : Text)
      → map_get (map_delete_if test m) k ≡ (if test k then none else map_get m k)
  unfolding map_get map_delete_if
  map_get-delete_if test [] k = ground arith
  map_get-delete_if test ((i, w) ∷ m) k =
      ground (arith, text_eq_iff i k, ap test, map_get-delete_if test m k)
