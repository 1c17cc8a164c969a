-- ===== src/Text/Laws.antt =====
-- On the string operations of Text: comparison, `includes` and `split`.
use mathlib.Core.List.{reverse-reverse, reverse-append}
use private_chat.Prelude.{
  ℕ, ◌≡◌, refl, sym, ap, subst, ◌∙◌, ◌↔◌, inl, inr, true, false, [], ◌∷◌, ◌++◌, reverse, arith,
  Bool-cases,
}
use private_chat.Text.{Text, text_eq, includes, split, is_space, trim_start, trim}

pub text_eq_refl : (s : Text) → text_eq s s ≡ true
unfolding text_eq
text_eq_refl [] = refl
text_eq_refl (c ∷ s) = ground (arith, text_eq_refl s)

eq_of_text_eq : (s t : Text) → text_eq s t ≡ true → s ≡ t
unfolding text_eq
eq_of_text_eq [] [] h = refl
eq_of_text_eq [] (d ∷ t) h = cc
eq_of_text_eq (c ∷ s) [] h = cc
eq_of_text_eq (c ∷ s) (d ∷ t) h = ground (arith, eq_of_text_eq s t)

pub text_eq_iff : (s t : Text) → (text_eq s t ≡ true) ↔ (s ≡ t)
text_eq_iff s t = (eq_of_text_eq s t, λ e. rw e (text_eq_refl t))

-- A text with no separator in it is one part, also in front of a separator.
pub split_none : (sep : ℕ) (s : Text) → includes sep s ≡ false → split sep s ≡ s ∷ []
unfolding split includes
split_none sep [] h = refl
split_none sep (c ∷ s) h = ground (arith, split_none sep s)

pub split_first :
    (sep : ℕ) (s t : Text) → includes sep s ≡ false → split sep (s ++ sep ∷ t) ≡ s ∷ split sep t
unfolding split includes
split_first sep [] t h = ground arith
split_first sep (c ∷ s) t h = ground (arith, split_first sep s t)

-- Two texts that are equal up to and past their first separator have equal parts.
pub first_separator :
    (sep : ℕ) (a b s t : Text)
    → includes sep a ≡ false
    → includes sep b ≡ false
    → a ++ sep ∷ s ≡ b ++ sep ∷ t
    → (a ≡ b) × (s ≡ t)
unfolding includes
first_separator sep [] [] s t h k e = ground arith
first_separator sep [] (d ∷ b) s t h k e = absurd (ground arith)
first_separator sep (c ∷ a) [] s t h k e = absurd (ground arith)
first_separator sep (c ∷ a) (d ∷ b) s t h k e =
    let (same, rest) = first_separator sep a b s t (ground arith) (ground arith) (ground arith) in
    (ground arith, rest)

trim_start-suffix : (s : Text) → (p : Text) × (s ≡ p ++ trim_start s)
unfolding trim_start
trim_start-suffix [] = ([], refl)
trim_start-suffix (c ∷ s) = elim (Bool-cases (is_space c)) [
  | inr e ↦ ([], rw (trim_start, e) refl)
  | inl e ↦ let (p, q) = trim_start-suffix s in (c ∷ p, rw (trim_start, e) (ap (λ t. c ∷ t) q))
]

-- A text that begins with no white space.
abbrev IsStarted : Text → Type 0
IsStarted [] = Unit {0}
IsStarted (c ∷ s) = is_space c ≡ false

trim_start-IsStarted : (s : Text) → IsStarted (trim_start s)
unfolding trim_start
trim_start-IsStarted [] = tt
trim_start-IsStarted (c ∷ s) = elim (Bool-cases (is_space c)) [
  | inr e ↦ rw (trim_start, e) e
  | inl e ↦ rw (trim_start, e) (trim_start-IsStarted s)
]

trim_start_of_IsStarted : (s : Text) → IsStarted s → trim_start s ≡ s
unfolding trim_start
trim_start_of_IsStarted [] h = refl
trim_start_of_IsStarted (c ∷ s) h = rw (trim_start, h) refl

front_IsStarted : (s t : Text) → IsStarted (s ++ t) → IsStarted s
front_IsStarted [] t h = tt
front_IsStarted (c ∷ s) t h = h

-- A trimmed text is trimmed already.
pub trim_twice : (s : Text) → trim (trim s) ≡ trim s
unfolding trim
trim_twice s =
    let u = trim_start s in
    let w = reverse u in
    let v = trim_start w in
    let (p, q) = trim_start-suffix w in
    let whole : u ≡ reverse v ++ reverse p =
      sym (reverse-reverse u) ∙ ap reverse q ∙ reverse-append p v in
    let started : IsStarted (reverse v) =
      front_IsStarted (reverse v) (reverse p) (subst IsStarted whole (trim_start-IsStarted s)) in
    ap (λ t. reverse (trim_start (reverse t))) (trim_start_of_IsStarted (reverse v) started)
    ∙ ap (λ t. reverse (trim_start t)) (reverse-reverse v)
    ∙ ap reverse (trim_start_of_IsStarted v (trim_start-IsStarted w))
