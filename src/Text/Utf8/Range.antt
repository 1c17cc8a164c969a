-- ===== src/Text/Utf8/Range.antt =====
-- On the numbers that `new TextEncoder().encode` gives for 16-bit code units.
use private_chat.Prelude.{
  ℕ, ◌≤◌, ◌<◌, inl, inr, Option, none, some, List, [], ◌∷◌, arith, Bool-cases, All, All-append,
}
use private_chat.Text.{Text}
use private_chat.Text.Utf8.{
  is_lead, emit, pending, points_from, bytes_of, bytes_of_points, utf8_encode,
}

-- 16-bit code units.
abbrev pub IsUnits : Text → Type 0
IsUnits = All (λ c. c < 0x10000)

abbrev IsPending : Option ℕ → Type 0
IsPending none = Unit {0}
IsPending (some h) = (0xd800 ≤ h) × (h ≤ 0xdbff)

pending-IsPending : (c : ℕ) → IsPending (pending c)
unfolding pending
pending-IsPending c = elim (Bool-cases (is_lead c)) [
  | inl l ↦ rw l (ground arith, ground arith)
  | inr l ↦ rw l tt
]

abbrev IsPoint : ℕ → Type 0
IsPoint cp = cp < 0x110000

emit-IsPoint : (p : Option ℕ) (c : ℕ) → IsPending p → c < 0x10000 → All IsPoint (emit p c)
unfolding emit
emit-IsPoint none c h k = ground arith
emit-IsPoint (some l) c (a, b) k = ground arith

points_from-IsPoint :
    (p : Option ℕ) (s : Text) → IsPending p → IsUnits s → All IsPoint (points_from p s)
unfolding points_from
points_from-IsPoint none [] h k = tt
points_from-IsPoint (some l) [] h k = (omega arith, tt)
points_from-IsPoint none (c ∷ s) h k =
    All-append IsPoint (emit none c) (points_from (pending c) s) (emit-IsPoint none c h k.0)
      (points_from-IsPoint (pending c) s (pending-IsPending c) k.1)
points_from-IsPoint (some l) (c ∷ s) h k =
    All-append IsPoint (emit (some l) c) (points_from (pending c) s) (emit-IsPoint (some l) c h k.0)
      (points_from-IsPoint (pending c) s (pending-IsPending c) k.1)

abbrev IsByte : ℕ → Type 0
IsByte b = b < 0x100

bytes_of-IsByte : (cp : ℕ) → IsPoint cp → All IsByte (bytes_of cp)
unfolding bytes_of
bytes_of-IsByte cp h = ground arith

bytes_of_points-IsByte : (cps : List ℕ) → All IsPoint cps → All IsByte (bytes_of_points cps)
unfolding bytes_of_points
bytes_of_points-IsByte [] h = tt
bytes_of_points-IsByte (cp ∷ cps) h =
    All-append IsByte (bytes_of cp) (bytes_of_points cps) (bytes_of-IsByte cp h.0)
      (bytes_of_points-IsByte cps h.1)

pub utf8_encode-IsByte : (s : Text) → IsUnits s → All (λ b. b < 0x100) (utf8_encode s)
unfolding utf8_encode
utf8_encode-IsByte s h = bytes_of_points-IsByte _ (points_from-IsPoint none s tt h)
