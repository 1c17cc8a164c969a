-- ===== src/Json/RoundTrip/WellFormed.antt =====
-- `JSON.stringify` prints no lone surrogate, whatever strings it is given.
use private_chat.Prelude.{
  ℕ, ◌+◌, ◌/◌, ◌%◌, ◌<◌, ◌≡◌, refl, sym, ap, subst, ◌∙◌, inl, inr, Bool, true, false, ◌||◌, Option,
  none, some, [], ◌∷◌, ◌++◌, append-nil, append_assoc, arith, ltb, ◌==◌, if◌then◌else◌, Bool-cases,
  all, All-append,
}
use private_chat.Text.{Text, codes}
use private_chat.Text.Utf8.{is_lead, is_trail, pending}
use private_chat.Text.Utf8.Range.{IsUnits}
use private_chat.Text.Utf8.Decoding.{well_formed_from, IsWellFormed}
use private_chat.Json.{Numbers, Json, null, bool, num, str, arr, obj, nil, cons, Fields, end, field}
use private_chat.Json.Print.{
  hex_char, unicode_escape, is_surrogate, quote_unit, lead_of, quote_at, quote_from, quote,
  stringify, stringify_fields,
}
use private_chat.Json.RoundTrip.Printed.{
  IsPlain, IsPlainFields, printed_number, printed_one, printed_more, printed_none, printed_object,
  IsPlain-parts, plain_object, no_array,
}

-- A text that is well-formed in front of any other.
record IsClosed (s : Text) : Type 0 where
  units : IsUnits s
  skipped : (rest : Text) → well_formed_from none (s ++ rest) ≡ well_formed_from none rest

IsClosed-append : (s t : Text) → IsClosed s → IsClosed t → IsClosed (s ++ t)
IsClosed-append s t h k = record {
  units = All-append (λ c. c < 0x10000) s t h.units k.units;
  skipped = λ rest.
      ap (well_formed_from none) (append_assoc s t rest) ∙ h.skipped (t ++ rest) ∙ k.skipped rest;
}

IsClosed-cons :
    (c : ℕ) (s : Text) → c < 0x10000 → is_surrogate c ≡ false → IsClosed s → IsClosed (c ∷ s)
unfolding pending
IsClosed-cons c s small plain h = record {
  units = (small, h.units);
  skipped = λ rest. ground (arith, h.skipped rest);
}

IsClosed-nil : IsClosed []
IsClosed-nil = record { units = tt; skipped = λ rest. refl }

IsClosed-pair : (h c : ℕ) → is_lead h ≡ true → is_trail c ≡ true → IsClosed (h ∷ c ∷ [])
unfolding pending
IsClosed-pair h c p q = record {
  units = (ground arith, (ground arith, tt));
  skipped = λ rest. ground arith;
}

IsClosed-codes : (s : Text) → all (λ c. ltb c 0xd800) s ≡ true → IsClosed s
IsClosed-codes [] h = IsClosed-nil
IsClosed-codes (c ∷ s) h =
    IsClosed-cons c s (ground arith) (ground arith) (IsClosed-codes s (ground arith))

hex_ascii : (d : ℕ) → ltb (hex_char (d % 16)) 0xd800 ≡ true
hex_ascii d = ground arith

IsClosed-escape : (c : ℕ) → IsClosed (unicode_escape c)
unfolding unicode_escape
IsClosed-escape c =
    IsClosed-codes (unicode_escape c)
      (rw (hex_ascii (c / 4096), hex_ascii (c / 256), hex_ascii (c / 16), hex_ascii c) refl)

IsClosed-if :
    (b : Bool) (s t : Text)
    → (b ≡ true → IsClosed s)
    → (b ≡ false → IsClosed t)
    → IsClosed (if b then s else t)
IsClosed-if true s t h k = h refl
IsClosed-if false s t h k = k refl

IsClosed-quote_unit : (c : ℕ) → c < 0x10000 → IsClosed (quote_unit c)
unfolding quote_unit
IsClosed-quote_unit c small =
    IsClosed-if (c == b'"' || c == b'\\') _ _ (λ p. IsClosed-codes (b'\\' ∷ c ∷ []) (ground arith))
      λ p.
        IsClosed-if (c == 8) _ _ (λ q. IsClosed-codes (b'\\' ∷ b'b' ∷ []) refl)
          λ q.
            IsClosed-if (c == 9) _ _ (λ q. IsClosed-codes (b'\\' ∷ b't' ∷ []) refl)
              λ q.
                IsClosed-if (c == 10) _ _ (λ q. IsClosed-codes (b'\\' ∷ b'n' ∷ []) refl)
                  λ q.
                    IsClosed-if (c == 12) _ _ (λ q. IsClosed-codes (b'\\' ∷ b'f' ∷ []) refl)
                      λ q.
                        IsClosed-if (c == 13) _ _ (λ q. IsClosed-codes (b'\\' ∷ b'r' ∷ []) refl)
                          λ q.
                            IsClosed-if (ltb c 32 || is_surrogate c) _ _ (λ q. IsClosed-escape c)
                              λ q. IsClosed-cons c [] small (ground arith) IsClosed-nil

IsLead : Option ℕ → Type 0
IsLead none = Unit {0}
IsLead (some h) = is_lead h ≡ true

lead_of-IsLead : (c : ℕ) → IsLead (lead_of c)
unfolding IsLead
lead_of-IsLead c = elim (Bool-cases (is_lead c)) [ inl p ↦ rw p p | inr p ↦ rw p tt ]

IsClosed-quote_at : (p : Option ℕ) (c : ℕ) → IsLead p → c < 0x10000 → IsClosed (quote_at p c)
unfolding quote_at IsLead
IsClosed-quote_at none c l small =
    IsClosed-if (is_lead c) _ _ (λ q. IsClosed-nil) λ q. IsClosed-quote_unit c small
IsClosed-quote_at (some h) c l small =
    IsClosed-if (is_trail c) _ _ (λ q. IsClosed-pair h c l q)
      λ q.
        IsClosed-if (is_lead c) _ _ (λ r. IsClosed-escape h)
          λ r.
            IsClosed-append (unicode_escape h) (quote_unit c) (IsClosed-escape h)
              (IsClosed-quote_unit c small)

IsClosed-quote_from : (p : Option ℕ) (s : Text) → IsLead p → IsUnits s → IsClosed (quote_from p s)
unfolding quote_from
IsClosed-quote_from none [] l u = IsClosed-nil
IsClosed-quote_from (some h) [] l u = IsClosed-escape h
IsClosed-quote_from none (c ∷ s) l u =
    IsClosed-append (quote_at none c) (quote_from (lead_of c) s) (IsClosed-quote_at none c l u.0)
      (IsClosed-quote_from (lead_of c) s (lead_of-IsLead c) u.1)
IsClosed-quote_from (some h) (c ∷ s) l u =
    IsClosed-append (quote_at (some h) c) (quote_from (lead_of c) s)
      (IsClosed-quote_at (some h) c l u.0)
      (IsClosed-quote_from (lead_of c) s (lead_of-IsLead c) u.1)

IsClosed-quote : (s : Text) → IsUnits s → IsClosed (quote s)
unfolding quote IsLead
IsClosed-quote s u = IsClosed-cons b'"' _ (omega arith) refl (
    IsClosed-append (quote_from none s) (b'"' ∷ []) (IsClosed-quote_from none s tt u)
      (IsClosed-codes (b'"' ∷ []) refl))

module _ (N : Numbers) where
  open N use {Number, of_nat}

  abbrev ClosedValue : Json Number → Type 0
  ClosedValue v = IsPlain N v → IsClosed (stringify N v)

  abbrev ClosedFields : Fields Number → Type 0
  ClosedFields fs = IsPlainFields N fs → IsClosed (stringify_fields N fs)

  IsClosed-number : (x : Number) → ClosedValue (num x)
  unfolding IsPlain
  IsClosed-number x (n, small, same) =
      subst IsClosed (sym (printed_number N n x small same))
        (IsClosed-codes ((48 + n) ∷ []) (ground arith))

  IsClosed-text : (s : Text) → ClosedValue (str s)
  unfolding IsPlain stringify
  IsClosed-text s u = IsClosed-quote s u

  IsClosed-object : (fs : Fields Number) → ClosedFields fs → ClosedValue (obj fs)
  IsClosed-object fs ih u = subst IsClosed (sym (printed_object N fs)) (
      IsClosed-cons b'{' _ (omega arith) refl (
        IsClosed-append (stringify_fields N fs) (b'}' ∷ []) (ih (plain_object N fs u))
          (IsClosed-codes (b'}' ∷ []) refl)))

  IsClosed-member : (k : Text) (t : Text) → IsUnits k → IsClosed t → IsClosed (quote k ++ b':' ∷ t)
  IsClosed-member k t u h =
      IsClosed-append (quote k) (b':' ∷ t) (IsClosed-quote k u)
        (IsClosed-cons b':' t (omega arith) refl h)

  IsClosed-field :
      (k : Text) (x : Json Number) (fs : Fields Number)
      → ClosedValue x
      → ClosedFields fs
      → ClosedFields (field k x fs)
  IsClosed-field k x end ih ihs u =
      let (units, plain, _) = IsPlain-parts N k x end u in
      subst IsClosed (sym (printed_one N k x)) (IsClosed-member k (stringify N x) units (ih plain))
  IsClosed-field k x (field l y fs) ih ihs u =
      let (units, plain, others) = IsPlain-parts N k x (field l y fs) u in
      let tail = stringify_fields N (field l y fs) in
      subst IsClosed (sym (printed_more N k l x y fs)) (
        IsClosed-member k (stringify N x ++ b',' ∷ tail) units (
          IsClosed-append (stringify N x) (b',' ∷ tail) (ih plain)
            (IsClosed-cons b',' tail (omega arith) refl (ihs others))))

  IsClosed-word :
      (v : Json Number) (w : Text)
      → stringify N v ≡ w
      → all (λ c. ltb c 0xd800) w ≡ true
      → ClosedValue v
  IsClosed-word v w e h u = subst IsClosed (sym e) (IsClosed-codes w h)

  IsClosed-bool : (b : Bool) → ClosedValue (bool b)
  unfolding stringify
  IsClosed-bool true = IsClosed-word (bool true) (codes "true") refl refl
  IsClosed-bool false = IsClosed-word (bool false) (codes "false") refl refl

  IsClosed-null : ClosedValue null
  unfolding stringify
  IsClosed-null = IsClosed-word null (codes "null") refl refl

  closed_value : (v : Json Number) → ClosedValue v
  closed_value v = elim v as ClosedValue (λ xs. Unit {0}) ClosedFields [
    | num x ↦ IsClosed-number x
    | str s ↦ IsClosed-text s
    | obj (fs → ih) ↦ IsClosed-object fs ih
    | end ↦ λ u. subst IsClosed (sym (printed_none N)) IsClosed-nil
    | field k (x → ih) (fs → ihs) ↦ IsClosed-field k x fs ih ihs
    | arr (xs → ih) ↦ λ u. absurd (no_array N xs u)
    | nil ↦ tt
    | cons (x → ih) (xs → ihs) ↦ tt
    | null ↦ IsClosed-null
    | bool b ↦ IsClosed-bool b
  ]

  -- What is printed of a plain value has no lone surrogate, though its strings may.
  pub stringify-IsWellFormed : (v : Json Number) → IsPlain N v → IsWellFormed (stringify N v)
  stringify-IsWellFormed v u =
      let h = closed_value v u in
      record {
        narrow = h.units;
        paired = ap (well_formed_from none) (sym (append-nil (stringify N v))) ∙ h.skipped [];
      }
