-- ===== src/Nvidiasmi/Transform/Numbers.antt =====
-- internal/nvidiasmi/transform.go: a number with its unit.
use nvidia_gpu_exporter.Common.{
  if◌then◌else◌, Bool-cases, length, All, append_cons, Float64, Floats, ◌==◌, ℕ, zero, suc, ◌≡◌,
  refl, sym, ap, ◌∙◌, inl, inr, Bool, true, false, ◌||◌, Option, none, some, [], ◌∷◌, ◌++◌,
  append-nil, arith, list_comparable, nat_comparable,
}
use nvidia_gpu_exporter.Nvidiasmi.Transform.{
  is_digit, span_digits, match_digits, after_digits, match_number, find_numbers, scale_number,
  single_number, parse_sanitized_value,
}
use nvidia_gpu_exporter.Text.{Text}

abbrev pub Digits : Text → Type 0
Digits = All (λ c. is_digit c ≡ true)

abbrev pub NoDigits : Text → Type 0
NoDigits = All (λ c. is_digit c ≡ false)

span_digits-append :
    (ds rest : Text)
    → Digits ds
    → span_digits (ds ++ rest) ≡ (ds ++ (span_digits rest).0, (span_digits rest).1)
unfolding span_digits
span_digits-append [] rest h = refl
span_digits-append (c ∷ ds) rest h = rw (h.0, span_digits-append ds rest h.1) refl

span_digits-NoDigits : (s : Text) → NoDigits s → span_digits s ≡ ([], s)
unfolding span_digits
span_digits-NoDigits [] h = refl
span_digits-NoDigits (c ∷ s) h = rw h.0 refl

after_digits-none : (s : Text) → NoDigits s → after_digits ([], s) ≡ none
unfolding after_digits match_digits
after_digits-none [] h = refl
after_digits-none (c ∷ s) h = elim (Bool-cases (c == b'.')) [
  | inl e ↦ rw (e, span_digits-NoDigits s h.1) refl
  | inr e ↦ rw e refl
]

abbrev put_sign : ℕ → Option (Text × Text) → Option (Text × Text)
put_sign c m = elim m [ none ↦ none | some (num, rest) ↦ some (c ∷ num, rest) ]

match_number_cons :
    (c : ℕ) (s : Text)
    → match_number (c ∷ s) ≡ (
        if c == b'+' || c == b'-'
        then put_sign c (after_digits (span_digits s))
        else after_digits (span_digits (c ∷ s)))
unfolding match_number
match_number_cons c s = refl

nothing_ahead : (s : Text) → NoDigits s → after_digits (span_digits s) ≡ none
nothing_ahead s h = ap after_digits (span_digits-NoDigits s h) ∙ after_digits-none s h

match_number-none : (s : Text) → NoDigits s → match_number s ≡ none
match_number-none [] h = unfold match_number in refl
match_number-none (c ∷ s) h =
    let unsigned = nothing_ahead (c ∷ s) h in
    let behind = nothing_ahead s h.1 in
    match_number_cons c s ∙ elim (Bool-cases (c == b'+' || c == b'-')) [
      | inl e ↦ rw (e, behind) refl
      | inr e ↦ rw (e, unsigned) refl
    ]

find_numbers_skip :
    (fuel limit c : ℕ) (s : Text)
    → match_number (c ∷ s) ≡ none
    → find_numbers (suc fuel) (suc limit) (c ∷ s) ≡ find_numbers fuel (suc limit) s
unfolding find_numbers
find_numbers_skip fuel limit c s e = rw (e, find_numbers) refl

find_numbers_hit :
    (fuel limit c : ℕ) (s num rest : Text)
    → match_number (c ∷ s) ≡ some (num, rest)
    → find_numbers (suc fuel) (suc limit) (c ∷ s) ≡ num ∷ find_numbers fuel limit rest
unfolding find_numbers
find_numbers_hit fuel limit c s num rest e = rw (e, find_numbers) refl

find_numbers-none : (fuel limit : ℕ) (s : Text) → NoDigits s → find_numbers fuel limit s ≡ []
find_numbers-none zero limit s h = unfold find_numbers in refl
find_numbers-none (suc fuel) zero s h = unfold find_numbers in refl
find_numbers-none (suc fuel) (suc limit) [] h = unfold find_numbers in refl
find_numbers-none (suc fuel) (suc limit) (c ∷ s) h =
    find_numbers_skip fuel limit c s (match_number-none (c ∷ s) h)
    ∙ find_numbers-none fuel (suc limit) s h.1

-- Whole digits, then no digit.
after_digits-whole :
    (d : ℕ) (ds unit : Text) → NoDigits unit → after_digits (d ∷ ds, unit) ≡ some (d ∷ ds, unit)
unfolding after_digits match_digits
after_digits-whole d ds [] h = refl
after_digits-whole d ds (c ∷ unit) h = elim (Bool-cases (c == b'.')) [
  | inl e ↦ rw (e, span_digits-NoDigits unit h.1) refl
  | inr e ↦ rw e refl
]

-- Digits, a point and digits.
after_digits-point :
    (ds : Text) (e : ℕ) (es unit : Text)
    → Digits (e ∷ es)
    → NoDigits unit
    → after_digits (ds, b'.' ∷ (e ∷ es) ++ unit) ≡ some ((ds ++ b'.' ∷ []) ++ e ∷ es, unit)
unfolding after_digits match_digits
after_digits-point ds e es unit h g =
    rw (span_digits-append (e ∷ es) unit h, span_digits-NoDigits unit g, append-nil es) refl

match_number_digit :
    (d : ℕ) (s : Text)
    → is_digit d ≡ true
    → match_number (d ∷ s) ≡ after_digits (span_digits (d ∷ s))
match_number_digit d s h =
    let unsigned : (c_sign : Bool) → c_sign ≡ (d == b'+' || d == b'-') → c_sign ≡ false =
      λ b e. ground (arith, e, h) in
    match_number_cons d s ∙ rw (unsigned (d == b'+' || d == b'-') refl) refl

-- One number and no digit behind it.
parse_one :
    (fl : Floats) (c : ℕ) (s num rest : Text) (multiplier : Float64)
    → match_number (c ∷ s) ≡ some (num, rest)
    → NoDigits rest
    → parse_sanitized_value fl (c ∷ s) multiplier ≡ scale_number fl (c ∷ s) num multiplier
unfolding parse_sanitized_value
parse_one fl c s num rest multiplier found none_left = ap (single_number fl (c ∷ s) multiplier) (
    find_numbers_hit (length s) 1 c s num rest found
    ∙ ap (◌∷◌ num) (find_numbers-none (length s) 1 rest none_left))

pub span_point : (ds unit : Text) → Digits ds → span_digits (ds ++ b'.' ∷ unit) ≡ (ds, b'.' ∷ unit)
unfolding span_digits
span_point ds unit h = span_digits-append ds (b'.' ∷ unit) h ∙ rw (append-nil ds) refl

pub span_unit : (ds unit : Text) → Digits ds → NoDigits unit → span_digits (ds ++ unit) ≡ (ds, unit)
span_unit ds unit h g =
    span_digits-append ds unit h ∙ rw (span_digits-NoDigits unit g, append-nil ds) refl

-- A value that is a number and a unit without digits is that number, scaled: with digits alone
-- or with digits, a point and digits.
pub parse_sanitized_value-append :
    (fl : Floats) (d : ℕ) (ds unit : Text) (multiplier : Float64)
    → Digits (d ∷ ds)
    → NoDigits unit
    → (parse_sanitized_value fl ((d ∷ ds) ++ unit) multiplier
        ≡ scale_number fl ((d ∷ ds) ++ unit) (d ∷ ds) multiplier)
      × ((e : ℕ) (es : Text)
          → Digits (e ∷ es)
          → parse_sanitized_value fl ((d ∷ ds) ++ (b'.' ∷ ((e ∷ es) ++ unit))) multiplier
            ≡ scale_number fl
                ((d ∷ ds) ++ (b'.' ∷ ((e ∷ es) ++ unit)))
                ((d ∷ ds) ++ b'.' ∷ e ∷ es)
                multiplier)
parse_sanitized_value-append fl d ds unit multiplier h g = (
  parse_one fl d (ds ++ unit) (d ∷ ds) unit multiplier
      (match_number_digit d (ds ++ unit) h.0
        ∙ ap after_digits (span_unit (d ∷ ds) unit h g)
        ∙ after_digits-whole d ds unit g)
      g,
  λ e es k.
      parse_one fl d (ds ++ (b'.' ∷ ((e ∷ es) ++ unit))) ((d ∷ ds) ++ b'.' ∷ e ∷ es) unit multiplier
        (match_number_digit d (ds ++ (b'.' ∷ ((e ∷ es) ++ unit))) h.0
          ∙ ap after_digits (span_point (d ∷ ds) ((e ∷ es) ++ unit) h)
          ∙ after_digits-point (d ∷ ds) e es unit k g
          ∙ ap (λ num. some (num, unit)) (sym (append_cons (d ∷ ds) b'.' (e ∷ es))))
        g,
)
