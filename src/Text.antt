-- ===== src/Text.antt =====
-- Go strings, and what the program uses of package strings. A text is the list of its code
-- points. `to_lower` is exact on ASCII and on the two other letters that lower into ASCII (U+0130
-- and U+212A); other letters are left alone, and never equal one of the program's ASCII tokens.
pub mod Split
pub mod Trim
use Prim.Native.Char.{code}
use Prim.Native.String.{String}
use nvidia_gpu_exporter.Common.{
  ltb, leb, if◌then◌else◌, any, ◌==◌, ℕ, zero, suc, ◌+◌, ◌/◌, ◌%◌, Bool, true, false, not, ◌&&◌,
  ◌||◌, Option, none, some, List, [], ◌∷◌, ◌++◌, map, nat_comparable,
}

abbrev pub Text : Type 0
Text = List ℕ

-- The code points of a literal.
abbrev pub codes : String → Text
codes String.[] = []
codes (String.◌∷◌ c s) = code c ∷ codes s

-- unicode.IsSpace: the White_Space code points.
unfoldable pub is_space : ℕ → Bool
is_space c =
    (leb 9 c && leb c 13)
    || c == 32
    || c == 0x85
    || c == 0xa0
    || c == 0x1680
    || (leb 0x2000 c && leb c 0x200a)
    || c == 0x2028
    || c == 0x2029
    || c == 0x202f
    || c == 0x205f
    || c == 0x3000

unfoldable pub lower : ℕ → ℕ
lower c =
    if leb b'A' c && leb c b'Z'
    then c + 32
    else if c == 0x130
    then b'i'
    else if c == 0x212a
    then b'k'
    else c

-- strings.ToLower
unfoldable pub to_lower : Text → Text
unfolding lower
to_lower = map lower

unfoldable pub trim_left : (ℕ → Bool) → Text → Text
trim_left p [] = []
trim_left p (c ∷ s) = let rest = trim_left p s in if p c then rest else c ∷ s

-- What stays of `c ∷ s` when `s` is trimmed on the right already.
unfoldable pub keep_right : (ℕ → Bool) → ℕ → Text → Text
keep_right p c [] = if p c then [] else c ∷ []
keep_right p c (d ∷ s) = c ∷ d ∷ s

unfoldable pub trim_right : (ℕ → Bool) → Text → Text
unfolding keep_right
trim_right p [] = []
trim_right p (c ∷ s) = keep_right p c (trim_right p s)

-- strings.TrimFunc; strings.Trim with a cutset is `trim` by membership of the set.
unfoldable pub trim : (ℕ → Bool) → Text → Text
unfolding trim_left trim_right
trim p s = trim_right p (trim_left p s)

-- strings.TrimSpace
unfoldable pub trim_space : Text → Text
unfolding trim is_space
trim_space = trim is_space

-- strings.CutPrefix; strings.HasPrefix and strings.TrimPrefix by it.
unfoldable pub cut_prefix : Text → Text → Option Text
cut_prefix s [] = some s
cut_prefix [] (p ∷ ps) = none
cut_prefix (c ∷ s) (p ∷ ps) = let rest = cut_prefix s ps in if c == p then rest else none

unfoldable pub has_prefix : Text → Text → Bool
unfolding cut_prefix
has_prefix s p = elim (cut_prefix s p) [ none ↦ false | some _ ↦ true ]

unfoldable pub trim_prefix : Text → Text → Text
unfolding cut_prefix
trim_prefix s p = elim (cut_prefix s p) [ none ↦ s | some rest ↦ rest ]

-- strings.ContainsAny
unfoldable pub contains_any : Text → Text → Bool
contains_any s chars = any (λ c. any (λ d. c == d) chars) s

abbrev pub cons_head : ℕ → List Text → List Text
cons_head c [] = (c ∷ []) ∷ []
cons_head c (w ∷ ws) = (c ∷ w) ∷ ws

-- strings.Split by a separator of one character.
unfoldable pub split : ℕ → Text → List Text
split sep [] = [] ∷ []
split sep (c ∷ s) = let rest = split sep s in if c == sep then [] ∷ rest else cons_head c rest

-- strings.Join
unfoldable pub join : Text → List Text → Text
join sep [] = []
join sep (w ∷ []) = w
join sep (w ∷ v ∷ ws) = w ++ (sep ++ join sep (v ∷ ws))

-- strings.Cut: the text before and after the first separator.
unfoldable pub cut : Text → Text → Option (Text × Text)
unfolding cut_prefix
cut [] sep = elim (cut_prefix [] sep) [ none ↦ none | some rest ↦ some ([], rest) ]
cut (c ∷ s) sep =
    let later = cut s sep in
    elim (cut_prefix (c ∷ s) sep) [
      | none ↦ elim later [ none ↦ none | some (before, after) ↦ some (c ∷ before, after) ]
      | some rest ↦ some ([], rest)
    ]

-- Whether the text goes on with the word of the character before it.
abbrev pub goes_on : Text → Bool
goes_on [] = false
goes_on (c ∷ s) = not (is_space c)

-- strings.Fields: the words between runs of white space.
unfoldable pub fields : Text → List Text
unfolding is_space
fields [] = []
fields (c ∷ s) =
    let rest = fields s in
    if is_space c then rest else if goes_on s then cons_head c rest else (c ∷ []) ∷ rest

-- The decimal digits of a number, with the fuel for them: strconv.FormatUint(n, 10) and `%d`. A
-- number has no more digits than one above its value.
unfoldable pub digits_of : ℕ → ℕ → Text
digits_of zero n = []
digits_of (suc fuel) n =
    let more = digits_of fuel (n / 10) ++ (b'0' + n % 10) ∷ [] in
    if ltb n 10 then (b'0' + n) ∷ [] else more

unfoldable pub decimal : ℕ → Text
unfolding digits_of
decimal n = digits_of (n + 1) n
