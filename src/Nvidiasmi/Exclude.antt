-- ===== src/Nvidiasmi/Exclude.antt =====
-- internal/nvidiasmi/exclude.go: exclusion of query fields by name globs. `regexp` is used only on
-- literal characters, escaped ones, `.`, `.*` and the anchors `^` and `$`; such a pattern is a list
-- of tokens here. `.` matches any character but a line break.
pub mod Translated
pub mod Matching
pub mod Filtering
mod Examples
use nvidia_gpu_exporter.Common.{
  if◌then◌else◌, any, ◌==◌, contains, ℕ, Bool, true, false, not, ◌&&◌, ◌||◌, List, [], ◌∷◌, ◌++◌,
  list_comparable, nat_comparable,
}
use nvidia_gpu_exporter.Nvidiasmi.Csv.{QField}
use nvidia_gpu_exporter.Text.{Text, codes, trim_space, split}

pub data Token : Type 0 where
  star : Token
  any_char : Token
  anything : Token
  literal : ℕ → Token

abbrev pub Pattern : Type 0
Pattern = List Token

-- regexp.QuoteMeta
abbrev pub meta_chars : Text
meta_chars = codes "\\.+*?()|[]{}^$"

unfoldable pub quote_meta : Text → Text
quote_meta [] = []
quote_meta (c ∷ s) =
    let later = quote_meta s in if contains meta_chars c then b'\\' ∷ c ∷ later else c ∷ later

-- strings.ReplaceAll(s, `\*`, ".*")
unfoldable pub replace_stars : Text → Text
replace_stars [] = []
replace_stars (c ∷ []) = c ∷ []
replace_stars (c ∷ d ∷ s) =
    let behind = replace_stars s in
    let next = replace_stars (d ∷ s) in
    if c == b'\\' && d == b'*' then b'.' ∷ b'*' ∷ behind else c ∷ next

-- The expression of a part.
unfoldable pub expr_of : Text → Text
unfolding quote_meta replace_stars
expr_of part = b'^' ∷ replace_stars (quote_meta part) ++ b'$' ∷ []

-- regexp.MustCompile of such an expression, behind `^`. An expression that does not end in `$`
-- leaves anything behind.
unfoldable pub compile_rest : Text → Pattern
compile_rest [] = anything ∷ []
compile_rest (c ∷ []) =
    if c == b'$'
    then []
    else if c == b'.'
    then any_char ∷ anything ∷ []
    else literal c ∷ anything ∷ []
compile_rest (c ∷ d ∷ s) =
    let behind = compile_rest s in
    let next = compile_rest (d ∷ s) in
    if c == b'\\'
    then literal d ∷ behind
    else if c == b'.'
    then if d == b'*' then star ∷ behind else any_char ∷ next
    else literal c ∷ next

-- An expression that does not begin with `^` leaves anything ahead.
unfoldable pub compile : Text → Pattern
unfolding compile_rest
compile [] = anything ∷ []
compile (c ∷ s) = if c == b'^' then compile_rest s else anything ∷ compile_rest (c ∷ s)

-- The pattern of a part.
unfoldable pub pattern_of : Text → Pattern
unfolding expr_of compile
pattern_of part = compile (expr_of part)

-- parseFieldExcludePatterns, from the comma-separated parts.
unfoldable pub patterns_of_parts : List Text → List Pattern
unfolding pattern_of
patterns_of_parts [] = []
patterns_of_parts (part ∷ parts) =
    let rest = patterns_of_parts parts in
    if trim_space part == [] then rest else pattern_of (trim_space part) ∷ rest

unfoldable pub parse_field_exclude_patterns : Text → List Pattern
unfolding patterns_of_parts
parse_field_exclude_patterns raw = patterns_of_parts (split b',' raw)

abbrev pub char_matches : (Text → Bool) → Text → Bool
char_matches later [] = false
char_matches later (c ∷ s) = not (c == b'\n') && later s

-- Any characters in front of a pattern that `later` matches, as in an expression without anchors.
unfoldable pub anything_matches : (Text → Bool) → Text → Bool
anything_matches later [] = later []
anything_matches later (c ∷ s) = let taken = anything_matches later s in later (c ∷ s) || taken

-- `.*` in front of a pattern that `later` matches: it takes no character, or one that is no line
-- break, and goes on.
unfoldable pub star_matches : (Text → Bool) → Text → Bool
star_matches later [] = later []
star_matches later (c ∷ s) =
    let taken = star_matches later s in later (c ∷ s) || (not (c == b'\n') && taken)

abbrev pub literal_matches : ℕ → (Text → Bool) → Text → Bool
literal_matches l later [] = false
literal_matches l later (c ∷ s) = c == l && later s

abbrev pub is_nil : Text → Bool
is_nil [] = true
is_nil (c ∷ s) = false

-- `pattern.MatchString(s)`
unfoldable pub match_string : Pattern → Text → Bool
unfolding star_matches anything_matches
match_string [] s = is_nil s
match_string (star ∷ p) s = star_matches (match_string p) s
match_string (anything ∷ p) s = anything_matches (match_string p) s
match_string (any_char ∷ p) s = char_matches (match_string p) s
match_string (literal l ∷ p) s = literal_matches l (match_string p) s

-- matchesAnyPattern
unfoldable pub matches_any_pattern : Text → List Pattern → Bool
unfolding match_string
matches_any_pattern s patterns = any (λ p. match_string p s) patterns

-- The loop of `filterExcludedQFields`: what is kept, and what the log line says is excluded.
unfoldable pub filter_q_fields :
    List QField → List Pattern → List QField → List QField × List QField
unfolding matches_any_pattern
filter_q_fields required patterns [] = ([], [])
filter_q_fields required patterns (q ∷ qs) =
    let (kept, excluded) = filter_q_fields required patterns qs in
    if not (matches_any_pattern q patterns)
    then (q ∷ kept, excluded)
    else if contains required q
    then (q ∷ kept, excluded)
    else (kept, q ∷ excluded)

-- `if len(patterns) == 0 { return qFields }`, and the loop.
unfoldable pub filter_by_patterns : List QField → List QField → List Pattern → List QField
unfolding filter_q_fields
filter_by_patterns required q_fields [] = q_fields
filter_by_patterns required q_fields (p ∷ ps) = (filter_q_fields required (p ∷ ps) q_fields).0

-- filterExcludedQFields, with the query fields of `infoFields` as its first argument.
unfoldable pub filter_excluded_q_fields : List QField → List QField → Text → List QField
unfolding filter_by_patterns parse_field_exclude_patterns
filter_excluded_q_fields required q_fields exclude_raw =
    filter_by_patterns required q_fields (parse_field_exclude_patterns exclude_raw)
