-- ===== src/Nvidiasmi/Exclude/Matching.antt =====
-- internal/nvidiasmi/exclude.go: which names the exclusion patterns match.
use nvidia_gpu_exporter.Common.{
  nat_same_iff, Bool-cases, ◌==◌, list_same_iff, same_refl, ℕ, ◌≡◌, refl, sym, ◌∙◌, subst, ◌≢◌, ◌↔◌,
  ◌⊎◌, inl, inr, Bool, true, false, List, [], ◌∷◌, arith, list_comparable, nat_comparable,
}
use nvidia_gpu_exporter.Nvidiasmi.Exclude.{
  pattern_of, patterns_of_parts, parse_field_exclude_patterns, star_matches, literal_matches,
  match_string, matches_any_pattern,
}
use nvidia_gpu_exporter.Nvidiasmi.Exclude.Translated.{nil-pattern_of, cons-pattern_of}
use nvidia_gpu_exporter.Text.{Text, trim_space, split}

-- A glob as it is written: a star stands for any characters but line breaks, all else for itself.
pub data Glob : Text → Text → Type 0 where
  nothing_left : Glob [] []
  same_char : {g : Text} {c : ℕ} {s : Text} → c ≢ b'*' → Glob g s → Glob (c ∷ g) (c ∷ s)
  star_ends : {g : Text} {s : Text} → Glob g s → Glob (b'*' ∷ g) s
  star_takes :
      {g : Text} {c : ℕ} {s : Text} → c ≢ b'\n' → Glob (b'*' ∷ g) s → Glob (b'*' ∷ g) (c ∷ s)

-- One of the parts is not blank, and its glob matches.
abbrev pub SomeGlob : List Text → Text → Type 0
SomeGlob [] s = ⊥
SomeGlob (part ∷ parts) s = ((trim_space part ≢ []) × Glob (trim_space part) s) ⊎ SomeGlob parts s

differs : (c d : ℕ) → (c == d) ≡ false → c ≢ d
differs c d h e = let same = (nat_same_iff c d).1 e in cc

differs_test : (c d : ℕ) → c ≢ d → (c == d) ≡ false
differs_test c d h = elim (Bool-cases (c == d)) [
  | inl e ↦ absurd (h ((nat_same_iff c d).0 e))
  | inr e ↦ e
]

star_matches-Glob :
    (g : Text) (later : Text → Bool)
    → ((s : Text) → later s ≡ true → Glob g s)
    → (s : Text) → star_matches later s ≡ true
    → Glob (b'*' ∷ g) s
unfolding star_matches
star_matches-Glob g later h [] e = star_ends (h [] e)
star_matches-Glob g later h (c ∷ s) e = elim (Bool-cases (later (c ∷ s))) [
  | inl now ↦ star_ends (h (c ∷ s) now)
  | inr later_on ↦
      star_takes (differs c b'\n' (ground arith)) (star_matches-Glob g later h s (ground arith))
]

star-match_string :
    (c : ℕ) (g s : Text)
    → (c == b'*') ≡ true
    → match_string (pattern_of (c ∷ g)) s ≡ star_matches (match_string (pattern_of g)) s
unfolding match_string
star-match_string c g s e = rw (cons-pattern_of c g, e) refl

literal-match_string :
    (c : ℕ) (g s : Text)
    → (c == b'*') ≡ false
    → match_string (pattern_of (c ∷ g)) s ≡ literal_matches c (match_string (pattern_of g)) s
unfolding match_string
literal-match_string c g s e = rw (cons-pattern_of c g, e) refl

literal_matches-Glob :
    (c : ℕ) (g : Text) (later : Text → Bool)
    → c ≢ b'*'
    → ((s : Text) → later s ≡ true → Glob g s)
    → (s : Text) → literal_matches c later s ≡ true
    → Glob (c ∷ g) s
literal_matches-Glob c g later h rest [] e = cc
literal_matches-Glob c g later h rest (d ∷ s) e =
    let same : c ≡ d = ground arith in
    subst (λ x. Glob (c ∷ g) (x ∷ s)) same (same_char h (rest s (ground arith)))

nil-match_string-Glob : (s : Text) → match_string [] s ≡ true → Glob [] s
unfolding match_string
nil-match_string-Glob [] e = nothing_left
nil-match_string-Glob (c ∷ s) e = cc

match_string-Glob : (g s : Text) → match_string (pattern_of g) s ≡ true → Glob g s
match_string-Glob [] s e = nil-match_string-Glob s (rw nil-pattern_of at e)
match_string-Glob (c ∷ g) s e = elim (Bool-cases (c == b'*')) [
  | inl starred ↦
      subst (λ x. Glob (x ∷ g) s) (sym ((nat_same_iff c b'*').0 starred))
        (star_matches-Glob g (match_string (pattern_of g)) (match_string-Glob g) s
          (sym (star-match_string c g s starred) ∙ e))
  | inr other ↦
      literal_matches-Glob c g (match_string (pattern_of g)) (differs c b'*' other)
        (match_string-Glob g) s (sym (literal-match_string c g s other) ∙ e)
]

Glob-match_string : {g s : Text} → Glob g s → match_string (pattern_of g) s ≡ true
unfolding match_string star_matches
Glob-match_string nothing_left = rw nil-pattern_of refl
Glob-match_string (same_char {g = g} {c = c} {s = s} h m) =
    literal-match_string c g (c ∷ s) (differs_test c b'*' h)
    ∙ rw (same_refl c, Glob-match_string m) refl
Glob-match_string (star_ends {g = g} {s = []} m) =
    star-match_string b'*' g [] refl ∙ Glob-match_string m
Glob-match_string (star_ends {g = g} {s = c ∷ s} m) =
    star-match_string b'*' g (c ∷ s) refl ∙ rw (Glob-match_string m) refl
Glob-match_string (star_takes {g = g} {c = c} {s = s} h m) =
    let later = sym (star-match_string b'*' g s refl) ∙ Glob-match_string m in
    star-match_string b'*' g (c ∷ s) refl ∙ ground (arith, later, differs_test c b'\n' h)

patterns_of_parts_iff :
    (parts : List Text) (s : Text)
    → (matches_any_pattern s (patterns_of_parts parts) ≡ true) ↔ SomeGlob parts s
unfolding matches_any_pattern patterns_of_parts
patterns_of_parts_iff [] s = (λ e. cc, λ e. absurd e)
patterns_of_parts_iff (part ∷ parts) s =
    let (found, finds) = patterns_of_parts_iff parts s in
    elim (Bool-cases (trim_space part == [])) [
      | inl blank ↦ rw blank (
        λ e. inr (found e),
        λ e. elim e [
          | inl h ↦ absurd (h.0 ((list_same_iff (trim_space part) []).0 blank))
          | inr h ↦ finds h
        ],
      )
      | inr given ↦ rw given (
        λ e. elim (Bool-cases (match_string (pattern_of (trim_space part)) s)) [
          | inl m ↦ inl (
            λ none_given. (let hit = (list_same_iff (trim_space part) []).1 none_given in cc),
            match_string-Glob (trim_space part) s m,
          )
          | inr m ↦ inr (found (ground arith))
        ],
        λ e. elim e [ inl h ↦ rw (Glob-match_string h.1) refl | inr h ↦ ground (arith, finds h) ],
      )
    ]

-- An exclusion matches a name exactly when one of its comma-separated parts, trimmed and not
-- blank, is a glob for the name: each star in it stands for any characters but line breaks, and
-- every other character, a point included, for itself.
pub matches_any_pattern-parse_field_exclude_patterns :
    (raw s : Text)
    → (matches_any_pattern s (parse_field_exclude_patterns raw) ≡ true)
      ↔ SomeGlob (split b',' raw) s
unfolding parse_field_exclude_patterns
matches_any_pattern-parse_field_exclude_patterns raw s = patterns_of_parts_iff (split b',' raw) s
