-- ===== src/Nvidiasmi/Exclude/Translated.antt =====
-- internal/nvidiasmi/exclude.go: what the expression of a part compiles to.
use nvidia_gpu_exporter.Common.{
  if◌then◌else◌, nat_same_iff, Bool-cases, ◌==◌, contains, ℕ, ◌≡◌, refl, sym, ap, ◌∙◌, subst, inl,
  inr, true, false, [], ◌∷◌, ◌++◌, arith, list_comparable, nat_comparable,
}
use nvidia_gpu_exporter.Nvidiasmi.Exclude.{
  Token, star, literal, meta_chars, quote_meta, replace_stars, expr_of, compile_rest, compile,
  pattern_of,
}
use nvidia_gpu_exporter.Text.{Text}

abbrev pub token_of : ℕ → Token
token_of c = if c == b'*' then star else literal c

-- A character that is not quoted is no operator.
abbrev IsPlain : ℕ → Type 0
IsPlain c =
    ((c == b'\\') ≡ false) × ((c == b'.') ≡ false) × ((c == b'*') ≡ false) × ((c == b'$') ≡ false)

meta_chars-IsPlain : (c : ℕ) → contains meta_chars c ≡ false → IsPlain c
meta_chars-IsPlain c h = (ground arith, ground arith, ground arith, ground arith)

-- The text does not begin with a star.
abbrev NoStar : Text → Type 0
NoStar [] = Unit
NoStar (c ∷ s) = (c == b'*') ≡ false

quote_meta-NoStar : (g : Text) → NoStar (quote_meta g)
unfolding quote_meta
quote_meta-NoStar [] = tt
quote_meta-NoStar (c ∷ g) = elim (Bool-cases (contains meta_chars c)) [
  | inl e ↦ rw e refl
  | inr e ↦ rw e ((meta_chars-IsPlain c e).2)
]

replace_stars_skip : (c : ℕ) (s : Text) → NoStar s → replace_stars (c ∷ s) ≡ c ∷ replace_stars s
unfolding replace_stars
replace_stars_skip c [] h = refl
replace_stars_skip c (d ∷ s) h = elim (Bool-cases (c == b'\\')) [
  | inl e ↦ rw (e, h) refl
  | inr e ↦ rw e refl
]

-- What stands between the anchors.
abbrev inner : Text → Text
inner part = replace_stars (quote_meta part)

quoted_star : (g : Text) → inner (b'*' ∷ g) ≡ b'.' ∷ b'*' ∷ inner g
unfolding quote_meta replace_stars
quoted_star g = refl

quoted_meta :
    (c : ℕ) (g : Text)
    → contains meta_chars c ≡ true
    → (c == b'*') ≡ false
    → inner (c ∷ g) ≡ b'\\' ∷ c ∷ inner g
unfolding quote_meta
quoted_meta c g e h = rw e (
    replace_stars_skip b'\\' (c ∷ quote_meta g) h
    ∙ ap (◌∷◌ b'\\') (replace_stars_skip c (quote_meta g) (quote_meta-NoStar g)))

unquoted : (c : ℕ) (g : Text) → contains meta_chars c ≡ false → inner (c ∷ g) ≡ c ∷ inner g
unfolding quote_meta
unquoted c g e = rw e (replace_stars_skip c (quote_meta g) (quote_meta-NoStar g))

compile_plain : (c : ℕ) (s : Text) → IsPlain c → compile_rest (c ∷ s) ≡ literal c ∷ compile_rest s
unfolding compile_rest
compile_plain c [] h = rw (h.1, h.3) refl
compile_plain c (d ∷ s) h = rw (h.0, h.1) refl

-- The part's expression and the closing anchor.
abbrev rest_of : Text → Text
rest_of part = inner part ++ b'$' ∷ []

compile_quoted :
    (c : ℕ) (g : Text) → compile_rest (rest_of (c ∷ g)) ≡ token_of c ∷ compile_rest (rest_of g)
unfolding compile_rest
compile_quoted c g = elim (Bool-cases (c == b'*')) [
  | inl e ↦
      let same : b'*' ≡ c = sym ((nat_same_iff c b'*').0 e) in
      subst (λ x. compile_rest (rest_of (x ∷ g)) ≡ token_of x ∷ compile_rest (rest_of g)) same
        (ap (λ r. compile_rest (r ++ b'$' ∷ [])) (quoted_star g))
  | inr e ↦ elim (Bool-cases (contains meta_chars c)) [
    | inl m ↦ rw e (ap (λ r. compile_rest (r ++ b'$' ∷ [])) (quoted_meta c g m e))
    | inr m ↦ rw e (
        ap (λ r. compile_rest (r ++ b'$' ∷ [])) (unquoted c g m)
        ∙ compile_plain c (rest_of g) (meta_chars-IsPlain c m))
  ]
]

pub nil-pattern_of : pattern_of [] ≡ []
unfolding pattern_of expr_of quote_meta replace_stars compile compile_rest
nil-pattern_of = refl

-- Character by character, a part compiles to its characters, with its stars.
pub cons-pattern_of : (c : ℕ) (part : Text) → pattern_of (c ∷ part) ≡ token_of c ∷ pattern_of part
unfolding pattern_of expr_of compile
cons-pattern_of c part = compile_quoted c part
