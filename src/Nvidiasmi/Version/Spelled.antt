-- ===== src/Nvidiasmi/Version/Spelled.antt =====
-- internal/nvidiasmi/version.go: what the pattern of a version accepts.
use nvidia_gpu_exporter.Common.{
  nat_same_iff, Bool-cases, Option-cases, some-injective, ◌==◌, list_same_iff, ℕ, ◌≡◌, refl, ap,
  ◌∙◌, subst, ◌≢◌, ◌↔◌, inl, inr, true, some, [], ◌∷◌, ◌++◌, append-nil, list_comparable,
  nat_comparable,
}
use nvidia_gpu_exporter.Nvidiasmi.ComputeApps.{last}
use nvidia_gpu_exporter.Nvidiasmi.Transform.{is_digit, span_digits, match_digits}
use nvidia_gpu_exporter.Nvidiasmi.Transform.Numbers.{Digits, span_point, span_unit}
use nvidia_gpu_exporter.Nvidiasmi.Version.{is_cuda_version}
use nvidia_gpu_exporter.Text.{Text, codes, cut_prefix}

-- Digits, a point and digits, and nothing else.
abbrev pub IsVersion : Text → Type 0
IsVersion v =
    (major : Text) × (minor : Text) × (v ≡ major ++ b'.' ∷ minor)
    × Digits major
    × Digits minor
    × (major ≢ [])
    × (minor ≢ [])

-- A text is read as some digits and a rest.
abbrev IsSpan : Text → Text × Text → Type 0
IsSpan s m = (s ≡ m.0 ++ m.1) × Digits m.0

span_digits-IsSpan : (s : Text) → IsSpan s (span_digits s)
unfolding span_digits
span_digits-IsSpan [] = (refl, tt)
span_digits-IsSpan (c ∷ s) =
    let (whole, digits) = span_digits-IsSpan s in
    elim (Bool-cases (is_digit c)) [
      | inl e ↦ rw e (ap (◌∷◌ c) whole, (e, digits))
      | inr e ↦ rw e (refl, tt)
    ]

match_digits-IsSpan :
    (s : Text) (m n : Text × Text)
    → IsSpan s m
    → match_digits [] m ≡ some n
    → IsSpan s n × (n.0 ≢ [])
unfolding match_digits
match_digits-IsSpan s ([], rest) n h e = cc
match_digits-IsSpan s (d ∷ ds, rest) n h e =
    subst (λ k. IsSpan s k × (k.0 ≢ [])) (some-injective e) (h, λ g. cc)

cut_prefix-point : (s minor : Text) → cut_prefix s (codes ".") ≡ some minor → s ≡ b'.' ∷ minor
unfolding cut_prefix
cut_prefix-point [] minor h = cc
cut_prefix-point (c ∷ s) minor h = elim (Bool-cases (c == b'.')) [
  | inl e ↦ let same = rw e at h in let point = (nat_same_iff c b'.').0 e in cc
  | inr e ↦ let bad = rw e at h in cc
]

minor-IsVersion :
    (v major rest minor : Text)
    → IsSpan v (major, rest)
    → major ≢ []
    → rest ≡ b'.' ∷ minor
    → (last : Text × Text) → match_digits [] (span_digits minor) ≡ some last
    → (last.1 == []) ≡ true
    → IsVersion v
minor-IsVersion v major rest minor h g e last f behind =
    let (span, some_minor) =
      match_digits-IsSpan minor (span_digits minor) last (span_digits-IsSpan minor) f in
    let nothing = (list_same_iff last.1 []).0 behind in
    let all : minor ≡ last.0 = rw nothing at (span.0) ∙ append-nil last.0 in
    (major, minor, rw (h.0, e) refl, h.1, rw all span.1, g, rw all some_minor)

is_cuda_version-IsVersion : (v : Text) → is_cuda_version v ≡ true → IsVersion v
unfolding is_cuda_version
is_cuda_version-IsVersion v h = elim (Option-cases (match_digits [] (span_digits v))) [
  | inl e ↦ let bad = rw (e, is_cuda_version) at h in cc
  | inr ((major, rest), e) ↦
      let (span, some_major) =
        match_digits-IsSpan v (span_digits v) (major, rest) (span_digits-IsSpan v) e in
      elim (Option-cases (cut_prefix rest (codes "."))) [
        | inl f ↦ let bad = rw (e, f, is_cuda_version) at h in cc
        | inr (minor, f) ↦ elim (Option-cases (match_digits [] (span_digits minor))) [
          | inl k ↦ let bad = rw (e, f, k, is_cuda_version) at h in cc
          | inr (end, k) ↦
              minor-IsVersion v major rest minor span some_major (cut_prefix-point rest minor f) end
                k (rw (e, f, k, is_cuda_version) at h)
        ]
      ]
]

span_all : (ds : Text) → Digits ds → span_digits ds ≡ (ds, [])
span_all ds h = subst (λ s. span_digits s ≡ (ds, [])) (append-nil ds) (span_unit ds [] h tt)

read-is_cuda_version :
    (v minor : Text) (d : ℕ) (ds : Text) (e : ℕ) (es : Text)
    → span_digits v ≡ (d ∷ ds, b'.' ∷ minor)
    → span_digits minor ≡ (e ∷ es, [])
    → is_cuda_version v ≡ true
unfolding is_cuda_version match_digits cut_prefix
read-is_cuda_version v minor d ds e es h g = rw (h, g, is_cuda_version) refl

spelled-is_cuda_version :
    (major minor : Text)
    → Digits major
    → Digits minor
    → major ≢ []
    → minor ≢ []
    → is_cuda_version (major ++ b'.' ∷ minor) ≡ true
spelled-is_cuda_version [] minor h g some_major some_minor = absurd (some_major refl)
spelled-is_cuda_version (d ∷ ds) [] h g some_major some_minor = absurd (some_minor refl)
spelled-is_cuda_version (d ∷ ds) (e ∷ es) h g some_major some_minor =
    read-is_cuda_version ((d ∷ ds) ++ b'.' ∷ e ∷ es) (e ∷ es) d ds e es
      (span_point (d ∷ ds) (e ∷ es) h) (span_all (e ∷ es) g)

pub is_cuda_version_iff : (v : Text) → (is_cuda_version v ≡ true) ↔ IsVersion v
is_cuda_version_iff v = (
  is_cuda_version-IsVersion v,
  λ (major, minor, e, h, g, some_major, some_minor).
      rw e (spelled-is_cuda_version major minor h g some_major some_minor),
)
