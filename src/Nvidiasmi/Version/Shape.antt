-- ===== src/Nvidiasmi/Version/Shape.antt =====
-- internal/nvidiasmi/version.go: nothing but a version is reported.
use nvidia_gpu_exporter.Common.{
  Bool-cases, Option-cases, All, ◌==◌, ◌≡◌, refl, subst, ◌↔◌, ◌⊎◌, inl, inr, true, some, List, [],
  ◌∷◌, list_comparable, nat_comparable,
}
use nvidia_gpu_exporter.Nvidiasmi.Version.{
  is_cuda_version, version_of_line, umd_name, legacy_name, parse_cuda_version,
}
use nvidia_gpu_exporter.Nvidiasmi.Version.Chosen.{versions, last_of, chosen, parse_cuda_version_lem}
use nvidia_gpu_exporter.Nvidiasmi.Version.Spelled.{IsVersion, is_cuda_version_iff}
use nvidia_gpu_exporter.Text.{Text, codes, trim_space, split, cut}

version_of_line-IsVersion :
    (line name value : Text) → version_of_line line ≡ some (name, value) → IsVersion value
unfolding version_of_line
version_of_line-IsVersion line name value h = elim (Option-cases (cut line (codes ":"))) [
  | inl e ↦ let bad = rw (e, version_of_line) at h in cc
  | inr ((key, raw), e) ↦ elim (Bool-cases (is_cuda_version (trim_space raw))) [
    | inl g ↦
        let same : trim_space raw ≡ value = (let read = rw (e, g, version_of_line) at h in cc) in
        subst IsVersion same ((is_cuda_version_iff (trim_space raw)).0 g)
    | inr g ↦ let bad = rw (e, g, version_of_line) at h in cc
  ]
]

versions-All : (name : Text) (lines : List Text) → All IsVersion (versions name lines)
versions-All name [] = tt
versions-All name (line ∷ lines) = elim (Option-cases (version_of_line line)) [
  | inl e ↦ rw e (versions-All name lines)
  | inr ((key, value), e) ↦ elim (Bool-cases (key == name)) [
    | inl g ↦ rw e (rw g (version_of_line-IsVersion line key value e, versions-All name lines))
    | inr g ↦ rw e (rw g (versions-All name lines))
  ]
]

last_of-IsVersion :
    (v : Text) (vs : List Text)
    → (v ≡ []) ⊎ IsVersion v
    → All IsVersion vs
    → (last_of v vs ≡ []) ⊎ IsVersion (last_of v vs)
last_of-IsVersion v [] h hs = h
last_of-IsVersion v (w ∷ vs) h hs = last_of-IsVersion w vs (inr hs.0) hs.1

chosen-IsVersion :
    (umds legacies : List Text)
    → All IsVersion umds
    → All IsVersion legacies
    → (chosen [] umds legacies ≡ []) ⊎ IsVersion (chosen [] umds legacies)
chosen-IsVersion [] legacies hu hl = last_of-IsVersion [] legacies (inl refl) hl
chosen-IsVersion (umd ∷ umds) legacies hu hl = inr hu.0

-- The version reported is empty, or digits, a point and digits and nothing else: never the prose
-- that a driver puts in its place. The value of a line passes the check exactly when it has this
-- form.
pub parse_cuda_version-IsVersion :
    (output : Text)
    → ((parse_cuda_version output ≡ []) ⊎ IsVersion (parse_cuda_version output))
      × ((value : Text) → (is_cuda_version value ≡ true) ↔ IsVersion value)
parse_cuda_version-IsVersion output =
    let lines = split b'\n' output in
    (
      rw (parse_cuda_version_lem output) (
          chosen-IsVersion (versions umd_name lines) (versions legacy_name lines)
            (versions-All umd_name lines) (versions-All legacy_name lines)),
      is_cuda_version_iff,
    )
