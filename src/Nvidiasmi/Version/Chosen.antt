-- ===== src/Nvidiasmi/Version/Chosen.antt =====
-- internal/nvidiasmi/version.go: which of the versions is reported.
use nvidia_gpu_exporter.Common.{
  if◌then◌else◌, Option-cases, ◌==◌, ◌≡◌, refl, ◌∙◌, inl, inr, Bool, true, false, Option, none,
  some, List, [], ◌∷◌, list_comparable, nat_comparable,
}
use nvidia_gpu_exporter.Nvidiasmi.Version.{
  version_of_line, umd_name, legacy_name, version_loop, parse_cuda_version,
}
use nvidia_gpu_exporter.Text.{Text, split}

abbrev named : Text → Option (Text × Text) → List Text → List Text
named name none values = values
named name (some (key, value)) values = if key == name then value ∷ values else values

-- The versions that the lines give under a name.
abbrev pub versions : Text → List Text → List Text
versions name [] = []
versions name (line ∷ lines) = named name (version_of_line line) (versions name lines)

abbrev pub last_of : Text → List Text → Text
last_of d [] = d
last_of d (v ∷ vs) = last_of v vs

-- The first of the new name, or the last of the old one.
abbrev pub chosen : Text → List Text → List Text → Text
chosen legacy [] legacies = last_of legacy legacies
chosen legacy (umd ∷ umds) legacies = umd

version_loop_skip :
    (legacy line : Text) (lines : List Text)
    → version_of_line line ≡ none
    → version_loop legacy (line ∷ lines) ≡ version_loop legacy lines
unfolding version_loop
version_loop_skip legacy line lines e = rw (e, version_loop) refl

version_loop_line :
    (legacy line name value : Text) (lines : List Text)
    → version_of_line line ≡ some (name, value)
    → version_loop legacy (line ∷ lines) ≡ (
        if name == umd_name
        then value
        else version_loop (if name == legacy_name then value else legacy) lines)
unfolding version_loop
version_loop_line legacy line name value lines e = rw (e, version_loop) refl

chosen_more :
    (legacy value : Text) (umds legacies : List Text)
    → chosen value umds legacies ≡ chosen legacy umds (value ∷ legacies)
chosen_more legacy value [] legacies = refl
chosen_more legacy value (u ∷ umds) legacies = refl

chosen_line :
    (is_umd is_legacy : Bool) (legacy value : Text) (lines : List Text)
    → ((l : Text)
        → version_loop l lines ≡ chosen l (versions umd_name lines) (versions legacy_name lines))
    → (if is_umd then value else version_loop (if is_legacy then value else legacy) lines)
      ≡ chosen legacy
          (if is_umd then value ∷ versions umd_name lines else versions umd_name lines)
          (if is_legacy then value ∷ versions legacy_name lines else versions legacy_name lines)
chosen_line true is_legacy legacy value lines rest = refl
chosen_line false true legacy value lines rest =
    rest value ∙ chosen_more legacy value (versions umd_name lines) (versions legacy_name lines)
chosen_line false false legacy value lines rest = rest legacy

-- The loop brings the first version under the new name, or else the last one under the old name.
version_loop_lem :
    (legacy : Text) (lines : List Text)
    → version_loop legacy lines
      ≡ chosen legacy (versions umd_name lines) (versions legacy_name lines)
version_loop_lem legacy [] = unfold version_loop in refl
version_loop_lem legacy (line ∷ lines) = elim (Option-cases (version_of_line line)) [
  | inl e ↦ version_loop_skip legacy line lines e ∙ rw e (version_loop_lem legacy lines)
  | inr ((name, value), e) ↦
      version_loop_line legacy line name value lines e
      ∙ rw e (
          chosen_line (name == umd_name) (name == legacy_name) legacy value lines
            (λ l. version_loop_lem l lines))
]

-- The version of an answer is the first one that a line gives under the name of drivers 610 and
-- later, wherever it stands, or else the last one under the older name, or else the empty text.
pub parse_cuda_version_lem :
    (output : Text)
    → parse_cuda_version output
      ≡ chosen []
          (versions umd_name (split b'\n' output))
          (versions legacy_name (split b'\n' output))
unfolding parse_cuda_version
parse_cuda_version_lem output = version_loop_lem [] (split b'\n' output)
