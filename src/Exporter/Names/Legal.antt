-- ===== src/Exporter/Names/Legal.antt =====
-- internal/exporter/exporter.go: the characters of a metric name.
use nvidia_gpu_exporter.Collect.Cached.{run}
use nvidia_gpu_exporter.Common.{
  if◌then◌else◌, Bool-cases, All, All-append, ◌==◌, ◌≡◌, refl, sym, subst, inl, inr, Bool, true,
  false, [], ◌∷◌, ◌++◌, arith, list_comparable, nat_comparable,
}
use nvidia_gpu_exporter.Exporter.Names.{
  Host, to_snake_case, replace_char, replace_bracket, is_name_char, has_invalid, replace_invalid,
  sanitize_name, suffix_and_multiplier, build_fq_name_and_multiplier,
}
use nvidia_gpu_exporter.Nvidiasmi.Csv.{RField}
use nvidia_gpu_exporter.Text.{Text, codes}

abbrev pub IsLegal : Text → Type 0
IsLegal = All (λ c. is_name_char c ≡ true)

-- What BuildFQName is documented to do with no subsystem: an empty name stays empty, and else the
-- parts that are not empty are joined by an underscore.
abbrev pub JoinsNames : Host → Type 0
JoinsNames host =
    (prefix name : Text)
    → host.build_fq_name prefix name
      ≡ (if name == [] then [] else if prefix == [] then name else prefix ++ b'_' ∷ name)

pub has_invalid-IsLegal : (s : Text) → has_invalid s ≡ false → IsLegal s
has_invalid-IsLegal [] h = tt
has_invalid-IsLegal (c ∷ s) h = (ground arith, has_invalid-IsLegal s (ground arith))

replace_invalid-IsLegal : (run : Bool) (s : Text) → IsLegal (replace_invalid run s)
unfolding replace_invalid
replace_invalid-IsLegal run [] = tt
replace_invalid-IsLegal run (c ∷ s) = elim (Bool-cases (is_name_char c)) [
  | inl e ↦ rw e (e, replace_invalid-IsLegal false s)
  | inr e ↦ elim (Bool-cases run) [
    | inl r ↦ rw (e, r) (replace_invalid-IsLegal true s)
    | inr r ↦ rw (e, r) (refl, replace_invalid-IsLegal true s)
  ]
]

sanitize_name-IsLegal : (s : Text) → IsLegal (sanitize_name s)
unfolding sanitize_name
sanitize_name-IsLegal s =
    let bare =
      replace_char b']' [] (replace_bracket (to_snake_case (replace_char b'.' (codes "_") s))) in
    elim (Bool-cases (has_invalid bare)) [
      | inl e ↦ rw e (replace_invalid-IsLegal false bare)
      | inr e ↦ rw e (has_invalid-IsLegal bare e)
    ]

pub joined-IsLegal :
    (prefix name : Text)
    → IsLegal prefix
    → IsLegal name
    → IsLegal (if name == [] then [] else if prefix == [] then name else prefix ++ b'_' ∷ name)
joined-IsLegal prefix name hp hn = elim (Bool-cases (name == [])) [
  | inl e ↦ rw e tt
  | inr e ↦ elim (Bool-cases (prefix == [])) [
    | inl f ↦ rw (e, f) hn
    | inr f ↦ rw (e, f) (All-append (λ c. is_name_char c ≡ true) prefix (b'_' ∷ name) hp (refl, hn))
  ]
]

-- Whatever name nvidia-smi returns for a field, under a legal prefix the name of its metric holds
-- letters, digits, underscores and colons alone.
pub build_fq_name_and_multiplier-IsLegal :
    (host : Host) (prefix : Text) (r_field : RField)
    → JoinsNames host
    → IsLegal prefix
    → IsLegal (build_fq_name_and_multiplier host prefix r_field).0
unfolding build_fq_name_and_multiplier
build_fq_name_and_multiplier-IsLegal host prefix r_field joins h =
    let name = sanitize_name (suffix_and_multiplier r_field).0 in
    subst IsLegal (sym (joins prefix name))
      (joined-IsLegal prefix name h (sanitize_name-IsLegal (suffix_and_multiplier r_field).0))
