-- ===== src/Exporter/Names/Valid.antt =====
-- internal/exporter/exporter.go: metric names that package prometheus takes.
use nvidia_gpu_exporter.Common.{
  if◌then◌else◌, ◌==◌, ◌≡◌, ◌⊎◌, inl, inr, Bool, true, false, [], ◌∷◌, ◌++◌, list_comparable,
  nat_comparable,
}
use nvidia_gpu_exporter.Exporter.Names.{is_digit, Host, has_invalid}
use nvidia_gpu_exporter.Exporter.Names.Legal.{
  IsLegal, JoinsNames, has_invalid-IsLegal, joined-IsLegal,
}
use nvidia_gpu_exporter.Text.{Text}

-- No character, or a digit.
abbrev pub cannot_begin : Text → Bool
cannot_begin [] = true
cannot_begin (c ∷ s) = is_digit c

-- `[a-zA-Z_:][a-zA-Z0-9_:]*`
abbrev pub IsName : Text → Type 0
IsName s = (cannot_begin s ≡ false) × IsLegal s

-- No prefix, or a name.
abbrev pub IsPrefix : Text → Type 0
IsPrefix prefix = (prefix ≡ []) ⊎ IsName prefix

begun_joined :
    (prefix name : Text)
    → cannot_begin prefix ≡ false
    → cannot_begin name ≡ false
    → cannot_begin (if name == [] then [] else if prefix == [] then name else prefix ++ b'_' ∷ name)
      ≡ false
begun_joined [] name hp hn = cc
begun_joined (c ∷ prefix) [] hp hn = cc
begun_joined (c ∷ prefix) (d ∷ name) hp hn = hp

bare_joined :
    (prefix name : Text)
    → prefix ≡ []
    → IsName name
    → IsName (if name == [] then [] else if prefix == [] then name else prefix ++ b'_' ∷ name)
bare_joined [] [] e h = h
bare_joined [] (c ∷ name) e h = h
bare_joined (d ∷ prefix) name e h = cc

pub build_fq_name-IsName :
    (host : Host) (prefix name : Text)
    → JoinsNames host
    → IsPrefix prefix
    → IsName name
    → IsName (host.build_fq_name prefix name)
build_fq_name-IsName host prefix name joins (inl e) h =
    rw (joins prefix name) (bare_joined prefix name e h)
build_fq_name-IsName host prefix name joins (inr hp) h =
    rw (joins prefix name) (begun_joined prefix name hp.0 h.0, joined-IsLegal prefix name hp.1 h.1)

pub IsName-of_checks : (s : Text) → cannot_begin s ≡ false → has_invalid s ≡ false → IsName s
IsName-of_checks s h g = (h, has_invalid-IsLegal s g)
