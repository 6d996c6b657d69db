-- ===== src/Capture/Found.antt =====
-- internal/capture/capture.go: what Find returns.
use nvidia_gpu_exporter.Capture.{Section, Capture, find_section, find}
use nvidia_gpu_exporter.Common.{
  Bool-cases, All, ◌==◌, ◌≡◌, refl, ap, inl, inr, Bool, true, false, ◌&&◌, Option, none, some, List,
  [], ◌∷◌, ◌++◌, list_comparable, nat_comparable,
}
use nvidia_gpu_exporter.Text.{Text, has_prefix}

-- The section has the state, and its label begins with the prefix.
abbrev pub is_sought : Text → Text → Section → Bool
is_sought state label_prefix s = s.state == state && has_prefix s.label label_prefix

abbrev pub Overlooked : Text → Text → List Section → Type 0
Overlooked state label_prefix = All (λ (s : Section). is_sought state label_prefix s ≡ false)

-- The first section that is sought, or none where no section is.
abbrev pub IsFirst : Text → Text → List Section → Option Section → Type 0
IsFirst state label_prefix sections none = Overlooked state label_prefix sections
IsFirst state label_prefix sections (some s) =
    (before : List Section) × (after : List Section) × (sections ≡ before ++ s ∷ after)
    × Overlooked state label_prefix before
    × (is_sought state label_prefix s ≡ true)

IsFirst-cons :
    (state label_prefix : Text) (t : Section) (sections : List Section) (o : Option Section)
    → is_sought state label_prefix t ≡ false
    → IsFirst state label_prefix sections o
    → IsFirst state label_prefix (t ∷ sections) o
IsFirst-cons state label_prefix t sections none h rest = (h, rest)
IsFirst-cons state label_prefix t sections (some s) h (before, after, e, over, sought) =
    (t ∷ before, after, ap (◌∷◌ t) e, (h, over), sought)

find_section-IsFirst :
    (state label_prefix : Text) (sections : List Section)
    → IsFirst state label_prefix sections (find_section state label_prefix sections)
unfolding find_section
find_section-IsFirst state label_prefix [] = tt
find_section-IsFirst state label_prefix (t ∷ sections) =
    elim (Bool-cases (is_sought state label_prefix t)) [
      | inl e ↦ rw (e, find_section, IsFirst) ([], sections, refl, tt, e)
      | inr e ↦
          rw (e, find_section)
            (IsFirst-cons state label_prefix t sections (find_section state label_prefix sections) e
              (find_section-IsFirst state label_prefix sections))
    ]

-- Find returns the first section of a capture with the state and a label that begins with the
-- prefix, and nothing just where there is none.
pub find-IsFirst :
    (c : Capture) (state label_prefix : Text)
    → IsFirst state label_prefix c.sections (find c state label_prefix)
unfolding find
find-IsFirst c state label_prefix = find_section-IsFirst state label_prefix c.sections
