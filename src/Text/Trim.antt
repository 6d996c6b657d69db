-- ===== src/Text/Trim.antt =====
-- Laws of trimming.
use nvidia_gpu_exporter.Common.{All, ℕ, ◌≡◌, refl, ap, ◌∙◌, Bool, false, [], ◌∷◌, arith}
use nvidia_gpu_exporter.Text.{Text, is_space, trim_left, keep_right, trim_right, trim, trim_space}

module _ (p : ℕ → Bool) where
  keep_right-trim_left :
      (c : ℕ) (s : Text) → p c ≡ false → trim_left p (keep_right p c s) ≡ keep_right p c s
  unfolding trim_left trim_right
  keep_right-trim_left c [] h = ground arith
  keep_right-trim_left c (d ∷ s) h = ground arith

  trim_left-trim : (s : Text) → trim_left p (trim p s) ≡ trim p s
  unfolding trim
  trim_left-trim [] = refl
  trim_left-trim (c ∷ s) = ground (arith, trim_left-trim s, keep_right-trim_left c (trim_right p s))

  keep_right_idem :
      (c : ℕ) (s : Text) → trim_right p s ≡ s → trim_right p (keep_right p c s) ≡ keep_right p c s
  unfolding trim_right
  keep_right_idem c [] h = ground arith
  keep_right_idem c (d ∷ s) h = cc

  trim_right_idem : (s : Text) → trim_right p (trim_right p s) ≡ trim_right p s
  unfolding trim_right
  trim_right_idem [] = refl
  trim_right_idem (c ∷ s) = keep_right_idem c (trim_right p s) (trim_right_idem s)

  pub trim_idem : (s : Text) → trim p (trim p s) ≡ trim p s
  unfolding trim
  trim_idem s = ap (trim_right p) (trim_left-trim s) ∙ trim_right_idem (trim_left p s)

  keep_right-All {ℓ} :
      (P : ℕ → Type ℓ) (c : ℕ) (s : Text) → P c → All P s → All P (keep_right p c s)
  unfolding trim_right
  keep_right-All P c [] h t = ground arith
  keep_right-All P c (d ∷ s) h t = (h, t)

  trim_left-All {ℓ} : (P : ℕ → Type ℓ) (s : Text) → All P s → All P (trim_left p s)
  unfolding trim_left
  trim_left-All P [] h = tt
  trim_left-All P (c ∷ s) h = ground (arith, trim_left-All P s h.1)

  trim_right-All {ℓ} : (P : ℕ → Type ℓ) (s : Text) → All P s → All P (trim_right p s)
  unfolding trim_right
  trim_right-All P [] h = tt
  trim_right-All P (c ∷ s) h = keep_right-All P c (trim_right p s) h.0 (trim_right-All P s h.1)

  -- Trimming only drops characters.
  pub trim-All {ℓ} : (P : ℕ → Type ℓ) (s : Text) → All P s → All P (trim p s)
  unfolding trim
  trim-All P s h = trim_right-All P (trim_left p s) (trim_left-All P s h)

pub trim_space_idem : (s : Text) → trim_space (trim_space s) ≡ trim_space s
unfolding trim_space
trim_space_idem = trim_idem is_space
