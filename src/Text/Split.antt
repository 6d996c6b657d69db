-- ===== src/Text/Split.antt =====
-- Laws of `split` and `join`.
use nvidia_gpu_exporter.Common.{
  nat_same_iff, Bool-cases, All, ◌==◌, contains, ℕ, ◌≡◌, refl, ap, ◌∙◌, ◌≢◌, inl, inr, false, List,
  [], ◌∷◌, ◌++◌, arith, nat_comparable,
}
use nvidia_gpu_exporter.Text.{Text, cons_head, split, join}

-- The text does not hold the character.
abbrev pub Lacks : ℕ → Text → Type 0
Lacks sep = All (λ c. (c == sep) ≡ false)

module _ (sep : ℕ) where
  pub split-ne-nil : (s : Text) → split sep s ≢ []
  unfolding split
  split-ne-nil [] = ground arith
  split-ne-nil (c ∷ s) = ground (arith)

  pub split-Lacks : (s : Text) → Lacks sep s → split sep s ≡ s ∷ []
  unfolding split
  split-Lacks [] h = refl
  split-Lacks (c ∷ s) h = ground (arith, split-Lacks s h.1)

  pub split-append : (w s : Text) → Lacks sep w → split sep (w ++ sep ∷ s) ≡ w ∷ split sep s
  unfolding split
  split-append [] s h = ground (arith)
  split-append (c ∷ w) s h = ground (arith, split-append w s h.1)

  pub split-join :
      (w : Text) (ws : List Text)
      → All (Lacks sep) (w ∷ ws)
      → split sep (join (sep ∷ []) (w ∷ ws)) ≡ w ∷ ws
  unfolding join
  split-join w [] h = split-Lacks w h.0
  split-join w (v ∷ ws) h = split-append w _ h.0 ∙ ap (◌∷◌ w) (split-join v ws h.1)

  cons_head-Lacks :
      (c : ℕ) (ws : List Text)
      → (c == sep) ≡ false
      → All (Lacks sep) ws
      → All (Lacks sep) (cons_head c ws)
  cons_head-Lacks c [] e h = ((e, tt), tt)
  cons_head-Lacks c (w ∷ ws) e h = ((e, h.0), h.1)

  pub split_parts-Lacks : (s : Text) → All (Lacks sep) (split sep s)
  unfolding split
  split_parts-Lacks [] = (tt, tt)
  split_parts-Lacks (c ∷ s) = ground (arith, cons_head-Lacks c (split sep s), split_parts-Lacks s)

  cons_head-join :
      (c : ℕ) (ws : List Text) → join (sep ∷ []) (cons_head c ws) ≡ c ∷ join (sep ∷ []) ws
  unfolding join
  cons_head-join c [] = refl
  cons_head-join c (w ∷ []) = refl
  cons_head-join c (w ∷ v ∷ ws) = refl

  cons_nil-join : (ws : List Text) → ws ≢ [] → join (sep ∷ []) ([] ∷ ws) ≡ sep ∷ join (sep ∷ []) ws
  unfolding join
  cons_nil-join [] h = elim (h refl) [ ]
  cons_nil-join (w ∷ ws) h = refl

  -- Joining the parts of a split by the separator gives the text back.
  pub join-split : (s : Text) → join (sep ∷ []) (split sep s) ≡ s
  unfolding split
  join-split [] = unfold join in refl
  join-split (c ∷ s) = elim (Bool-cases (c == sep)) [
    | inl e ↦
        rw e (
          cons_nil-join (split sep s) (split-ne-nil s)
          ∙ cc (join-split s, (nat_same_iff c sep).0 e))
    | inr e ↦ rw e (cons_head-join c (split sep s) ∙ ap (◌∷◌ c) (join-split s))
  ]

-- A text that is seen not to hold the character by evaluation.
pub Lacks-of_contains : (sep : ℕ) (s : Text) → contains s sep ≡ false → Lacks sep s
Lacks-of_contains sep [] h = tt
Lacks-of_contains sep (c ∷ s) h = (ground arith, Lacks-of_contains sep s (ground arith))

cons_head-append :
    (c : ℕ) (ws vs : List Text) → ws ≢ [] → cons_head c ws ++ vs ≡ cons_head c (ws ++ vs)
cons_head-append c [] vs h = elim (h refl) [ ]
cons_head-append c (w ∷ ws) vs h = refl

-- The parts on both sides of a separator.
pub split_sep-append :
    (sep : ℕ) (w s : Text) → split sep (w ++ sep ∷ s) ≡ split sep w ++ split sep s
unfolding split
split_sep-append sep [] s = ground arith
split_sep-append sep (c ∷ w) s = ground (
  arith,
  split_sep-append sep w s,
  cons_head-append c (split sep w) (split sep s) (split-ne-nil sep w),
)
