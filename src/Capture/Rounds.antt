-- ===== src/Capture/Rounds.antt =====
-- internal/capture/capture.go: one round of the loop of Parse.
use nvidia_gpu_exporter.Capture.{
  fence, CaptureError, content_outside, Capture, Block, parse_block, add_block, parse_lines,
}
use nvidia_gpu_exporter.Common.{
  Sum-cases, ◌==◌, ℕ, suc, ◌+◌, ◌≡◌, refl, ◌⊎◌, inl, inr, true, false, List, [], ◌∷◌,
  list_comparable, nat_comparable,
}
use nvidia_gpu_exporter.Text.{Text, trim_space}

-- What the loop does behind a block.
abbrev pub after_block : ℕ → Block → Capture ⊎ CaptureError → Capture ⊎ CaptureError
after_block fuel block (inr e) = inr e
after_block fuel block (inl c) = parse_lines fuel block.next_num c block.behind

pub parse_lines_block :
    (fuel n : ℕ) (c : Capture) (line : Text) (lines : List Text) (block : Block)
    → (line == fence) ≡ true
    → parse_block n lines ≡ inl block
    → parse_lines (suc fuel) n c (line ∷ lines)
      ≡ after_block fuel block (add_block c block.heading block.body)
unfolding parse_lines
parse_lines_block fuel n c line lines block e b =
    elim (Sum-cases (add_block c block.heading block.body)) [
      | inl (added, g) ↦ rw (e, b, g, parse_lines) refl
      | inr (x, g) ↦ rw (e, b, g, parse_lines) refl
    ]

pub parse_lines_failed :
    (fuel n : ℕ) (c : Capture) (line : Text) (lines : List Text) (e : CaptureError)
    → (line == fence) ≡ true
    → parse_block n lines ≡ inr e
    → parse_lines (suc fuel) n c (line ∷ lines) ≡ inr e
unfolding parse_lines
parse_lines_failed fuel n c line lines e f b = rw (f, b, parse_lines) refl

pub parse_lines_blank :
    (fuel n : ℕ) (c : Capture) (line : Text) (lines : List Text)
    → (line == fence) ≡ false
    → (trim_space line == []) ≡ true
    → parse_lines (suc fuel) n c (line ∷ lines) ≡ parse_lines fuel (n + 1) c lines
unfolding parse_lines
parse_lines_blank fuel n c line lines f b = rw (f, b, parse_lines) refl

pub parse_lines_content :
    (fuel n : ℕ) (c : Capture) (line : Text) (lines : List Text)
    → (line == fence) ≡ false
    → (trim_space line == []) ≡ false
    → parse_lines (suc fuel) n c (line ∷ lines) ≡ inr (content_outside (n + 1) line)
unfolding parse_lines
parse_lines_content fuel n c line lines f b = rw (f, b, parse_lines) refl
