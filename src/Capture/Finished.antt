-- ===== src/Capture/Finished.antt =====
-- internal/capture/capture.go: the loop of Parse ends within its lines.
use nvidia_gpu_exporter.Capture.{
  fence, comment_prefix, state_separator, CaptureError, ran_out, Capture, replace_crlf, add_line,
  take_heading, take_body, Block, parse_block, add_block, parse_lines, with_sections, parse,
}
use nvidia_gpu_exporter.Capture.Rounds.{
  parse_lines_block, parse_lines_failed, parse_lines_blank, parse_lines_content,
}
use nvidia_gpu_exporter.Common.{
  Bool-cases, Option-cases, Sum-cases, inr-injective, length, ◌==◌, ℕ, zero, suc, ◌+◌, ◌≤◌, ◌∙◌,
  subst, ◌≢◌, ◌⊎◌, inl, inr, List, [], ◌∷◌, arith, list_comparable, nat_comparable,
}
use nvidia_gpu_exporter.Text.{Text, trim_space, has_prefix, trim_prefix, split, cut}

-- What is behind is no longer, and the error is one of the program.
abbrev IsShorter : List Text → (List Text × List Text) ⊎ CaptureError → Type 0
IsShorter lines (inl (heading, behind)) = length behind ≤ length lines
IsShorter lines (inr e) = e ≢ ran_out

add_line-IsShorter :
    (line : Text) (lines : List Text) (r : (List Text × List Text) ⊎ CaptureError)
    → IsShorter lines r
    → IsShorter (line ∷ lines) (add_line line r)
add_line-IsShorter line lines (inl (heading, behind)) h = omega arith
add_line-IsShorter line lines (inr e) h = h

take_heading-IsShorter : (n : ℕ) (lines : List Text) → IsShorter lines (take_heading n lines)
unfolding take_heading
take_heading-IsShorter n [] = λ e. cc
take_heading-IsShorter n (line ∷ lines) = elim (Bool-cases (line == fence)) [
  | inl e ↦ rw (e, take_heading, IsShorter) (omega arith)
  | inr e ↦ elim (Bool-cases (has_prefix line comment_prefix)) [
    | inl p ↦
        rw (e, p, take_heading)
          (add_line-IsShorter line lines (take_heading (n + 1) lines)
            (take_heading-IsShorter (n + 1) lines))
    | inr p ↦ rw (e, p, take_heading, IsShorter) (λ e. cc)
  ]
]

take_body_behind : (lines : List Text) → length (take_body lines).1 ≤ length lines
unfolding take_body
take_body_behind [] = omega arith
take_body_behind (line ∷ lines) = ground (arith, take_body_behind lines)

abbrev IsBlock : List Text → Block ⊎ CaptureError → Type 0
IsBlock lines (inl block) = length block.behind ≤ length lines
IsBlock lines (inr e) = e ≢ ran_out

parse_block-IsBlock : (n : ℕ) (lines : List Text) → IsBlock lines (parse_block n lines)
unfolding parse_block
parse_block-IsBlock n lines = elim (Sum-cases (take_heading (n + 1) lines)) [
  | inl ((heading, rest), e) ↦
      let shorter = subst (IsShorter lines) e (take_heading-IsShorter (n + 1) lines) in
      rw (e, parse_block, IsBlock) (omega (arith, shorter, take_body_behind rest))
  | inr (x, e) ↦
      rw (e, parse_block, IsBlock)
        (subst (IsShorter lines) e (take_heading-IsShorter (n + 1) lines))
]

add_block-ne-ran_out :
    (c : Capture) (heading : List Text) (body : Text) → add_block c heading body ≢ inr ran_out
unfolding add_block
add_block-ne-ran_out c [] body = λ e. cc
add_block-ne-ran_out c (first ∷ heading) body =
    elim (Option-cases (cut (trim_space (trim_prefix first comment_prefix)) state_separator)) [
      | inl e ↦ rw (e, add_block) (λ g. cc)
      | inr (parts, e) ↦ rw (e, add_block) (λ g. cc)
    ]

parse_lines-ne-ran_out :
    (fuel n : ℕ) (c : Capture) (lines : List Text)
    → length lines ≤ fuel
    → parse_lines fuel n c lines ≢ inr ran_out
parse_lines-ne-ran_out fuel n c [] h = unfold parse_lines in λ e. cc
parse_lines-ne-ran_out zero n c (line ∷ lines) h = absurd (omega arith)
parse_lines-ne-ran_out (suc fuel) n c (line ∷ lines) h = elim (Bool-cases (line == fence)) [
  | inr f ↦ elim (Bool-cases (trim_space line == [])) [
    | inl b ↦
        rw (parse_lines_blank fuel n c line lines f b)
          (parse_lines-ne-ran_out fuel (n + 1) c lines (omega arith))
    | inr b ↦ rw (parse_lines_content fuel n c line lines f b) (λ e. cc)
  ]
  | inl f ↦ elim (Sum-cases (parse_block n lines)) [
    | inr (x, b) ↦
        let known = subst (IsBlock lines) b (parse_block-IsBlock n lines) in
        rw (parse_lines_failed fuel n c line lines x f b) (λ e. known (inr-injective e))
    | inl (block, b) ↦
        let shorter = subst (IsBlock lines) b (parse_block-IsBlock n lines) in
        elim (Sum-cases (add_block c block.heading block.body)) [
          | inl (added, g) ↦
              rw (parse_lines_block fuel n c line lines block f b, g)
                (parse_lines-ne-ran_out fuel block.next_num added block.behind
                  (omega (arith, shorter)))
          | inr (x, g) ↦
              rw (parse_lines_block fuel n c line lines block f b, g)
                (λ e. add_block-ne-ran_out c block.heading block.body (g ∙ e))
        ]
  ]
]

with_sections-ne-ran_out :
    (r : Capture ⊎ CaptureError) → r ≢ inr ran_out → with_sections r ≢ inr ran_out
unfolding with_sections
with_sections-ne-ran_out (inr e) h = h
with_sections-ne-ran_out (inl c) h = elim (Bool-cases (length c.sections == 0)) [
  | inl e ↦ rw (e, with_sections) (λ g. cc)
  | inr e ↦ rw (e, with_sections) (λ g. cc)
]

-- The loop over the lines of any content ends within its fuel: the content is read to a capture or
-- to one of the errors of the program.
pub parse-ne-ran_out : (content : Text) → parse content ≢ inr ran_out
unfolding parse
parse-ne-ran_out content =
    let lines = split b'\n' (replace_crlf content) in
    with_sections-ne-ran_out
      (parse_lines (length lines) 0 (record { header = []; sections = [] }) lines)
      (parse_lines-ne-ran_out (length lines) 0 (record { header = []; sections = [] }) lines
        (omega arith))
