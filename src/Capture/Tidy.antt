-- ===== src/Capture/Tidy.antt =====
-- internal/capture/capture.go: what the sections of an accepted capture carry.
use nvidia_gpu_exporter.Capture.{
  fence, comment_prefix, command_prefix, state_separator, CaptureError, Section, Capture,
  trim_breaks, replace_crlf, take_heading, take_body, Block, parse_block, command_of, add_block,
  parse_lines, with_sections, parse,
}
use nvidia_gpu_exporter.Capture.Rounds.{
  parse_lines_block, parse_lines_failed, parse_lines_blank, parse_lines_content,
}
use nvidia_gpu_exporter.Common.{
  Bool-cases, Option-cases, inl-injective, Sum-cases, length, All, All-append, ◌==◌, ℕ, zero, suc,
  ◌+◌, ◌≤◌, ◌≡◌, refl, ap, subst, ◌⊎◌, inl, inr, List, [], ◌∷◌, arith, list_comparable,
  nat_comparable,
}
use nvidia_gpu_exporter.Text.{Text, codes, trim_space, cut_prefix, trim_prefix, split, join, cut}
use nvidia_gpu_exporter.Text.Trim.{trim_idem, trim_space_idem}

-- No white space at the ends of the names, and no line break at those of the body.
pub record IsTidy (s : Section) : Type 0 where
  pub state_trimmed : trim_space s.state ≡ s.state
  pub label_trimmed : trim_space s.label ≡ s.label
  pub command_trimmed : trim_space s.command ≡ s.command
  pub body_trimmed : trim_breaks s.body ≡ s.body

abbrev TidyIfRead : Capture ⊎ CaptureError → Type 0
TidyIfRead (inl c) = All IsTidy c.sections
TidyIfRead (inr e) = Unit

command_of_trimmed : (lines : List Text) → trim_space (command_of lines) ≡ command_of lines
unfolding command_of trim_space
command_of_trimmed [] = refl
command_of_trimmed (line ∷ lines) = elim (Option-cases (cut_prefix line command_prefix)) [
  | inl e ↦ rw (e, command_of) (command_of_trimmed lines)
  | inr (command, e) ↦ rw (e, command_of) (trim_space_idem command)
]

add_block-IsTidy :
    (c : Capture) (heading : List Text) (body : Text)
    → trim_breaks body ≡ body
    → All IsTidy c.sections
    → TidyIfRead (add_block c heading body)
unfolding add_block
add_block-IsTidy c [] body b h = tt
add_block-IsTidy c (first ∷ heading) body b h =
    elim (Option-cases (cut (trim_space (trim_prefix first comment_prefix)) state_separator)) [
      | inl e ↦ rw (e, add_block, TidyIfRead) h
      | inr ((state, label), e) ↦
          let section : Section = record {
            state = trim_space state;
            label = trim_space label;
            command = command_of heading;
            body = body;
          } in
          let tidy : IsTidy section = record {
            state_trimmed = trim_space_idem state;
            label_trimmed = trim_space_idem label;
            command_trimmed = command_of_trimmed heading;
            body_trimmed = b;
          } in
          rw (e, add_block, TidyIfRead) (All-append IsTidy c.sections (section ∷ []) h (tidy, tt))
    ]

parse_block_body :
    (n : ℕ) (lines : List Text) (block : Block)
    → parse_block n lines ≡ inl block
    → trim_breaks block.body ≡ block.body
unfolding parse_block
parse_block_body n lines block h = elim (Sum-cases (take_heading (n + 1) lines)) [
  | inl ((heading, rest), e) ↦
      let body = trim_breaks (join (codes "\n") (take_body rest).0) in
      let same : body ≡ block.body =
        (let read = rw (e, parse_block) at h in ap Block.body (inl-injective read)) in
      subst (λ s. trim_breaks s ≡ s) same
        (trim_idem (λ c. c == b'\n') (join (codes "\n") (take_body rest).0))
  | inr (x, e) ↦ let bad = rw (e, parse_block) at h in cc
]

parse_lines-IsTidy :
    (fuel n : ℕ) (c : Capture) (lines : List Text)
    → All IsTidy c.sections
    → TidyIfRead (parse_lines fuel n c lines)
parse_lines-IsTidy fuel n c [] h = unfold parse_lines in h
parse_lines-IsTidy zero n c (line ∷ lines) h = unfold parse_lines in tt
parse_lines-IsTidy (suc fuel) n c (line ∷ lines) h = elim (Bool-cases (line == fence)) [
  | inr f ↦ elim (Bool-cases (trim_space line == [])) [
    | inl b ↦
        rw (parse_lines_blank fuel n c line lines f b) (parse_lines-IsTidy fuel (n + 1) c lines h)
    | inr b ↦ rw (parse_lines_content fuel n c line lines f b) tt
  ]
  | inl f ↦ elim (Sum-cases (parse_block n lines)) [
    | inr (x, b) ↦ rw (parse_lines_failed fuel n c line lines x f b) tt
    | inl (block, b) ↦
        let kept =
          add_block-IsTidy c block.heading block.body (parse_block_body n lines block b) h in
        elim (Sum-cases (add_block c block.heading block.body)) [
          | inl (added, g) ↦
              rw (parse_lines_block fuel n c line lines block f b, g)
                (parse_lines-IsTidy fuel block.next_num added block.behind
                  (subst TidyIfRead g kept))
          | inr (x, g) ↦ rw (parse_lines_block fuel n c line lines block f b, g) tt
        ]
  ]
]

with_sections-IsTidy :
    (r : Capture ⊎ CaptureError) (c : Capture)
    → TidyIfRead r
    → with_sections r ≡ inl c
    → (1 ≤ length c.sections) × All IsTidy c.sections
unfolding with_sections
with_sections-IsTidy (inr e) c h g = cc
with_sections-IsTidy (inl d) c h g = elim (Bool-cases (length d.sections == 0)) [
  | inl e ↦ let bad = rw (e, with_sections) at g in cc
  | inr e ↦
      let same = inl-injective (rw (e, with_sections) at g) in
      subst (λ (x : Capture). (1 ≤ length x.sections) × All IsTidy x.sections) same
        (ground arith, h)
]

-- A capture that is accepted has at least one section; the state, the label and the command of
-- each carry no white space at their ends, and its body no line break at its ends.
pub parse-IsTidy :
    (content : Text) (c : Capture)
    → parse content ≡ inl c
    → (1 ≤ length c.sections) × All IsTidy c.sections
unfolding parse
parse-IsTidy content c h =
    let lines = split b'\n' (replace_crlf content) in
    with_sections-IsTidy
      (parse_lines (length lines) 0 (record { header = []; sections = [] }) lines) c
      (parse_lines-IsTidy (length lines) 0 (record { header = []; sections = [] }) lines tt) h
