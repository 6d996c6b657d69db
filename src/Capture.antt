-- ===== src/Capture.antt =====
-- internal/capture/capture.go: the capture files, raw output of nvidia-smi in one file per machine.
pub mod Rounds
pub mod Finished
pub mod Tidy
pub mod Found
mod Examples
use nvidia_gpu_exporter.Collect.Live.Joining.{start}
use nvidia_gpu_exporter.Collect.Live.Steps.{later}
use nvidia_gpu_exporter.Common.{
  if◌then◌else◌, length, ◌==◌, ℕ, zero, suc, ◌+◌, ◌⊎◌, inl, inr, true, false, ◌&&◌, Option, none,
  some, List, [], ◌∷◌, ◌++◌, list_comparable, nat_comparable,
}
use nvidia_gpu_exporter.Text.{
  Text, codes, trim, trim_space, cut_prefix, has_prefix, trim_prefix, split, join, cut,
}

abbrev pub fence : Text
fence = codes "################################################################################"

abbrev pub comment_prefix : Text
comment_prefix = codes "#"

abbrev pub command_prefix : Text
command_prefix = codes "# $ "

abbrev pub state_separator : Text
state_separator = codes " :: "

-- The numbers are those of the lines, from 1. `ran_out` is no error of the program: it stands for
-- a loop that did not end within its fuel.
pub data CaptureError : Type 0 where
  no_sections : CaptureError
  unterminated_block : CaptureError
  empty_heading : CaptureError
  content_outside : ℕ → Text → CaptureError
  heading_without_prefix : ℕ → Text → CaptureError
  ran_out : CaptureError

pub record Section : Type 0 where
  pub state : Text
  pub label : Text
  pub command : Text
  pub body : Text

pub record Capture : Type 0 where
  pub header : Text
  pub sections : List Section

-- strings.Trim(s, "\n")
abbrev pub trim_breaks : Text → Text
trim_breaks s = trim (λ c. c == b'\n') s

-- strings.ReplaceAll(content, "\r\n", "\n")
unfoldable pub replace_crlf : Text → Text
replace_crlf [] = []
replace_crlf (c ∷ []) = c ∷ []
replace_crlf (c ∷ d ∷ s) =
    let behind = replace_crlf s in
    let next = replace_crlf (d ∷ s) in if c == 13 && d == 10 then 10 ∷ behind else c ∷ next

-- heading = append(heading, lines[lineNum])
abbrev pub add_line :
    Text → (List Text × List Text) ⊎ CaptureError → (List Text × List Text) ⊎ CaptureError
add_line line (inl (heading, behind)) = inl (line ∷ heading, behind)
add_line line (inr e) = inr e

-- The first loop of `parseBlock`, from the line with the number `line_num` (from 0) on: the heading
-- lines and the lines behind the closing fence.
unfoldable pub take_heading : ℕ → List Text → (List Text × List Text) ⊎ CaptureError
take_heading line_num [] = inr unterminated_block
take_heading line_num (line ∷ lines) =
    let rest = add_line line (take_heading (line_num + 1) lines) in
    if line == fence
    then inl ([], lines)
    else if has_prefix line comment_prefix
    then rest
    else inr (heading_without_prefix (line_num + 1) line)

-- The second loop of `parseBlock`: the body lines, and those from the next fence on.
unfoldable pub take_body : List Text → List Text × List Text
take_body [] = ([], [])
take_body (line ∷ lines) =
    let rest = take_body lines in
    if line == fence then ([], line ∷ lines) else (line ∷ rest.0, rest.1)

-- What a block is read to, with the lines behind it and the number of the first of them.
pub record Block : Type 0 where
  pub heading : List Text
  pub body : Text
  pub behind : List Text
  pub next_num : ℕ

-- parseBlock, with the lines behind the opening fence, whose number is `start`.
unfoldable pub parse_block : ℕ → List Text → Block ⊎ CaptureError
unfolding take_heading take_body
parse_block start lines = elim (take_heading (start + 1) lines) [
  | inr e ↦ inr e
  | inl (heading, rest) ↦
      let taken = take_body rest in
      inl (record {
        heading = heading;
        body = trim_breaks (join (codes "\n") taken.0);
        behind = taken.1;
        next_num = start + 1 + length heading + 1 + length taken.0;
      })
]

-- The command of the first heading line that has one.
unfoldable pub command_of : List Text → Text
command_of [] = []
command_of (line ∷ lines) =
    let later = command_of lines in
    elim (cut_prefix line command_prefix) [ none ↦ later | some command ↦ trim_space command ]

-- addBlock
unfoldable pub add_block : Capture → List Text → Text → Capture ⊎ CaptureError
unfolding command_of
add_block c [] body = inr empty_heading
add_block c (first ∷ heading) body =
    elim (cut (trim_space (trim_prefix first comment_prefix)) state_separator) [
      | none ↦ inl (record c { header = trim_breaks (c.header ++ codes "\n" ++ body) })
      | some (state, label) ↦
          let section : Section = record {
            state = trim_space state;
            label = trim_space label;
            command = command_of heading;
            body = body;
          } in
          inl (record c { sections = c.sections ++ section ∷ [] })
    ]

-- The loop of `Parse` from the line with the number `line_num` on. A round takes at least one line.
unfoldable pub parse_lines : ℕ → ℕ → Capture → List Text → Capture ⊎ CaptureError
unfolding parse_block add_block
parse_lines fuel line_num c [] = inl c
parse_lines zero line_num c (line ∷ lines) = inr ran_out
parse_lines (suc fuel) line_num c (line ∷ lines) = elim (line == fence) [
  | false ↦ elim (trim_space line == []) [
    | false ↦ inr (content_outside (line_num + 1) line)
    | true ↦ parse_lines fuel (line_num + 1) c lines
  ]
  | true ↦ elim (parse_block line_num lines) [
    | inr e ↦ inr e
    | inl block ↦ elim (add_block c block.heading block.body) [
      | inr e ↦ inr e
      | inl added ↦ parse_lines fuel block.next_num added block.behind
    ]
  ]
]

-- The check behind the loop.
unfoldable pub with_sections : Capture ⊎ CaptureError → Capture ⊎ CaptureError
with_sections (inr e) = inr e
with_sections (inl c) = if length c.sections == 0 then inr no_sections else inl c

-- Parse
unfoldable pub parse : Text → Capture ⊎ CaptureError
unfolding parse_lines with_sections
parse content =
    let lines = split b'\n' (replace_crlf content) in
    with_sections (parse_lines (length lines) 0 (record { header = []; sections = [] }) lines)

pub data LoadError : Type 0 where
  read_failed : LoadError
  parse_failed : CaptureError → LoadError

-- Load. `read_file` is os.ReadFile, none on an error.
unfoldable pub load : (Text → Option Text) → Text → Capture ⊎ LoadError
load read_file path = elim (read_file path) [
  | none ↦ inr read_failed
  | some data_read ↦ elim (parse data_read) [ inr e ↦ inr (parse_failed e) | inl c ↦ inl c ]
]

-- Find, over the sections.
unfoldable pub find_section : Text → Text → List Section → Option Section
find_section state label_prefix [] = none
find_section state label_prefix (s ∷ sections) =
    let later = find_section state label_prefix sections in
    if s.state == state && has_prefix s.label label_prefix then some s else later

-- Find
unfoldable pub find : Capture → Text → Text → Option Section
unfolding find_section
find c state label_prefix = find_section state label_prefix c.sections
