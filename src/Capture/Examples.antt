-- ===== src/Capture/Examples.antt =====
-- A capture of one section.
use nvidia_gpu_exporter.Capture.{
  fence, ran_out, Section, Capture, replace_crlf, take_heading, take_body, parse_block, command_of,
  add_block, parse_lines, with_sections, parse, find,
}
use nvidia_gpu_exporter.Capture.Finished.{parse-ne-ran_out}
use nvidia_gpu_exporter.Capture.Found.{IsFirst, find-IsFirst}
use nvidia_gpu_exporter.Capture.Tidy.{IsTidy, parse-IsTidy}
use nvidia_gpu_exporter.Common.{
  length, All, ◌≤◌, ◌≡◌, refl, ◌≢◌, inl, inr, [], ◌∷◌, ◌++◌, list_comparable, nat_comparable,
}
use nvidia_gpu_exporter.Text.{
  Text, codes, trim, trim_space, cut_prefix, has_prefix, trim_prefix, split, join, cut,
}

abbrev idle : Section
idle = record {
  state = codes "idle";
  label = codes "query-gpu (csv)";
  command = codes "nvidia-smi";
  body = codes "0";
}

abbrev one_section : Capture
one_section = record { header = []; sections = idle ∷ [] }

find-IsFirst_example :
    IsFirst
      (codes "idle")
      (codes "query-gpu")
      (idle ∷ [])
      (find one_section (codes "idle") (codes "query-gpu"))
find-IsFirst_example = find-IsFirst one_section (codes "idle") (codes "query-gpu")

abbrev content : Text
content = fence ++ codes "\n# idle :: query-gpu (csv)\n# $ nvidia-smi\n" ++ fence ++ codes "\n\n0\n"

parse-ne-ran_out_example : parse content ≢ inr ran_out
parse-ne-ran_out_example = parse-ne-ran_out content

parse_test : parse content ≡ inl one_section
unfolding parse parse_lines parse_block add_block take_heading take_body command_of with_sections
    replace_crlf nvidia_gpu_exporter.Text.split nvidia_gpu_exporter.Text.cut
    nvidia_gpu_exporter.Text.cut_prefix nvidia_gpu_exporter.Text.trim_prefix
    nvidia_gpu_exporter.Text.has_prefix nvidia_gpu_exporter.Text.trim_space
    nvidia_gpu_exporter.Text.trim nvidia_gpu_exporter.Text.join
parse_test = refl

parse-IsTidy_example : (1 ≤ length one_section.sections) × All IsTidy one_section.sections
parse-IsTidy_example = parse-IsTidy content one_section parse_test
