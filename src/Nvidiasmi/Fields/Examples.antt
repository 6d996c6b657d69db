-- ===== src/Nvidiasmi/Fields/Examples.antt =====
-- Runs of the extraction of field names.
use nvidia_gpu_exporter.Common.{◌≡◌, refl, some, [], ◌∷◌, list_comparable, nat_comparable}
use nvidia_gpu_exporter.Nvidiasmi.Fields.{extract_q_fields}
use nvidia_gpu_exporter.Text.{Text, codes, contains_any}

abbrev help_text : Text
help_text =
    codes
      "List of valid properties:\n\n\"timestamp\"\nThe time.\n\n\"driver_version\" or \"dv\"\nThe version.\n\n\"a,b\"\nBad.\n"

extract-help_text :
    extract_q_fields help_text ≡ some (codes "timestamp" ∷ codes "driver_version" ∷ [])
unfolding extract_q_fields contains_any
extract-help_text = refl
