-- ===== src/Nvidiasmi/ComputeApps/Printed.antt =====
-- The row of a process is read back whatever commas its name holds.
use nvidia_gpu_exporter.Common.{
  ◌==◌, ℕ, ◌≡◌, refl, ap, ◌∙◌, ◌≢◌, false, some, List, [], ◌∷◌, ◌++◌, list_comparable,
  nat_comparable,
}
use nvidia_gpu_exporter.Nvidiasmi.ComputeApps.{
  parse_uint, normalize_uuid, init, last, app_of_fields, app_of_split, parse_compute_app_row,
}
use nvidia_gpu_exporter.Text.{Text, codes, trim_space, split, join}
use nvidia_gpu_exporter.Text.Split.{
  Lacks, split-ne-nil, split-Lacks, split-append, join-split, split_sep-append,
}

-- One row as nvidia-smi prints it.
abbrev pub print_row : Text → Text → Text → Text → Text
print_row uuid pid name memory =
    uuid ++ (b',' ∷ 32 ∷ (pid ++ (b',' ∷ 32 ∷ (name ++ (b',' ∷ 32 ∷ memory)))))

init-append_one : (xs : List Text) (x : Text) → init (xs ++ x ∷ []) ≡ xs
init-append_one [] x = refl
init-append_one (y ∷ []) x = refl
init-append_one (y ∷ z ∷ xs) x = ap (◌∷◌ y) (init-append_one (z ∷ xs) x)

last-append_one : (xs : List Text) (x : Text) → last (xs ++ x ∷ []) ≡ x
last-append_one [] x = refl
last-append_one (y ∷ []) x = refl
last-append_one (y ∷ z ∷ xs) x = last-append_one (z ∷ xs) x

-- At least two parts behind the first two.
app_of_split-append :
    (a b : Text) (ws : List Text) (x : Text)
    → ws ≢ []
    → app_of_split (a ∷ b ∷ (ws ++ x ∷ [])) ≡ app_of_fields a b (ws ++ x ∷ [])
unfolding app_of_split
app_of_split-append a b [] x h = elim (h refl) [ ]
app_of_split-append a b (w ∷ []) x h = refl
app_of_split-append a b (w ∷ v ∷ ws) x h = refl

split_row :
    (uuid pid name memory : Text)
    → Lacks b',' uuid
    → Lacks b',' pid
    → Lacks b',' memory
    → split b',' (print_row uuid pid name memory)
      ≡ uuid ∷ (32 ∷ pid) ∷ (split b',' (32 ∷ name) ++ (32 ∷ memory) ∷ [])
split_row uuid pid name memory hu hp hm =
    split-append b',' uuid _ hu
    ∙ ap (◌∷◌ uuid) (
        split-append b',' (32 ∷ pid) _ (refl, hp)
        ∙ ap (◌∷◌ (32 ∷ pid)) (
            split_sep-append b',' (32 ∷ name) (32 ∷ memory)
            ∙ ap (◌++◌ (split b',' (32 ∷ name))) (split-Lacks b',' (32 ∷ memory) (refl, hm))))

trim_space_blank : (v : Text) → trim_space (32 ∷ v) ≡ trim_space v
unfolding trim_space
trim_space_blank v = refl

app_of_fields_lem :
    (field0 field1 : Text) (rest : List Text) (n : ℕ)
    → parse_uint (trim_space field1) ≡ some n
    → (normalize_uuid field0 == []) ≡ false
    → app_of_fields field0 field1 rest
      ≡ some (record {
        gpu_uuid = normalize_uuid field0;
        pid = trim_space field1;
        process_name = trim_space (join (codes ",") (init rest));
        used_memory = trim_space (last rest);
        gpu_instance_id = [];
        compute_instance_id = [];
      })
unfolding app_of_fields
app_of_fields_lem field0 field1 rest n e f = rw (e, app_of_fields) (rw f)

-- The row of a process whose uuid is not empty once normalised and whose PID is a uint64 is read
-- to its normalised uuid, its PID, its whole name and its memory. The name may hold commas; the
-- other three may not, and PID, name and memory carry no white space at their ends.
pub parse-print_row :
    (uuid pid name memory : Text) (n : ℕ)
    → Lacks b',' uuid
    → Lacks b',' pid
    → Lacks b',' memory
    → trim_space pid ≡ pid
    → trim_space name ≡ name
    → trim_space memory ≡ memory
    → parse_uint pid ≡ some n
    → (normalize_uuid uuid == []) ≡ false
    → parse_compute_app_row (print_row uuid pid name memory)
      ≡ some (record {
        gpu_uuid = normalize_uuid uuid;
        pid = pid;
        process_name = name;
        used_memory = memory;
        gpu_instance_id = [];
        compute_instance_id = [];
      })
unfolding parse_compute_app_row
parse-print_row uuid pid name memory n hu hp hm tp tn tm num found =
    let parts = split b',' (32 ∷ name) in
    let fields = parts ++ (32 ∷ memory) ∷ [] in
    let pid_read : trim_space (32 ∷ pid) ≡ pid = trim_space_blank pid ∙ tp in
    let name_read : trim_space (join (codes ",") (init fields)) ≡ name =
      rw (init-append_one parts (32 ∷ memory), join-split b',' (32 ∷ name))
        (trim_space_blank name ∙ tn) in
    let memory_read : trim_space (last fields) ≡ memory =
      rw (last-append_one parts (32 ∷ memory)) (trim_space_blank memory ∙ tm) in
    rw (split_row uuid pid name memory hu hp hm) (
      app_of_split-append uuid (32 ∷ pid) parts (32 ∷ memory) (split-ne-nil b',' (32 ∷ name))
      ∙ (app_of_fields_lem uuid (32 ∷ pid) fields n (rw pid_read num) found
          ∙ rw (pid_read, name_read, memory_read)))
