-- ===== src/Lib.antt =====
-- Verification of nvidia_gpu_exporter: a Prometheus exporter that asks nvidia-smi (or NVML, or a
-- demo) for the state of the GPUs and serves it as metrics.
--
-- The parts modelled, and how they interact. At startup internal/nvidiasmi/resolve.go determines the
-- fields to query: from the help text of nvidia-smi (fields.go), from the list that the user gave, or
-- from the catalog of a backend, less the excluded ones (exclude.go). A query (query.go, command.go)
-- runs the command, and csv.go reads its answer into a table; computeapps.go reads the answer on the
-- processes, version.go the CUDA version, transform.go (with internal/util/util.go) the number of a
-- cell. internal/collect runs such queries, in the background (cached.go) or when it is asked
-- (live.go), counts failures and hands out snapshots (collect.go). internal/exporter/exporter.go
-- describes the metrics once, and on each scrape renders the latest snapshot as metrics.
-- internal/nvmlnative is a backend that reads the NVML library itself; the part modelled is its life
-- cycle and the readings outside the query fields, with the MIG devices.
--
-- Which file models which part:
--   Nvidiasmi/Csv           internal/nvidiasmi/csv.go: parse_csv_into_table is ParseCSVIntoTable
--   Nvidiasmi/Command       command.go and query.go: split_command, exec_query, query
--   Nvidiasmi/Exclude       exclude.go: the patterns and filter_excluded_q_fields
--   Nvidiasmi/Fields        fields.go: the help text; Fields/Builtin is its built-in table
--   Nvidiasmi/Resolve       resolve.go: resolve_fields and resolve_from_catalog
--   Nvidiasmi/ComputeApps   computeapps.go: parse_compute_apps, normalize_uuid
--   Nvidiasmi/Transform     transform.go and HexToDecimal: transform_field_value
--   Nvidiasmi/Version       version.go: parse_cuda_version
--   Capture                 internal/capture/capture.go: parse and find
--   Collect                 internal/collect/collect.go: collect_once, fold_cumulative; Readings has
--                           the types of extras.go
--   Collect/Cached          cached.go: run is Run up to the end of its context, tick, latest
--   Collect/Live            live.go: join, leave, finish (the locked end of run), no_result;
--                           Live/Steps has the calls of Latest and the runs as a step relation
--   Exporter/Names          internal/exporter/exporter.go: build_fq_name_and_multiplier, with
--                           ToSnakeCase of internal/util/util.go
--   Exporter/Claims         BuildQFieldToMetricInfoMap: claim_names and build_infos are its loops
--   Exporter/Descs          New with the families it builds, and Describe
--   Exporter/Render         Collect and the functions named render
--   Nvmlnative/Driver       internal/nvmlnative/availability_nvml.go, guardsymbols_nvml.go and the
--                           guard of guard_nvml.go; the answers of the driver and its calls
--   Nvmlnative/Backend      backend_nvml.go: mark_lost, close, try_recover and what they share
--   Nvmlnative/Mig          mig_nvml.go: Gpm has gpm_utilization, Scan enumerate_mig, Activity
--                           collect_mig
--   Nvmlnative/Extras       backend_nvml.go: collect_extras, with options.go
--   Nvmlnative/Xid          xid_nvml.go: bump, record_xid and counts
--   Text, Common            what the code uses of Go's strings, slices, maps and integers
-- A function keeps its name in snake case. The modules below a part hold its theorems, and
-- Examples its theorems at concrete inputs.
--
-- The model. A text is its code points. A map is an association list, read and written as a map. A
-- function that can fail returns a sum, or an Outcome where it can also panic: an index out of
-- range is a panic. A counter of type uint64 wraps at 2^64. The waiters of a flight are a natural
-- number, and `leave` takes one from 0 to 0.
-- Package regexp is written out for the expressions that the code has: the globs of exclude.go as
-- they are quoted, and the patterns of numbers, versions and lines.
--
-- Parameters, which stand for code outside the repository: the process of nvidia-smi and the shell
-- splitter of go-shellquote (Command.Machine), the order in which Go ranges over the built-in map
-- (key_order, any order of its keys without repetition), the operations on float64 (Common.Floats),
-- the attempts of a source (Collect.Attempt: what the query returned, the clock before and after
-- it, and whether its context had ended), BuildFQName and NewConstMetric of the Prometheus client
-- (Names.Host), and the conversions of integers and times to float64 (Render.Conversions). The NVML
-- driver is what it answers in a cycle (Extras.CycleAnswers and Mig.Device: each call is made once
-- per cycle and device), with the arithmetic on its values (Mig.Scales); the calls that acquire, use
-- or release a GPM sample are kept in the backend. A map of these parts that is ranged over gives
-- its entries in the order in which they were put.
--
-- Fuel. find_fields, find_numbers and the loop of Capture.parse run on the length of their input:
-- every round takes at least one character, or one line, so it is enough. decimal runs on the number
-- that it prints, which has no more digits.
--
-- Not modelled: log lines, the wording of errors beyond their kind and data, timeouts and contexts
-- other than by their effect (a run that was ended is a run that failed), and the mappings of
-- strings.ToLower outside ASCII but for the two characters whose lower case is ASCII. Of the NVML
-- backend, the table of the query fields, the list of processes and the loop of the event watcher
-- are not modelled, nor are the fake nvidia-smi, the demo and the application.
pub mod Common
pub mod Text
pub mod Capture
pub mod Collect
pub mod Exporter
pub mod Nvidiasmi
pub mod Nvmlnative
