-- ===== src/Exporter/Names/Examples.antt =====
-- Names of nvidia-smi and their metrics.
use nvidia_gpu_exporter.Common.{
  if◌then◌else◌, Float64, ◌==◌, ◌≡◌, refl, true, List, [], ◌∷◌, ◌++◌, map, list_comparable,
  nat_comparable,
}
use nvidia_gpu_exporter.Exporter.Names.{Host, one, million, build_fq_name_and_multiplier}
use nvidia_gpu_exporter.Exporter.Names.Legal.{IsLegal, build_fq_name_and_multiplier-IsLegal}
use nvidia_gpu_exporter.Text.{Text, codes}

abbrev host : Host
host = record {
  build_fq_name = λ prefix name.
      if name == [] then [] else if prefix == [] then name else prefix ++ b'_' ∷ name;
  accepts = λ desc values. true;
}

abbrev names : List Text → List (Text × Float64)
names = map (build_fq_name_and_multiplier host (codes "p"))

names_test :
    names (
      codes "clocks.max.memory [MHz]"
      ∷ codes "pcie.link.gen.gpuCurrent"
      ∷ codes "power [W/s]"
      ∷ codes "a b [KiB/s]"
      ∷ [])
    ≡ (codes "p_clocks_max_memory_clock_hz", million)
      ∷ (codes "p_pcie_link_gen_gpu_current", one)
      ∷ (codes "p_power_watts_per_second", one)
      ∷ (codes "p_a_b__ki_b_s", one)
      ∷ []
unfolding build_fq_name_and_multiplier nvidia_gpu_exporter.Text.to_lower
    nvidia_gpu_exporter.Text.split
names_test = refl

build_fq_name_and_multiplier-IsLegal_example :
    IsLegal (build_fq_name_and_multiplier host (codes "p") (codes "fan.speed [%]")).0
build_fq_name_and_multiplier-IsLegal_example =
    build_fq_name_and_multiplier-IsLegal host (codes "p") (codes "fan.speed [%]")
      (λ prefix name. refl) (refl, tt)
