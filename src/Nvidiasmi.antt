-- ===== src/Nvidiasmi.antt =====
-- Package internal/nvidiasmi: what is asked of nvidia-smi and how its answers are read.
pub mod Csv
pub mod Command
pub mod Exclude
pub mod Fields
pub mod Resolve
pub mod ComputeApps
pub mod Transform
pub mod Version
