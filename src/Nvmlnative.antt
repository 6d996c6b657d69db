-- ===== src/Nvmlnative.antt =====
-- Package internal/nvmlnative: the backend that reads NVML itself.
pub mod Driver
pub mod Backend
pub mod Mig
pub mod Extras
pub mod Xid
