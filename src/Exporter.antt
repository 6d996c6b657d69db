-- ===== src/Exporter.antt =====
-- Package internal/exporter: the metrics of a scrape.
pub mod Names
pub mod Claims
pub mod Descs
pub mod Render
