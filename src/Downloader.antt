-- ===== src/Downloader.antt =====
-- internal/downloader: parallel downloads in chunks, races between sources, and their state in the
-- database.
pub mod State
pub mod Grid
pub mod Assembly
pub mod Chunked
pub mod Racing
mod Examples
