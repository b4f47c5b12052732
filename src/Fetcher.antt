-- ===== src/Fetcher.antt =====
-- Fetching and normalising (app/fetcher.py), a module for each part of the file.
pub mod Inputs
pub mod Dedupe
pub mod Infer
pub mod Patch
pub mod Gather
pub mod Fetching
pub mod Rss
pub mod Newest
pub mod Nvd
pub mod Ghsa
pub mod Redhat
