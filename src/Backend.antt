-- ===== src/Backend.antt =====
-- The back end, src-tauri/src: what its commands do between the calls of the libraries, and how it
-- fits the front end. A path is a text here as there; the walk over the disk, the clock, the hash of a
-- file and the index are parameters.
pub mod Scanner
pub mod Dedup
pub mod Config
pub mod Index
pub mod Pipeline
pub mod Diagnostics
pub mod Delete
pub mod Serve
pub mod Query
