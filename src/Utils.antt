-- ===== src/Utils.antt =====
-- src/utils: pure helpers.
pub mod Csv
pub mod Path
pub mod Size
pub mod Date
pub mod Highlight
pub mod Env
