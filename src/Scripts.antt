-- ===== src/Scripts.antt =====
-- The icon scripts of scripts: what they do to the file system. The image libraries are parameters.
pub mod Files
pub mod Resize
pub mod Generate
