-- ===== src/Components.antt =====
-- src/components: parts of the page with a state of their own.
pub mod ThemeDropdown
