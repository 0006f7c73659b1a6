-- ===== src/Hooks.antt =====
-- src/hooks: effects of the application component.
pub mod TauriEvents
pub mod FocusDebug
pub mod Listeners
