-- ===== src/Tests.antt =====
-- Runs of the model on concrete inputs, and the theorems at such inputs.
mod Utils
mod Highlight
mod Services
mod Hooks
mod App
mod World
mod Scripts
mod Views
mod Pages
mod Backend
mod Settings
mod Daily
mod Delete
mod Index
mod Typing
mod Diagnostics
