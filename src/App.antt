-- ===== src/App.antt =====
-- src/App.tsx: the state of the application component and its handlers. An asynchronous handler has
-- two parts or more: what it does up to an `await`, and what it does with the answer.
pub mod State
pub mod Search
pub mod Results
pub mod Settings
pub mod Scan
pub mod Dup
pub mod Call
pub mod Events
pub mod Controls
pub mod View
pub mod Typing
pub mod World
