-- ===== src/Tests.antt =====
-- The theorems on concrete inputs, and runs of the code.
pub mod Parsing
pub mod Flushing
pub mod Tokens
pub mod Relaying
pub mod Serving
pub mod Loading
pub mod Running
pub mod Delivering
pub mod Listening
