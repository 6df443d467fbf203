-- ===== src/Extras.antt =====
-- The command-line tools of extras/.
pub mod Loadtest
pub mod LogCompare
pub mod Generator
pub mod Receiver
