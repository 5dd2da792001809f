-- ===== src/Builder/Errors.antt =====
-- What it takes for a builder to end without an error (lib/Core/Command.cpp), in two children whose
-- names are passed on.
mod WaitLists
mod Access
pub use WaitLists.*
pub use Access.*
