-- ===== src/Tests.antt =====
-- Runs of the model on concrete inputs.
pub mod Toy
pub mod Signing
pub mod Texts
pub mod Storing
pub mod Boundaries
pub mod Creating
pub mod Scoring
pub mod Editing
pub mod Running
pub mod Fetching
pub mod Naming
pub mod Limiting
pub mod Showing
pub mod Wrapping
