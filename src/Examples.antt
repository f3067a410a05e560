-- ===== src/Examples.antt =====
-- Concrete runs of the operations, and the theorems at concrete inputs.
mod Versions
mod Jobs
mod Masters
mod Voices
mod Sources
mod Events
mod Edges
mod Floats
mod Takes
mod Identity
mod Lessons
mod Entries
mod Directories
mod Packages
