-- ===== src/Tests.antt =====
-- Each result at a concrete input.
mod Data
mod Writes
mod Access
mod Streams
mod Mirrors
mod Extensions
mod Commands
mod Workers
mod Views
mod Editing
