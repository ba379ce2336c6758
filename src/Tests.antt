-- ===== src/Tests.antt =====
-- Tests on concrete data, and each theorem at an input that meets its hypotheses.
pub mod Samples
mod Maps
mod Tables
mod Logs
mod Stores
mod Filters
mod Frames
mod Servers
mod Files
mod Commands
mod Requests
mod Compactions
mod Crashes
mod Links
mod Merges
