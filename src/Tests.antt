-- ===== src/Tests.antt =====
-- Concrete inputs for the functions of the model, and the theorems applied to them.
pub mod Data
mod Sinks
mod Archives
mod Directories
mod Frames
mod Parts
mod Streams
mod Fetches
