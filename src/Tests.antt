-- ===== src/Tests.antt =====
-- Theorems of the library applied to a small module: a function `calc` as wasm2c writes it, a load
-- helper, an initializer and the function table.
pub mod Data
mod Encodings
mod Texts
mod Passes
pub mod Extraction
mod Pipelines
mod Drivers
mod Runtimes
mod Memories
mod Demos
mod Instances
mod Numbers
