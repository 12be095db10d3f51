-- ===== src/Samples.antt =====
-- Sources of the demos under samples/.
pub mod Bits
pub mod Add
pub mod Calc
