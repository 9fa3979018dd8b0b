-- ===== src/Frostd/Examples.antt =====
-- Delay maps that meet what is asked of them, a server over them, and the theorems on its runs.
pub mod Store
pub mod Runs
mod Applied
