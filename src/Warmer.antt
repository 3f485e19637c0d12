-- ===== src/Warmer.antt =====
-- vfs/forensic_warmer.cpp: `ForensicWarmer`, which loads lazy files ahead of their use: the
-- choice of the files, and the pool of workers.
pub mod Collect
pub mod Pool
pub mod Start
mod Tests
