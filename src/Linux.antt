-- ===== src/Linux.antt =====
-- os/linux/: what is read out of a Linux kernel.
pub mod ElfCore
pub mod Banner
pub mod Kva
pub mod RecoveredPath
