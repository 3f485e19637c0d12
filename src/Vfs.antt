-- ===== src/Vfs.antt =====
-- vfs/: the tree that the mounts present: its nodes, the path lookup, and the warmer that loads
-- files ahead of their use.
pub mod Name
pub mod Cost
pub mod Lazy
pub mod Tree
pub mod Resolve
mod Tests
