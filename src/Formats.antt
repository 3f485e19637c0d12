-- ===== src/Formats.antt =====
-- formats/: the dump formats, each a `PhysicalLayer` over a `MemorySource`.
pub mod Extents
mod Tests
pub mod Raw
pub mod Lime
pub mod Stream
pub mod Avml
pub mod Kdump
pub mod Factory
