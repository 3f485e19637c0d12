-- ===== src/Physical.antt =====
-- formats/physical_layer.h: a sparse physical address space, as an interface with its contract.
mod Layer
mod Window
pub use Layer.{Range, PhysicalLayer}
unfoldable pub use Layer.{read_exact, read_u64}
pub use Window.*
