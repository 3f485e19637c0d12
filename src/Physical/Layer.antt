-- ===== src/Physical/Layer.antt =====
-- The class `PhysicalLayer` of formats/physical_layer.h and its convenience readers.
use mem_nix_fs.Base.{ℕ, List, Option, none, some, ◌==◌, if◌then◌else◌, Result, ok, ◌>>=◌}
use mem_nix_fs.Base.Buffer.{le_value}

-- `PhysicalLayer::Range`
pub record Range : Type 0 where
  pub start : ℕ
  pub length : ℕ

-- A read returns the filled buffer and the count of bytes that the dump really holds.
pub record PhysicalLayer : Type 0 where
  pub max_address : ℕ
  pub read : ℕ → ℕ → Result (List ℕ × ℕ)
  pub ranges : List Range

-- `read_exact`: the buffer, if every byte was there.
unfoldable pub read_exact : PhysicalLayer → ℕ → ℕ → Result (Option (List ℕ))
read_exact phys pa len = do
  (buf, got) ← phys.read pa len
  ok (if got == len then some buf else none)

-- `read_pod` at an 8-byte type.
unfoldable pub read_u64 : PhysicalLayer → ℕ → Result (Option ℕ)
unfolding read_exact
read_u64 phys pa = do
  r ← read_exact phys pa 8
  ok (elim r [ none ↦ none | some buf ↦ some (le_value buf) ])
