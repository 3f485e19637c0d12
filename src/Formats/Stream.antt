-- ===== src/Formats/Stream.antt =====
-- formats/phys_raw_stream.h: `PhysRawStream`, the physical address space as one file.
use mem_nix_fs.Base.{
  ℕ, ◌+◌, ◌-◌, ◌≤◌, ◌<◌, ◌≡◌, List, some, min, leb, leb→le, if◌then◌else◌, arith, Bool-cases,
  Option-cases, inl, inr, Result, ok, ◌>>=◌,
}
use mem_nix_fs.Base.Word.{u64_mod}
use mem_nix_fs.Base.Buffer.{zeros}
use mem_nix_fs.Physical.{PhysicalLayer, Image, Shows, IsHole, hole, window}

-- `PhysRawStream::size`
unfoldable pub stream_size : PhysicalLayer → ℕ
stream_size phys = phys.max_address

-- `PhysRawStream::read`: the buffer, and the count.
unfoldable pub stream_read : PhysicalLayer → ℕ → ℕ → Result (List ℕ × ℕ)
stream_read phys offset len =
    if leb phys.max_address offset
    then ok (zeros len, 0)
    else phys.read offset len >>= λ (buf, got). ok (buf, min len (phys.max_address - offset))

module _ (phys : PhysicalLayer) (img : Image)
    (below : (a b : ℕ) → img a ≡ some b → a < phys.max_address) where
  IsHole-max_address : (a n : ℕ) → phys.max_address ≤ a → IsHole img a n
  IsHole-max_address a n h x l u = elim (Option-cases (img x)) [
    | inl e ↦ e
    | inr (b, e) ↦ let early = below x b e in absurd (omega arith)
  ]

-- Over a layer that shows an image whose bytes all lie below `max_address`, the stream is
-- contiguous: a read fills its buffer with the image, zeros in the holes, and counts every address
-- below the stream's size, whether the dump holds it or not. The request ends below the last
-- 64-bit address.
pub stream_read-window :
    (phys : PhysicalLayer) (img : Image)
    → ((a b : ℕ) → img a ≡ some b → a < phys.max_address)
    → Shows phys img
    → (offset len : ℕ) → offset + len < u64_mod
    → stream_read phys offset len ≡ ok (window img offset len, min len (stream_size phys - offset))
unfolding stream_read stream_size
stream_read-window phys img below shows offset len h =
    elim (Bool-cases (leb phys.max_address offset)) [
      | inl past ↦
          let (w, b) =
            hole img offset len (IsHole-max_address phys img below offset len (leb→le _ _ past)) in
          let none_left : min len (phys.max_address - offset) ≡ 0 =
            omega (arith, leb→le _ _ past) in
          rw (past, w, none_left)
      | inr before ↦ rw (before, shows.reads offset len h)
    ]
