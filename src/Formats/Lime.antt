-- ===== src/Formats/Lime.antt =====
-- formats/lime_format.cpp: LiME dumps. A file is a sequence of segments, each a 32-byte header
-- and the bytes of the physical addresses that the header names.
pub mod Load
pub mod Read
pub mod Layout
pub mod Open
use mem_nix_fs.Base.{
  ℕ, zero, suc, ◌+◌, ◌-◌, ◌/◌, ◌≤◌, ◌<◌, List, [], ◌∷◌, ◌++◌, map, not, length, min, max, ltb, leb,
  ◌==◌, if◌then◌else◌, Bool, true, false, Error, Result, ok, err, fault, stuck, ◌>>=◌, ◌>>◌,
  require, lime_short_header, lime_trailing, lime_bad_magic, lime_bad_version, lime_bad_range,
  lime_out_of_order, lime_truncated, lime_no_segments,
}
use mem_nix_fs.Base.Word.{add64, sub64}
use mem_nix_fs.Base.Buffer.{zeros, write, field}
use mem_nix_fs.Io.{MemorySource}
use mem_nix_fs.Physical.{PhysicalLayer, Range}

-- `LimeHeader`; `reserved` is never read.
pub record LimeHeader : Type 0 where
  pub magic : ℕ
  pub version : ℕ
  pub start : ℕ
  pub end : ℕ

-- The fields of the packed struct in the 32 bytes of a header.
unfoldable pub decode_header : List ℕ → LimeHeader
decode_header bs = record {
  magic = field bs 0 4;
  version = field bs 4 4;
  start = field bs 8 8;
  end = field bs 16 8;
}

-- `LimeSegment`
pub record LimeSegment : Type 0 where
  pub pa_start : ℕ
  pub pa_length : ℕ
  pub file_offset : ℕ

-- `LimePhysical`, after its constructor
pub record LimePhysical : Type 0 where
  pub src : MemorySource
  pub segs : List LimeSegment
  pub max_addr : ℕ

-- The checks on a header at `off`, in the order of `load_segments`.
unfoldable pub check_header : LimeHeader → ℕ → ℕ → Result (Unit {0})
check_header h off prev_end = do
  require (h.magic == 0x4C694D45) (lime_bad_magic h.magic off)
  require (h.version == 1) (lime_bad_version h.version off)
  require (not (ltb h.end h.start)) (lime_bad_range h.start h.end)
  require (not (ltb h.start prev_end)) (lime_out_of_order h.start)

-- The segment that a header at `off` announces, if the file holds all of it.
unfoldable pub segment_of : ℕ → LimeHeader → ℕ → Result LimeSegment
segment_of file_size h off =
    let len = add64 (sub64 h.end h.start) 1 in
    let data_off = add64 off 32 in
    let remaining = sub64 file_size data_off in
    if ltb remaining len
    then err (lime_truncated off len)
    else ok (record { pa_start = h.start; pa_length = len; file_offset = data_off })

-- One round of the loop of `load_segments`: the segment, and the next `prev_end` and `off`.
unfoldable pub load_segment : MemorySource → ℕ → ℕ → Result (LimeSegment × ℕ × ℕ)
load_segment src off prev_end = do
  bs ← src.read off 32
  require (length bs == 32) (lime_short_header off)
  let h = decode_header bs
  check_header h off prev_end
  s ← segment_of src.size h off
  ok (s, add64 h.end 1, add64 s.file_offset s.pa_length)

-- The loop; `segs` are the segments found so far. It yields them with the final `off`.
unfoldable pub load_loop :
    ℕ → MemorySource → ℕ → ℕ → List LimeSegment → Result (List LimeSegment × ℕ)
load_loop zero src off prev_end segs = stuck
load_loop (suc fuel) src off prev_end segs =
    let round =
      load_segment src off prev_end >>= λ r. load_loop fuel src r.2 r.1 (segs ++ (r.0 ∷ [])) in
    if leb (add64 off 32) src.size then round else ok (segs, off)

-- segs_.back().pa_start + segs_.back().pa_length, for segments with one in front
unfoldable pub last_end : LimeSegment → List LimeSegment → ℕ
last_end s [] = add64 s.pa_start s.pa_length
last_end s (t ∷ ss) = last_end t ss

-- The end of `load_segments`.
unfoldable pub finish : MemorySource → List LimeSegment → Result LimePhysical
finish src [] = err lime_no_segments
finish src (s ∷ ss) = ok (record { src = src; segs = s ∷ ss; max_addr = last_end s ss })

-- The constructor of `LimePhysical`. A round takes 32 bytes of the file at least.
unfoldable pub load_segments : MemorySource → Result LimePhysical
load_segments src = do
  r ← load_loop (src.size / 32 + 1) src 0 0 []
  require (r.1 == src.size) (lime_trailing r.1)
  finish src r.0

-- The end of a round of `LimePhysical::read`: the part of a segment that the request covers. It
-- yields the buffer, the next `cur` and the next `total`.
unfoldable pub copy_segment :
    MemorySource → ℕ → ℕ → LimeSegment → ℕ → List ℕ → ℕ → Result (List ℕ × ℕ × ℕ)
copy_segment src pa end s cur dst total =
    let rs = max cur s.pa_start in
    let re = min end (add64 s.pa_start s.pa_length) in
    do
      got ← src.read (add64 s.file_offset (sub64 rs s.pa_start)) (sub64 re rs)
      dst' ← write dst (sub64 rs pa) got
      ok (dst', re, add64 total (length got))

-- The loop of `LimePhysical::read` over the segments that are left.
unfoldable pub read_loop :
    MemorySource → ℕ → ℕ → List LimeSegment → ℕ → List ℕ → ℕ → Result (List ℕ × ℕ)
read_loop src pa end [] cur dst total = ok (dst, total)
read_loop src pa end (s ∷ ss) cur dst total =
    let skip = read_loop src pa end ss cur dst total in
    let copy =
      copy_segment src pa end s cur dst total >>= λ r. read_loop src pa end ss r.1 r.0 r.2 in
    if leb (add64 s.pa_start s.pa_length) cur
    then skip
    else if leb end s.pa_start
    then ok (dst, total)
    else copy

-- `LimePhysical::read`
unfoldable pub lime_read : LimePhysical → ℕ → ℕ → Result (List ℕ × ℕ)
lime_read l pa len = read_loop l.src pa (add64 pa len) l.segs pa (zeros len) 0

-- The methods of `LimePhysical`.
unfoldable pub lime_layer : LimePhysical → PhysicalLayer
lime_layer l = record {
  max_address = l.max_addr;
  read = lime_read l;
  ranges = map (λ s. record { start = s.pa_start; length = s.pa_length }) l.segs;
}

-- `open_lime_physical`
unfoldable pub open_lime_physical : MemorySource → Result PhysicalLayer
open_lime_physical src = do l ← load_segments src; ok (lime_layer l)
