-- ===== src/Formats/Avml/Load.antt =====
-- formats/avml_format.cpp: the constructor of `AvmlPhysical`, from the file to the frames.
use mem_nix_fs.Base.{
  ℕ, zero, suc, ◌+◌, ◌-◌, ◌*◌, ◌/◌, ◌%◌, List, [], ◌∷◌, ◌++◌, none, some, not, min, length, ltb,
  leb, ◌==◌, if◌then◌else◌, ◌&&◌, ◌||◌, Result, ok, err, stuck, ◌>>=◌, ◌>>◌, require,
  avml_short_read, avml_bad_magic, avml_bad_version, avml_bad_range, avml_no_frames,
  avml_short_header, avml_past_end, avml_no_tag, avml_tiny, avml_bad_snappy, avml_too_large,
  avml_unskippable,
}
use mem_nix_fs.Base.Text.{codes}
use mem_nix_fs.Base.Word.{add64, sub64}
use mem_nix_fs.Base.Buffer.{zeros, field, le_value}
use mem_nix_fs.Vfs.Name.{same}
use mem_nix_fs.Io.{MemorySource}
use mem_nix_fs.Formats.Avml.{Snappy, AvmlFrame, AvmlPhysical}

-- kAvmlMagic
abbrev pub avml_magic : ℕ
avml_magic = 0x4C4D5641

-- kMaxFrameDecompressed
abbrev pub max_frame : ℕ
max_frame = 64 * 1024 * 1024

-- A buffer of `n` zeros after a read into it whose count is not looked at.
unfoldable pub read_into : MemorySource → ℕ → ℕ → ℕ → Result (List ℕ)
read_into src off want n = do bs ← src.read off want; ok (bs ++ zeros (n - length bs))

-- A frame of the types 0 and 1: its decompressed length.
unfoldable pub decompressed_length : Snappy → MemorySource → ℕ → ℕ → ℕ → Result ℕ
decompressed_length z src ftype data_off data_sz =
    if ftype == 0
    then (do
      buf ← read_into src data_off data_sz data_sz
      elim (z.uncompressed_length buf) [
        | none ↦ err (avml_bad_snappy data_off)
        | some ulen ↦ ok ulen
      ])
    else ok data_sz

-- The frame that data of type 0 or 1 announces, for a payload that starts at `payload_off`.
unfoldable pub data_frame : Snappy → MemorySource → ℕ → ℕ → ℕ → ℕ → Result AvmlFrame
data_frame z src ftype fsize payload_off pa = do
  require (not (ltb fsize 4)) (avml_tiny payload_off)
  let data_off = add64 payload_off 4
  dec_len ← decompressed_length z src ftype data_off (fsize - 4)
  require (not (ltb max_frame dec_len)) (avml_too_large data_off dec_len)
  ok (record {
    pa_start = pa;
    pa_length = dec_len;
    file_offset = data_off;
    payload_size = fsize - 4;
    compressed = ftype == 0;
  })

-- The payload of a stream identifier must be "sNaPpY".
unfoldable pub check_tag : MemorySource → ℕ → ℕ → Result (Unit {0})
check_tag src fsize payload_off = do
  tag ← read_into src payload_off (min fsize 6) 6
  require (same tag (codes "sNaPpY")) (avml_no_tag payload_off)

-- What a frame adds to the frames.
unfoldable pub frame_of : Snappy → MemorySource → ℕ → ℕ → ℕ → ℕ → Result (List AvmlFrame)
frame_of z src ftype fsize payload_off pa =
    if ftype == 0xFF
    then (check_tag src fsize payload_off >>= λ _. ok [])
    else if ftype == 0 || ftype == 1
    then (data_frame z src ftype fsize payload_off pa >>= λ f. ok (f ∷ []))
    else if leb 2 ftype && ltb ftype 0x80
    then err (avml_unskippable ftype)
    else ok []

-- The header of the frame at `consumed` bytes of a chunk: its type and size, checked.
unfoldable pub frame_header : MemorySource → ℕ → ℕ → ℕ → Result (ℕ × ℕ)
frame_header src file_off max consumed = do
  bs ← src.read (add64 file_off consumed) 4
  require (length bs == 4) avml_short_header
  let fh = le_value bs
  require (not (ltb max (add64 (add64 consumed 4) (fh / 256))))
      (avml_past_end (add64 (add64 file_off consumed) 4))
  ok (fh % 256, fh / 256)

-- The decompressed bytes of the frames that a round added.
abbrev pub added : List AvmlFrame → ℕ
added [] = 0
added (f ∷ fs) = f.pa_length

-- A round of `parse_snappy_frames`: the frames it adds, and the next `consumed`.
unfoldable pub parse_frame : Snappy → MemorySource → ℕ → ℕ → ℕ → ℕ → Result (List AvmlFrame × ℕ)
parse_frame z src file_off max pa consumed = do
  (ftype, fsize) ← frame_header src file_off max consumed
  new ← frame_of z src ftype fsize (add64 (add64 file_off consumed) 4) pa
  ok (new, add64 consumed (4 + fsize))

-- The loop of `parse_snappy_frames`: the frames so far, and the bytes consumed in the end.
unfoldable pub parse_snappy_frames :
    ℕ → Snappy → MemorySource → ℕ → ℕ → ℕ → ℕ → ℕ → ℕ → List AvmlFrame → Result (List AvmlFrame × ℕ)
parse_snappy_frames zero z src file_off max expected pa consumed decompressed frames = stuck
parse_snappy_frames (suc fuel) z src file_off max expected pa consumed decompressed frames =
    let round = parse_frame z src file_off max (add64 pa decompressed) consumed >>= λ r.
    parse_snappy_frames fuel z src file_off max expected pa r.1 (add64 decompressed (added r.0))
      (frames ++ r.0) in
    if ltb decompressed expected && leb (add64 consumed 4) max then round else ok (frames, consumed)

-- The checks of `load_chunks` on the header of the chunk at `off`: its start and end.
unfoldable pub chunk_header : MemorySource → ℕ → Result (ℕ × ℕ)
chunk_header src off = do
  bs ← src.read off 32
  require (length bs == 32) (avml_short_read off)
  require (field bs 0 4 == avml_magic) (avml_bad_magic off)
  require (field bs 4 4 == 2) (avml_bad_version (field bs 4 4) off)
  require (not (leb (field bs 16 8) (field bs 8 8))) (avml_bad_range (field bs 8 8) (field bs 16 8))
  ok (field bs 8 8, field bs 16 8)

-- A round of `load_chunks` at `off`: the frames, and the next `off`. A frame takes 4 bytes at least.
unfoldable pub load_chunk : Snappy → MemorySource → ℕ → List AvmlFrame → Result (List AvmlFrame × ℕ)
load_chunk z src off frames = do
  (start, end) ← chunk_header src off
  let data_off = add64 off 32
  let max = sub64 src.size data_off
  (frames', consumed) ←
      parse_snappy_frames (max / 4 + 1) z src data_off max (sub64 end start) start 0 0 frames
  ok (frames', add64 (add64 data_off consumed) 8)

-- The loop of `load_chunks`
unfoldable pub chunks_loop :
    ℕ → Snappy → MemorySource → ℕ → List AvmlFrame → Result (List AvmlFrame)
chunks_loop zero z src off frames = stuck
chunks_loop (suc fuel) z src off frames =
    let round = load_chunk z src off frames >>= λ r. chunks_loop fuel z src r.1 r.0 in
    if leb (add64 off 32) src.size then round else ok frames

-- frames_.back().pa_start + frames_.back().pa_length, for frames with `f` in front
unfoldable pub back_end : AvmlFrame → List AvmlFrame → ℕ
back_end f [] = add64 f.pa_start f.pa_length
back_end f (g ∷ fs) = back_end g fs

unfoldable pub finish_chunks : MemorySource → List AvmlFrame → Result AvmlPhysical
finish_chunks src [] = err avml_no_frames
finish_chunks src (f ∷ fs) = ok (record { src = src; frames = f ∷ fs; max_addr = back_end f fs })

-- `load_chunks`. A chunk takes 40 bytes of the file at least, of which the last 8 may be missing.
unfoldable pub load_chunks : Snappy → MemorySource → Result AvmlPhysical
load_chunks z src = do
  frames ← chunks_loop ((src.size + 8) / 40 + 1) z src 0 []
  finish_chunks src frames
