-- ===== src/Linux/ElfCore.antt =====
-- os/linux/elf_core.cpp, os/linux/elf_core_stream.cpp and vma.h: the ELF core file of a process, built
-- at once, or served as a stream.
pub mod Layout
pub mod Build
pub mod Stream
pub mod Serve
pub mod File
mod Tests
use mem_nix_fs.Base.{
  ℕ, zero, suc, ◌+◌, ◌-◌, ◌*◌, ◌/◌, ◌%◌, ◌^◌, List, [], ◌∷◌, ◌++◌, Bool, true, false, min, max,
  length, take, drop, bit_and, ltb, leb, ◌==◌, if◌then◌else◌, Result, ok, ◌>>=◌,
}
use mem_nix_fs.Base.Word.{add64, sub64}
use mem_nix_fs.Base.Buffer.{zeros, write, le_bytes}
use mem_nix_fs.Paging.{PageTable, page_mask, page_table_read}
use mem_nix_fs.Paging.Cache.{UserPageCache, cache_read}

-- `Vma`, the fields that a core is built from
pub record Vma : Type 0 where
  pub vm_start : ℕ
  pub vm_end : ℕ
  pub vm_flags : ℕ

-- `size`, `readable`, `writable` and `executable`
unfoldable pub vma_size : Vma → ℕ
vma_size v = sub64 v.vm_end v.vm_start

unfoldable pub readable : Vma → Bool
readable v = v.vm_flags % 2 == 1

unfoldable pub writable : Vma → Bool
writable v = v.vm_flags / 2 % 2 == 1

unfoldable pub executable : Vma → Bool
executable v = v.vm_flags / 4 % 2 == 1

-- `Elf64_Ehdr` for a count of program headers, which is kept in 16 bits.
unfoldable pub elf_header : ℕ → List ℕ
elf_header n =
    0x7F
    ∷ 0x45
    ∷ 0x4C
    ∷ 0x46
    ∷ 2
    ∷ 1
    ∷ 1
    ∷ (zeros 9
        ++ (le_bytes 2 4
            ++ (le_bytes 2 62
                ++ (le_bytes 4 1
                    ++ (le_bytes 8 0
                        ++ (le_bytes 8 64
                            ++ (le_bytes 8 0
                                ++ (le_bytes 4 0
                                    ++ (le_bytes 2 64
                                        ++ (le_bytes 2 56 ++ (le_bytes 2 n ++ zeros 6)))))))))))

unfoldable pub flag : Bool → ℕ → ℕ
flag b v = if b then v else 0

-- `Elf64_Phdr` of a segment
unfoldable pub program_header : Vma → ℕ → ℕ → List ℕ
unfolding flag
program_header v file_off filesz =
    le_bytes 4 1
    ++ (le_bytes 4 (flag (executable v) 1 + flag (writable v) 2 + flag (readable v) 4)
        ++ (le_bytes 8 file_off
            ++ (le_bytes 8 v.vm_start
                ++ (le_bytes 8 0
                    ++ (le_bytes 8 filesz ++ (le_bytes 8 (vma_size v) ++ le_bytes 8 0x1000))))))

-- Where the data starts behind the headers: at a page.
unfoldable pub data_start : ℕ → ℕ
data_start phnum = bit_and (add64 (64 + phnum * 56) 0xFFF) page_mask

-- The room that is left for data.
unfoldable pub room_left : ℕ → ℕ → ℕ
room_left max_bytes total = if ltb total max_bytes then max_bytes - total else 0

-- The plan of `build_elf_core`: the areas with the bytes that are taken of each, and their sum.
unfoldable pub plan_core : ℕ → List Vma → ℕ → List (Vma × ℕ) × ℕ
plan_core max_bytes [] total = ([], total)
plan_core max_bytes (v ∷ vs) total =
    let part = min (vma_size v) (room_left max_bytes total) in
    let skip = plan_core max_bytes vs total in
    let rest = plan_core max_bytes vs (add64 total part) in
    if readable v
    then (if vma_size v == 0
        then skip
        else if part == 0
        then ([], total)
        else ((v, part) ∷ rest.0, rest.1))
    else skip

-- The loop of `build_elf_core` over the plan, from the segment of number `i` on.
unfoldable pub fill_core : PageTable → List (Vma × ℕ) → ℕ → ℕ → List ℕ → Result (List ℕ)
fill_core pt [] i file_off out = ok out
fill_core pt ((v, part) ∷ ps) i file_off out = do
  out₁ ← write out (64 + 56 * i) (program_header v file_off part)
  (buf, got) ← page_table_read pt v.vm_start part
  out₂ ← write out₁ file_off buf
  fill_core pt ps (suc i) (add64 file_off part) out₂

-- `build_elf_core`
unfoldable pub build_elf_core : PageTable → List Vma → ℕ → Result (List ℕ)
build_elf_core pt vmas max_bytes =
    let (plan, total) = plan_core max_bytes vmas 0 in
    let start = data_start (length plan) in
    do
      out ← write (zeros (add64 start total)) 0 (elf_header (length plan))
      fill_core pt plan 0 start out

-- The loop of `estimate_elf_core_size`: the count of segments, and their sum.
unfoldable pub count_core : ℕ → List Vma → ℕ → ℕ → ℕ × ℕ
count_core max_bytes [] phnum total = (phnum, total)
count_core max_bytes (v ∷ vs) phnum total =
    let part = min (vma_size v) (room_left max_bytes total) in
    let skip = count_core max_bytes vs phnum total in
    let rest = count_core max_bytes vs (suc phnum) (add64 total part) in
    if readable v
    then (if vma_size v == 0 then skip else if part == 0 then (phnum, total) else rest)
    else skip

-- `estimate_elf_core_size`
unfoldable pub estimate_elf_core_size : List Vma → ℕ → ℕ
estimate_elf_core_size vmas max_bytes =
    let (phnum, total) = count_core max_bytes vmas 0 0 in add64 (data_start phnum) total

-- `PlannedSegment`
pub record PlannedSegment : Type 0 where
  pub file_off : ℕ
  pub file_len : ℕ
  pub vm_start : ℕ

-- `ElfCoreStream`, after its constructor; its page cache is passed along.
pub record ElfCoreStream : Type 0 where
  pub user_pt : PageTable
  pub header_blob : List ℕ
  pub segs : List PlannedSegment
  pub total_size : ℕ

-- The areas that `plan` uses.
unfoldable pub used : List Vma → List Vma
used [] = []
used (v ∷ vs) = if readable v then (if vma_size v == 0 then used vs else v ∷ used vs) else used vs

-- The loop of `plan` over the areas, from the segment of number `i` on: the headers, the segments
-- and the end of the file.
unfoldable pub plan_segments : List Vma → ℕ → ℕ → List ℕ → Result (List ℕ × List PlannedSegment × ℕ)
plan_segments [] i file_off blob = ok (blob, [], file_off)
plan_segments (v ∷ vs) i file_off blob = do
  blob' ← write blob (64 + 56 * i) (program_header v file_off (vma_size v))
  (last, segs, end) ← plan_segments vs (suc i) (add64 file_off (vma_size v)) blob'
  ok (
    last,
    record { file_off = file_off; file_len = vma_size v; vm_start = v.vm_start } ∷ segs,
    end,
  )

-- The constructor of `ElfCoreStream`, with `plan`.
unfoldable pub elf_core_stream : PageTable → List Vma → Result ElfCoreStream
elf_core_stream pt vmas = do
  let use_count = length (used vmas)
  let padded = data_start use_count
  blob ← write (zeros padded) 0 (elf_header use_count)
  (blob', segs, end) ← plan_segments (used vmas) 0 padded blob
  ok (record { user_pt = pt; header_blob = blob'; segs = segs; total_size = end })

-- The loop of `ElfCoreStream::read` over the segments: the request goes on at `cur` of the file for
-- `remaining` bytes, and `base` bytes of the buffer are in front of them.
unfoldable pub serve_segments :
    PageTable
    → ℕ
    → ℕ
    → ℕ
    → List PlannedSegment
    → UserPageCache
    → List ℕ
    → Result (UserPageCache × List ℕ)
serve_segments pt cur remaining base [] c out = ok (c, out)
serve_segments pt cur remaining base (s ∷ ss) c out =
    let s_end = add64 s.file_off s.file_len in
    let skip = serve_segments pt cur remaining base ss c out in
    let hit_start = max cur s.file_off in
    let hit_len = sub64 (min (add64 cur remaining) s_end) hit_start in
    let serve = cache_read c pt (add64 s.vm_start (sub64 hit_start s.file_off)) hit_len >>= λ r.
    (write out (base + (hit_start - cur)) r.1 >>= λ out'.
    serve_segments pt cur remaining base ss r.0 out') in
    if leb s_end cur
    then skip
    else if leb (add64 cur remaining) s.file_off
    then ok (c, out)
    else serve

-- The two parts of `ElfCoreStream::read` for a request of `n` bytes that the file has.
unfoldable pub serve :
    ElfCoreStream → UserPageCache → ℕ → ℕ → List ℕ → Result (UserPageCache × List ℕ)
serve s c offset n out =
    let header = min (length s.header_blob - offset) n in
    do
      out' ← write out 0 (take header (drop offset s.header_blob))
      if n == header
          then ok (c, out')
          else serve_segments s.user_pt (add64 offset header) (n - header) header s.segs c out'

-- `ElfCoreStream::read`: the cache, the buffer and the count.
unfoldable pub elf_core_read :
    ElfCoreStream → UserPageCache → ℕ → ℕ → Result (UserPageCache × List ℕ × ℕ)
elf_core_read s c offset len =
    if leb s.total_size offset
    then ok (c, zeros len, len)
    else let n = if ltb s.total_size (add64 offset len) then s.total_size - offset else len in
      serve s c offset n (zeros len) >>= λ r. ok (r.0, r.1, n)
