-- ===== src/Formats/Kdump/Tests.antt =====
-- A kdump of two ranges, and the theorems at it.
use mem_nix_fs.Base.{
  ℕ, zero, suc, ◌/◌, ◌%◌, ◌<◌, ◌≡◌, refl, List, [], ◌∷◌, ◌++◌, some, arith, ok, err, IsOk,
  kdump_too_small, bad_alloc, ◌⊎◌, inr, ◌≤◌, sym, subst,
}
use mem_nix_fs.Base.Buffer.{write, zeros}
use mem_nix_fs.Io.{MemorySource, Serves}
use mem_nix_fs.Io.Mmap.{mmap_read, mmap_source, content, mmap_source-Serves}
use mem_nix_fs.Physical.{Shows}
use mem_nix_fs.Formats.Kdump.{
  KdumpPhysical, insert_range, sort_ranges, max_end, kdump_physical, upper_bound, move_past,
  move_at, kdump_loop, kdump_read, kdump_layer,
}
use mem_nix_fs.Formats.Kdump.Header.{
  decode_elf_header, decode_program_header, decode_program_headers, align4, notes_loop,
  extract_vmcoreinfo, take_header, take_headers, check_elf_header, open_kdump, open_kdump_physical,
  vmcoreinfo_name,
}
use mem_nix_fs.Formats.Kdump.Sort.{AreApart}
use mem_nix_fs.Formats.Kdump.Read.{kdump_image, kdump_layer-Shows}
use mem_nix_fs.Formats.Kdump.Open.{file_loads, open_kdump_physical-Shows, extract_vmcoreinfo-IsOk}

kdump_code : Unit {0}
unfolding mmap_read write insert_range sort_ranges max_end kdump_physical upper_bound move_past
    move_at kdump_loop kdump_read kdump_layer decode_elf_header decode_program_header
    decode_program_headers align4 notes_loop extract_vmcoreinfo take_header take_headers
    check_elf_header open_kdump open_kdump_physical
kdump_code = tt

abbrev le_bytes : ℕ → ℕ → List ℕ
le_bytes zero v = []
le_bytes (suc n) v = v % 256 ∷ le_bytes n (v / 256)

abbrev program_header : ℕ → ℕ → ℕ → ℕ → List ℕ
program_header type offset pa size =
    le_bytes 4 type
    ++ (zeros 4
        ++ (le_bytes 8 offset ++ (zeros 8 ++ (le_bytes 8 pa ++ (le_bytes 8 size ++ zeros 16)))))

-- Ranges at the addresses 32 to 34 and 16 to 17, in that order, and four bytes of them in the file,
-- which is cut off behind them.
abbrev dump : List ℕ
dump =
    (0x7F ∷ 0x45 ∷ 0x4C ∷ 0x46 ∷ 2 ∷ 1 ∷ zeros 10)
    ++ (le_bytes 2 4
        ++ (zeros 14
            ++ (le_bytes 8 64 ++ (zeros 14 ++ (le_bytes 2 56 ++ (le_bytes 2 2 ++ zeros 6))))))
    ++ (program_header 1 178 32 3 ++ (program_header 1 176 16 2 ++ (5 ∷ 6 ∷ 7 ∷ 8 ∷ [])))

abbrev source : MemorySource
source = mmap_source dump

-- Vectors of up to a thousand bytes can be allocated.
abbrev memory : ℕ
memory = 1000

abbrev opened : KdumpPhysical
opened = record {
  src = source;
  ranges =
      record { pa_start = 16; pa_size = 2; file_off = 176 }
      ∷ record { pa_start = 32; pa_size = 3; file_off = 178 }
      ∷ [];
  max_pa = 35;
}

dump_opened : open_kdump memory source ≡ ok opened
unfolding kdump_code
dump_opened = refl

-- From address 17: a byte, a hole, two bytes, one that is cut off.
dump_read : kdump_read opened 17 18 ≡ ok (6 ∷ zeros 14 ++ (7 ∷ 8 ∷ 0 ∷ []), 3)
unfolding kdump_code
dump_read = refl

too_small : open_kdump memory (mmap_source (0x7F ∷ [])) ≡ err kdump_too_small
unfolding kdump_code
too_small = refl

source-Serves : Serves source (content dump)
source-Serves = mmap_source-Serves dump (omega arith) (omega arith)

-- The segments in the order of the program headers.
dump_loads :
    file_loads (content dump)
    ≡ record { pa_start = 32; pa_size = 3; file_off = 178 }
      ∷ record { pa_start = 16; pa_size = 2; file_off = 176 }
      ∷ []
dump_loads = refl

dump-AreApart : AreApart (file_loads (content dump))
dump-AreApart =
    subst AreApart (sym dump_loads)
      (omega arith, omega arith, (inr (omega arith), tt), (omega arith, omega arith, tt, tt))

open_kdump_physical-Shows_example :
    (open_kdump_physical memory source ≡ ok (kdump_layer opened))
    × Shows
        (kdump_layer opened)
        (kdump_image source.size (content dump) (file_loads (content dump)))
    × ((a b : ℕ)
        → kdump_image source.size (content dump) (file_loads (content dump)) a ≡ some b
        → a < (kdump_layer opened).max_address)
open_kdump_physical-Shows_example =
    open_kdump_physical-Shows memory source (content dump) opened source-Serves dump_opened
      dump-AreApart

kdump_layer-Shows_example :
    Shows (kdump_layer opened) (kdump_image source.size (content dump) opened.ranges)
kdump_layer-Shows_example =
    kdump_layer-Shows opened (content dump) (record { pa_start = 16; pa_size = 2; file_off = 176 })
      (record { pa_start = 32; pa_size = 3; file_off = 178 } ∷ []) source-Serves refl (omega arith)

-- A note of VMCOREINFO with a text of two bytes, and what the walk finds in it.
abbrev note : List ℕ
note =
    le_bytes 4 11
    ++ (le_bytes 4 2 ++ (le_bytes 4 0 ++ (vmcoreinfo_name ++ (0 ∷ 0 ∷ 72 ∷ 73 ∷ 0 ∷ 0 ∷ []))))

note_found : extract_vmcoreinfo memory (mmap_source note) 0 28 ≡ ok (72 ∷ 73 ∷ [])
unfolding kdump_code
note_found = refl

note-Serves : Serves (mmap_source note) (content note)
note-Serves = mmap_source-Serves note (omega arith) (omega arith)

extract_vmcoreinfo-IsOk_example :
    (IsOk (extract_vmcoreinfo memory (mmap_source note) 0 28) × (28 ≤ memory))
    ⊎ ((extract_vmcoreinfo memory (mmap_source note) 0 28 ≡ err (bad_alloc 28)) × (memory < 28))
extract_vmcoreinfo-IsOk_example =
    extract_vmcoreinfo-IsOk memory (mmap_source note) (content note) note-Serves 0 28
