-- ===== src/Formats/Kdump/Header.antt =====
-- formats/kdump_format.cpp: the ELF headers and notes, and `open_kdump_physical`.
use mem_nix_fs.Base.{
  ℕ, zero, suc, ◌+◌, ◌-◌, ◌*◌, ◌/◌, List, [], ◌∷◌, ◌++◌, length, take, drop, Bool, true, false, not,
  ltb, ◌==◌, ◌||◌, ◌&&◌, if◌then◌else◌, bit_and, Result, ok, stuck, ◌>>=◌, ◌>>◌, require,
  kdump_too_small, kdump_not_elf, kdump_not_elf64, kdump_not_little_endian, kdump_no_headers,
  kdump_not_core, kdump_bad_phentsize, kdump_short_headers, kdump_no_load, bad_alloc, leb,
}
use mem_nix_fs.Base.Word.{add64}
use mem_nix_fs.Base.Buffer.{zeros, field, part}
use mem_nix_fs.Io.{MemorySource}
use mem_nix_fs.Physical.{PhysicalLayer}
use mem_nix_fs.Formats.Kdump.{LoadRange, KdumpPhysical, kdump_physical, kdump_layer}

-- The fields of `Elf64_Ehdr` that are read; the struct has 64 bytes.
pub record ElfHeader : Type 0 where
  pub e_ident : List ℕ
  pub e_type : ℕ
  pub e_phoff : ℕ
  pub e_phentsize : ℕ
  pub e_phnum : ℕ

unfoldable pub decode_elf_header : List ℕ → ElfHeader
decode_elf_header bs = record {
  e_ident = take 16 bs;
  e_type = field bs 16 2;
  e_phoff = field bs 32 8;
  e_phentsize = field bs 54 2;
  e_phnum = field bs 56 2;
}

-- The fields of `Elf64_Phdr` that are read; the struct has 56 bytes.
pub record ProgramHeader : Type 0 where
  pub p_type : ℕ
  pub p_offset : ℕ
  pub p_paddr : ℕ
  pub p_filesz : ℕ

unfoldable pub decode_program_header : List ℕ → ProgramHeader
decode_program_header bs = record {
  p_type = field bs 0 4;
  p_offset = field bs 8 8;
  p_paddr = field bs 24 8;
  p_filesz = field bs 32 8;
}

-- The array of program headers.
unfoldable pub decode_program_headers : ℕ → List ℕ → List ProgramHeader
decode_program_headers zero bs = []
decode_program_headers (suc n) bs = decode_program_header bs ∷ decode_program_headers n (drop 56 bs)

-- `align4`
unfoldable pub align4 : ℕ → ℕ
align4 x = bit_and (add64 x 3) 0xfffffffffffffffc

abbrev pub same_bytes : List ℕ → List ℕ → Bool
same_bytes [] [] = true
same_bytes [] (d ∷ ds) = false
same_bytes (c ∷ cs) [] = false
same_bytes (c ∷ cs) (d ∷ ds) = c == d && same_bytes cs ds

-- "VMCOREINFO"
abbrev pub vmcoreinfo_name : List ℕ
vmcoreinfo_name = 86 ∷ 77 ∷ 67 ∷ 79 ∷ 82 ∷ 69 ∷ 73 ∷ 78 ∷ 70 ∷ 79 ∷ []

-- The loop of `extract_vmcoreinfo` over the notes from `p` on. A round takes 12 bytes at least.
unfoldable pub notes_loop : ℕ → List ℕ → ℕ → ℕ → Result (List ℕ)
notes_loop zero buf got p = stuck
notes_loop (suc fuel) buf got p =
    if ltb got (p + 12)
    then ok []
    else part buf p 12 >>= λ nh.
        let namesz = field nh 0 4 in
        let descsz = field nh 4 4 in
        let name_at = p + 12 in
        let desc_at = name_at + align4 namesz in
        let next = desc_at + align4 descsz in
        let rest = notes_loop fuel buf got next in
        if ltb got next
        then ok []
        else part buf name_at (namesz - 1) >>= λ name.
            if same_bytes name vmcoreinfo_name then part buf desc_at descsz else rest

-- `extract_vmcoreinfo`; `memory` is the greatest size of a vector that can be allocated.
unfoldable pub extract_vmcoreinfo : ℕ → MemorySource → ℕ → ℕ → Result (List ℕ)
extract_vmcoreinfo memory src note_off note_size = do
  require (leb note_size memory) (bad_alloc note_size)
  bs ← src.read note_off note_size
  if ltb (length bs) 12
      then ok []
      else notes_loop (length bs / 12 + 1) (bs ++ zeros (note_size - length bs)) (length bs) 0

-- One round of the loop over the program headers: the ranges and VMCOREINFO so far, and after it.
unfoldable pub take_header :
    ℕ → MemorySource → ProgramHeader → List LoadRange → List ℕ → Result (List LoadRange × List ℕ)
take_header memory src ph ranges info =
    if ph.p_type == 1
    then ok (
      if ph.p_filesz == 0
          then ranges
          else ranges
            ++ (record { pa_start = ph.p_paddr; pa_size = ph.p_filesz; file_off = ph.p_offset }
                ∷ []),
      info,
    )
    else (if ph.p_type == 4 && length info == 0
        then (extract_vmcoreinfo memory src ph.p_offset ph.p_filesz >>= λ found. ok (ranges, found))
        else ok (ranges, info))

unfoldable pub take_headers :
    ℕ
    → MemorySource
    → List ProgramHeader
    → List LoadRange
    → List ℕ
    → Result (List LoadRange × List ℕ)
take_headers memory src [] ranges info = ok (ranges, info)
take_headers memory src (ph ∷ phs) ranges info =
    take_header memory src ph ranges info >>= λ r. take_headers memory src phs r.0 r.1

-- The checks on the ELF header, in the order of the code.
unfoldable pub check_elf_header : ElfHeader → Result (Unit {0})
check_elf_header eh = do
  require (same_bytes (take 4 eh.e_ident) (0x7F ∷ 0x45 ∷ 0x4C ∷ 0x46 ∷ [])) kdump_not_elf
  require (field eh.e_ident 4 1 == 2) kdump_not_elf64
  require (field eh.e_ident 5 1 == 1) kdump_not_little_endian
  require (eh.e_type == 4) (kdump_not_core eh.e_type)
  require (not (eh.e_phoff == 0 || eh.e_phnum == 0)) kdump_no_headers
  require (eh.e_phentsize == 56) (kdump_bad_phentsize eh.e_phentsize)

-- `open_kdump_physical`, to the object that it makes
unfoldable pub open_kdump : ℕ → MemorySource → Result KdumpPhysical
open_kdump memory src = do
  bs ← src.read 0 64
  require (not (ltb (length bs) 64)) kdump_too_small
  let eh = decode_elf_header bs
  check_elf_header eh
  table ← src.read eh.e_phoff (eh.e_phnum * 56)
  require (length table == eh.e_phnum * 56) kdump_short_headers
  (ranges, info) ← take_headers memory src (decode_program_headers eh.e_phnum table) [] []
  require (not (length ranges == 0)) kdump_no_load
  ok (kdump_physical src ranges)

-- `open_kdump_physical`
unfoldable pub open_kdump_physical : ℕ → MemorySource → Result PhysicalLayer
open_kdump_physical memory src = do k ← open_kdump memory src; ok (kdump_layer k)
