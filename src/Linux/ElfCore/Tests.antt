-- ===== src/Linux/ElfCore/Tests.antt =====
-- Runs of the layout of an ELF core, and its theorems at a concrete process.
use mem_nix_fs.Base.{ℕ, ◌≡◌, refl, List, [], ◌∷◌, length, take, drop, arith, ok}
use mem_nix_fs.Physical.{window}
use mem_nix_fs.Paging.Tests.{self_table, self_image, self-Shows}
use mem_nix_fs.Paging.Cache.{UserPageCache}
use mem_nix_fs.Paging.Cache.Read.{IsGood}
use mem_nix_fs.Paging.Cache.Tests.{empty, empty-IsGood}
use mem_nix_fs.Linux.ElfCore.{
  Vma, vma_size, readable, writable, executable, program_header, data_start, room_left, plan_core,
  count_core, build_elf_core, estimate_elf_core_size, used, ElfCoreStream, elf_core_stream,
  elf_core_read,
}
use mem_nix_fs.Linux.ElfCore.Build.{build_elf_core-estimate}
use mem_nix_fs.Linux.ElfCore.Stream.{file_image}
use mem_nix_fs.Linux.ElfCore.File.{served_count, elf_core_read-build_elf_core}

-- What a run of the layout computes through.
layout_code : Unit {0}
unfolding vma_size readable writable executable program_header data_start room_left plan_core
    count_core estimate_elf_core_size used
layout_code = tt

-- Readable, hidden, empty, and readable and executable.
abbrev areas : List Vma
areas =
    record { vm_start = 6; vm_end = 10; vm_flags = 1 }
    ∷ record { vm_start = 10; vm_end = 20; vm_flags = 2 }
    ∷ record { vm_start = 20; vm_end = 20; vm_flags = 1 }
    ∷ record { vm_start = 20; vm_end = 26; vm_flags = 5 }
    ∷ []

-- The limit cuts the last area short.
areas_planned : (plan_core 7 areas 0).1 ≡ 7
unfolding layout_code
areas_planned = refl

areas_estimated : estimate_elf_core_size areas 7 ≡ 4103
unfolding layout_code
areas_estimated = refl

flags_of_last :
    take 4 (drop 4 (program_header (record { vm_start = 20; vm_end = 26; vm_flags = 5 }) 0 6))
    ≡ 5 ∷ 0 ∷ 0 ∷ 0 ∷ []
unfolding layout_code
flags_of_last = refl

build_elf_core-estimate_example :
    (core : List ℕ) × (build_elf_core self_table areas 7 ≡ ok core)
    × (length core ≡ estimate_elf_core_size areas 7)
unfolding layout_code
build_elf_core-estimate_example =
    build_elf_core-estimate self_table self_image self-Shows (omega arith) areas 7 (omega arith)
      (omega arith) (omega arith, (omega arith, tt))

elf_core_read-build_elf_core_example :
    (s : ElfCoreStream) × (file : List ℕ) × (c' : UserPageCache) × (elf_core_stream self_table areas
      ≡ ok s)
    × (build_elf_core self_table areas 100 ≡ ok file)
    × (s.total_size ≡ length file)
    × (elf_core_read s empty 60 4040
        ≡ ok (c', window (file_image file) 60 4040, served_count (length file) 60 4040))
    × IsGood self_table self_image c'
unfolding layout_code
elf_core_read-build_elf_core_example =
    elf_core_read-build_elf_core self_table self_image self-Shows (omega arith) areas
      (omega arith, (omega arith, tt)) (omega arith) (omega arith) 100 (omega arith) (omega arith)
      empty 60 4040 empty-IsGood (omega arith)
