-- ===== src/Paging/Tests.antt =====
-- Runs of the page walk over small page tables, and its theorems at concrete inputs.
use mem_nix_fs.Base.{ℕ, ◌+◌, ◌%◌, ◌^◌, ◌<◌, ◌≡◌, refl, List, [], ◌∷◌, some, none, arith, ok, IsOk}
use mem_nix_fs.Base.Buffer.{write}
use mem_nix_fs.Io.Mmap.{mmap_read, mmap_source, content, mmap_source-Serves}
use mem_nix_fs.Physical.{Image, Shows, read_exact, read_u64, window, backed}
use mem_nix_fs.Formats.Raw.{raw_read, open_raw_physical, raw_image, open_raw_physical-Shows}
use mem_nix_fs.Paging.{
  PageTable, idx, read_entry, on_present, walk_pt, walk_pd, walk_pdpt, translate, read_chunk,
  read_pages, page_table_read,
}
use mem_nix_fs.Paging.Translate.{
  page_of, shift_by, translate-page_of, translate-IsFrameOf, translate-IsOk,
}
use mem_nix_fs.Paging.Read.{virtual_image, page_table_read-virtual_image}

-- What a run of the page walk computes through.
unfoldable pub walk_code : Unit {0}
unfolding mmap_read write raw_read open_raw_physical read_exact read_u64 idx read_entry on_present
    walk_pt walk_pd walk_pdpt translate read_chunk read_pages page_table_read
walk_code = tt

-- A layer whose tables are one page at address 0: its first entry names the page itself, so that
-- the walk for address 0 ends in the page itself.
abbrev pub self_dump : List ℕ
self_dump = 1 ∷ 0 ∷ 0 ∷ 0 ∷ 0 ∷ 0 ∷ 0 ∷ 0 ∷ 0x81 ∷ 0 ∷ 0 ∷ 0 ∷ 0 ∷ 0 ∷ 0 ∷ 0 ∷ []

abbrev pub self_table : PageTable
self_table = record { phys = open_raw_physical (mmap_source self_dump); dtb = 0 }

abbrev pub self_image : Image
self_image = raw_image (mmap_source self_dump) (content self_dump)

pub self-Shows : Shows self_table.phys self_image
self-Shows =
    open_raw_physical-Shows (mmap_source self_dump) (content self_dump)
      (mmap_source-Serves self_dump (omega arith) (omega arith))

-- Address 9 through four levels; 2 ^ 30 + 5 through the second PDPT entry, a 1 GB page; and
-- 2 ^ 39 through the second PML4 entry, which names the same tables.
self_walks :
    (translate self_table 9 ≡ ok (some 9))
    × (translate self_table (2 ^ 30 + 5) ≡ ok (some 5))
    × (translate self_table (2 ^ 31) ≡ ok none)
unfolding walk_code
self_walks = (refl, refl, refl)

self_read : page_table_read self_table 6 4 ≡ ok (0 ∷ 0 ∷ 0x81 ∷ 0 ∷ [], 4)
unfolding walk_code
self_read = refl

translate-page_of_example :
    translate self_table 9 ≡ shift_by (9 % 4096) (translate self_table (page_of 9))
translate-page_of_example = translate-page_of self_table 9

translate-IsFrameOf_example : (9 < 2 ^ 52) × (9 % 4096 ≡ 9 % 4096)
translate-IsFrameOf_example = translate-IsFrameOf self_table 9 self_walks.0

translate-IsOk_example : IsOk (translate self_table 9)
translate-IsOk_example = translate-IsOk self_table self_image self-Shows (omega arith) 9

page_table_read-virtual_image_example :
    page_table_read self_table 6 4
    ≡ ok (
      window (virtual_image self_table self_image) 6 4,
      backed (virtual_image self_table self_image) 6 4,
    )
page_table_read-virtual_image_example =
    page_table_read-virtual_image self_table self_image self-Shows (omega arith) 6 4 (omega arith)
