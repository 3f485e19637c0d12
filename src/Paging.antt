-- ===== src/Paging.antt =====
-- arch/x86_64/paging.cpp: `PageTable`, four-level page tables (PML4, PDPT, PD, PT) with 1 GB and
-- 2 MB pages, over a physical layer.
pub mod Entry
pub mod Translate
pub mod Read
pub mod Canonical
pub mod Cache
pub mod Tests
use mem_nix_fs.Base.{
  ℕ, zero, suc, ◌+◌, ◌-◌, ◌*◌, ◌/◌, ◌^◌, List, [], ◌∷◌, Option, none, some, Bool, min, bit_and,
  bit_or, ◌==◌, if◌then◌else◌, length, Result, ok, stuck, ◌>>=◌,
}
use mem_nix_fs.Base.Word.{add64, sub64}
use mem_nix_fs.Base.Buffer.{zeros, write}
use mem_nix_fs.Physical.{PhysicalLayer, read_u64}

-- kPresent, kPSBit, kAddrMask, kAddr2MB, kAddr1GB
abbrev pub present_bit : ℕ
present_bit = 1

abbrev pub ps_bit : ℕ
ps_bit = 0x80

abbrev pub addr_mask : ℕ
addr_mask = 0x000ffffffffff000

abbrev pub addr_2mb : ℕ
addr_2mb = 0x000fffffffe00000

abbrev pub addr_1gb : ℕ
addr_1gb = 0x000fffffc0000000

-- kPageSize, kPageMask of core/types.h
abbrev pub page_size : ℕ
page_size = 0x1000

abbrev pub page_mask : ℕ
page_mask = 0xfffffffffffff000

-- `page_align_down` and `page_align_up` of core/types.h
unfoldable pub page_align_down : ℕ → ℕ
page_align_down a = bit_and a page_mask

unfoldable pub page_align_up : ℕ → ℕ
page_align_up a = bit_and (sub64 (add64 a page_size) 1) page_mask

-- `idx`: the nine bits of an address that index a table
unfoldable pub idx : ℕ → ℕ → ℕ
idx va shift = bit_and (va / 2 ^ shift) 0x1FF

-- `PageTable`: the layer, and the physical address of the top table
pub record PageTable : Type 0 where
  pub phys : PhysicalLayer
  pub dtb : ℕ

-- An 8-byte entry, if it can be read and is present: the guard that each level begins with.
unfoldable pub read_entry : PhysicalLayer → ℕ → Result (Option ℕ)
read_entry phys pa = do
  r ← read_u64 phys pa
  ok (elim r [ none ↦ none | some e ↦ if bit_and e present_bit == 0 then none else some e ])

-- The rest of a walk behind an entry: `return std::nullopt` if there is none.
unfoldable pub on_present : Result (Option ℕ) → (ℕ → Result (Option ℕ)) → Result (Option ℕ)
on_present r rest = r >>= λ o. elim o [ none ↦ ok none | some e ↦ rest e ]

-- The last level of `translate`, from the PD entry `e`.
unfoldable pub walk_pt : PhysicalLayer → ℕ → ℕ → Result (Option ℕ)
walk_pt phys va e =
    on_present (read_entry phys (add64 (bit_and e addr_mask) (idx va 12 * 8)))
      (λ pte. ok (some (bit_or (bit_and pte addr_mask) (bit_and va 0xFFF))))

-- The PD level, from the PDPT entry `e`: a 2 MB page, or on to the page table.
unfoldable pub walk_pd : PhysicalLayer → ℕ → ℕ → Result (Option ℕ)
walk_pd phys va e =
    on_present (read_entry phys (add64 (bit_and e addr_mask) (idx va 21 * 8))) (λ pde.
      if bit_and pde ps_bit == 0
      then walk_pt phys va pde
      else ok (some (bit_or (bit_and pde addr_2mb) (bit_and va 0x1FFFFF))))

-- The PDPT level, from the PML4 entry `e`: a 1 GB page, or on to the page directory.
unfoldable pub walk_pdpt : PhysicalLayer → ℕ → ℕ → Result (Option ℕ)
walk_pdpt phys va e =
    on_present (read_entry phys (add64 (bit_and e addr_mask) (idx va 30 * 8))) (λ pdpte.
      if bit_and pdpte ps_bit == 0
      then walk_pd phys va pdpte
      else ok (some (bit_or (bit_and pdpte addr_1gb) (bit_and va 0x3FFFFFFF))))

-- `PageTable::translate`
unfoldable pub translate : PageTable → ℕ → Result (Option ℕ)
translate pt va =
    on_present (read_entry pt.phys (add64 pt.dtb (idx va 39 * 8))) (walk_pdpt pt.phys va)

-- What a round of `PageTable::read` stores at `done` for its chunk: the buffer and the count.
unfoldable pub read_chunk : PageTable → Option ℕ → ℕ → ℕ → ℕ → List ℕ → Result (List ℕ × ℕ)
read_chunk pt none page_off chunk done dst = ok (dst, 0)
read_chunk pt (some pa) page_off chunk done dst = do
  (buf, got) ← pt.phys.read (add64 pa page_off) chunk
  dst' ← write dst done buf
  ok (dst', got)

-- The loop of `PageTable::read`: `len` bytes are left, `done` are behind `dst`.
unfoldable pub read_pages : ℕ → PageTable → ℕ → ℕ → ℕ → List ℕ → ℕ → Result (List ℕ × ℕ)
read_pages fuel pt va zero done dst total = ok (dst, total)
read_pages zero pt va (suc len) done dst total = stuck
read_pages (suc fuel) pt va (suc len) done dst total = do
  let page_off = bit_and va (page_size - 1)
  let chunk = min (suc len) (page_size - page_off)
  pa ← translate pt (bit_and va page_mask)
  (dst', got) ← read_chunk pt pa page_off chunk done dst
  read_pages fuel pt (add64 va chunk) (suc len - chunk) (done + chunk) dst' (add64 total got)

-- `PageTable::read`: the buffer, and the count of bytes that were there. A round takes a byte at
-- least, so `len` rounds are enough.
unfoldable pub page_table_read : PageTable → ℕ → ℕ → Result (List ℕ × ℕ)
page_table_read pt va len = read_pages len pt va len 0 (zeros len) 0
