-- ===== src/Linux/Kva/Tests.antt =====
-- Runs of the reads at kernel addresses, and their theorems at a concrete engine.
use mem_nix_fs.Base.{
  ℕ, ◌+◌, ◌^◌, ◌<◌, ◌≡◌, refl, List, [], ◌∷◌, length, some, none, true, arith, ok,
}
use mem_nix_fs.Paging.Tests.{walk_code, self_table, self_image, self-Shows}
use mem_nix_fs.Linux.Kva.{
  Engine, kernel_pt, kva_to_pa_image, pgd_pa, find_init_pgd, resolve_init_mm_pgd_pa, unresolved,
  or_else, by_init_mm, by_tables, direct_pa, image_pa, by_linear, kva_read, until_zero,
  kva_read_cstr, probe, or_translate, translate_by_init_mm, translate_by_tables, kva_translate,
  kern_va_read, direct_map, kernel_image,
}
use mem_nix_fs.Linux.Kva.Stream.{kern_va_read-IsOk}
use mem_nix_fs.Linux.Kva.Translate.{Agree, kva_read-kva_translate}

-- What a run of the reads computes through.
kva_code : Unit {0}
unfolding walk_code kva_to_pa_image pgd_pa find_init_pgd resolve_init_mm_pgd_pa or_else by_init_mm
    by_tables direct_pa image_pa by_linear kva_read until_zero kva_read_cstr probe or_translate
    translate_by_init_mm translate_by_tables kva_translate kernel_pt
kva_code = tt

-- A direct map of the whole dump, an image at physical address 0, and no init_mm.
abbrev map_base : ℕ
map_base = 0xffff888000000000

abbrev engine : Engine
engine = record {
  phys = self_table.phys;
  dtb = 0;
  dtb_validated = true;
  kaslr_phys_shift = 0;
  direct_map_base = map_base;
  init_mm = none;
  pgd_off = none;
}

reads :
    (kva_read engine unresolved (map_base + 8) (0 ∷ []) 1 ≡ ok (unresolved, 0x81 ∷ [], true))
    × (kva_translate engine unresolved (map_base + 8) ≡ ok (unresolved, some (8, direct_map)))
    × (kva_translate engine unresolved 0xffffffff80000002 ≡ ok (unresolved, some (2, kernel_image)))
unfolding kva_code
reads = (refl, refl, refl)

-- The dump ends 8 bytes behind the address: with 16 bytes at most asked for, the text there is lost.
short_text : kva_read_cstr engine unresolved (map_base + 8) 4 ≡ ok (unresolved, 0x81 ∷ [])
unfolding kva_code
short_text = refl

lost_text : kva_read_cstr engine unresolved (map_base + 8) 16 ≡ ok (0, [])
unfolding kva_code
lost_text = refl

not_resolved : resolve_init_mm_pgd_pa engine unresolved ≡ ok 0
unfolding kva_code
not_resolved = refl

in_image : kva_to_pa_image (map_base + 8) 0 + 1 < 2 ^ 64
unfolding kva_code
in_image = omega arith

kva_read-kva_translate_example :
    Agree self_image
      (kva_read engine unresolved (map_base + 8) (0 ∷ []) 1)
      (kva_translate engine unresolved (map_base + 8))
kva_read-kva_translate_example =
    kva_read-kva_translate engine self_image self-Shows unresolved (map_base + 8) 0 (0 ∷ [])
      (omega arith) not_resolved (omega arith) (omega arith) in_image

kern_va_read-IsOk_example :
    (c : ℕ) × (buf : List ℕ) × (kern_va_read engine unresolved 0x08800000000f 4096
      ≡ ok (c, buf, 4096))
    × (length buf ≡ 4096)
    × (resolve_init_mm_pgd_pa engine c ≡ ok 0)
kern_va_read-IsOk_example =
    kern_va_read-IsOk engine self_image self-Shows (omega arith) 0 (omega arith) (omega arith)
      unresolved 0x08800000000f 4096 not_resolved (omega arith)
