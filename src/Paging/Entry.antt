-- ===== src/Paging/Entry.antt =====
-- arch/x86_64/paging.cpp: the masks of `PageTable::translate` as arithmetic.
use mem_nix_fs.Base.{
  ℕ, ◌+◌, ◌-◌, ◌*◌, ◌/◌, ◌%◌, ◌^◌, ◌≤◌, ◌<◌, ◌≡◌, ap, ap₂, ◌∙◌, bit_and, bit_or, arith,
}
use mem_nix_fs.Base.Bits.{bit_and-ones, bit_and-shifted, bit_or-disjoint}
use mem_nix_fs.Base.Word.{add64, sub64}
use mem_nix_fs.Paging.{
  addr_mask, addr_2mb, addr_1gb, page_mask, page_align_down, page_align_up, idx,
}

pub idx-eq : (va shift : ℕ) → idx va shift ≡ va / 2 ^ shift % 512
unfolding idx
idx-eq va shift = bit_and-ones 9 (va / 2 ^ shift)

pub addr_mask-eq : (e : ℕ) → bit_and e addr_mask ≡ e / 2 ^ 12 % 2 ^ 40 * 2 ^ 12
addr_mask-eq e =
    bit_and-shifted 12 e (2 ^ 40 - 1) ∙ ap (λ t. t * 2 ^ 12) (bit_and-ones 40 (e / 2 ^ 12))

-- The page's base with the offset of the address in it, for the three sizes of pages.
pub page_4k :
    (e va : ℕ)
    → bit_or (bit_and e addr_mask) (bit_and va 0xFFF) ≡ e / 2 ^ 12 % 2 ^ 40 * 2 ^ 12 + va % 2 ^ 12
page_4k e va =
    ap₂ bit_or (addr_mask-eq e) (bit_and-ones 12 va)
    ∙ bit_or-disjoint 12 (e / 2 ^ 12 % 2 ^ 40) (va % 2 ^ 12) (omega arith)

pub page_2mb :
    (e va : ℕ)
    → bit_or (bit_and e addr_2mb) (bit_and va 0x1FFFFF) ≡ e / 2 ^ 21 % 2 ^ 31 * 2 ^ 21 + va % 2 ^ 21
page_2mb e va =
    ap₂ bit_or
      (bit_and-shifted 21 e (2 ^ 31 - 1) ∙ ap (λ t. t * 2 ^ 21) (bit_and-ones 31 (e / 2 ^ 21)))
      (bit_and-ones 21 va)
    ∙ bit_or-disjoint 21 (e / 2 ^ 21 % 2 ^ 31) (va % 2 ^ 21) (omega arith)

pub page_1gb :
    (e va : ℕ)
    → bit_or (bit_and e addr_1gb) (bit_and va 0x3FFFFFFF)
      ≡ e / 2 ^ 30 % 2 ^ 22 * 2 ^ 30 + va % 2 ^ 30
page_1gb e va =
    ap₂ bit_or
      (bit_and-shifted 30 e (2 ^ 22 - 1) ∙ ap (λ t. t * 2 ^ 30) (bit_and-ones 22 (e / 2 ^ 30)))
      (bit_and-ones 30 va)
    ∙ bit_or-disjoint 30 (e / 2 ^ 30 % 2 ^ 22) (va % 2 ^ 30) (omega arith)

pub page_mask-eq : (va : ℕ) → va < 2 ^ 64 → bit_and va page_mask ≡ va - va % 2 ^ 12
page_mask-eq va h =
    bit_and-shifted 12 va (2 ^ 52 - 1)
    ∙ (ap (λ t. t * 2 ^ 12) (bit_and-ones 52 (va / 2 ^ 12)) ∙ omega arith)

page_align_up-eq : (a : ℕ) → a + 4096 ≤ 2 ^ 64 → page_align_up a ≡ a + 4095 - (a + 4095) % 2 ^ 12
unfolding page_align_up
page_align_up-eq a h =
    let e : sub64 (add64 a 0x1000) 1 ≡ a + 4095 = omega arith in
    rw e (page_mask-eq (a + 4095) (omega arith))

-- Rounding: the greatest multiple of the page size up to an address, and, unless it passes the
-- last 64-bit address, the least one from an address on.
page_align_bounds :
    (a : ℕ)
    → a + 4096 ≤ 2 ^ 64
    → (page_align_down a % 4096 ≡ 0)
      × (page_align_down a ≤ a)
      × (a < page_align_down a + 4096)
      × (page_align_up a % 4096 ≡ 0)
      × (a ≤ page_align_up a)
      × (page_align_up a < a + 4096)
unfolding page_align_down
page_align_bounds a h = omega (arith, page_mask-eq a, page_align_up-eq a)
