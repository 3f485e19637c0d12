-- ===== src/Paging/Cache/Key.antt =====
-- arch/x86_64/page_cache.h: within one page table, `key` tells pages apart.
use mem_nix_fs.Base.{ℕ, ◌*◌, ◌/◌, ◌%◌, ◌^◌, ◌<◌, ◌≡◌, ap, sym, ◌∙◌, bit_and, bit_xor, arith}
use mem_nix_fs.Base.Bits.{bit_and-ones, bit_xor_cancel}
use mem_nix_fs.Base.Word.{u64_mod}
use mem_nix_fs.Paging.Cache.{key}

-- The multiplier is odd, so that a product mod 2^64 has its factor back by the inverse.
multiplier_inverse :
    (x : ℕ) → x < 2 ^ 64 → x * 0x9E3779B97F4A7C15 % u64_mod * 17428512612931826493 % u64_mod ≡ x
multiplier_inverse x h = omega arith

-- Two addresses with the same key under one page table lie in the same page of the 48-bit
-- address space: the hash that the cache uses as a key has no collisions there.
pub key-injective : (pgd a b : ℕ) → key pgd a ≡ key pgd b → a / 4096 % 2 ^ 36 ≡ b / 4096 % 2 ^ 36
unfolding key
key-injective pgd a b e =
    let p = pgd / 2 ^ 12 in
    let x = bit_and a 0x0000FFFFFFFFFFFF / 2 ^ 12 in
    let y = bit_and b 0x0000FFFFFFFFFFFF / 2 ^ 12 in
    let hx : x ≡ a / 4096 % 2 ^ 36 = omega (arith, bit_and-ones 48 a) in
    let hy : y ≡ b / 4096 % 2 ^ 36 = omega (arith, bit_and-ones 48 b) in
    let hashes : x * 0x9E3779B97F4A7C15 % u64_mod ≡ y * 0x9E3779B97F4A7C15 % u64_mod =
      sym (bit_xor_cancel p _) ∙ (ap (bit_xor p) e ∙ bit_xor_cancel p _) in
    let same : x ≡ y =
      sym (multiplier_inverse x (omega arith))
      ∙ (ap (λ t. t * 17428512612931826493 % u64_mod) hashes
          ∙ multiplier_inverse y (omega arith)) in
    sym hx ∙ (same ∙ hy)
