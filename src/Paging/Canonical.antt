-- ===== src/Paging/Canonical.antt =====
-- arch/x86_64/paging.cpp: `PageTable::translate` looks at the low 48 bits of an address only.
use mem_nix_fs.Base.{
  ℕ, ◌%◌, ◌^◌, ◌≡◌, ap, fun_ext, some, bit_and, arith, Bool-cases, inl, inr, ◌==◌, ok,
}
use mem_nix_fs.Physical.{PhysicalLayer}
use mem_nix_fs.Paging.{
  PageTable, ps_bit, idx, read_entry, on_present, walk_pt, walk_pd, walk_pdpt, translate,
}
use mem_nix_fs.Paging.Entry.{idx-eq, page_4k, page_2mb, page_1gb}

module _ (phys : PhysicalLayer) (a b : ℕ) (same : a % 2 ^ 48 ≡ b % 2 ^ 48) where
  walk_pt-same : (e : ℕ) → walk_pt phys a e ≡ walk_pt phys b e
  unfolding walk_pt
  walk_pt-same e =
      let i : idx a 12 ≡ idx b 12 = omega (arith, idx-eq a 12, idx-eq b 12) in
      rw i (
        ap (on_present (read_entry phys _))
          (fun_ext λ pte. ap (λ t. ok (some t)) (omega (arith, page_4k pte a, page_4k pte b))))

  walk_pd-same : (e : ℕ) → walk_pd phys a e ≡ walk_pd phys b e
  unfolding walk_pd
  walk_pd-same e =
      let i : idx a 21 ≡ idx b 21 = omega (arith, idx-eq a 21, idx-eq b 21) in
      rw i (
        ap (on_present (read_entry phys _)) (
          fun_ext λ pde. elim (Bool-cases (bit_and pde ps_bit == 0)) [
            | inl table ↦ rw table (walk_pt-same pde)
            | inr page ↦
                rw page (ap (λ t. ok (some t)) (omega (arith, page_2mb pde a, page_2mb pde b)))
          ]))

  walk_pdpt-same : (e : ℕ) → walk_pdpt phys a e ≡ walk_pdpt phys b e
  unfolding walk_pdpt
  walk_pdpt-same e =
      let i : idx a 30 ≡ idx b 30 = omega (arith, idx-eq a 30, idx-eq b 30) in
      rw i (
        ap (on_present (read_entry phys _)) (
          fun_ext λ pdpte. elim (Bool-cases (bit_and pdpte ps_bit == 0)) [
            | inl table ↦ rw table (walk_pd-same pdpte)
            | inr page ↦
                rw page (ap (λ t. ok (some t)) (omega (arith, page_1gb pdpte a, page_1gb pdpte b)))
          ]))

-- Addresses that agree in the low 48 bits have one translation: the sign extension of a canonical
-- address does not matter.
pub translate_canonical :
    (pt : PageTable) (a b : ℕ) → a % 2 ^ 48 ≡ b % 2 ^ 48 → translate pt a ≡ translate pt b
unfolding translate
translate_canonical pt a b same =
    let i : idx a 39 ≡ idx b 39 = omega (arith, idx-eq a 39, idx-eq b 39) in
    rw i (ap (on_present (read_entry pt.phys _)) (fun_ext (walk_pdpt-same pt.phys a b same)))
