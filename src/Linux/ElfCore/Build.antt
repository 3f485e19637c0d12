-- ===== src/Linux/ElfCore/Build.antt =====
-- os/linux/elf_core.cpp: `build_elf_core` yields headers and data, and `estimate_elf_core_size` the
-- size of the whole.
use mem_nix_fs.Base.{
  ℕ, suc, ◌+◌, ◌-◌, ◌*◌, ◌^◌, ◌<◌, ◌≡◌, refl, ap, ◌∙◌, List, [], ◌∷◌, ◌++◌, append_assoc,
  append-nil, All, length, length-append, length-replicate, arith, ok,
}
use mem_nix_fs.Base.Word.{add64, u64_mod}
use mem_nix_fs.Base.Buffer.{zeros, zeros-add, write, write_parts}
use mem_nix_fs.Physical.{Image, Shows, window, length-window}
use mem_nix_fs.Paging.{PageTable}
use mem_nix_fs.Paging.Read.{virtual_image, page_table_read-virtual_image}
use mem_nix_fs.Linux.ElfCore.{
  Vma, elf_header, program_header, data_start, plan_core, fill_core, build_elf_core,
  estimate_elf_core_size,
}
use mem_nix_fs.Linux.ElfCore.Layout.{
  length-elf_header, length-program_header, data_start-le, taken, headers, contents, put_header,
  put_data, count_core-plan_core, plan_core-taken,
}

-- What is taken of each area ends below the last 64-bit address.
abbrev pub IsLow : List (Vma × ℕ) → Type 0
IsLow = All (λ p. p.0.vm_start + p.1 < 2 ^ 64)

pub length-headers : (off : ℕ) (ps : List (Vma × ℕ)) → length (headers off ps) ≡ 56 * length ps
length-headers off [] = omega arith
length-headers off ((v, n) ∷ ps) = omega (
  arith,
  length-append (program_header v off n) (headers (off + n) ps),
  length-program_header v off n,
  length-headers (off + n) ps,
)

pub length-contents : (mem : Image) (ps : List (Vma × ℕ)) → length (contents mem ps) ≡ taken ps
length-contents mem [] = refl
length-contents mem ((v, n) ∷ ps) = omega (
  arith,
  length-append (window mem v.vm_start n) (contents mem ps),
  length-window mem v.vm_start n,
  length-contents mem ps,
)

-- The core of a plan: the headers, zeros up to a page, and the data.
abbrev pub core_of : Image → List (Vma × ℕ) → List ℕ
core_of mem ps =
    (elf_header (length ps) ++ headers (data_start (length ps)) ps)
    ++ (zeros (data_start (length ps) - (64 + 56 * length ps)) ++ contents mem ps)

pub length-core_of :
    (mem : Image) (ps : List (Vma × ℕ))
    → length ps < 2 ^ 32
    → length (core_of mem ps) ≡ data_start (length ps) + taken ps
length-core_of mem ps h =
    let n = length ps in
    let pad = data_start n - (64 + 56 * n) in
    omega (
      arith,
      length-append (elf_header n ++ headers (data_start n) ps) (zeros pad ++ contents mem ps),
      length-append (elf_header n) (headers (data_start n) ps),
      length-append (zeros pad) (contents mem ps),
      length-replicate {A = ℕ} pad 0,
      length-elf_header n,
      length-headers (data_start n) ps,
      length-contents mem ps,
      data_start-le n h,
    )

module _ (pt : PageTable) (img : Image) (shows : Shows pt.phys img)
    (dtb : pt.dtb + 4096 < 2 ^ 64) where
  -- The loop, with the headers `front` and the data `done` so far.
  fill_core_lem :
      (ps : List (Vma × ℕ)) (i off z : ℕ) (front done : List ℕ)
      → length front ≡ 64 + 56 * i
      → length front + 56 * length ps + z + length done ≡ off
      → off + taken ps < u64_mod
      → IsLow ps
      → fill_core pt ps i off (front ++ (zeros (56 * length ps + z) ++ (done ++ zeros (taken ps))))
        ≡ ok
            ((front ++ headers off ps) ++ (zeros z ++ (done ++ contents (virtual_image pt img) ps)))
  unfolding fill_core
  fill_core_lem [] i off z front done h k low w =
      let e : 56 * 0 + z ≡ z = omega arith in rw e (simp append-nil)
  fill_core_lem ((v, n) ∷ ps) i off z front done h k low w =
      let mem = virtual_image pt img in
      let header = program_header v off n in
      let data_in = window mem v.vm_start n in
      let z' = 56 * length ps + z in
      let e : 56 * suc (length ps) + z ≡ 56 + z' = omega arith in
      let e' : add64 off n ≡ off + n = omega arith in
      let size : length (front ++ header) ≡ 64 + 56 * suc i =
        omega (arith, length-append front header, length-program_header v off n) in
      let first =
        put_header front header (done ++ zeros (n + taken ps)) (64 + 56 * i) z' h
          (length-program_header v off n) in
      let got = page_table_read-virtual_image pt img shows dtb v.vm_start n w.0 in
      let second =
        put_data (front ++ header) done data_in off n z' (taken ps) (omega arith)
          (length-window mem v.vm_start n) in
      let rest =
        fill_core_lem ps (suc i) (off + n) z (front ++ header) (done ++ data_in) size
          (omega (arith, length-append done data_in, length-window mem v.vm_start n)) (omega arith)
          w.1 in
      rw (e, first, got, second, e', rest) (simp append_assoc)

-- `build_elf_core` returns the headers of its plan, zeros up to a page, and the process's memory at
-- the areas that the plan takes, zeros where it is unmapped, if these end below the last 64-bit
-- address and are fewer than 2 ^ 32.
pub build_elf_core-core_of :
    (pt : PageTable) (img : Image)
    → Shows pt.phys img
    → pt.dtb + 4096 < 2 ^ 64
    → (vmas : List Vma) (max_bytes : ℕ) → max_bytes < 2 ^ 63
    → length (plan_core max_bytes vmas 0).0 < 2 ^ 32
    → IsLow (plan_core max_bytes vmas 0).0
    → build_elf_core pt vmas max_bytes
      ≡ ok (core_of (virtual_image pt img) (plan_core max_bytes vmas 0).0)
unfolding build_elf_core
build_elf_core-core_of pt img shows dtb vmas max_bytes small few low =
    let ps = (plan_core max_bytes vmas 0).0 in
    let total = (plan_core max_bytes vmas 0).1 in
    let n = length ps in
    let start = data_start n in
    let z = start - (64 + 56 * n) in
    let bounds = data_start-le n few in
    let sums = plan_core-taken max_bytes vmas 0 (omega arith) (omega arith) in
    let e : add64 start total ≡ 64 + ((56 * n + z) + taken ps) =
      omega (arith, sums.0, sums.1, bounds.0, bounds.1) in
    let parts : zeros (add64 start total) ≡ zeros 64 ++ (zeros (56 * n + z) ++ zeros (taken ps)) =
      ap zeros e ∙ (zeros-add 64 _ ∙ ap (λ t. zeros 64 ++ t) (zeros-add (56 * n + z) (taken ps))) in
    let first =
      ap (λ t. write t 0 (elf_header n)) parts
      ∙ write_parts [] (zeros 64) (zeros (56 * n + z) ++ zeros (taken ps)) (elf_header n) 0 refl
          (length-elf_header n) in
    let size = length-elf_header n in
    rw first (
      fill_core_lem pt img shows dtb ps 0 start z (elf_header n) [] (omega (arith, size))
        (omega (arith, size, bounds.0)) (omega (arith, sums.0, sums.1, bounds.1)) low)

-- The estimate is the size of the core that is built, without a read of memory, if the areas that
-- are taken end below the last 64-bit address and are fewer than 2 ^ 32, and the limit is below
-- 2 ^ 63.
pub build_elf_core-estimate :
    (pt : PageTable) (img : Image)
    → Shows pt.phys img
    → pt.dtb + 4096 < 2 ^ 64
    → (vmas : List Vma) (max_bytes : ℕ) → max_bytes < 2 ^ 63
    → length (plan_core max_bytes vmas 0).0 < 2 ^ 32
    → IsLow (plan_core max_bytes vmas 0).0
    → (core : List ℕ) × (build_elf_core pt vmas max_bytes ≡ ok core)
      × (length core ≡ estimate_elf_core_size vmas max_bytes)
unfolding estimate_elf_core_size
build_elf_core-estimate pt img shows dtb vmas max_bytes small few low =
    let (ps, total) = plan_core max_bytes vmas 0 in
    let mem = virtual_image pt img in
    let bounds = data_start-le (length ps) few in
    let sums = plan_core-taken max_bytes vmas 0 (omega arith) (omega arith) in
    let counted = count_core-plan_core max_bytes vmas 0 0 in
    let size = length-core_of mem ps few in
    let count : 0 + length ps ≡ length ps = omega arith in
    (
      core_of mem ps,
      build_elf_core-core_of pt img shows dtb vmas max_bytes small few low,
      rw (counted, count) (omega (arith, size, sums.0, sums.1, bounds.1)),
    )
