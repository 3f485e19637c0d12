-- ===== src/Linux/ElfCore/Layout.antt =====
-- os/linux/elf_core.cpp: where headers and data lie in a core, and the size of the whole.
use mem_nix_fs.Base.{
  ℕ, suc, ◌+◌, ◌-◌, ◌*◌, ◌^◌, ◌≤◌, ◌<◌, ◌≡◌, refl, ap, ap₂, sym, ◌∙◌, List, [], ◌∷◌, ◌++◌,
  append_assoc, min, length, length-append, length-replicate, arith, ltb, ◌==◌, if◌then◌else◌,
  Bool-cases, inl, inr, ok,
}
use mem_nix_fs.Base.Word.{add64, u64_mod}
use mem_nix_fs.Base.Buffer.{zeros, zeros-add, write, write_parts}
use mem_nix_fs.Physical.{Image, window}
use mem_nix_fs.Paging.Entry.{page_mask-eq}
use mem_nix_fs.Linux.ElfCore.{
  Vma, vma_size, readable, elf_header, program_header, data_start, room_left, plan_core, count_core,
  used,
}

pub length-elf_header : (n : ℕ) → length (elf_header n) ≡ 64
unfolding elf_header
length-elf_header n = refl

pub length-program_header : (v : Vma) (off n : ℕ) → length (program_header v off n) ≡ 56
unfolding program_header
length-program_header v off n = refl

-- The data starts behind the headers.
pub data_start-le : (n : ℕ) → n < 2 ^ 32 → (64 + 56 * n ≤ data_start n) × (data_start n < 2 ^ 40)
unfolding data_start
data_start-le n h =
    let e : add64 (64 + n * 56) 0xFFF ≡ 64 + n * 56 + 0xFFF = omega arith in
    rw e (omega (arith, page_mask-eq (64 + n * 56 + 0xFFF)))

-- The bytes of the parts of a plan.
abbrev pub taken : List (Vma × ℕ) → ℕ
taken [] = 0
taken ((v, n) ∷ ps) = n + taken ps

-- The program headers of a plan whose data starts at `off`.
abbrev pub headers : ℕ → List (Vma × ℕ) → List ℕ
headers off [] = []
headers off ((v, n) ∷ ps) = program_header v off n ++ headers (off + n) ps

-- The data of a plan, in a memory.
abbrev pub contents : Image → List (Vma × ℕ) → List ℕ
contents mem [] = []
contents mem ((v, n) ∷ ps) = window mem v.vm_start n ++ contents mem ps

-- The plan that takes every area whole.
abbrev pub whole : List Vma → List (Vma × ℕ)
whole [] = []
whole (v ∷ vs) = (v, vma_size v) ∷ whole vs

pub length-whole : (vs : List Vma) → length (whole vs) ≡ length vs
length-whole [] = refl
length-whole (v ∷ vs) = ap suc (length-whole vs)

-- A program header is stored in front of the zeros behind the headers so far.
pub put_header :
    (front header tail : List ℕ) (at z : ℕ)
    → length front ≡ at
    → length header ≡ 56
    → write (front ++ (zeros (56 + z) ++ tail)) at header
      ≡ ok ((front ++ header) ++ (zeros z ++ tail))
put_header front header tail at z h k =
    let parts : zeros (56 + z) ++ tail ≡ zeros 56 ++ (zeros z ++ tail) =
      ap (λ t. t ++ tail) (zeros-add 56 z) ∙ append_assoc (zeros 56) (zeros z) tail in
    ap (λ t. write (front ++ t) at header) parts
    ∙ (write_parts front (zeros 56) (zeros z ++ tail) header at h k
        ∙ ap ok (sym (append_assoc front header (zeros z ++ tail))))

-- Data is stored in front of the zeros behind the data so far.
pub put_data :
    (front done new : List ℕ) (off n z rest : ℕ)
    → length front + z + length done ≡ off
    → length new ≡ n
    → write (front ++ (zeros z ++ (done ++ zeros (n + rest)))) off new
      ≡ ok (front ++ (zeros z ++ ((done ++ new) ++ zeros rest)))
put_data front done new off n z rest h k =
    let before = front ++ (zeros z ++ done) in
    let size : length before ≡ off = omega (
      arith,
      length-append front (zeros z ++ done),
      length-append (zeros z) done,
      length-replicate {A = ℕ} z 0,
    ) in
    let parts : front ++ (zeros z ++ (done ++ zeros (n + rest)))
        ≡ before ++ (zeros n ++ zeros rest) =
      rw (zeros-add n rest) (simp append_assoc) in
    ap (λ t. write t off new) parts
    ∙ (write_parts before (zeros n) (zeros rest) new off size
          (k ∙ sym (length-replicate {A = ℕ} n 0))
        ∙ ap ok (simp append_assoc))

-- The estimate counts what the plan plans.
pub count_core-plan_core :
    (max_bytes : ℕ) (vs : List Vma) (phnum total : ℕ)
    → count_core max_bytes vs phnum total
      ≡ (phnum + length (plan_core max_bytes vs total).0, (plan_core max_bytes vs total).1)
unfolding count_core plan_core
count_core-plan_core max_bytes [] phnum total = ground arith
count_core-plan_core max_bytes (v ∷ vs) phnum total =
    let part = min (vma_size v) (room_left max_bytes total) in
    let same = count_core-plan_core max_bytes vs phnum total in
    let rest = count_core-plan_core max_bytes vs (suc phnum) (add64 total part) in
    elim (Bool-cases (readable v)) [
      | inr hidden ↦ rw hidden same
      | inl shown ↦ elim (Bool-cases (vma_size v == 0)) [
        | inl empty ↦ rw (shown, empty) same
        | inr some_bytes ↦ elim (Bool-cases (part == 0)) [
          | inl full ↦ rw (shown, some_bytes, full) (ground arith)
          | inr fits ↦ rw (shown, some_bytes, fits) (rest ∙ ap₂ (λ a b. (a, b)) (omega arith) refl)
        ]
      ]
    ]

-- What the plan takes is its sum, and no more than the limit.
pub plan_core-taken :
    (max_bytes : ℕ) (vs : List Vma) (total : ℕ)
    → max_bytes < u64_mod
    → total ≤ max_bytes
    → ((plan_core max_bytes vs total).1 ≡ total + taken (plan_core max_bytes vs total).0)
      × ((plan_core max_bytes vs total).1 ≤ max_bytes)
unfolding plan_core room_left
plan_core-taken max_bytes [] total h k = omega arith
plan_core-taken max_bytes (v ∷ vs) total h k =
    let left = if ltb total max_bytes then max_bytes - total else 0 in
    let part = min (vma_size v) left in
    let room : total + part ≤ max_bytes = ground arith in
    let same = plan_core-taken max_bytes vs total h k in
    let rest = plan_core-taken max_bytes vs (add64 total part) h (omega arith) in
    elim (Bool-cases (readable v)) [
      | inr hidden ↦ rw hidden same
      | inl shown ↦ elim (Bool-cases (vma_size v == 0)) [
        | inl empty ↦ rw (shown, empty) same
        | inr some_bytes ↦ elim (Bool-cases (part == 0)) [
          | inl full ↦ rw (shown, some_bytes, full) (omega arith)
          | inr fits ↦ rw (shown, some_bytes, fits) (omega (arith, rest.0, rest.1))
        ]
      ]
    ]

-- Where the limit is not reached, the plan takes every area whole that the stream uses.
pub plan_core-whole :
    (max_bytes : ℕ) (vs : List Vma) (total : ℕ)
    → max_bytes < u64_mod
    → total + taken (whole (used vs)) ≤ max_bytes
    → plan_core max_bytes vs total ≡ (whole (used vs), total + taken (whole (used vs)))
unfolding plan_core room_left used
plan_core-whole max_bytes [] total h k = ground arith
plan_core-whole max_bytes (v ∷ vs) total h k =
    let left = if ltb total max_bytes then max_bytes - total else 0 in
    let part = min (vma_size v) left in
    elim (Bool-cases (readable v)) [
      | inr hidden ↦ rw hidden (plan_core-whole max_bytes vs total h (rw hidden at k))
      | inl shown ↦ elim (Bool-cases (vma_size v == 0)) [
        | inl empty ↦
            rw (shown, empty) (plan_core-whole max_bytes vs total h (rw (shown, empty) at k))
        | inr some_bytes ↦
            let room : total + (vma_size v + taken (whole (used vs))) ≤ max_bytes =
              rw (shown, some_bytes) at k in
            let all : part ≡ vma_size v = ground arith in
            let sum : add64 total (vma_size v) ≡ total + vma_size v = omega arith in
            let rest = plan_core-whole max_bytes vs (total + vma_size v) h (omega arith) in
            rw (shown, some_bytes, all, some_bytes, sum, rest)
              (ap₂ (λ a b. (a, b)) refl (omega arith))
      ]
    ]
