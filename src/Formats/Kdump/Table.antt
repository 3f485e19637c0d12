-- ===== src/Formats/Kdump/Table.antt =====
-- formats/kdump_format.cpp: the ranges are the PT_LOAD segments that the program headers name.
use mem_nix_fs.Base.{
  ℕ, zero, suc, ◌+◌, ◌*◌, ◌≤◌, ◌≡◌, refl, ap, sym, ◌∙◌, List, [], ◌∷◌, ◌++◌, All, All-append, drop,
  append-nil, append_assoc, not, ◌==◌, ◌&&◌, if◌then◌else◌, Bool-cases, inl, inr, arith, length, ok,
  >>=-eq-ok, ok-injective,
}
use mem_nix_fs.Io.{MemorySource, bytes, word, field-word, drop-bytes}
use mem_nix_fs.Formats.Kdump.{LoadRange}
use mem_nix_fs.Formats.Kdump.Header.{
  ProgramHeader, decode_program_header, decode_program_headers, take_header, take_headers,
  extract_vmcoreinfo,
}
use mem_nix_fs.Formats.Kdump.Sort.{IsFull}

-- The segment of a program header at `at`, if it is a PT_LOAD one and has bytes in the file: p_type,
-- p_offset, p_paddr and p_filesz stand at 0, 8, 24 and 32.
abbrev pub load_at : (ℕ → ℕ) → ℕ → List LoadRange
load_at file at =
    if word file at 4 == 1 && not (word file (at + 32) 8 == 0)
    then record {
      pa_start = word file (at + 24) 8;
      pa_size = word file (at + 32) 8;
      file_off = word file (at + 8) 8;
    }
      ∷ []
    else []

-- The segments of the `n` program headers from `at` on, 56 bytes each.
abbrev pub loads : (ℕ → ℕ) → ℕ → ℕ → List LoadRange
loads file at zero = []
loads file at (suc n) = load_at file at ++ loads file (at + 56) n

load_at-IsFull : (file : ℕ → ℕ) (at : ℕ) → All IsFull (load_at file at)
load_at-IsFull file at =
    elim (Bool-cases (word file at 4 == 1 && not (word file (at + 32) 8 == 0))) [
      | inl e ↦ rw e (ground (arith, e), tt)
      | inr e ↦ rw e tt
    ]

pub loads-IsFull : (file : ℕ → ℕ) (at n : ℕ) → All IsFull (loads file at n)
loads-IsFull file at zero = tt
loads-IsFull file at (suc n) =
    All-append IsFull (load_at file at) (loads file (at + 56) n) (load_at-IsFull file at)
      (loads-IsFull file (at + 56) n)

-- The segment of a decoded header.
abbrev load_of : ProgramHeader → List LoadRange
load_of ph =
    if ph.p_type == 1 && not (ph.p_filesz == 0)
    then record { pa_start = ph.p_paddr; pa_size = ph.p_filesz; file_off = ph.p_offset } ∷ []
    else []

take_header-load_of :
    (memory : ℕ) (src : MemorySource) (ph : ProgramHeader) (ranges : List LoadRange) (info : List ℕ)
    {r : List LoadRange × List ℕ}
    → take_header memory src ph ranges info ≡ ok r
    → r.0 ≡ ranges ++ load_of ph
unfolding take_header
take_header-load_of memory src ph ranges info {r} e = elim (Bool-cases (ph.p_type == 1)) [
  | inl load ↦ elim (Bool-cases (ph.p_filesz == 0)) [
    | inl empty ↦
        let same = ok-injective (rw (load, empty) at e) in
        rw (load, empty) (sym (ap (λ t. t.0) same) ∙ sym (append-nil ranges))
    | inr full ↦
        let same = ok-injective (rw (load, full) at e) in rw (load, full) (sym (ap (λ t. t.0) same))
  ]
  | inr other ↦ elim (Bool-cases (ph.p_type == 4 && length info == 0)) [
    | inl note ↦
        let (found, _, rest) =
          >>=-eq-ok (extract_vmcoreinfo memory src ph.p_offset ph.p_filesz) _
            (rw (other, note) at e) in
        rw other (sym (ap (λ t. t.0) (ok-injective rest)) ∙ sym (append-nil ranges))
    | inr left ↦
        let same = ok-injective (rw (other, left) at e) in
        rw other (sym (ap (λ t. t.0) same) ∙ sym (append-nil ranges))
  ]
]

decode_program_header-load_at :
    (file : ℕ → ℕ) (at len : ℕ)
    → 56 ≤ len
    → load_of (decode_program_header (bytes file at len)) ≡ load_at file at
unfolding decode_program_header
decode_program_header-load_at file at len h =
    let e : at + 0 ≡ at = omega arith in
    rw
      (
        field-word file at len 0 4 (omega arith),
        field-word file at len 8 8 (omega arith),
        field-word file at len 24 8 (omega arith),
        field-word file at len 32 8 (omega arith),
        e,
      )
      refl

pub take_headers-loads :
    (memory : ℕ) (src : MemorySource) (file : ℕ → ℕ) (n at : ℕ) (ranges : List LoadRange)
    (info : List ℕ) {r : List LoadRange × List ℕ}
    → take_headers memory src (decode_program_headers n (bytes file at (n * 56))) ranges info ≡ ok r
    → r.0 ≡ ranges ++ loads file at n
unfolding take_headers decode_program_headers
take_headers-loads memory src file zero at ranges info e =
    sym (ap (λ t. t.0) (ok-injective e)) ∙ sym (append-nil ranges)
take_headers-loads memory src file (suc n) at ranges info e =
    let (mid, first, rest) =
      >>=-eq-ok
        (take_header memory src (decode_program_header (bytes file at (suc n * 56))) ranges info) _
        e in
    let cut : drop 56 (bytes file at (suc n * 56)) ≡ bytes file (at + 56) (n * 56) =
      drop-bytes file at (suc n * 56) 56 (omega arith) ∙ ap (bytes file (at + 56)) (omega arith) in
    let later = take_headers-loads memory src file n (at + 56) mid.0 mid.1 (rw cut at rest) in
    let head =
      take_header-load_of memory src _ ranges info first
      ∙ ap (λ t. ranges ++ t) (decode_program_header-load_at file at (suc n * 56) (omega arith)) in
    later
    ∙ (ap (λ t. t ++ loads file (at + 56) n) head
        ∙ append_assoc ranges (load_at file at) (loads file (at + 56) n))
