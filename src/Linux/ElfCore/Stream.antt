-- ===== src/Linux/ElfCore/Stream.antt =====
-- os/linux/elf_core_stream.cpp: the headers and segments that `plan` lays out.
use mem_nix_fs.Base.{
  ℕ, zero, suc, ◌+◌, ◌*◌, ◌^◌, ◌≤◌, ◌<◌, ◌≡◌, refl, ap, sym, subst, ◌∙◌, List, [], ◌∷◌, ◌++◌,
  append_assoc, append-nil, All, length, take, drop, length-append, arith, ok,
}
use mem_nix_fs.Base.Word.{add64, u64_mod}
use mem_nix_fs.Base.Buffer.{zeros, write, drop-append_left, drop-drop}
use mem_nix_fs.Io.Mmap.{mmap_source, content, slice-bytes}
use mem_nix_fs.Physical.{Image, window, length-window, filled, slice-window}
use mem_nix_fs.Formats.Raw.{raw_image}
use mem_nix_fs.Linux.ElfCore.{Vma, vma_size, program_header, PlannedSegment, plan_segments}
use mem_nix_fs.Linux.ElfCore.Layout.{
  length-program_header, taken, headers, contents, whole, put_header,
}

-- The segments of areas whose data starts at `off`.
abbrev pub segments : ℕ → List Vma → List PlannedSegment
segments off [] = []
segments off (v ∷ vs) =
    record { file_off = off; file_len = vma_size v; vm_start = v.vm_start }
    ∷ segments (off + vma_size v) vs

pub plan_segments_lem :
    (vs : List Vma) (i off z : ℕ) (front : List ℕ)
    → length front ≡ 64 + 56 * i
    → off + taken (whole vs) < u64_mod
    → plan_segments vs i off (front ++ zeros (56 * length vs + z))
      ≡ ok ((front ++ headers off (whole vs)) ++ zeros z, segments off vs, off + taken (whole vs))
unfolding plan_segments
plan_segments_lem [] i off z front h low =
    let e : 56 * 0 + z ≡ z = omega arith in
    let e' : off + 0 ≡ off = omega arith in rw (e, e') (simp append-nil)
plan_segments_lem (v ∷ vs) i off z front h low =
    let n = vma_size v in
    let header = program_header v off n in
    let z' = 56 * length vs + z in
    let e : 56 * suc (length vs) + z ≡ 56 + z' = omega arith in
    let e' : add64 off n ≡ off + n = omega arith in
    let e₂ : off + (n + taken (whole vs)) ≡ off + n + taken (whole vs) = omega arith in
    let size : length (front ++ header) ≡ 64 + 56 * suc i =
      omega (arith, length-append front header, length-program_header v off n) in
    let first : write (front ++ zeros (56 + z')) (64 + 56 * i) header
        ≡ ok ((front ++ header) ++ zeros z') =
      ap (λ t. write (front ++ t) (64 + 56 * i) header) (sym (append-nil (zeros (56 + z'))))
      ∙ (put_header front header [] (64 + 56 * i) z' h (length-program_header v off n)
          ∙ ap (λ t. ok ((front ++ header) ++ t)) (append-nil (zeros z'))) in
    let rest = plan_segments_lem vs (suc i) (off + n) z (front ++ header) size (omega arith) in
    rw (e, first, e', rest, e₂) (simp append_assoc)

-- The segment's bytes in the file are those of the memory.
abbrev pub IsPlaced : Image → List ℕ → PlannedSegment → Type 0
IsPlaced mem file s =
    (k n : ℕ)
    → k + n ≤ s.file_len
    → (take n (drop (s.file_off + k) file) ≡ window mem (s.vm_start + k) n)
      × (s.file_off + k + n ≤ length file)

pub take-drop-append :
    (n k : ℕ) (xs ys : List ℕ) → k + n ≤ length xs → take n (drop k (xs ++ ys)) ≡ take n (drop k xs)
take-drop-append zero k xs ys h = refl
take-drop-append (suc n) zero [] ys h = absurd (omega arith)
take-drop-append (suc n) (suc k) [] ys h = absurd (omega arith)
take-drop-append (suc n) zero (x ∷ xs) ys h =
    ap (◌∷◌ x) (take-drop-append n zero xs ys (omega arith))
take-drop-append (suc n) (suc k) (x ∷ xs) ys h = take-drop-append (suc n) k xs ys (omega arith)

placed :
    (mem : Image) (front : List ℕ) (va n : ℕ) (back : List ℕ)
    → IsPlaced mem
        (front ++ (window mem va n ++ back))
        (record { file_off = length front; file_len = n; vm_start = va })
placed mem front va n back k m h =
    let size = length-window mem va n in
    let here = drop-append_left front (window mem va n ++ back) (length front) refl in
    (
      ap (take m) (sym (drop-drop k (length front) _) ∙ ap (drop k) here)
          ∙ (take-drop-append m k (window mem va n) back (omega (arith, size))
              ∙ slice-window mem va k m n h),
      omega (
        arith,
        size,
        length-append front (window mem va n ++ back),
        length-append (window mem va n) back,
      ),
    )

-- All segments are placed in a file that has the areas' data behind `front`.
pub segments-IsPlaced :
    (mem : Image) (front : List ℕ) (off : ℕ) (vs : List Vma)
    → length front ≡ off
    → All (IsPlaced mem (front ++ contents mem (whole vs))) (segments off vs)
segments-IsPlaced mem front off [] h = tt
segments-IsPlaced mem front off (v ∷ vs) h =
    let n = vma_size v in
    let data_in = window mem v.vm_start n in
    let back = contents mem (whole vs) in
    (
      subst
          (λ t.
            IsPlaced mem (front ++ (data_in ++ back))
              (record { file_off = t; file_len = n; vm_start = v.vm_start }))
          h (placed mem front v.vm_start n back),
      subst (λ t. All (IsPlaced mem t) (segments (off + n) vs)) (append_assoc front data_in back)
          (segments-IsPlaced mem (front ++ data_in) (off + n) vs
            (omega (arith, length-append front data_in, length-window mem v.vm_start n))),
    )

-- The segments follow one another from `lo` to `end`.
abbrev pub IsContiguous : ℕ → ℕ → List PlannedSegment → Type 0
IsContiguous lo end [] = lo ≡ end
IsContiguous lo end (s ∷ ss) = (s.file_off ≡ lo) × IsContiguous (lo + s.file_len) end ss

pub segments-IsContiguous :
    (off : ℕ) (vs : List Vma) → IsContiguous off (off + taken (whole vs)) (segments off vs)
segments-IsContiguous off [] = omega arith
segments-IsContiguous off (v ∷ vs) = (
  refl,
  subst (λ t. IsContiguous (off + vma_size v) t (segments (off + vma_size v) vs)) (omega arith)
      (segments-IsContiguous (off + vma_size v) vs),
)

-- The areas end three pages below the last 64-bit address.
abbrev pub IsNear : List Vma → Type 0
IsNear = All (λ v. v.vm_start + vma_size v + 8192 < 2 ^ 64)

abbrev pub IsNearSegment : PlannedSegment → Type 0
IsNearSegment s = s.vm_start + s.file_len + 8192 < 2 ^ 64

pub segments-IsNear : (off : ℕ) (vs : List Vma) → IsNear vs → All IsNearSegment (segments off vs)
segments-IsNear off [] h = tt
segments-IsNear off (v ∷ vs) h = (h.0, segments-IsNear (off + vma_size v) vs h.1)

-- A file as an image.
abbrev pub file_image : List ℕ → Image
file_image file = raw_image (mmap_source file) (content file)

pub file_slice :
    (file : List ℕ) (a n : ℕ)
    → a + n ≤ length file
    → take n (drop a file) ≡ window (file_image file) a n
file_slice file a n h =
    slice-bytes a n file h
    ∙ sym (filled (file_image file) (content file) a a n (λ x l. ground arith)).0
