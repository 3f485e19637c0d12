-- ===== src/Formats/Factory.antt =====
-- formats/format_factory.cpp: the format of a dump by its first four bytes.
mod Tests
use mem_nix_fs.Base.{
  ℕ, zero, suc, ◌+◌, ◌-◌, ◌*◌, ◌/◌, ◌^◌, ◌≤◌, ◌≡◌, ◌≢◌, refl, ap, ap₂, sym, ◌∙◌, List, [], ◌∷◌,
  ◌++◌, length, min, not, Bool, true, false, ltb, ◌==◌, ◌&&◌, ◌||◌, if◌then◌else◌, ◌<◌, Bool-cases,
  inl, inr, arith, Result, ok, err, stuck, ◌>>=◌, require, >>=-ne-stuck, require-ne-stuck, IsOk,
}
use mem_nix_fs.Base.Buffer.{zeros, le_value}
use mem_nix_fs.Io.{MemorySource, Serves, bytes, length-bytes}
use mem_nix_fs.Physical.{PhysicalLayer, Shows, window}
use mem_nix_fs.Formats.Raw.{open_raw_physical, raw_image, raw_split, open_raw_physical-Shows}
use mem_nix_fs.Formats.Lime.{load_segments, lime_layer, open_lime_physical}
use mem_nix_fs.Formats.Lime.Load.{load_segments-ne-stuck}
use mem_nix_fs.Formats.Kdump.{kdump_physical, kdump_layer, LoadRange}
use mem_nix_fs.Formats.Kdump.Header.{
  ElfHeader, ProgramHeader, decode_elf_header, decode_program_headers, check_elf_header,
  take_header, take_headers, extract_vmcoreinfo, open_kdump, open_kdump_physical,
}
use mem_nix_fs.Formats.Kdump.Open.{extract_vmcoreinfo-IsOk}
use mem_nix_fs.Formats.Avml.{Snappy, AvmlPhysical}
use mem_nix_fs.Formats.Avml.Load.{avml_magic, read_into, load_chunks}
use mem_nix_fs.Formats.Avml.Open.{load_chunks-ne-stuck}

-- kLimeMagic and kElfMagic
abbrev pub lime_magic : ℕ
lime_magic = 0x4C694D45

abbrev pub elf_magic : ℕ
elf_magic = 0x464C457F

-- The layer that is opened; AVML's keeps a cache.
pub data Opened : Type 0 where
  avml : AvmlPhysical → Opened
  plain : PhysicalLayer → Opened

-- `open_avml_physical`
unfoldable pub open_avml_physical : Snappy → MemorySource → Result Opened
open_avml_physical z src = do a ← load_chunks z src; ok (avml a)

-- The tests of `open_physical_layer` on the magic; `memory` is the greatest size of a vector that can
-- be allocated for a kdump's notes.
unfoldable pub open_as : ℕ → Snappy → MemorySource → ℕ → Result Opened
open_as memory z src magic =
    if magic == avml_magic
    then open_avml_physical z src
    else if magic == lime_magic
    then (open_lime_physical src >>= λ l. ok (plain l))
    else if magic == elf_magic
    then (open_kdump_physical memory src >>= λ l. ok (plain l))
    else ok (plain (open_raw_physical src))

-- `open_physical_layer`
unfoldable pub open_physical_layer : ℕ → Snappy → MemorySource → Result Opened
open_physical_layer memory z src = do bs ← read_into src 0 4 4; open_as memory z src (le_value bs)

module _ (memory : ℕ) (src : MemorySource) (file : ℕ → ℕ) (serves : Serves src file) where
  check_elf_header-ne-stuck : (eh : ElfHeader) → check_elf_header eh ≢ stuck
  unfolding check_elf_header
  check_elf_header-ne-stuck eh e = ground arith

  take_header-ne-stuck :
      (ph : ProgramHeader) (ranges : List LoadRange) (info : List ℕ)
      → take_header memory src ph ranges info ≢ stuck
  unfolding take_header
  take_header-ne-stuck ph ranges info e =
      elim (extract_vmcoreinfo-IsOk memory src file serves ph.p_offset ph.p_filesz) [
        | inl ((found, done), _) ↦ ground (arith, rw done at e)
        | inr (failed, _) ↦ ground (arith, rw failed at e)
      ]

  take_headers-ne-stuck :
      (phs : List ProgramHeader) (ranges : List LoadRange) (info : List ℕ)
      → take_headers memory src phs ranges info ≢ stuck
  unfolding take_headers
  take_headers-ne-stuck [] ranges info = λ e. cc
  take_headers-ne-stuck (ph ∷ phs) ranges info =
      >>=-ne-stuck (take_header memory src ph ranges info) _ (take_header-ne-stuck ph ranges info)
        (λ r. take_headers-ne-stuck phs r.0 r.1)

  read-ne-stuck : (off len : ℕ) → src.read off len ≢ stuck
  read-ne-stuck off len e = let e' = sym (serves.reads off len) ∙ e in cc

  open_kdump-ne-stuck : open_kdump memory src ≢ stuck
  unfolding open_kdump
  open_kdump-ne-stuck = >>=-ne-stuck (src.read 0 64) _ (read-ne-stuck 0 64) λ bs.
      >>=-ne-stuck (require (not (ltb (length bs) 64)) _) _ (require-ne-stuck _ _) λ u.
        let eh = decode_elf_header bs in
        >>=-ne-stuck (check_elf_header eh) _ (check_elf_header-ne-stuck eh) λ v.
          >>=-ne-stuck (src.read eh.e_phoff (eh.e_phnum * 56)) _ (read-ne-stuck _ _) λ table.
            >>=-ne-stuck (require (length table == eh.e_phnum * 56) _) _ (require-ne-stuck _ _) λ w.
              >>=-ne-stuck (take_headers memory src (decode_program_headers eh.e_phnum table) [] [])
                _ (take_headers-ne-stuck (decode_program_headers eh.e_phnum table) [] [])
                λ r.
                  >>=-ne-stuck (require (not (length r.0 == 0)) _) _ (require-ne-stuck _ _)
                    (λ x e. cc)

  open_as-ne-stuck : (z : Snappy) (magic : ℕ) → open_as memory z src magic ≢ stuck
  unfolding open_as open_avml_physical open_lime_physical open_kdump_physical
  open_as-ne-stuck z magic = elim (Bool-cases (magic == avml_magic)) [
    | inl a ↦
        rw a
          (>>=-ne-stuck (load_chunks z src) _ (load_chunks-ne-stuck z src file serves) (λ r e. cc))
    | inr not_a ↦ elim (Bool-cases (magic == lime_magic)) [
      | inl l ↦
          rw (not_a, l)
            (>>=-ne-stuck (load_segments src >>= λ s. ok (lime_layer s)) _
              (>>=-ne-stuck (load_segments src) _ (load_segments-ne-stuck src file serves)
                (λ s e. cc))
              (λ r e. cc))
      | inr not_l ↦ elim (Bool-cases (magic == elf_magic)) [
        | inl k ↦
            rw (not_a, not_l, k)
              (>>=-ne-stuck (open_kdump memory src >>= λ k. ok (kdump_layer k)) _
                (>>=-ne-stuck (open_kdump memory src) _ open_kdump-ne-stuck (λ s e. cc))
                (λ r e. cc))
        | inr raw ↦ rw (not_a, not_l, raw) (λ e. cc)
      ]
    ]
  ]

  -- The first word of the file, with zeros past its end.
  first_word : read_into src 0 4 4 ≡ ok (window (raw_image src file) 0 4)
  unfolding read_into
  first_word =
      let n = min 4 (src.size - 0) in
      let e : n + (4 - n) ≡ 4 = omega arith in
      let (w, b) = raw_split src file 0 n (4 - n) (omega arith) (λ (h : 0 < 4 - n). omega arith) in
      let w' : window (raw_image src file) 0 4 ≡ bytes file 0 n ++ zeros (4 - n) =
        ap (window (raw_image src file) 0) (sym e) ∙ w in
      rw (serves.reads 0 4, length-bytes) (ap ok (sym w'))

  -- No loop of opening a dump runs out of its fuel, on any file that can be read, whatever Snappy
  -- answers and whatever can be allocated: neither in a loader of the four formats nor in the walk
  -- over a kdump's notes.
  pub open_physical_layer-ne-stuck : (z : Snappy) → open_physical_layer memory z src ≢ stuck
  unfolding open_physical_layer
  open_physical_layer-ne-stuck z =
      rw first_word (open_as-ne-stuck z (le_value (window (raw_image src file) 0 4)))

  open_as-raw :
      (z : Snappy) (magic : ℕ)
      → magic ≢ avml_magic
      → magic ≢ lime_magic
      → magic ≢ elf_magic
      → open_as memory z src magic ≡ ok (plain (open_raw_physical src))
  unfolding open_as
  open_as-raw z magic a l k =
      let a' : (magic == avml_magic) ≡ false = ground arith in
      let l' : (magic == lime_magic) ≡ false = ground arith in
      let k' : (magic == elf_magic) ≡ false = ground arith in rw (a', l', k')

  -- A file whose first four bytes, zeros standing for those past its end, are none of the three
  -- magics opens without an error as a raw dump, which shows the file.
  open_physical_layer-raw :
      (z : Snappy)
      → le_value (window (raw_image src file) 0 4) ≢ avml_magic
      → le_value (window (raw_image src file) 0 4) ≢ lime_magic
      → le_value (window (raw_image src file) 0 4) ≢ elf_magic
      → (open_physical_layer memory z src ≡ ok (plain (open_raw_physical src)))
        × Shows (open_raw_physical src) (raw_image src file)
  unfolding open_physical_layer
  open_physical_layer-raw z a l k = (
    rw first_word (open_as-raw z (le_value (window (raw_image src file) 0 4)) a l k),
    open_raw_physical-Shows src file serves,
  )
