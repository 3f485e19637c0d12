-- ===== src/Formats/Kdump/Open.antt =====
-- formats/kdump_format.cpp: an opened kdump, from the file to the reads.
use mem_nix_fs.Base.{
  ◌⊎◌, ◌^◌, ◌%◌, ◌∙◌, All, All-take, ap₂, fun_ext, bit_and, min, leb→le, leb→lt, err, bad_alloc,
  kdump_too_small, kdump_short_headers, ℕ, zero, suc, ◌+◌, ◌-◌, ◌*◌, ◌/◌, ◌≤◌, ◌<◌, ◌≡◌, refl, ap,
  sym, subst, List, [], ◌∷◌, ◌++◌, length, max, take, drop, some, true, not, ltb, leb, ◌==◌, ◌&&◌,
  Bool-cases, inl, inr, arith, ok, All-append, length-append, if◌then◌else◌, ◌>>=◌, IsOk, >>=-eq-ok,
  ok-injective, require, ltb→le, require-eq-ok, kdump_no_load,
}
use mem_nix_fs.Base.Word.{add64}
use mem_nix_fs.Base.Bits.{bit_and-shifted, bit_and-ones}
use mem_nix_fs.Base.Buffer.{zeros, field, part, field-lt, All-drop}
use mem_nix_fs.Io.{MemorySource, Serves, bytes, bytes-octets, length-bytes, word, field-word}
use mem_nix_fs.Physical.{Shows}
use mem_nix_fs.Formats.Kdump.{
  LoadRange, KdumpPhysical, insert_range, sort_ranges, max_end, kdump_physical, kdump_layer,
}
use mem_nix_fs.Formats.Kdump.Header.{
  check_elf_header, decode_elf_header, decode_program_headers, take_headers, align4, notes_loop,
  same_bytes, vmcoreinfo_name, extract_vmcoreinfo, open_kdump, open_kdump_physical,
}
use mem_nix_fs.Formats.Kdump.Sort.{AreApart, sort_ranges-IsOrdered, sort_ranges-image}
use mem_nix_fs.Formats.Kdump.Table.{loads, loads-IsFull, take_headers-loads}
use mem_nix_fs.Formats.Kdump.Read.{IsOrdered, kdump_image, kdump_layer-Shows}

-- A list that has a range in front.
abbrev HasFirst : List LoadRange → Type 0
HasFirst xs = (r : LoadRange) × (rs : List LoadRange) × (xs ≡ r ∷ rs)

insert_range-HasFirst : (r : LoadRange) (rs : List LoadRange) → HasFirst (insert_range r rs)
unfolding insert_range
insert_range-HasFirst r [] = (r, [], refl)
insert_range-HasFirst r (s ∷ ss) = elim (Bool-cases (ltb s.pa_start r.pa_start)) [
  | inl e ↦ rw e (s, insert_range r ss, refl)
  | inr e ↦ rw e (r, s ∷ ss, refl)
]

sort_ranges-HasFirst :
    (rs : List LoadRange) → not (length rs == 0) ≡ true → HasFirst (sort_ranges rs)
unfolding sort_ranges
sort_ranges-HasFirst [] h = absurd (cc)
sort_ranges-HasFirst (r ∷ rs) h = insert_range-HasFirst r (sort_ranges rs)

max_end-le : (m : ℕ) (rs : List LoadRange) → m ≤ max_end m rs
unfolding max_end
max_end-le m [] = omega arith
max_end-le m (r ∷ rs) = omega (arith, max_end-le (max m (add64 r.pa_start r.pa_size)) rs)

-- Every byte lies below the greatest end.
below_max_end :
    (size : ℕ) (file : ℕ → ℕ) (lo m : ℕ) (rs : List LoadRange)
    → IsOrdered lo rs
    → (a b : ℕ) → kdump_image size file rs a ≡ some b
    → a < max_end m rs
unfolding max_end
below_max_end size file lo m [] o a b e = absurd (cc)
below_max_end size file lo m (r ∷ rs) o a b e =
    let top = max_end-le (max m (add64 r.pa_start r.pa_size)) rs in
    let later =
      below_max_end size file (r.pa_start + r.pa_size) (max m (add64 r.pa_start r.pa_size)) rs o.3 a
        b in
    elim (Bool-cases (leb r.pa_start a && ltb a (r.pa_start + r.pa_size))) [
      | inl inside ↦
          let low : a < r.pa_start + r.pa_size = ground (arith, inside) in
          omega (arith, top, low, o.1)
      | inr outside ↦ later (rw outside at e)
    ]

-- The ranges that the program headers of a file name.
abbrev pub file_loads : (ℕ → ℕ) → List LoadRange
file_loads file = loads file (word file 32 8) (word file 56 2)

-- What `open_kdump` returns.
record IsOpened (src : MemorySource) (file : ℕ → ℕ) (k : KdumpPhysical) : Type 0 where
  source : k.src ≡ src
  first : HasFirst k.ranges
  sorted : k.ranges ≡ sort_ranges (file_loads file)
  top : k.max_pa ≡ max_end 0 k.ranges

kdump_physical-IsOpened :
    (src : MemorySource) (file : ℕ → ℕ) (ranges : List LoadRange)
    → not (length ranges == 0) ≡ true
    → ranges ≡ file_loads file
    → IsOpened src file (kdump_physical src ranges)
unfolding kdump_physical
kdump_physical-IsOpened src file ranges h same = record {
  source = refl;
  first = sort_ranges-HasFirst ranges h;
  sorted = ap sort_ranges same;
  top = refl;
}

-- A read that yields as many bytes as were asked for.
whole_read :
    (src : MemorySource) (file : ℕ → ℕ) (off len : ℕ) {bs : List ℕ}
    → Serves src file
    → src.read off len ≡ ok bs
    → len ≤ length bs
    → bs ≡ bytes file off len
whole_read src file off len {bs} serves e h =
    let got : bytes file off (min len (src.size - off)) ≡ bs =
      ok-injective (sym (serves.reads off len) ∙ e) in
    let size : min len (src.size - off) ≡ length bs =
      sym (length-bytes file off (min len (src.size - off))) ∙ ap length got in
    sym got ∙ ap (bytes file off) (omega (arith, size))

open_kdump-IsOpened :
    (memory : ℕ) (src : MemorySource) (file : ℕ → ℕ) {k : KdumpPhysical}
    → Serves src file
    → open_kdump memory src ≡ ok k
    → IsOpened src file k
unfolding open_kdump decode_elf_header
open_kdump-IsOpened memory src file serves e =
    let (bs, a, e₁) = >>=-eq-ok (src.read 0 64) _ e in
    let (u, b, e₂) = >>=-eq-ok (require (not (ltb (length bs) 64)) kdump_too_small) _ e₁ in
    let eh = decode_elf_header bs in
    let (v, c, e₃) = >>=-eq-ok (check_elf_header eh) _ e₂ in
    let n = eh.e_phnum in
    let (table, d, e₄) = >>=-eq-ok (src.read eh.e_phoff (n * 56)) _ e₃ in
    let (w, f, e₅) = >>=-eq-ok (require (length table == n * 56) kdump_short_headers) _ e₄ in
    let (r, g, e₆) =
      >>=-eq-ok (take_headers memory src (decode_program_headers n table) [] []) _ e₅ in
    let (x, some_ranges, e₇) = >>=-eq-ok (require (not (length r.0 == 0)) kdump_no_load) _ e₆ in
    let enough = require-eq-ok (not (ltb (length bs) 64)) kdump_too_small b in
    let all = require-eq-ok (length table == n * 56) kdump_short_headers f in
    let header : bs ≡ bytes file 0 64 =
      whole_read src file 0 64 serves a (ground (arith, enough)) in
    let table_bytes : table ≡ bytes file eh.e_phoff (n * 56) =
      whole_read src file eh.e_phoff (n * 56) serves d (ground (arith, all)) in
    let offset : eh.e_phoff ≡ word file 32 8 =
      ap (λ t. field t 32 8) header ∙ field-word file 0 64 32 8 (omega arith) in
    let number : n ≡ word file 56 2 =
      ap (λ t. field t 56 2) header ∙ field-word file 0 64 56 2 (omega arith) in
    let found = take_headers-loads memory src file n eh.e_phoff [] [] (rw table_bytes at g) in
    subst (IsOpened src file) (ok-injective e₇) (
      kdump_physical-IsOpened src file r.0
        (require-eq-ok (not (length r.0 == 0)) kdump_no_load some_ranges)
        (found ∙ ap₂ (loads file) offset number))

-- A kdump that opens, whose PT_LOAD segments, as the program headers in the file name them, do not
-- overlap and end below 2 ^ 64 in memory and in the file, in whatever order the headers are, shows the
-- bytes of these segments as far as the file holds them, and every byte lies below `max_address`.
pub open_kdump_physical-Shows :
    (memory : ℕ) (src : MemorySource) (file : ℕ → ℕ) (k : KdumpPhysical)
    → Serves src file
    → open_kdump memory src ≡ ok k
    → AreApart (file_loads file)
    → (open_kdump_physical memory src ≡ ok (kdump_layer k))
      × Shows (kdump_layer k) (kdump_image src.size file (file_loads file))
      × ((a b : ℕ)
          → kdump_image src.size file (file_loads file) a ≡ some b
          → a < (kdump_layer k).max_address)
unfolding open_kdump_physical
open_kdump_physical-Shows memory src file k serves e apart =
    let o = open_kdump-IsOpened memory src file serves e in
    let (r, rs, first) = o.first in
    let full = loads-IsFull file (word file 32 8) (word file 56 2) in
    let order : IsOrdered 0 k.ranges =
      subst (IsOrdered 0) (sym o.sorted) (sort_ranges-IsOrdered (file_loads file) apart full) in
    let same : (a : ℕ)
        → kdump_image src.size file k.ranges a ≡ kdump_image src.size file (file_loads file) a =
      λ a.
        ap (λ t. kdump_image src.size file t a) o.sorted
        ∙ sort_ranges-image src.size file a (file_loads file) apart in
    (
      ap (λ m. m >>= λ k. ok (kdump_layer k)) e,
      subst (Shows (kdump_layer k)) (fun_ext same) (
          subst (λ s. Shows (kdump_layer k) (kdump_image s.size file k.ranges)) o.source
            (kdump_layer-Shows k file r rs (subst (λ s. Serves s file) (sym o.source) serves) first
              order)),
      λ a b h.
          unfold kdump_layer in
          subst (λ t. a < t) (sym o.top)
            (below_max_end src.size file 0 0 k.ranges order a b (same a ∙ h)),
    )

align4-le : (x : ℕ) → x < 2 ^ 32 → x ≤ align4 x
unfolding align4
align4-le x h =
    let e : bit_and (x + 3) 0xfffffffffffffffc ≡ (x + 3) - (x + 3) % 4 =
      bit_and-shifted 2 (x + 3) (2 ^ 62 - 1)
      ∙ (ap (λ t. t * 4) (bit_and-ones 62 ((x + 3) / 4)) ∙ omega arith) in
    let f : add64 x 3 ≡ x + 3 = omega arith in rw (f, e) (omega arith)

part-ok :
    (bs : List ℕ) (off n : ℕ) → off + n ≤ length bs → part bs off n ≡ ok (take n (drop off bs))
part-ok bs off n h = let fits : leb (off + n) (length bs) ≡ true = ground arith in rw fits refl

-- Where a note lies in what was read, no read of its parts leaves the buffer.
notes_loop-IsOk :
    (fuel : ℕ) (buf : List ℕ) (got p : ℕ)
    → All (λ b. b < 256) buf
    → got ≤ length buf
    → p ≤ got
    → got < p + 12 * fuel
    → IsOk (notes_loop fuel buf got p)
unfolding notes_loop
notes_loop-IsOk zero buf got p o l b h = absurd (omega arith)
notes_loop-IsOk (suc fuel) buf got p o l b h = elim (Bool-cases (ltb got (p + 12))) [
  | inl past ↦ rw past ([], refl)
  | inr more ↦
      let nh = take 12 (drop p buf) in
      let octets = All-take (λ b. b < 256) 12 (drop p buf) (All-drop p buf o) in
      let names = align4-le (field nh 0 4) (field-lt nh 0 4 octets) in
      let descs = align4-le (field nh 4 4) (field-lt nh 4 4 octets) in
      let next = p + 12 + align4 (field nh 0 4) + align4 (field nh 4 4) in
      let header = part-ok buf p 12 (omega (arith, ltb→le _ _ more)) in
      elim (Bool-cases (ltb got next)) [
        | inl cut ↦ rw (more, header, cut) ([], refl)
        | inr whole ↦
            let inside : next ≤ got = ltb→le _ _ whole in
            let name_read =
              part-ok buf (p + 12) (field nh 0 4 - 1) (omega (arith, names, inside)) in
            let desc_read =
              part-ok buf (p + 12 + align4 (field nh 0 4)) (field nh 4 4)
                (omega (arith, descs, inside)) in
            let name = take (field nh 0 4 - 1) (drop (p + 12) buf) in
            elim (Bool-cases (same_bytes name vmcoreinfo_name)) [
              | inl there ↦ rw (more, header, whole, name_read, there, desc_read) (_, refl)
              | inr other ↦
                  rw (more, header, whole, name_read, other)
                    (notes_loop-IsOk fuel buf got next o l inside (omega arith))
            ]
      ]
]

zeros-octets : (n : ℕ) → All (λ b. b < 256) (zeros n)
zeros-octets zero = tt
zeros-octets (suc n) = (omega arith, zeros-octets n)

-- The walk over the notes in `n` bytes that were read into a vector of `size`.
notes_walk :
    (src : MemorySource) (file : ℕ → ℕ)
    → Serves src file
    → (off size n : ℕ) → n ≤ size
    → IsOk (
        if ltb (length (bytes file off n)) 12
        then ok []
        else notes_loop
            (length (bytes file off n) / 12 + 1)
            (bytes file off n ++ zeros (size - length (bytes file off n)))
            (length (bytes file off n))
            0)
notes_walk src file serves off size n h =
    let bs = bytes file off n in
    elim (Bool-cases (ltb (length bs) 12)) [
      | inl few ↦ rw few ([], refl)
      | inr some_notes ↦ rw some_notes (
          notes_loop-IsOk (length bs / 12 + 1) (bs ++ zeros (size - length bs)) (length bs) 0
            (All-append (λ b. b < 256) bs (zeros (size - length bs))
              (bytes-octets file serves.octets off n) (zeros-octets (size - length bs)))
            (omega (arith, length-append bs (zeros (size - length bs)))) (omega arith)
            (omega arith))
    ]

-- On a file that can be read, the walk over the notes for VMCOREINFO ends, throws nothing and reads
-- within its buffer, whatever sizes the notes claim, if a vector of the segment's size can be
-- allocated; if not, it throws bad_alloc.
pub extract_vmcoreinfo-IsOk :
    (memory : ℕ) (src : MemorySource) (file : ℕ → ℕ)
    → Serves src file
    → (off size : ℕ)
    → (IsOk (extract_vmcoreinfo memory src off size) × (size ≤ memory))
      ⊎ ((extract_vmcoreinfo memory src off size ≡ err (bad_alloc size)) × (memory < size))
unfolding extract_vmcoreinfo
extract_vmcoreinfo-IsOk memory src file serves off size = elim (Bool-cases (leb size memory)) [
  | inr much ↦ inr (rw much refl, leb→lt _ _ much)
  | inl little ↦ inl (
    rw (little, serves.reads off size)
        (notes_walk src file serves off size (min size (src.size - off)) (omega arith)),
    leb→le _ _ little,
  )
]
