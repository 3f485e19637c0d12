-- ===== src/Io/Mmap.antt =====
-- io/mmap_memory_source.cpp: `MmapMemorySource` over the mapped view of a dump file.
use mem_nix_fs.Base.{
  ℕ, zero, suc, ◌+◌, ◌-◌, ◌≤◌, ◌<◌, ◌^◌, ◌≡◌, refl, ap, ◌∙◌, List, [], ◌∷◌, length, All, take, drop,
  get_or, sym, min, true, arith, tests, Bool-cases, inl, inr, ltb, leb, leb→lt, if◌then◌else◌,
  Result, ok,
}
use mem_nix_fs.Base.Buffer.{part}
use mem_nix_fs.Io.{MemorySource, Serves, bytes}

-- `MmapMemorySource::read`; `view` is the mapped file.
unfoldable pub mmap_read : List ℕ → ℕ → ℕ → Result (List ℕ)
mmap_read view offset len =
    let size = length view in
    if leb size offset
    then ok []
    else part view offset (if ltb (size - offset) len then size - offset else len)

abbrev pub mmap_source : List ℕ → MemorySource
mmap_source view = record { size = length view; read = mmap_read view }

abbrev pub content : List ℕ → ℕ → ℕ
content view i = get_or view i 0

bytes-shift :
    (x : ℕ) (view : List ℕ) (a n : ℕ)
    → bytes (content (x ∷ view)) (suc a) n ≡ bytes (content view) a n
bytes-shift x view a zero = refl
bytes-shift x view a (suc n) = ap (◌∷◌ (content view a)) (bytes-shift x view (suc a) n)

-- A slice of the view, byte by byte.
pub slice-bytes :
    (off n : ℕ) (view : List ℕ)
    → off + n ≤ length view
    → take n (drop off view) ≡ bytes (content view) off n
slice-bytes zero zero view h = refl
slice-bytes (suc off) zero [] h = refl
slice-bytes (suc off) zero (x ∷ view) h = slice-bytes off zero view (omega arith)
slice-bytes zero (suc n) [] h = absurd (omega arith)
slice-bytes (suc off) (suc n) [] h = absurd (omega arith)
slice-bytes zero (suc n) (x ∷ view) h =
    ap (◌∷◌ x) (slice-bytes 0 n view (omega arith) ∙ sym (bytes-shift x view 0 n))
slice-bytes (suc off) (suc n) (x ∷ view) h =
    slice-bytes off (suc n) view (omega arith) ∙ sym (bytes-shift x view off (suc n))

mmap_read-bytes :
    (view : List ℕ) (off len : ℕ)
    → mmap_read view off len ≡ ok (bytes (content view) off (min len (length view - off)))
unfolding mmap_read
mmap_read-bytes view off len = elim (Bool-cases (leb (length view) off)) [
  | inl past ↦ let e : min len (length view - off) ≡ 0 = omega tests in rw (past, e)
  | inr before ↦
      let inside : off < length view = leb→lt _ _ before in
      let n = if ltb (length view - off) len then length view - off else len in
      let e : n ≡ min len (length view - off) = ground arith in
      let fits : leb (off + min len (length view - off)) (length view) ≡ true = ground arith in
      rw (before, e, fits)
        (ap ok (slice-bytes off (min len (length view - off)) view (omega arith)))
]

content-octets : (view : List ℕ) → All (λ b. b < 256) view → (i : ℕ) → content view i < 256
content-octets [] h i = omega arith
content-octets (b ∷ view) h zero = h.0
content-octets (b ∷ view) h (suc i) = content-octets view h.1 i

-- A mapped source keeps the contract of `MemorySource` for its file, and never fails.
pub mmap_source-Serves :
    (view : List ℕ)
    → All (λ b. b < 256) view
    → length view < 2 ^ 63
    → Serves (mmap_source view) (content view)
mmap_source-Serves view o h = record {
  octets = content-octets view o;
  bounded = h;
  reads = mmap_read-bytes view;
}
