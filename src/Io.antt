-- ===== src/Io.antt =====
-- io/memory_source.h: the byte storage behind a dump, as an interface with its contract.
pub mod Mmap
pub mod File
mod Tests
use mem_nix_fs.Base.Buffer.{le_value, field}
use mem_nix_fs.Base.{
  take, drop, ap₂, ℕ, zero, suc, ◌+◌, ◌-◌, ◌≤◌, ◌<◌, ◌^◌, ◌≡◌, refl, ap, ◌∙◌, List, [], ◌∷◌, ◌++◌,
  length, All, min, arith, Result, ok,
}

-- `MemorySource`: the file's size, and `read(offset, out, len)`, which yields the bytes it stored
-- at the front of `out`; their number is the returned count.
pub record MemorySource : Type 0 where
  pub size : ℕ
  pub read : ℕ → ℕ → Result (List ℕ)

-- The bytes at the offsets from `a` to `a + n`.
abbrev pub bytes : (ℕ → ℕ) → ℕ → ℕ → List ℕ
bytes file a zero = []
bytes file a (suc n) = file a ∷ bytes file (suc a) n

-- The contract of `MemorySource::read` where no I/O error occurs: the bytes of the file, cut off
-- at its end. A file's size is a signed 64-bit number, and its bytes are octets.
pub record Serves (src : MemorySource) (file : ℕ → ℕ) : Type 0 where
  pub octets : (i : ℕ) → file i < 256
  pub bounded : src.size < 2 ^ 63
  pub reads : (off len : ℕ) → src.read off len ≡ ok (bytes file off (min len (src.size - off)))

pub length-bytes : (file : ℕ → ℕ) (a n : ℕ) → length (bytes file a n) ≡ n
length-bytes file a zero = refl
length-bytes file a (suc n) = ap suc (length-bytes file (suc a) n)

-- Parts of a stretch of the file.
pub take-bytes : (file : ℕ → ℕ) (a len n : ℕ) → n ≤ len → take n (bytes file a len) ≡ bytes file a n
take-bytes file a len zero h = refl
take-bytes file a zero (suc n) h = absurd (omega arith)
take-bytes file a (suc len) (suc n) h =
    ap (◌∷◌ (file a)) (take-bytes file (suc a) len n (omega arith))

pub drop-bytes :
    (file : ℕ → ℕ) (a len off : ℕ)
    → off ≤ len
    → drop off (bytes file a len) ≡ bytes file (a + off) (len - off)
drop-bytes file a len zero h =
    let e : a + 0 ≡ a = omega arith in let f : len - 0 ≡ len = omega arith in rw (e, f) refl
drop-bytes file a zero (suc off) h = absurd (omega arith)
drop-bytes file a (suc len) (suc off) h =
    let e : suc a + off ≡ a + suc off = omega arith in
    let f : len - off ≡ suc len - suc off = omega arith in
    drop-bytes file (suc a) len off (omega arith) ∙ ap₂ (bytes file) e f

-- The little-endian number in the `n` bytes of a file from `a` on.
abbrev pub word : (ℕ → ℕ) → ℕ → ℕ → ℕ
word file a n = le_value (bytes file a n)

pub field-word :
    (file : ℕ → ℕ) (a len off n : ℕ)
    → off + n ≤ len
    → field (bytes file a len) off n ≡ word file (a + off) n
field-word file a len off n h =
    ap (λ t. le_value (take n t)) (drop-bytes file a len off (omega arith))
    ∙ ap le_value (take-bytes file (a + off) (len - off) n (omega arith))

-- A read that lies within the file gets every byte it asks for.
pub reads_within :
    {src : MemorySource} {file : ℕ → ℕ}
    → Serves src file
    → (off len : ℕ) → off + len ≤ src.size
    → src.read off len ≡ ok (bytes file off len)
reads_within {src} {file} s off len h =
    let e : min len (src.size - off) ≡ len = omega arith in
    s.reads off len ∙ ap (λ n. ok (bytes file off n)) e

pub bytes-octets :
    (file : ℕ → ℕ) → ((i : ℕ) → file i < 256) → (a n : ℕ) → All (λ b. b < 256) (bytes file a n)
bytes-octets file h a zero = tt
bytes-octets file h a (suc n) = (h a, bytes-octets file h (suc a) n)
