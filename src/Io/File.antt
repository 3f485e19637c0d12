-- ===== src/Io/File.antt =====
-- io/file_memory_source.cpp: `FileMemorySource` over the C library's stream, which is a parameter.
use mem_nix_fs.Base.{
  ℕ, ◌-◌, ◌≤◌, ◌<◌, ◌≡◌, ap, Bool, not, ◌&&◌, List, [], length, Option, none, some, min, arith, ltb,
  leb, ◌==◌, ==_refl, Bool-cases, inl, inr, leb→lt, tests, ◌∙◌, if◌then◌else◌, Result, ok, err,
  io_error,
}
use mem_nix_fs.Io.{bytes, length-bytes}

-- `fseeko`, `fread` and `ferror` of <cstdio>. A failed seek is `none`.
pub record CStdio : Type 1 where
  pub Stream : Type 0
  pub seek : ℕ → Stream → Option Stream
  pub fread : ℕ → Stream → List ℕ × Stream
  pub ferror : Stream → Bool

-- A regular file that can be read: a seek succeeds, and `fread` then yields the bytes from there
-- up to the end of the file.
pub record IsReadable (io : CStdio) (size : ℕ) (file : ℕ → ℕ) : Type 0 where
  pub seeks : (off : ℕ) (s : io.Stream) → off < size → (t : io.Stream) × (io.seek off s ≡ some t)
  pub freads :
      (off len : ℕ) (s t : io.Stream)
      → io.seek off s ≡ some t
      → (io.fread len t).0 ≡ bytes file off (min len (size - off))

module _ (io : CStdio) (size : ℕ) where
  open io use {Stream, seek, fread, ferror}

  -- The part of `FileMemorySource::read` behind the clamp; `len` is the clamped length.
  read_clamped : ℕ → ℕ → Stream → Result (List ℕ) × Stream
  read_clamped offset len fp = elim (seek offset fp) [
    | none ↦ (err (io_error offset len), fp)
    | some at_offset ↦
        let (got, after) = fread len at_offset in
        if not (length got == len) && ferror after
        then (err (io_error offset len), after)
        else (ok got, after)
  ]

  -- `FileMemorySource::read`
  pub file_read : ℕ → ℕ → Stream → Result (List ℕ) × Stream
  file_read offset len fp =
      if leb size offset
      then (ok [], fp)
      else read_clamped offset (if ltb (size - offset) len then size - offset else len) fp

read_clamped-bytes :
    (io : CStdio) (size : ℕ) (file : ℕ → ℕ)
    → IsReadable io size file
    → (off n : ℕ) (fp : io.Stream) → off < size
    → n ≤ size - off
    → (read_clamped io size off n fp).0 ≡ ok (bytes file off n)
unfolding read_clamped
read_clamped-bytes io size file r off n fp inside fits =
    let e : min n (size - off) ≡ n = omega arith in
    let (t, sought) = r.seeks off fp inside in
    let got : (io.fread n t).0 ≡ bytes file off n =
      r.freads off n fp t sought ∙ ap (bytes file off) e in
    rw (read_clamped, sought, got, length-bytes, ==_refl)

-- On a readable file, a read throws nothing and yields the bytes of the file, cut off at its
-- end, whatever the position of the stream was: the contract of `MemorySource::read`.
pub file_read-bytes :
    (io : CStdio) (size : ℕ) (file : ℕ → ℕ)
    → IsReadable io size file
    → (off len : ℕ) (fp : io.Stream)
    → (file_read io size off len fp).0 ≡ ok (bytes file off (min len (size - off)))
unfolding file_read
file_read-bytes io size file r off len fp = elim (Bool-cases (leb size off)) [
  | inl past ↦ let e : min len (size - off) ≡ 0 = omega tests in rw (past, e)
  | inr before ↦
      let e : (if ltb (size - off) len then size - off else len) ≡ min len (size - off) =
        ground arith in
      rw (before, e) (read_clamped-bytes io size file r off _ fp (leb→lt _ _ before) (omega arith))
]
