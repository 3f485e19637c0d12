-- ===== src/Formats/Raw.antt =====
-- formats/raw_format.cpp: a dump whose file offsets are its physical addresses.
use mem_nix_fs.Base.{
  ℕ, ◌+◌, ◌-◌, ◌≤◌, ◌<◌, ◌≡◌, ap, ap₂, ◌∙◌, List, [], ◌∷◌, ◌++◌, none, some, length, min, arith,
  ltb, leb, ◌==◌, if◌then◌else◌, Bool-cases, inl, inr, leb→lt, leb→le, Result, ok, ◌>>=◌,
}
use mem_nix_fs.Base.Buffer.{zeros}
use mem_nix_fs.Io.{MemorySource, Serves, bytes, length-bytes}
use mem_nix_fs.Physical.{
  PhysicalLayer, Image, Shows, window, backed, hole, filled, window-add, backed-add,
}

-- `RawPhysical::read`
unfoldable pub raw_read : MemorySource → ℕ → ℕ → Result (List ℕ × ℕ)
raw_read src pa len = if leb src.size pa then ok (zeros len, 0) else do
  out ← src.read pa (min len (src.size - pa))
  ok (out ++ zeros (len - length out), length out)

-- `RawPhysical`; `ranges` reports the whole file, if it is not empty.
unfoldable pub open_raw_physical : MemorySource → PhysicalLayer
open_raw_physical src = record {
  max_address = src.size;
  read = raw_read src;
  ranges = if src.size == 0 then [] else record { start = 0; length = src.size } ∷ [];
}

abbrev pub raw_image : MemorySource → (ℕ → ℕ) → Image
raw_image src file a = if ltb a src.size then some (file a) else none

pub raw_split :
    (src : MemorySource) (file : ℕ → ℕ) (pa n rest : ℕ)
    → pa + n ≤ src.size
    → (0 < rest → src.size ≤ pa + n)
    → (window (raw_image src file) pa (n + rest) ≡ bytes file pa n ++ zeros rest)
      × (backed (raw_image src file) pa (n + rest) ≡ n)
raw_split src file pa n rest h k =
    let img = raw_image src file in
    let (w, b) = filled img file pa pa n (λ x l. ground arith) in
    let (w', b') = hole img (pa + n) rest (λ x l u. ground arith) in
    (window-add img pa n rest ∙ ap₂ (◌++◌) w w', omega (arith, backed-add img pa n rest))

raw_reads :
    (src : MemorySource) (file : ℕ → ℕ)
    → Serves src file
    → (pa len : ℕ)
    → raw_read src pa len
      ≡ ok (window (raw_image src file) pa len, backed (raw_image src file) pa len)
unfolding raw_read
raw_reads src file s pa len = elim (Bool-cases (leb src.size pa)) [
  | inl past ↦
      let (w, b) = hole (raw_image src file) pa len (λ x l u. ground (arith, leb→le _ _ past)) in
      rw (past, w, b)
  | inr before ↦
      let inside : pa < src.size = leb→lt _ _ before in
      let n = min len (src.size - pa) in
      let e : len ≡ n + (len - n) = omega arith in
      let e' : min n (src.size - pa) ≡ n = omega arith in
      let (w, b) =
        raw_split src file pa n (len - n) (omega arith) (λ (h : 0 < len - n). omega arith) in
      let w' = ap (window (raw_image src file) pa) e ∙ w in
      let b' = ap (backed (raw_image src file) pa) e ∙ b in
      rw (before, s.reads pa n, e', length-bytes, w', b')
]

-- A raw dump shows its file: a read yields the file's bytes at the offsets that are the addresses,
-- zeros past its end, and counts the former.
pub open_raw_physical-Shows :
    (src : MemorySource) (file : ℕ → ℕ)
    → Serves src file
    → Shows (open_raw_physical src) (raw_image src file)
unfolding open_raw_physical
open_raw_physical-Shows src file s = record { reads = λ pa len h. raw_reads src file s pa len }
