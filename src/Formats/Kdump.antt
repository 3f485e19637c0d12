-- ===== src/Formats/Kdump.antt =====
-- formats/kdump_format.cpp: `KdumpPhysical`, the physical ranges of an ELF64 core file.
pub mod Read
pub mod Header
pub mod Sort
pub mod Table
pub mod Open
mod Tests
use mem_nix_fs.Base.{
  ℕ, zero, suc, ◌+◌, ◌-◌, ◌^◌, List, [], ◌∷◌, map, Option, none, some, min, max, length, ltb, leb,
  if◌then◌else◌, Result, ok, fault, stuck, ◌>>=◌,
}
use mem_nix_fs.Base.Word.{add64, sub64}
use mem_nix_fs.Base.Buffer.{zeros, write}
use mem_nix_fs.Io.{MemorySource}
use mem_nix_fs.Physical.{PhysicalLayer}

-- `LoadRange`
pub record LoadRange : Type 0 where
  pub pa_start : ℕ
  pub pa_size : ℕ
  pub file_off : ℕ

-- `KdumpPhysical`, after its constructor
pub record KdumpPhysical : Type 0 where
  pub src : MemorySource
  pub ranges : List LoadRange
  pub max_pa : ℕ

-- std::sort by `pa_start`, as an insertion sort
unfoldable pub insert_range : LoadRange → List LoadRange → List LoadRange
insert_range r [] = r ∷ []
insert_range r (s ∷ ss) = if ltb s.pa_start r.pa_start then s ∷ insert_range r ss else r ∷ s ∷ ss

unfoldable pub sort_ranges : List LoadRange → List LoadRange
sort_ranges [] = []
sort_ranges (r ∷ rs) = insert_range r (sort_ranges rs)

-- The loop over `max_pa_`.
unfoldable pub max_end : ℕ → List LoadRange → ℕ
max_end m [] = m
max_end m (r ∷ rs) = max_end (max m (add64 r.pa_start r.pa_size)) rs

-- The constructor of `KdumpPhysical`; VMCOREINFO is kept and never read.
unfoldable pub kdump_physical : MemorySource → List LoadRange → KdumpPhysical
kdump_physical src ranges =
    let sorted = sort_ranges ranges in
    record { src = src; ranges = sorted; max_pa = max_end 0 sorted }

-- std::upper_bound in the sorted ranges: the range before the first one that starts behind `cur`,
-- and the ranges from that one on. `prev` is the range in front of the list.
unfoldable pub upper_bound :
    ℕ → Option LoadRange → List LoadRange → Option LoadRange × List LoadRange
upper_bound cur prev [] = (prev, [])
upper_bound cur prev (r ∷ rs) =
    if ltb cur r.pa_start then (prev, r ∷ rs) else upper_bound cur (some r) rs

-- What a round of `KdumpPhysical::read` does at `cur`: skip a hole up to an address, go on to the
-- next address without a byte, or read from a range.
pub data Move : Type 0 where
  skip_to : ℕ → Move
  step_on : Move
  read_from : LoadRange → Move
  no_front : Move

-- Behind the range before `cur`, for the ranges from there on.
abbrev pub next_pa : List LoadRange → ℕ
next_pa [] = 2 ^ 64 - 1
next_pa (r ∷ rs) = r.pa_start

unfoldable pub move_past : ℕ → List LoadRange → Move
move_past cur rest = if leb (next_pa rest) cur then step_on else skip_to (next_pa rest)

-- The branches of a round; `ranges_.front()` of no ranges is undefined behaviour.
unfoldable pub move_at : ℕ → Option LoadRange × List LoadRange → Move
move_at cur (none, []) = no_front
move_at cur (none, r ∷ rs) = skip_to r.pa_start
move_at cur (some r, rest) =
    if leb (add64 r.pa_start r.pa_size) cur then move_past cur rest else read_from r

-- The loop of `KdumpPhysical::read`: `remaining` bytes are left, `done` are behind `dst`.
unfoldable pub kdump_loop : ℕ → KdumpPhysical → ℕ → ℕ → ℕ → List ℕ → ℕ → Result (List ℕ × ℕ)
kdump_loop fuel k cur zero done out got = ok (out, got)
kdump_loop zero k cur (suc m) done out got = stuck
kdump_loop (suc fuel) k cur (suc m) done out got =
    elim (move_at cur (upper_bound cur none k.ranges)) [
      | no_front ↦ fault
      | step_on ↦ kdump_loop fuel k (add64 cur 1) (suc m) done out got
      | skip_to a ↦
          let hole = min (suc m) (sub64 a cur) in
          kdump_loop fuel k (add64 cur hole) (suc m - hole) (done + hole) out got
      | read_from r ↦ do
        let off = sub64 cur r.pa_start
        let want = min (suc m) (sub64 r.pa_size off)
        bs ← k.src.read (add64 r.file_off off) want
        out' ← write out done bs
        kdump_loop fuel k (add64 cur want) (suc m - want) (done + want) out' (add64 got (length bs))
    ]

-- `KdumpPhysical::read`. Below the last address, every round takes a byte at least.
unfoldable pub kdump_read : KdumpPhysical → ℕ → ℕ → Result (List ℕ × ℕ)
kdump_read k pa len = kdump_loop len k pa len 0 (zeros len) 0

-- The methods of `KdumpPhysical`.
unfoldable pub kdump_layer : KdumpPhysical → PhysicalLayer
kdump_layer k = record {
  max_address = k.max_pa;
  read = kdump_read k;
  ranges = map (λ r. record { start = r.pa_start; length = r.pa_size }) k.ranges;
}
