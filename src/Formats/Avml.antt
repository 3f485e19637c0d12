-- ===== src/Formats/Avml.antt =====
-- formats/avml_format.cpp: AVML dumps. A file is a sequence of chunks, each a header and a framed
-- Snappy stream; `AvmlPhysical` decompresses a frame where a read needs it, through a cache.
pub mod Load
pub mod Cached
pub mod Read
pub mod Bounds
pub mod Open
pub mod Tests
use mem_nix_fs.Base.{
  ℕ, zero, suc, ◌+◌, ◌*◌, List, [], ◌∷◌, ◌++◌, map, Option, none, some, Bool, min, max, length,
  take, drop, ltb, leb, ◌==◌, if◌then◌else◌, Error, Result, ok, err, fault, ◌>>=◌, ◌>>◌, require,
  avml_frame_short, avml_probe_failed, avml_probe_length, avml_decompress_failed, avml_frame_length,
}
use mem_nix_fs.Base.Word.{add64, sub64}
use mem_nix_fs.Base.Buffer.{part, zeros, write}
use mem_nix_fs.Base.Recent.{without, back, pop_back}
use mem_nix_fs.Io.{MemorySource}
use mem_nix_fs.Physical.{Range}

-- The calls of the Snappy library: GetUncompressedLength, and the bytes that RawUncompress stores.
pub record Snappy : Type 0 where
  pub uncompressed_length : List ℕ → Option ℕ
  pub uncompress : List ℕ → Option (List ℕ)

-- `AvmlFrame`
pub record AvmlFrame : Type 0 where
  pub pa_start : ℕ
  pub pa_length : ℕ
  pub file_offset : ℕ
  pub payload_size : ℕ
  pub compressed : Bool

-- `FrameCache`; the most recently used frame stands first in `order`.
pub record FrameCache : Type 0 where
  pub max_bytes : ℕ
  pub cur_bytes : ℕ
  pub order : List ℕ
  pub map : ℕ → Option (List ℕ)

-- The compressed branch of `FrameCache::get`, for the frame of number `i`.
unfoldable pub uncompress_frame : Snappy → ℕ → AvmlFrame → List ℕ → Result (List ℕ)
uncompress_frame z i f raw = elim (z.uncompressed_length raw) [
  | none ↦ err (avml_probe_failed i)
  | some ulen ↦ do
    require (ulen == f.pa_length) (avml_probe_length i ulen f.pa_length)
    elim (z.uncompress raw) [
      | none ↦ err (avml_decompress_failed i)
      | some out ↦ write (zeros ulen) 0 out
    ]
]

-- What `FrameCache::get` does where the frame is not cached, up to the insertion.
unfoldable pub load_frame : Snappy → MemorySource → ℕ → AvmlFrame → Result (List ℕ)
load_frame z src i f = do
  raw ← src.read f.file_offset f.payload_size
  require (length raw == f.payload_size) (avml_frame_short i f.file_offset)
  out ← if f.compressed then uncompress_frame z i f raw else ok raw
  require (length out == f.pa_length) (avml_frame_length i (length out) f.pa_length)
  ok out

abbrev pub update : (ℕ → Option (List ℕ)) → ℕ → Option (List ℕ) → ℕ → Option (List ℕ)
update m k v j = if j == k then v else m j

-- One round of `evict_if_needed`, for an order with `k` in front.
unfoldable pub evict_back : FrameCache → ℕ → List ℕ → FrameCache
evict_back c k ks =
    let victim = back k ks in
    elim (c.map victim) [
      | none ↦ record c { order = pop_back k ks }
      | some bs ↦ record c {
        order = pop_back k ks;
        cur_bytes = sub64 c.cur_bytes (length bs);
        map = update c.map victim none;
      }
    ]

-- The loop of `evict_if_needed`; every round takes a frame out of the order.
unfoldable pub evict_rounds : ℕ → FrameCache → List ℕ → FrameCache
evict_rounds zero c ks = c
evict_rounds (suc n) c [] = c
evict_rounds (suc n) c (k ∷ ks) =
    let next = evict_back c k ks in
    let rest = evict_rounds n next next.order in if ltb c.max_bytes c.cur_bytes then rest else c

-- `evict_if_needed`
unfoldable pub evict_if_needed : FrameCache → FrameCache
evict_if_needed c = evict_rounds (length c.order) c c.order

-- order_.push_front, map_.emplace and the count
unfoldable pub emplace : FrameCache → ℕ → List ℕ → FrameCache
emplace c i bs = record c {
  order = i ∷ c.order;
  map = update c.map i (some bs);
  cur_bytes = add64 c.cur_bytes (length bs);
}

-- The end of `FrameCache::get`: the bytes are handed out through the new entry after the eviction,
-- which is undefined behaviour if the eviction took it.
unfoldable pub keep : FrameCache → ℕ → List ℕ → Result (FrameCache × List ℕ)
keep c i bs =
    let c' = evict_if_needed (emplace c i bs) in
    elim (c'.map i) [ none ↦ fault | some stored ↦ ok (c', stored) ]

-- `FrameCache::get`: the cache and the bytes that the pointer leads to.
unfoldable pub get :
    FrameCache → Snappy → MemorySource → ℕ → AvmlFrame → Result (FrameCache × List ℕ)
get c z src i f = elim (c.map i) [
  | some hit ↦ ok (record c { order = i ∷ without i c.order }, hit)
  | none ↦ load_frame z src i f >>= λ bs. keep c i bs
]

-- `AvmlPhysical`, after its constructor; the cache changes with reads and is passed along.
pub record AvmlPhysical : Type 0 where
  pub src : MemorySource
  pub frames : List AvmlFrame
  pub max_addr : ℕ

-- `AvmlPhysical::ranges`
unfoldable pub avml_ranges : AvmlPhysical → List Range
avml_ranges a = map (λ f. record { start = f.pa_start; length = f.pa_length }) a.frames

-- FrameCache(128 MB)
unfoldable pub new_cache : FrameCache
new_cache = record { max_bytes = 128 * 1024 * 1024; cur_bytes = 0; order = []; map = λ i. none }

-- std::upper_bound in frames that are in order: the first that ends behind `pa`, with its number,
-- and those from there on.
unfoldable pub first_behind : ℕ → ℕ → List AvmlFrame → ℕ × List AvmlFrame
first_behind pa i [] = (i, [])
first_behind pa i (f ∷ fs) =
    if ltb pa (add64 f.pa_start f.pa_length) then (i, f ∷ fs) else first_behind pa (suc i) fs

-- A round of `AvmlPhysical::read`: the cache, the buffer and the bytes that it copied.
unfoldable pub copy_frame :
    Snappy
    → MemorySource
    → ℕ
    → ℕ
    → ℕ
    → AvmlFrame
    → FrameCache
    → List ℕ
    → Result (FrameCache × List ℕ × ℕ)
copy_frame z src pa end i f c dst = do
  let rs = max pa f.pa_start
  let n = sub64 (min end (add64 f.pa_start f.pa_length)) rs
  (c', bs) ← get c z src i f
  piece ← part bs (sub64 rs f.pa_start) n
  dst' ← write dst (sub64 rs pa) piece
  ok (c', dst', n)

-- The loop of `AvmlPhysical::read`, from the frame of number `i` on.
unfoldable pub frames_loop :
    Snappy
    → MemorySource
    → ℕ
    → ℕ
    → ℕ
    → List AvmlFrame
    → FrameCache
    → List ℕ
    → ℕ
    → Result (FrameCache × List ℕ × ℕ)
frames_loop z src pa end i [] c dst total = ok (c, dst, total)
frames_loop z src pa end i (f ∷ fs) c dst total =
    let copy = copy_frame z src pa end i f c dst >>= λ r.
    frames_loop z src pa end (suc i) fs r.0 r.1 (add64 total r.2) in
    if ltb f.pa_start end then copy else ok (c, dst, total)

-- `AvmlPhysical::read`
unfoldable pub avml_read :
    Snappy → AvmlPhysical → FrameCache → ℕ → ℕ → Result (FrameCache × List ℕ × ℕ)
avml_read z a c pa zero = ok (c, [], 0)
avml_read z a c pa (suc len) =
    let (i, fs) = first_behind pa 0 a.frames in
    frames_loop z a.src pa (add64 pa (suc len)) i fs c (zeros (suc len)) 0
