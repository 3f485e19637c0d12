-- ===== src/Formats/Tests.antt =====
-- Runs of the dump formats, and their theorems at concrete dumps.
use mem_nix_fs.Base.{
  ℕ, ◌+◌, ◌-◌, ◌^◌, min, ◌<◌, ◌≡◌, ◌≢◌, refl, List, [], ◌∷◌, ◌++◌, All, some, arith, ok, err, stuck,
  lime_out_of_order, lime_trailing,
}
use mem_nix_fs.Base.Word.{u64_mod}
use mem_nix_fs.Base.Buffer.{write}
use mem_nix_fs.Io.{MemorySource, Serves}
use mem_nix_fs.Io.Mmap.{mmap_read, mmap_source, content, mmap_source-Serves}
use mem_nix_fs.Physical.{Shows, window}
use mem_nix_fs.Formats.Stream.{stream_size, stream_read, stream_read-window}
use mem_nix_fs.Formats.Raw.{open_raw_physical, raw_image, open_raw_physical-Shows}
use mem_nix_fs.Formats.Lime.{
  LimePhysical, decode_header, check_header, segment_of, load_segment, load_loop, last_end, finish,
  load_segments, copy_segment, read_loop, lime_read, lime_layer, open_lime_physical,
}
use mem_nix_fs.Formats.Lime.Read.{IsOrdered, IsWithin, lime_image, lime_layer-Shows}
use mem_nix_fs.Formats.Lime.Load.{load_segments-ne-stuck, load_segments-IsOrdered}
use mem_nix_fs.Formats.Lime.Layout.{IsLayout}
use mem_nix_fs.Formats.Lime.Open.{open_lime_physical-Shows}

-- What a run of the LiME code computes through.
lime_code : Unit {0}
unfolding mmap_read write decode_header check_header segment_of load_segment load_loop last_end
    finish load_segments copy_segment read_loop lime_read lime_layer open_lime_physical
lime_code = tt

-- A segment's header, for addresses below 256.
abbrev header : ℕ → ℕ → List ℕ
header start end =
    0x45 ∷ 0x4D ∷ 0x69 ∷ 0x4C ∷ 1 ∷ 0 ∷ 0 ∷ 0 ∷ start ∷ 0 ∷ 0 ∷ 0 ∷ 0 ∷ 0 ∷ 0 ∷ 0 ∷ end ∷ 0 ∷ 0 ∷ 0
    ∷ 0 ∷ 0 ∷ 0 ∷ 0 ∷ 0 ∷ 0 ∷ 0 ∷ 0 ∷ 0 ∷ 0 ∷ 0 ∷ 0 ∷ []

-- Two segments, of the addresses 16 to 18 and 20 to 21.
abbrev dump : List ℕ
dump = header 16 18 ++ (7 ∷ 8 ∷ 9 ∷ (header 20 21 ++ (5 ∷ 6 ∷ [])))

abbrev dump_source : MemorySource
dump_source = mmap_source dump

abbrev loaded : LimePhysical
loaded = record {
  src = dump_source;
  segs =
      record { pa_start = 16; pa_length = 3; file_offset = 32 }
      ∷ record { pa_start = 20; pa_length = 2; file_offset = 67 }
      ∷ [];
  max_addr = 22;
}

dump-loaded : load_segments dump_source ≡ ok loaded
unfolding lime_code
dump-loaded = refl

-- From address 17: two bytes, a hole, two bytes, a hole.
dump_read : lime_read loaded 17 6 ≡ ok (8 ∷ 9 ∷ 0 ∷ 5 ∷ 6 ∷ 0 ∷ [], 4)
unfolding lime_code
dump_read = refl

dump_out_of_order :
    load_segments (mmap_source (header 16 16 ++ (1 ∷ (header 10 10 ++ (2 ∷ [])))))
    ≡ err (lime_out_of_order 10)
unfolding lime_code
dump_out_of_order = refl

dump_trailing : load_segments (mmap_source (header 16 16 ++ (1 ∷ 2 ∷ []))) ≡ err (lime_trailing 33)
unfolding lime_code
dump_trailing = refl

dump-Serves : Serves dump_source (content dump)
dump-Serves = mmap_source-Serves dump (omega arith) (omega arith)

mmap_source-Serves_example : Serves (mmap_source (1 ∷ 2 ∷ [])) (content (1 ∷ 2 ∷ []))
mmap_source-Serves_example = mmap_source-Serves (1 ∷ 2 ∷ []) (omega arith) (omega arith)

open_raw_physical-Shows_example :
    Shows (open_raw_physical dump_source) (raw_image dump_source (content dump))
open_raw_physical-Shows_example = open_raw_physical-Shows dump_source (content dump) dump-Serves

load_segments-ne-stuck_example : load_segments dump_source ≢ stuck
load_segments-ne-stuck_example = load_segments-ne-stuck dump_source (content dump) dump-Serves

load_segments-IsOrdered_example :
    (loaded.src ≡ dump_source)
    × IsWithin dump_source.size loaded.segs
    × (All (λ s. s.pa_start + s.pa_length < u64_mod) loaded.segs → IsOrdered 0 loaded.segs)
load_segments-IsOrdered_example =
    load_segments-IsOrdered dump_source (content dump) dump-Serves dump-loaded

lime_layer-Shows_example : Shows (lime_layer loaded) (lime_image (content dump) loaded.segs)
lime_layer-Shows_example =
    lime_layer-Shows loaded (content dump) dump-Serves (omega arith) (omega arith)

open_lime_physical-Shows_example :
    IsLayout (content dump) (dump_source.size) 0 loaded.segs
    × (open_lime_physical dump_source ≡ ok (lime_layer loaded))
    × Shows (lime_layer loaded) (lime_image (content dump) loaded.segs)
    × ((a b : ℕ)
        → lime_image (content dump) loaded.segs a ≡ some b
        → a < (lime_layer loaded).max_address)
open_lime_physical-Shows_example =
    open_lime_physical-Shows dump_source (content dump) loaded dump-Serves dump-loaded (omega arith)

stream_read-window_example :
    stream_read (lime_layer loaded) 17 6
    ≡ ok (
      window (lime_image (content dump) loaded.segs) 17 6,
      min 6 (stream_size (lime_layer loaded) - 17),
    )
stream_read-window_example =
    stream_read-window (lime_layer loaded) (lime_image (content dump) loaded.segs)
      (open_lime_physical-Shows dump_source (content dump) loaded dump-Serves dump-loaded
        (omega arith)).3
      (lime_layer-Shows loaded (content dump) dump-Serves (omega arith) (omega arith)) 17 6
      (omega arith)

-- A segment of the last 64-bit address, and one of address 16.
abbrev wrapping : List ℕ
wrapping =
    0x45
    ∷ 0x4D
    ∷ 0x69
    ∷ 0x4C
    ∷ 1
    ∷ 0
    ∷ 0
    ∷ 0
    ∷ 255
    ∷ 255
    ∷ 255
    ∷ 255
    ∷ 255
    ∷ 255
    ∷ 255
    ∷ 255
    ∷ 255
    ∷ 255
    ∷ 255
    ∷ 255
    ∷ 255
    ∷ 255
    ∷ 255
    ∷ 255
    ∷ 0
    ∷ 0
    ∷ 0
    ∷ 0
    ∷ 0
    ∷ 0
    ∷ 0
    ∷ 0
    ∷ 7
    ∷ (header 16 16 ++ (9 ∷ []))

-- The next segment must start at `end + 1`, which is 0 for the last address: a segment that lies
-- below one that ends there is accepted.
last_address_wraps :
    load_segments (mmap_source wrapping)
    ≡ ok (record {
      src = mmap_source wrapping;
      segs =
          record { pa_start = 2 ^ 64 - 1; pa_length = 1; file_offset = 32 }
          ∷ record { pa_start = 16; pa_length = 1; file_offset = 65 }
          ∷ [];
      max_addr = 17;
    })
unfolding lime_code
last_address_wraps = refl
