-- ===== src/Formats/Avml/Tests.antt =====
-- Runs of the AVML code, and its theorems at a concrete dump.
use mem_nix_fs.Base.{
  ℕ, ◌≡◌, refl, List, [], ◌∷◌, ◌++◌, Option, none, some, true, false, All, replicate, map, arith,
  if◌then◌else◌, ok, err, avml_no_tag,
}
use mem_nix_fs.Base.Recent.{without, back, pop_back}
use mem_nix_fs.Base.Text.{codes}
use mem_nix_fs.Base.Buffer.{zeros, write}
use mem_nix_fs.Io.{MemorySource, Serves}
use mem_nix_fs.Io.Mmap.{mmap_read, mmap_source, content, mmap_source-Serves}
use mem_nix_fs.Formats.Avml.{
  Snappy, AvmlFrame, AvmlPhysical, uncompress_frame, load_frame, evict_back, evict_rounds,
  evict_if_needed, emplace, keep, get, new_cache, first_behind, copy_frame, frames_loop, avml_read,
}
use mem_nix_fs.Formats.Avml.Load.{
  read_into, decompressed_length, data_frame, check_tag, frame_of, frame_header, parse_frame,
  parse_snappy_frames, chunk_header, load_chunk, chunks_loop, back_end, finish_chunks, load_chunks,
}
use mem_nix_fs.Formats.Avml.Bounds.{IsBounded}
use mem_nix_fs.Formats.Avml.Read.{IsLoadable, avml_image}
use mem_nix_fs.Formats.Avml.Open.{avml_reads, answer, load_chunks-IsBounded, load_chunks-reads}

-- What a run of the AVML code computes through.
unfoldable pub avml_code : Unit {0}
unfolding mmap_read write without back pop_back uncompress_frame load_frame evict_back evict_rounds
    evict_if_needed emplace keep get new_cache first_behind copy_frame frames_loop avml_read
    read_into decompressed_length data_frame check_tag frame_of frame_header parse_frame
    parse_snappy_frames chunk_header load_chunk chunks_loop back_end finish_chunks load_chunks
avml_code = tt

-- A decoder that repeats the second byte as often as the first one says.
abbrev repeated_length : List ℕ → Option ℕ
repeated_length (n ∷ (b ∷ [])) = some n
repeated_length bs = none

abbrev repeated : List ℕ → Option (List ℕ)
repeated (n ∷ (b ∷ [])) = some (replicate n b)
repeated bs = none

abbrev pub repeater : Snappy
repeater = record { uncompressed_length = repeated_length; uncompress = repeated }

-- An address below 256, and the header of a chunk from one to another.
abbrev word : ℕ → List ℕ
word b = b ∷ zeros 7

abbrev chunk : ℕ → ℕ → List ℕ
chunk start end = codes "AVML" ++ ((2 ∷ 0 ∷ 0 ∷ 0 ∷ []) ++ (word start ++ (word end ++ zeros 8)))

abbrev tag : List ℕ
tag = 0xFF ∷ 6 ∷ 0 ∷ 0 ∷ codes "sNaPpY"

-- Three bytes as they are, and four nines.
abbrev pub dump : List ℕ
dump =
    chunk 16 23
    ++ (tag
        ++ ((1 ∷ 7 ∷ 0 ∷ 0 ∷ 0 ∷ 0 ∷ 0 ∷ 0 ∷ 1 ∷ 2 ∷ 3 ∷ [])
            ++ ((0 ∷ 6 ∷ 0 ∷ 0 ∷ 0 ∷ 0 ∷ 0 ∷ 0 ∷ 4 ∷ 9 ∷ []) ++ zeros 8)))

abbrev pub dump_source : MemorySource
dump_source = mmap_source dump

abbrev pub loaded : AvmlPhysical
loaded = record {
  src = dump_source;
  frames =
      record {
        pa_start = 16;
        pa_length = 3;
        file_offset = 50;
        payload_size = 3;
        compressed = false;
      }
      ∷ record {
        pa_start = 19;
        pa_length = 4;
        file_offset = 61;
        payload_size = 2;
        compressed = true;
      }
      ∷ [];
  max_addr = 23;
}

abbrev text : AvmlFrame → List ℕ
text f = if f.compressed then 9 ∷ 9 ∷ 9 ∷ 9 ∷ [] else 1 ∷ 2 ∷ 3 ∷ []

dump-loaded : load_chunks repeater dump_source ≡ ok loaded
unfolding avml_code
dump-loaded = refl

dump_reads :
    avml_reads repeater loaded new_cache ((15, 3) ∷ (18, 3) ∷ (17, 8) ∷ [])
    ≡ ok ((0 ∷ 1 ∷ 2 ∷ [], 2) ∷ (3 ∷ 9 ∷ 9 ∷ [], 3) ∷ (2 ∷ 3 ∷ 9 ∷ 9 ∷ 9 ∷ 9 ∷ 0 ∷ 0 ∷ [], 6) ∷ [])
unfolding avml_code avml_reads
dump_reads = refl

pub dump-Serves : Serves dump_source (content dump)
dump-Serves = mmap_source-Serves dump (omega arith) (omega arith)

dump-IsLoadable : All (IsLoadable repeater dump_source text) loaded.frames
unfolding avml_code
dump-IsLoadable = ((λ i. refl, refl), ((λ i. refl, refl), tt))

load_chunks-IsBounded_example :
    (loaded.src ≡ dump_source) × All (IsBounded dump_source.size) loaded.frames
load_chunks-IsBounded_example =
    load_chunks-IsBounded repeater dump_source (content dump) dump-Serves loaded dump-loaded

load_chunks-reads_example :
    avml_reads repeater loaded new_cache ((15, 3) ∷ (18, 3) ∷ [])
    ≡ ok (map (answer (avml_image text loaded.frames)) ((15, 3) ∷ (18, 3) ∷ []))
load_chunks-reads_example =
    load_chunks-reads repeater dump_source (content dump) loaded text dump-Serves dump-loaded
      (omega arith) dump-IsLoadable ((15, 3) ∷ (18, 3) ∷ []) (omega arith)

no_tag :
    load_chunks repeater (mmap_source (chunk 16 23 ++ (0xFF ∷ 3 ∷ 0 ∷ 0 ∷ 115 ∷ 78 ∷ 97 ∷ [])))
    ≡ err (avml_no_tag 36)
unfolding avml_code
no_tag = refl

-- A frame of three bytes in a chunk of two, and a chunk that starts behind the latter.
abbrev overshooting : List ℕ
overshooting =
    chunk 16 18
    ++ ((1 ∷ 7 ∷ 0 ∷ 0 ∷ 0 ∷ 0 ∷ 0 ∷ 0 ∷ 1 ∷ 2 ∷ 3 ∷ zeros 8)
        ++ (chunk 18 20 ++ (1 ∷ 6 ∷ 0 ∷ 0 ∷ 0 ∷ 0 ∷ 0 ∷ 0 ∷ 4 ∷ 5 ∷ zeros 8)))

-- The byte that both frames have is counted twice: a read of 4 bytes yields 5.
abbrev overshoot : AvmlPhysical
overshoot = record {
  src = mmap_source overshooting;
  frames =
      record {
        pa_start = 16;
        pa_length = 3;
        file_offset = 40;
        payload_size = 3;
        compressed = false;
      }
      ∷ record {
        pa_start = 18;
        pa_length = 2;
        file_offset = 91;
        payload_size = 2;
        compressed = false;
      }
      ∷ [];
  max_addr = 20;
}

overshoot_loads : load_chunks repeater (mmap_source overshooting) ≡ ok overshoot
unfolding avml_code
overshoot_loads = refl

overshoot_counts :
    avml_reads repeater overshoot new_cache ((16, 4) ∷ []) ≡ ok ((1 ∷ 2 ∷ 4 ∷ 5 ∷ [], 5) ∷ [])
unfolding avml_code avml_reads
overshoot_counts = refl
