-- ===== src/Formats/Avml/Open.antt =====
-- formats/avml_format.cpp: an opened AVML dump, from the file to any sequence of reads.
use mem_nix_fs.Base.{
  ℕ, zero, suc, ◌+◌, ◌*◌, ◌/◌, ◌≤◌, ◌<◌, ◌≡◌, ◌≢◌, refl, sym, subst, List, [], ◌∷◌, All, All-map,
  map, arith, leb, leb→le, Bool-cases, inl, inr, Result, ok, stuck, ◌>>=◌, >>=-eq-ok, >>=-eq-stuck,
  >>=-ne-stuck, ok-injective,
}
use mem_nix_fs.Base.Word.{add64, sub64, u64_mod}
use mem_nix_fs.Io.{MemorySource, Serves}
use mem_nix_fs.Physical.{Image, window, backed}
use mem_nix_fs.Formats.Avml.{Snappy, AvmlFrame, AvmlPhysical, FrameCache, new_cache, avml_read}
use mem_nix_fs.Formats.Avml.Load.{
  max_frame, parse_snappy_frames, chunk_header, load_chunk, chunks_loop, finish_chunks, load_chunks,
}
use mem_nix_fs.Formats.Avml.Bounds.{IsBounded, parse_snappy_frames_lem}
use mem_nix_fs.Formats.Avml.Cached.{IsGood}
use mem_nix_fs.Formats.Avml.Read.{IsOrdered, IsLoadable, IsFrame, avml_image, avml_read-window}

module _ (z : Snappy) (src : MemorySource) (file : ℕ → ℕ) (serves : Serves src file) where
  chunk_header-ne-stuck : (off : ℕ) → chunk_header src off ≢ stuck
  unfolding chunk_header
  chunk_header-ne-stuck off e = ground (arith, rw (serves.reads off 32) at e)

  -- A round takes 40 bytes at least, and its frames are bounded.
  load_chunk_lem :
      (off : ℕ) (frames : List AvmlFrame)
      → off + 32 ≤ src.size
      → All (IsBounded src.size) frames
      → (load_chunk z src off frames ≢ stuck)
        × ((r : List AvmlFrame × ℕ)
            → load_chunk z src off frames ≡ ok r
            → (off + 40 ≤ r.1) × (r.1 ≤ src.size + 8) × All (IsBounded src.size) r.0)
  unfolding load_chunk
  load_chunk_lem off frames room all =
      let small = serves.bounded in
      let data_off = add64 off 32 in
      let max = sub64 src.size data_off in
      let parsed = λ (h : ℕ × ℕ).
        parse_snappy_frames_lem z src file serves (max / 4 + 1) data_off max (sub64 h.1 h.0) h.0 0 0
          frames (omega arith) (omega arith) (omega arith) all in
      (
        >>=-ne-stuck (chunk_header src off) _ (chunk_header-ne-stuck off) λ h.
            >>=-ne-stuck
              (parse_snappy_frames (max / 4 + 1) z src data_off max (sub64 h.1 h.0) h.0 0 0 frames)
              _ (parsed h).0 (λ r e. cc),
        λ r e.
            let (h, found, rest) = >>=-eq-ok (chunk_header src off) _ e in
            let (p, frames_of, last) =
              >>=-eq-ok
                (parse_snappy_frames (max / 4 + 1) z src data_off max (sub64 h.1 h.0) h.0 0 0
                  frames)
                _ rest in
            let (inside, new) = (parsed h).1 p frames_of in
            let next : (off + 40 ≤ add64 (add64 data_off p.1) 8)
                × (add64 (add64 data_off p.1) 8 ≤ src.size + 8) =
              omega arith in
            subst (λ r. (off + 40 ≤ r.1) × (r.1 ≤ src.size + 8) × All (IsBounded src.size) r.0)
              (ok-injective last) (next.0, next.1, new),
      )

  chunks_loop_lem :
      (fuel off : ℕ) (frames : List AvmlFrame)
      → off ≤ src.size + 8
      → src.size + 8 < off + 40 * fuel
      → All (IsBounded src.size) frames
      → (chunks_loop fuel z src off frames ≢ stuck)
        × ((fs : List AvmlFrame)
            → chunks_loop fuel z src off frames ≡ ok fs
            → All (IsBounded src.size) fs)
  unfolding chunks_loop
  chunks_loop_lem zero off frames low h all = absurd (omega arith)
  chunks_loop_lem (suc fuel) off frames low h all =
      elim (Bool-cases (leb (add64 off 32) src.size)) [
        | inr done ↦
            rw done (λ e. cc, λ fs e. subst (All (IsBounded src.size)) (ok-injective e) all)
        | inl more ↦
            let small = serves.bounded in
            let room : off + 32 ≤ src.size = omega (arith, leb→le _ _ more) in
            let (finishes, goes_on) = load_chunk_lem off frames room all in
            let rest = λ (r : List AvmlFrame × ℕ) (e : load_chunk z src off frames ≡ ok r).
              let (on, inside, new) = goes_on r e in
              chunks_loop_lem fuel r.1 r.0 inside (omega arith) new in
            rw more (
              λ e. elim (>>=-eq-stuck (load_chunk z src off frames) _ e) [
                | inl round ↦ finishes round
                | inr (r, found, later) ↦ (rest r found).0 later
              ],
              λ fs e.
                  let (r, found, later) = >>=-eq-ok (load_chunk z src off frames) _ e in
                  (rest r found).1 fs later,
            )
      ]

  finish_chunks-ne-stuck : (frames : List AvmlFrame) → finish_chunks src frames ≢ stuck
  unfolding finish_chunks
  finish_chunks-ne-stuck [] e = cc
  finish_chunks-ne-stuck (f ∷ fs) e = cc

  finish_chunks-eq-ok :
      (frames : List AvmlFrame) {a : AvmlPhysical}
      → finish_chunks src frames ≡ ok a
      → (a.src ≡ src) × (a.frames ≡ frames)
  unfolding finish_chunks
  finish_chunks-eq-ok [] e = cc
  finish_chunks-eq-ok (f ∷ fs) e = ground arith

  -- Loading an AVML dump ends on every file that can be read, whatever Snappy answers; the chunks
  -- are no more than a 40th of its bytes, and the frames of a chunk no more than a 4th.
  pub load_chunks-ne-stuck : load_chunks z src ≢ stuck
  unfolding load_chunks
  load_chunks-ne-stuck =
      >>=-ne-stuck (chunks_loop ((src.size + 8) / 40 + 1) z src 0 []) _
        (chunks_loop_lem ((src.size + 8) / 40 + 1) 0 [] (omega arith) (omega arith) tt).0
        finish_chunks-ne-stuck

  -- Of an AVML dump that loads, every frame's payload lies within the file, and every frame claims
  -- to decompress to 64 MiB at most, whatever Snappy answers.
  pub load_chunks-IsBounded :
      (a : AvmlPhysical)
      → load_chunks z src ≡ ok a
      → (a.src ≡ src) × All (IsBounded src.size) a.frames
  unfolding load_chunks
  load_chunks-IsBounded a e =
      let (frames, found, rest) =
        >>=-eq-ok (chunks_loop ((src.size + 8) / 40 + 1) z src 0 []) _ e in
      let (same, all) = finish_chunks-eq-ok frames rest in
      (
        same,
        subst (All (IsBounded src.size)) (sym all) (
            (chunks_loop_lem ((src.size + 8) / 40 + 1) 0 [] (omega arith) (omega arith) tt).1 frames
              found),
      )

-- A sequence of reads of addresses and lengths, through one cache.
unfoldable pub avml_reads :
    Snappy → AvmlPhysical → FrameCache → List (ℕ × ℕ) → Result (List (List ℕ × ℕ))
avml_reads z a c [] = ok []
avml_reads z a c ((pa, len) ∷ rs) = do
  (c', buf, got) ← avml_read z a c pa len
  rest ← avml_reads z a c' rs
  ok ((buf, got) ∷ rest)

-- What a read of an image is to give.
abbrev pub answer : Image → ℕ × ℕ → List ℕ × ℕ
answer img (pa, len) = (window img pa len, backed img pa len)

module _ (z : Snappy) (a : AvmlPhysical) (text : AvmlFrame → List ℕ) (order : IsOrdered 0 a.frames)
    (loads : All (IsLoadable z a.src text) a.frames)
    (sizes : All (λ f. f.pa_length ≤ max_frame) a.frames) where
  avml_reads_lem :
      (c : FrameCache) (rs : List (ℕ × ℕ))
      → IsGood (IsFrame text a.frames) c
      → All (λ r. r.0 + r.1 < u64_mod) rs
      → avml_reads z a c rs ≡ ok (map (answer (avml_image text a.frames)) rs)
  unfolding avml_reads
  avml_reads_lem c [] good h = refl
  avml_reads_lem c ((pa, len) ∷ rs) good h =
      let (c', good', run) = avml_read-window z a text c order loads good sizes pa len h.0 in
      rw (run, avml_reads_lem c' rs good' h.1)

new_cache-IsGood : (Holds : ℕ → List ℕ → Type 0) → IsGood Holds new_cache
unfolding new_cache
new_cache-IsGood Holds = record {
  accounted = record { distinct = tt; listed = λ k. refl; counted = refl; low = omega arith };
  fits = omega arith;
  bound = omega arith;
  room = omega arith;
  holds = λ i bs h. absurd (cc);
}

-- An AVML dump that loads with frames in ascending order, each of which can be read and decompresses
-- to its length, shows them: any sequence of reads from the empty cache on, whatever it keeps and
-- evicts, gives the bytes of the frames and zeros elsewhere, and counts the former.
pub load_chunks-reads :
    (z : Snappy) (src : MemorySource) (file : ℕ → ℕ) (a : AvmlPhysical) (text : AvmlFrame → List ℕ)
    → Serves src file
    → load_chunks z src ≡ ok a
    → IsOrdered 0 a.frames
    → All (IsLoadable z a.src text) a.frames
    → (rs : List (ℕ × ℕ)) → All (λ r. r.0 + r.1 < u64_mod) rs
    → avml_reads z a new_cache rs ≡ ok (map (answer (avml_image text a.frames)) rs)
load_chunks-reads z src file a text serves e order loads rs h =
    let (same, bounded) = load_chunks-IsBounded z src file serves a e in
    avml_reads_lem z a text order loads (All-map (λ f b. b.1) a.frames bounded) new_cache rs
      (new_cache-IsGood (IsFrame text a.frames)) h
