-- ===== src/Formats/Avml/Bounds.antt =====
-- formats/avml_format.cpp: what `load_chunks` makes of a file: the loops end, and every frame lies
-- within the file and decompresses to 64 MiB at most.
use mem_nix_fs.Base.{
  ℕ, zero, suc, ◌+◌, ◌-◌, ◌*◌, ◌^◌, ◌≤◌, ◌<◌, ◌≡◌, ◌≢◌, subst, List, ◌++◌, All, All-append, not,
  ◌&&◌, ◌||◌, min, arith, ltb, leb, ◌==◌, Bool-cases, inl, inr, ok, stuck, require, require-eq-ok,
  >>=-eq-ok, >>=-eq-stuck, >>=-ne-stuck, require-ne-stuck, ok-injective,
}
use mem_nix_fs.Base.Word.{add64}
use mem_nix_fs.Base.Buffer.{le_value, le_value-lt}
use mem_nix_fs.Io.{MemorySource, Serves, bytes, bytes-octets, reads_within}
use mem_nix_fs.Formats.Avml.{Snappy, AvmlFrame}
use mem_nix_fs.Formats.Avml.Load.{
  max_frame, read_into, decompressed_length, data_frame, check_tag, frame_of, frame_header, added,
  parse_frame, parse_snappy_frames,
}

-- A frame's payload lies in a file of that size, and its decompressed bytes are few.
abbrev pub IsBounded : ℕ → AvmlFrame → Type 0
IsBounded size f = (f.file_offset + f.payload_size ≤ size) × (f.pa_length ≤ max_frame)

read_into-ne-stuck :
    {src : MemorySource} {file : ℕ → ℕ}
    → Serves src file
    → (off want n : ℕ) → read_into src off want n ≢ stuck
unfolding read_into
read_into-ne-stuck s off want n e = let e' = rw (s.reads off want) at e in cc

module _ (z : Snappy) (src : MemorySource) (file : ℕ → ℕ) (serves : Serves src file) where
  -- The word at the header of a frame.
  abbrev word_at : ℕ → ℕ
  word_at off = le_value (bytes file off 4)

  word_at-lt : (off : ℕ) → word_at off < 2 ^ 32
  word_at-lt off = le_value-lt 4 (bytes file off 4) (bytes-octets file serves.octets off 4)

  frame_header-eq-ok :
      (file_off max consumed : ℕ) {r : ℕ × ℕ}
      → file_off + max ≤ src.size
      → consumed + 4 ≤ max
      → frame_header src file_off max consumed ≡ ok r
      → (consumed + 4 + r.1 ≤ max) × (r.1 < 2 ^ 24)
  unfolding frame_header
  frame_header-eq-ok file_off max consumed room more e =
      let small = serves.bounded in
      let at : add64 file_off consumed ≡ file_off + consumed = omega arith in
      let word = word_at-lt (file_off + consumed) in
      let got = reads_within serves (file_off + consumed) 4 (omega arith) in
      ground (arith, rw (at, got) at e)

  frame_header-ne-stuck :
      (file_off max consumed : ℕ) → frame_header src file_off max consumed ≢ stuck
  unfolding frame_header
  frame_header-ne-stuck file_off max consumed e =
      ground (arith, rw (serves.reads (add64 file_off consumed) 4) at e)

  data_frame-IsBounded :
      (ftype fsize payload_off pa : ℕ) {f : AvmlFrame}
      → payload_off + fsize ≤ src.size
      → data_frame z src ftype fsize payload_off pa ≡ ok f
      → IsBounded src.size f
  unfolding data_frame
  data_frame-IsBounded ftype fsize payload_off pa inside e =
      let small = serves.bounded in
      let (u, enough, rest) = >>=-eq-ok (require (not (ltb fsize 4)) _) _ e in
      let (len, found, rest') =
        >>=-eq-ok (decompressed_length z src ftype (add64 payload_off 4) (fsize - 4)) _ rest in
      let enough' = require-eq-ok (not (ltb fsize 4)) _ enough in ground (arith, rest')

  decompressed_length-ne-stuck :
      (ftype data_off data_sz : ℕ) → decompressed_length z src ftype data_off data_sz ≢ stuck
  unfolding decompressed_length read_into
  decompressed_length-ne-stuck ftype data_off data_sz e =
      ground (arith, rw (serves.reads data_off data_sz) at e)

  data_frame-ne-stuck :
      (ftype fsize payload_off pa : ℕ) → data_frame z src ftype fsize payload_off pa ≢ stuck
  unfolding data_frame
  data_frame-ne-stuck ftype fsize payload_off pa =
      >>=-ne-stuck (require (not (ltb fsize 4)) _) _ (require-ne-stuck _ _) λ u.
        >>=-ne-stuck (decompressed_length z src ftype (add64 payload_off 4) (fsize - 4)) _
          (decompressed_length-ne-stuck ftype (add64 payload_off 4) (fsize - 4))
          λ len.
            >>=-ne-stuck (require (not (ltb max_frame len)) _) _ (require-ne-stuck _ _) λ v e. cc

  frame_of-IsBounded :
      (ftype fsize payload_off pa : ℕ) {fs : List AvmlFrame}
      → payload_off + fsize ≤ src.size
      → frame_of z src ftype fsize payload_off pa ≡ ok fs
      → All (IsBounded src.size) fs
  unfolding frame_of
  frame_of-IsBounded ftype fsize payload_off pa inside e =
      let P = All (IsBounded src.size) in
      elim (Bool-cases (ftype == 0xFF)) [
        | inl tag ↦
            let (u, checked, rest) = >>=-eq-ok (check_tag src fsize payload_off) _ (rw tag at e) in
            subst P (ok-injective rest) tt
        | inr other ↦ elim (Bool-cases (ftype == 0 || ftype == 1)) [
          | inl frame ↦
              let (f, found, rest) =
                >>=-eq-ok (data_frame z src ftype fsize payload_off pa) _
                  (rw (other, frame) at e) in
              subst P (ok-injective rest)
                (data_frame-IsBounded ftype fsize payload_off pa inside found, tt)
          | inr skipped ↦ elim (Bool-cases (leb 2 ftype && ltb ftype 0x80)) [
            | inl bad ↦ let no = rw (other, skipped, bad) at e in cc no
            | inr none_added ↦ subst P (ok-injective (rw (other, skipped, none_added) at e)) tt
          ]
        ]
      ]

  frame_of-ne-stuck :
      (ftype fsize payload_off pa : ℕ) → frame_of z src ftype fsize payload_off pa ≢ stuck
  unfolding frame_of check_tag
  frame_of-ne-stuck ftype fsize payload_off pa = elim (Bool-cases (ftype == 0xFF)) [
    | inl tag ↦ rw tag (
        >>=-ne-stuck (check_tag src fsize payload_off) _
          (>>=-ne-stuck (read_into src payload_off (min fsize 6) 6) _
            (read_into-ne-stuck serves payload_off (min fsize 6) 6) (λ t. require-ne-stuck _ _))
          (λ u e. cc))
    | inr other ↦ elim (Bool-cases (ftype == 0 || ftype == 1)) [
      | inl frame ↦
          rw (other, frame)
            (>>=-ne-stuck (data_frame z src ftype fsize payload_off pa) _
              (data_frame-ne-stuck ftype fsize payload_off pa) (λ f e. cc))
      | inr skipped ↦ elim (Bool-cases (leb 2 ftype && ltb ftype 0x80)) [
        | inl bad ↦ rw (other, skipped, bad) (λ e. cc)
        | inr none_added ↦ rw (other, skipped, none_added) (λ e. cc)
      ]
    ]
  ]

  -- A round that is within the chunk goes on by 4 bytes at least, and stays within it.
  parse_frame-eq-ok :
      (file_off max pa consumed : ℕ) {r : List AvmlFrame × ℕ}
      → file_off + max ≤ src.size
      → consumed + 4 ≤ max
      → parse_frame z src file_off max pa consumed ≡ ok r
      → (consumed + 4 ≤ r.1) × (r.1 ≤ max) × All (IsBounded src.size) r.0
  unfolding parse_frame
  parse_frame-eq-ok file_off max pa consumed {r} room more e =
      let small = serves.bounded in
      let ((ftype, fsize), found, rest) = >>=-eq-ok (frame_header src file_off max consumed) _ e in
      let (inside, size) = frame_header-eq-ok file_off max consumed room more found in
      let (new, framed, last) =
        >>=-eq-ok (frame_of z src ftype fsize (add64 (add64 file_off consumed) 4) pa) _ rest in
      let new-IsBounded =
        frame_of-IsBounded ftype fsize (add64 (add64 file_off consumed) 4) pa (omega arith)
          framed in
      let next : (consumed + 4 ≤ add64 consumed (4 + fsize)) × (add64 consumed (4 + fsize) ≤ max) =
        omega arith in
      subst (λ r. (consumed + 4 ≤ r.1) × (r.1 ≤ max) × All (IsBounded src.size) r.0)
        (ok-injective last) (next.0, next.1, new-IsBounded)

  parse_frame-ne-stuck :
      (file_off max pa consumed : ℕ) → parse_frame z src file_off max pa consumed ≢ stuck
  unfolding parse_frame
  parse_frame-ne-stuck file_off max pa consumed =
      >>=-ne-stuck (frame_header src file_off max consumed) _
        (frame_header-ne-stuck file_off max consumed)
        λ h.
          >>=-ne-stuck (frame_of z src h.0 h.1 (add64 (add64 file_off consumed) 4) pa) _
            (frame_of-ne-stuck h.0 h.1 (add64 (add64 file_off consumed) 4) pa) (λ fs e. cc)

  -- The loop over the frames of a chunk ends, stays within the chunk, and adds bounded frames.
  pub parse_snappy_frames_lem :
      (fuel file_off max expected pa consumed decompressed : ℕ) (frames : List AvmlFrame)
      → file_off + max ≤ src.size
      → consumed ≤ max
      → max < consumed + 4 * fuel
      → All (IsBounded src.size) frames
      → (parse_snappy_frames fuel z src file_off max expected pa consumed decompressed frames
          ≢ stuck)
        × ((r : List AvmlFrame × ℕ)
            → parse_snappy_frames fuel z src file_off max expected pa consumed decompressed frames
              ≡ ok r
            → (r.1 ≤ max) × All (IsBounded src.size) r.0)
  unfolding parse_snappy_frames
  parse_snappy_frames_lem zero file_off max expected pa consumed decompressed frames room low h
        all =
      absurd (omega arith)
  parse_snappy_frames_lem (suc fuel) file_off max expected pa consumed decompressed frames room low
        h all =
      elim (Bool-cases (ltb decompressed expected && leb (add64 consumed 4) max)) [
        | inr done ↦ rw done (
          λ e. cc,
          λ r e.
              subst (λ r. (r.1 ≤ max) × All (IsBounded src.size) r.0) (ok-injective e) (low, all),
        )
        | inl more ↦
            let small = serves.bounded in
            let room' : consumed + 4 ≤ max = ground arith in
            let pa' = add64 pa decompressed in
            let rest =
              λ (r : List AvmlFrame × ℕ) (e : parse_frame z src file_off max pa' consumed ≡ ok r).
                let (on, inside, new) = parse_frame-eq-ok file_off max pa' consumed room room' e in
                parse_snappy_frames_lem fuel file_off max expected pa r.1
                  (add64 decompressed (added r.0)) (frames ++ r.0) room inside (omega arith)
                  (All-append (IsBounded src.size) frames r.0 all new) in
            rw more (
              λ e. elim (>>=-eq-stuck (parse_frame z src file_off max pa' consumed) _ e) [
                | inl round ↦ parse_frame-ne-stuck file_off max pa' consumed round
                | inr (r, found, later) ↦ (rest r found).0 later
              ],
              λ out e.
                  let (r, found, later) =
                    >>=-eq-ok (parse_frame z src file_off max pa' consumed) _ e in
                  (rest r found).1 out later,
            )
      ]
