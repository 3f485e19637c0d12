-- ===== src/Formats/Lime/Load.antt =====
-- formats/lime_format.cpp: what `load_segments` makes of a file.
use mem_nix_fs.Base.{
  ℕ, zero, suc, ◌+◌, ◌*◌, ◌/◌, ◌^◌, ◌≤◌, ◌<◌, ◌≡◌, ◌≢◌, sym, subst, ◌∙◌, List, [], ◌∷◌, ◌++◌, All,
  arith, leb, leb→le, Bool-cases, inl, inr, ◌==◌, Result, ok, stuck, ◌>>=◌, ◌>>◌, require,
  >>=-eq-ok, >>=-eq-stuck, append_assoc, append-nil,
}
use mem_nix_fs.Base.Word.{add64, u64_mod}
use mem_nix_fs.Base.Buffer.{field-lt}
use mem_nix_fs.Io.{MemorySource, Serves, bytes, bytes-octets, reads_within}
use mem_nix_fs.Formats.Lime.{
  LimeHeader, LimeSegment, LimePhysical, decode_header, check_header, segment_of, load_segment,
  load_loop, finish, load_segments,
}
use mem_nix_fs.Formats.Lime.Read.{IsOrdered, IsWithin}

-- What a round at `off` behind `prev_end` establishes of its segment and of the next round.
pub record Follows (size off prev_end : ℕ) (r : LimeSegment × ℕ × ℕ) : Type 0 where
  pub above : prev_end ≤ r.0.pa_start
  pub placed : r.0.file_offset ≡ off + 32
  pub inside : r.0.file_offset + r.0.pa_length ≤ size
  pub next_off : r.2 ≡ r.0.file_offset + r.0.pa_length
  pub next_end : r.0.pa_start + r.0.pa_length < u64_mod → r.1 ≡ r.0.pa_start + r.0.pa_length

-- The tail of a round, for a header that was read.
abbrev pub round_of : ℕ → LimeHeader → ℕ → ℕ → Result (LimeSegment × ℕ × ℕ)
round_of size h off prev_end = do
  check_header h off prev_end
  s ← segment_of size h off
  ok (s, add64 h.end 1, add64 s.file_offset s.pa_length)

round_of-Follows :
    (size : ℕ) (h : LimeHeader) (off prev_end : ℕ) {r : LimeSegment × ℕ × ℕ}
    → size < 2 ^ 63
    → off + 32 ≤ size
    → h.start < 2 ^ 64
    → h.end < 2 ^ 64
    → round_of size h off prev_end ≡ ok r
    → Follows size off prev_end r
unfolding check_header segment_of
round_of-Follows size h off prev_end bounded room hs he e = ground arith

round_of-ne-stuck :
    (size : ℕ) (h : LimeHeader) (off prev_end : ℕ) → round_of size h off prev_end ≢ stuck
unfolding check_header segment_of
round_of-ne-stuck size h off prev_end e = ground arith

-- The header in the 32 bytes at `off`.
abbrev pub header_at : (ℕ → ℕ) → ℕ → LimeHeader
header_at file off = decode_header (bytes file off 32)

module _ (src : MemorySource) (file : ℕ → ℕ) (serves : Serves src file) where
  -- Within the file a round reads its header, and no header is short.
  pub load_segment-round_of :
      (off prev_end : ℕ)
      → off + 32 ≤ src.size
      → load_segment src off prev_end ≡ round_of src.size (header_at file off) off prev_end
  unfolding load_segment
  load_segment-round_of off prev_end room = rw (reads_within serves off 32 room)

  pub load_segment-Follows :
      (off prev_end : ℕ) {r : LimeSegment × ℕ × ℕ}
      → off + 32 ≤ src.size
      → load_segment src off prev_end ≡ ok r
      → Follows src.size off prev_end r
  unfolding decode_header
  load_segment-Follows off prev_end room e =
      let octets = bytes-octets file serves.octets off 32 in
      round_of-Follows src.size (header_at file off) off prev_end serves.bounded room
        (field-lt (bytes file off 32) 8 8 octets) (field-lt (bytes file off 32) 16 8 octets)
        (sym (load_segment-round_of off prev_end room) ∙ e)

  -- What the loop adds to the segments, and where it stops.
  load_loop-adds :
      (fuel off prev_end : ℕ) (segs : List LimeSegment) {out : List LimeSegment × ℕ}
      → off ≤ src.size
      → load_loop fuel src off prev_end segs ≡ ok out
      → (new : List LimeSegment) × (out.0 ≡ segs ++ new)
        × IsWithin src.size new
        × (All (λ s. s.pa_start + s.pa_length < u64_mod) new → IsOrdered prev_end new)
  unfolding load_loop
  load_loop-adds zero off prev_end segs low e = cc
  load_loop-adds (suc fuel) off prev_end segs {out} low e =
      elim (Bool-cases (leb (add64 off 32) src.size)) [
        | inl more ↦
            let small = serves.bounded in
            let room : off + 32 ≤ src.size = omega (arith, leb→le _ _ more) in
            let (r, found, rest) = >>=-eq-ok (load_segment src off prev_end) _ (rw more at e) in
            let f = load_segment-Follows off prev_end room found in
            let (new, all, inside, order) =
              load_loop-adds fuel r.2 r.1 (segs ++ (r.0 ∷ [])) (omega arith) rest in
            (
              r.0 ∷ new,
              all ∙ append_assoc segs (r.0 ∷ []) new,
              (f.inside, inside),
              λ fits. (
                f.above,
                fits.0,
                subst (λ t. IsOrdered t new) (f.next_end fits.0) (order fits.1),
              ),
            )
        | inr done ↦
            let e' : ok (segs, off) ≡ ok out = rw done at e in
            ([], ground (arith, append-nil segs), tt, λ fits. tt)
      ]

  -- Every round takes 32 bytes of the file at least.
  load_loop-ne-stuck :
      (fuel off prev_end : ℕ) (segs : List LimeSegment)
      → off ≤ src.size
      → src.size < off + 32 * fuel
      → load_loop fuel src off prev_end segs ≢ stuck
  unfolding load_loop
  load_loop-ne-stuck zero off prev_end segs low h e = absurd (omega arith)
  load_loop-ne-stuck (suc fuel) off prev_end segs low h e =
      elim (Bool-cases (leb (add64 off 32) src.size)) [
        | inl more ↦
            let small = serves.bounded in
            let room : off + 32 ≤ src.size = omega (arith, leb→le _ _ more) in
            elim (>>=-eq-stuck (load_segment src off prev_end) _ (rw more at e)) [
              | inl round ↦
                  round_of-ne-stuck src.size (header_at file off) off prev_end
                    (sym (load_segment-round_of off prev_end room) ∙ round)
              | inr (r, found, rest) ↦
                  let f = load_segment-Follows off prev_end room found in
                  load_loop-ne-stuck fuel r.2 r.1 (segs ++ (r.0 ∷ [])) (omega arith) (omega arith)
                    rest
            ]
        | inr done ↦ let absurd_end : ok (segs, off) ≡ stuck = rw done at e in cc absurd_end
      ]

  finish-ne-stuck : (segs : List LimeSegment) → finish src segs ≢ stuck
  unfolding finish
  finish-ne-stuck [] e = cc
  finish-ne-stuck (s ∷ ss) e = cc

  -- Loading ends on every file: the loop's rounds are never more than a 32nd of its bytes.
  pub load_segments-ne-stuck : load_segments src ≢ stuck
  unfolding load_segments
  load_segments-ne-stuck e = elim (>>=-eq-stuck (load_loop (src.size / 32 + 1) src 0 0 []) _ e) [
    | inl loop ↦ load_loop-ne-stuck (src.size / 32 + 1) 0 0 [] (omega arith) (omega arith) loop
    | inr (r, found, rest) ↦ elim (Bool-cases (r.1 == src.size)) [
      | inl whole ↦ finish-ne-stuck r.0 (rw whole at rest)
      | inr part ↦ let e' = rw part at rest in cc
    ]
  ]

  pub finish-eq-ok :
      (segs : List LimeSegment) {l : LimePhysical}
      → finish src segs ≡ ok l
      → (l.src ≡ src) × (l.segs ≡ segs)
  unfolding finish
  finish-eq-ok [] e = cc
  finish-eq-ok (s ∷ ss) e = ground arith

  -- A file that loads has its segments' data inside it, and, where every segment ends below the
  -- last 64-bit address, in ascending order without overlaps.
  pub load_segments-IsOrdered :
      {l : LimePhysical}
      → load_segments src ≡ ok l
      → (l.src ≡ src)
        × IsWithin src.size l.segs
        × (All (λ s. s.pa_start + s.pa_length < u64_mod) l.segs → IsOrdered 0 l.segs)
  unfolding load_segments
  load_segments-IsOrdered {l} e =
      let (r, found, rest) = >>=-eq-ok (load_loop (src.size / 32 + 1) src 0 0 []) _ e in
      let (new, all, inside, order) =
        load_loop-adds (src.size / 32 + 1) 0 0 [] (omega arith) found in
      let (u, whole, ended) = >>=-eq-ok (require (r.1 == src.size) _) _ rest in
      let (same, segs) = finish-eq-ok r.0 ended in
      let e' : new ≡ l.segs = sym all ∙ sym segs in
      (
        same,
        subst (IsWithin src.size) e' inside,
        subst (λ t. All (λ s. s.pa_start + s.pa_length < u64_mod) t → IsOrdered 0 t) e' order,
      )
