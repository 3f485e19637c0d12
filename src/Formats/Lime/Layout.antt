-- ===== src/Formats/Lime/Layout.antt =====
-- formats/lime_format.cpp: the segments that load are the ones that the headers in the file announce.
use mem_nix_fs.Base.{
  ℕ, zero, suc, ◌+◌, ◌/◌, ◌%◌, ◌^◌, ◌≤◌, ◌<◌, ◌≡◌, ap, sym, subst, ◌∙◌, List, [], ◌∷◌, ◌++◌, arith,
  leb, leb→le, Bool-cases, inl, inr, ◌==◌, ok, require, require-eq-ok, ok-injective, >>=-eq-ok,
  append_assoc, append-nil,
}
use mem_nix_fs.Base.Word.{add64}
use mem_nix_fs.Base.Buffer.{field-lt}
use mem_nix_fs.Io.{MemorySource, Serves, bytes, bytes-octets, word, field-word}
use mem_nix_fs.Formats.Lime.{
  LimeHeader, LimeSegment, LimePhysical, decode_header, check_header, segment_of, load_segment,
  load_loop, load_segments,
}
use mem_nix_fs.Formats.Lime.Load.{
  round_of, header_at, load_segment-round_of, load_segment-Follows, finish-eq-ok,
}

-- The segment whose header stands at `off` of a file: magic and version, the first address, and the
-- last one, with which the addresses end; the data follow the header's 32 bytes.
pub record IsSegmentAt (file : ℕ → ℕ) (off : ℕ) (s : LimeSegment) : Type 0 where
  pub magic : word file off 4 ≡ 0x4C694D45
  pub version : word file (off + 4) 4 ≡ 1
  pub first : s.pa_start ≡ word file (off + 8) 8
  pub upward : word file (off + 8) 8 ≤ word file (off + 16) 8
  pub last : (s.pa_start + s.pa_length) % 2 ^ 64 ≡ (word file (off + 16) 8 + 1) % 2 ^ 64
  pub data_at : s.file_offset ≡ off + 32

-- Segments one behind the other, from `off` to the end of the file at `size`.
abbrev pub IsLayout : (ℕ → ℕ) → ℕ → ℕ → List LimeSegment → Type 0
IsLayout file size off [] = off ≡ size
IsLayout file size off (s ∷ ss) =
    IsSegmentAt file off s × IsLayout file size (off + 32 + s.pa_length) ss

-- What the checks of a round let through.
record IsAnnounced (h : LimeHeader) (s : LimeSegment) : Type 0 where
  magic : h.magic ≡ 0x4C694D45
  version : h.version ≡ 1
  first : s.pa_start ≡ h.start
  upward : h.start ≤ h.end
  last : (s.pa_start + s.pa_length) % 2 ^ 64 ≡ (h.end + 1) % 2 ^ 64

round_of-IsAnnounced :
    (size : ℕ) (h : LimeHeader) (off prev_end : ℕ) {r : LimeSegment × ℕ × ℕ}
    → h.start < 2 ^ 64
    → h.end < 2 ^ 64
    → round_of size h off prev_end ≡ ok r
    → IsAnnounced h r.0
unfolding check_header segment_of
round_of-IsAnnounced size h off prev_end hs he e = ground arith

module _ (src : MemorySource) (file : ℕ → ℕ) (serves : Serves src file) where
  load_segment-IsSegmentAt :
      (off prev_end : ℕ) {r : LimeSegment × ℕ × ℕ}
      → off + 32 ≤ src.size
      → load_segment src off prev_end ≡ ok r
      → IsSegmentAt file off r.0
  unfolding decode_header
  load_segment-IsSegmentAt off prev_end room e =
      let octets = bytes-octets file serves.octets off 32 in
      let a =
        round_of-IsAnnounced src.size (header_at file off) off prev_end
          (field-lt (bytes file off 32) 8 8 octets) (field-lt (bytes file off 32) 16 8 octets)
          (sym (load_segment-round_of src file serves off prev_end room) ∙ e) in
      let f = load_segment-Follows src file serves off prev_end room e in
      let start = field-word file off 32 8 8 (omega arith) in
      let end = field-word file off 32 16 8 (omega arith) in
      let at : off + 0 ≡ off = omega arith in
      record {
        magic =
            ap (λ t. word file t 4) (sym at)
            ∙ (sym (field-word file off 32 0 4 (omega arith)) ∙ a.magic);
        version = sym (field-word file off 32 4 4 (omega arith)) ∙ a.version;
        first = a.first ∙ start;
        upward = omega (arith, start, end, a.upward);
        last = a.last ∙ ap (λ t. (t + 1) % 2 ^ 64) end;
        data_at = f.placed;
      }

  load_loop-IsLayout :
      (fuel off prev_end : ℕ) (segs : List LimeSegment) {out : List LimeSegment × ℕ}
      → off ≤ src.size
      → load_loop fuel src off prev_end segs ≡ ok out
      → (new : List LimeSegment) × (out.0 ≡ segs ++ new) × IsLayout file out.1 off new
  unfolding load_loop
  load_loop-IsLayout zero off prev_end segs low e = absurd (cc)
  load_loop-IsLayout (suc fuel) off prev_end segs {out} low e =
      elim (Bool-cases (leb (add64 off 32) src.size)) [
        | inl more ↦
            let small = serves.bounded in
            let room : off + 32 ≤ src.size = omega (arith, leb→le _ _ more) in
            let (r, found, rest) = >>=-eq-ok (load_segment src off prev_end) _ (rw more at e) in
            let f = load_segment-Follows src file serves off prev_end room found in
            let next : r.2 ≡ off + 32 + r.0.pa_length = omega (arith, f.next_off, f.placed) in
            let (new, all, laid) =
              load_loop-IsLayout fuel r.2 r.1 (segs ++ (r.0 ∷ []))
                (omega (arith, f.next_off, f.inside)) rest in
            (
              r.0 ∷ new,
              all ∙ append_assoc segs (r.0 ∷ []) new,
              (
                load_segment-IsSegmentAt off prev_end room found,
                subst (λ t. IsLayout file out.1 t new) next laid,
              ),
            )
        | inr done ↦
            let same = ok-injective (rw done at e) in
            ([], sym (ap (λ t. t.0) same) ∙ sym (append-nil segs), ap (λ t. t.1) same)
      ]

  -- A file that loads is its segments' headers and data, one behind the other, to the last byte.
  pub load_segments-IsLayout :
      {l : LimePhysical} → load_segments src ≡ ok l → IsLayout file src.size 0 l.segs
  unfolding load_segments
  load_segments-IsLayout {l} e =
      let (r, found, rest) = >>=-eq-ok (load_loop (src.size / 32 + 1) src 0 0 []) _ e in
      let (new, all, laid) = load_loop-IsLayout (src.size / 32 + 1) 0 0 [] (omega arith) found in
      let (u, whole, ended) = >>=-eq-ok (require (r.1 == src.size) _) _ rest in
      let (same, segs) = finish-eq-ok src file serves r.0 ended in
      let sized : r.1 ≡ src.size = ground (arith, require-eq-ok (r.1 == src.size) _ whole) in
      subst (IsLayout file src.size 0) (sym all ∙ sym segs)
        (subst (λ t. IsLayout file t 0 new) sized laid)
