-- ===== src/Formats/Lime/Read.antt =====
-- formats/lime_format.cpp: `LimePhysical::read` shows the bytes of the segments.
use mem_nix_fs.Base.{
  ℕ, ◌+◌, ◌-◌, ◌≤◌, ◌<◌, ◌≡◌, refl, ap, sym, subst, ◌∙◌, List, [], ◌∷◌, ◌++◌, min, max, arith, leb,
  leb→le, leb→lt, Bool-cases, inl, inr, ◌⊎◌, ok, some,
}
use mem_nix_fs.Base.Word.{add64, sub64, u64_mod}
use mem_nix_fs.Base.Buffer.{zeros}
use mem_nix_fs.Io.{MemorySource, Serves, bytes, length-bytes, reads_within}
use mem_nix_fs.Physical.{
  fill_rest, Image, Shows, IsHole, IsFilled, window, backed, backed-le, filled, fill, backed-fill,
}
use mem_nix_fs.Formats.Extents
use mem_nix_fs.Formats.Lime.{
  LimeSegment, LimePhysical, read_loop, copy_segment, lime_read, lime_layer,
}

-- The bytes of a segment in the file.
abbrev pub segment_byte : (ℕ → ℕ) → LimeSegment → ℕ → ℕ
segment_byte file s i = file (s.file_offset + i)

abbrev pub lime_image : (ℕ → ℕ) → List LimeSegment → Image
lime_image file = Extents.image (λ s. s.pa_start) (λ s. s.pa_length) (segment_byte file)

abbrev pub IsOrdered : ℕ → List LimeSegment → Type 0
IsOrdered = Extents.IsOrdered (λ s. s.pa_start) (λ s. s.pa_length)

-- Every segment's data lies in the file.
abbrev pub IsWithin : ℕ → List LimeSegment → Type 0
IsWithin size [] = Unit {0}
IsWithin size (s ∷ ss) = (s.file_offset + s.pa_length ≤ size) × IsWithin size ss

module _ (src : MemorySource) (file : ℕ → ℕ) (serves : Serves src file) (img : Image) (pa : ℕ) where
  copy_segment_lem :
      (s : LimeSegment) (ss : List LimeSegment) (lo a room total : ℕ)
      → IsOrdered lo (s ∷ ss)
      → IsWithin src.size (s ∷ ss)
      → ((x : ℕ) → pa + a ≤ x → x < pa + (a + room) → img x ≡ lime_image file (s ∷ ss) x)
      → pa + (a + room) < u64_mod
      → total ≡ backed img pa a
      → pa + a < s.pa_start + s.pa_length
      → s.pa_start < pa + (a + room)
      → (a' : ℕ) × (rest : ℕ) × (a + room ≡ a' + rest)
        × ((pa + a' ≡ s.pa_start + s.pa_length) ⊎ (rest ≡ 0))
        × (a ≤ a')
        × (copy_segment src pa (pa + (a + room)) s (pa + a) (window img pa a ++ zeros room) total
            ≡ ok (window img pa a' ++ zeros rest, pa + a', backed img pa a'))
  unfolding copy_segment
  copy_segment_lem s ss lo a room total o w agree h t h1 h2 =
      let start = s.pa_start in
      let gap = start - (pa + a) in
      let n = min (room - gap) (start + s.pa_length - (pa + (a + gap))) in
      let rest = room - (gap + n) in
      let skipped = pa + (a + gap) - start in
      let off = s.file_offset + skipped in
      let small = serves.bounded in
      let e₁ : max (pa + a) start ≡ pa + (a + gap) = omega arith in
      let e₂ : add64 start s.pa_length ≡ start + s.pa_length = omega arith in
      let e₃ : min (pa + (a + room)) (start + s.pa_length) ≡ pa + (a + gap + n) = omega arith in
      let e₄ : sub64 (pa + (a + gap)) start ≡ skipped = omega arith in
      let e₅ : add64 s.file_offset skipped ≡ off = omega arith in
      let e₆ : sub64 (pa + (a + gap + n)) (pa + (a + gap)) ≡ n = omega arith in
      let e₇ : sub64 (pa + (a + gap)) pa ≡ a + gap = omega arith in
      let got = reads_within serves off n (omega arith) in
      let before : IsHole img (pa + a) gap = λ x l u.
        agree x l (omega arith)
        ∙ Extents.image-before (λ s. s.pa_start) (λ s. s.pa_length) (segment_byte file) lo s ss o x
            (omega arith) in
      let within : IsFilled img file (pa + (a + gap)) off n = λ x l.
        agree (pa + (a + gap) + x) (omega arith) (omega arith)
        ∙ (Extents.image-inside (λ s. s.pa_start) (λ s. s.pa_length) (segment_byte file) s ss
              (pa + (a + gap) + x) (omega arith) (omega arith)
            ∙ ap (λ t. some (file t)) (omega arith)) in
      let (win, all) = filled img file (pa + (a + gap)) off n within in
      let stored =
        fill img (bytes file off n) pa a gap n room rest before (sym win) (omega arith) in
      let count : add64 total n ≡ backed img pa (a + gap + n) =
        omega (arith, backed-fill img pa a gap n before, backed-le img pa (a + gap + n)) in
      (
        a + gap + n,
        rest,
        omega arith,
        omega arith,
        omega arith,
        rw (e₁, e₂, e₃, e₄, e₅, e₆, e₇, got, stored, length-bytes, count),
      )

  -- The loop fills the rest of the buffer, where the image agrees with the segments that are left.
  read_loop_lem :
      (ss : List LimeSegment) (lo a room total : ℕ)
      → IsOrdered lo ss
      → IsWithin src.size ss
      → ((x : ℕ) → pa + a ≤ x → x < pa + (a + room) → img x ≡ lime_image file ss x)
      → pa + (a + room) < u64_mod
      → total ≡ backed img pa a
      → read_loop src pa (pa + (a + room)) ss (pa + a) (window img pa a ++ zeros room) total
        ≡ ok (window img pa (a + room), backed img pa (a + room))
  unfolding read_loop
  read_loop_lem [] lo a room total o w agree h t =
      let (win, count) = fill_rest img pa a room (λ x l u. agree x l (omega arith)) in
      rw (win, count, t)
  read_loop_lem (s ∷ ss) lo a room total o w agree h t =
      let start = s.pa_start in
      let s_end = start + s.pa_length in
      let e : add64 start s.pa_length ≡ s_end = omega arith in
      let behind =
        Extents.image-behind (λ s. s.pa_start) (λ s. s.pa_length) (segment_byte file) s ss in
      elim (Bool-cases (leb s_end (pa + a))) [
        | inl past ↦
            let past' = leb→le s_end (pa + a) past in
            rw (e, past)
              (read_loop_lem ss s_end a room total o.2 w.1
                (λ x l u. agree x l u ∙ behind x (omega arith)) h t)
        | inr here ↦
            let here' = leb→lt s_end (pa + a) here in
            elim (Bool-cases (leb (pa + (a + room)) start)) [
              | inl beyond ↦
                  let beyond' = leb→le (pa + (a + room)) start beyond in
                  let (win, count) = fill_rest img pa a room (λ x l u.
                    agree x l (omega arith)
                    ∙ Extents.image-before (λ s. s.pa_start) (λ s. s.pa_length) (segment_byte file)
                        lo s ss o x (omega arith)) in
                  rw (e, here, beyond, win, count, t)
              | inr overlap ↦
                  let overlap' = leb→lt (pa + (a + room)) start overlap in
                  let (a', rest, all, stop, grown, copied) =
                    copy_segment_lem s ss lo a room total o w agree h t here' overlap' in
                  let rest_of =
                    read_loop_lem ss s_end a' rest (backed img pa a') o.2 w.1
                      (λ x l u. agree x (omega arith) (omega arith) ∙ behind x (omega arith))
                      (omega arith) refl in
                  rw (e, here, overlap, copied)
                    (subst
                      (λ t.
                        read_loop src pa (pa + t) ss (pa + a') (window img pa a' ++ zeros rest)
                          (backed img pa a')
                        ≡ ok (window img pa t, backed img pa t))
                      (sym all) rest_of)
            ]
      ]

-- `LimePhysical` shows the bytes of its segments: for ordered segments within the file, a read
-- stores every byte that a segment holds and zeros elsewhere, and counts the former. It writes
-- inside its buffer only.
pub lime_layer-Shows :
    (l : LimePhysical) (file : ℕ → ℕ)
    → Serves l.src file
    → IsOrdered 0 l.segs
    → IsWithin l.src.size l.segs
    → Shows (lime_layer l) (lime_image file l.segs)
unfolding lime_layer lime_read
lime_layer-Shows l file serves o w = record {
  reads = λ pa len h.
      let e : add64 pa len ≡ pa + len = omega arith in
      let e' : pa + 0 ≡ pa = omega arith in
      let e₂ : 0 + len ≡ len = omega arith in
      rw e (
        rw (e', e₂) at
          (read_loop_lem l.src file serves (lime_image file l.segs) pa l.segs 0 0 len 0 o w
            (λ x k u. refl) (omega arith) refl));
}
