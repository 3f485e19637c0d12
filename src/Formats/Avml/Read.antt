-- ===== src/Formats/Avml/Read.antt =====
-- formats/avml_format.cpp: `AvmlPhysical::read` shows the decompressed frames, whatever the cache
-- holds and evicts.
use mem_nix_fs.Base.{
  ℕ, zero, suc, ◌+◌, ◌-◌, ◌≤◌, ◌<◌, ◌≡◌, refl, ap, sym, subst, ◌∙◌, List, [], ◌∷◌, ◌++◌, some, ◌⊎◌,
  min, max, All, length, get_elem?, arith, ltb, ltb→lt, ltb→le, le→leb, Bool-cases, some_injective,
  inl, inr, ok,
}
use mem_nix_fs.Base.Word.{add64, sub64, u64_mod}
use mem_nix_fs.Base.Buffer.{part, zeros, write}
use mem_nix_fs.Io.{MemorySource, bytes}
use mem_nix_fs.Io.Mmap.{content, slice-bytes}
use mem_nix_fs.Physical.{
  Image, IsHole, IsFilled, window, backed, backed-le, filled, fill, backed-fill, fill_rest,
}
use mem_nix_fs.Formats.Extents
use mem_nix_fs.Formats.Avml.{
  Snappy, AvmlFrame, FrameCache, AvmlPhysical, load_frame, get, first_behind, copy_frame,
  frames_loop, avml_read,
}
use mem_nix_fs.Formats.Avml.Load.{max_frame}
use mem_nix_fs.Formats.Avml.Cached.{IsGood, get-IsGood}

-- The dump's bytes, for frames that decompress to `text`.
abbrev pub avml_image : (AvmlFrame → List ℕ) → List AvmlFrame → Image
avml_image text = Extents.image (λ f. f.pa_start) (λ f. f.pa_length) (λ f i. content (text f) i)

abbrev pub IsOrdered : ℕ → List AvmlFrame → Type 0
IsOrdered = Extents.IsOrdered (λ f. f.pa_start) (λ f. f.pa_length)

-- Every frame can be read, decompresses to `text`, and is of its length.
abbrev pub IsLoadable : Snappy → MemorySource → (AvmlFrame → List ℕ) → AvmlFrame → Type 0
IsLoadable z src text f =
    ((i : ℕ) → load_frame z src i f ≡ ok (text f)) × (length (text f) ≡ f.pa_length)

-- The bytes are those of the frame of that number.
abbrev pub IsFrame : (AvmlFrame → List ℕ) → List AvmlFrame → ℕ → List ℕ → Type 0
IsFrame text frames i bs = (f : AvmlFrame) × (get_elem? frames i ≡ some f) × (bs ≡ text f)

-- `rest` is the end of the list from the place `i` on.
abbrev IsFrom : List AvmlFrame → ℕ → List AvmlFrame → Type 0
IsFrom frames i rest =
    (x : ℕ) (g : AvmlFrame) → get_elem? rest x ≡ some g → get_elem? frames (i + x) ≡ some g

-- With `a` bytes behind `pa` done, the next frame ends no earlier, and starts no earlier but for
-- the first frame of a read.
abbrev Reaches : ℕ → ℕ → List AvmlFrame → Type 0
Reaches pa a [] = Unit {0}
Reaches pa a (f ∷ fs) =
    (max pa f.pa_start ≡ max (pa + a) f.pa_start) × (pa + a ≤ f.pa_start + f.pa_length)

ordered-Reaches :
    (pa a lo : ℕ) (fs : List AvmlFrame) → pa + a ≤ lo → IsOrdered lo fs → Reaches pa a fs
ordered-Reaches pa a lo [] h o = tt
ordered-Reaches pa a lo (f ∷ fs) h o = (omega arith, omega arith)

next-IsFrom :
    (frames : List AvmlFrame) (i : ℕ) (f : AvmlFrame) (fs : List AvmlFrame)
    → IsFrom frames i (f ∷ fs)
    → IsFrom frames (suc i) fs
next-IsFrom frames i f fs from x g h =
    let e : i + suc x ≡ suc i + x = omega arith in rw e at (from (suc x) g h)

part-bytes :
    (bs : List ℕ) (off n : ℕ) → off + n ≤ length bs → part bs off n ≡ ok (bytes (content bs) off n)
part-bytes bs off n h = rw (le→leb _ _ h, slice-bytes off n bs h)

-- A round, from what its calls return.
copy_frame-eq :
    (z : Snappy) (src : MemorySource) (pa end i : ℕ) (f : AvmlFrame) (c c' : FrameCache)
    (bs piece dst dst' : List ℕ) (rs re n off to : ℕ)
    → max pa f.pa_start ≡ rs
    → min end (add64 f.pa_start f.pa_length) ≡ re
    → sub64 re rs ≡ n
    → get c z src i f ≡ ok (c', bs)
    → sub64 rs f.pa_start ≡ off
    → part bs off n ≡ ok piece
    → sub64 rs pa ≡ to
    → write dst to piece ≡ ok dst'
    → copy_frame z src pa end i f c dst ≡ ok (c', dst', n)
unfolding copy_frame
copy_frame-eq z src pa end i f c c' bs piece dst dst' rs re n off to e₁ e₂ e₃ e₄ e₅ e₆ e₇ e₈ =
    rw (e₁, e₂, e₃, e₄, e₅, e₆, e₇, e₈)

module _ (z : Snappy) (src : MemorySource) (text : AvmlFrame → List ℕ) (frames : List AvmlFrame)
    (img : Image) (pa : ℕ) where
  -- The cache is good, and the frames are small.
  abbrev Fit : FrameCache → List AvmlFrame → Type 0
  Fit c fs = IsGood (IsFrame text frames) c × All (λ f. f.pa_length ≤ max_frame) fs

  copy_frame_lem :
      (i : ℕ) (f : AvmlFrame) (fs : List AvmlFrame) (lo a room : ℕ) (c : FrameCache)
      → IsFrom frames i (f ∷ fs)
      → Fit c (f ∷ fs)
      → IsLoadable z src text f
      → IsOrdered lo (f ∷ fs)
      → Reaches pa a (f ∷ fs)
      → ((x : ℕ) → pa + a ≤ x → x < pa + (a + room) → img x ≡ avml_image text (f ∷ fs) x)
      → pa + (a + room) < u64_mod
      → f.pa_start < pa + (a + room)
      → (a' : ℕ) × (rest : ℕ) × (n : ℕ) × (c' : FrameCache) × (a + room ≡ a' + rest)
        × ((pa + a' ≡ f.pa_start + f.pa_length) ⊎ (rest ≡ 0))
        × (pa + a' ≤ f.pa_start + f.pa_length)
        × (a ≤ a')
        × Fit c' fs
        × (add64 (backed img pa a) n ≡ backed img pa a')
        × (copy_frame z src pa (pa + (a + room)) i f c (window img pa a ++ zeros room)
            ≡ ok (c', window img pa a' ++ zeros rest, n))
  copy_frame_lem i f fs lo a room c from (good, sizes) (loads, size) o (reach, to_end) agree h
        start_in =
      let start = f.pa_start in
      let gap = start - (pa + a) in
      let n = min (room - gap) (start + f.pa_length - (pa + (a + gap))) in
      let rest = room - (gap + n) in
      let off = pa + (a + gap) - start in
      let here : get_elem? frames i ≡ some f =
        let e : i + 0 ≡ i = omega arith in rw e at (from 0 f refl) in
      let (c', got, good') =
        get-IsGood z src (IsFrame text frames) c i f (text f) good (loads i) (f, here, refl)
          (λ cs held. held.2 ∙ ap text (some_injective (sym held.1 ∙ here)))
          (omega (arith, size, sizes.0)) in
      let e₁ : max pa start ≡ pa + (a + gap) = omega (arith, reach) in
      let e₃ : min (pa + (a + room)) (add64 start f.pa_length) ≡ pa + (a + gap + n) = omega arith in
      let e₄ : sub64 (pa + (a + gap + n)) (pa + (a + gap)) ≡ n = omega arith in
      let e₅ : sub64 (pa + (a + gap)) start ≡ off = omega arith in
      let e₆ : sub64 (pa + (a + gap)) pa ≡ a + gap = omega arith in
      let piece = part-bytes (text f) off n (omega (arith, size)) in
      let before : IsHole img (pa + a) gap = λ x l u.
        agree x l (omega arith)
        ∙ Extents.image-before (λ f. f.pa_start) (λ f. f.pa_length) (λ f i. content (text f) i) lo f
            fs o x (omega arith) in
      let within : IsFilled img (content (text f)) (pa + (a + gap)) off n = λ x l.
        agree (pa + (a + gap) + x) (omega arith) (omega arith)
        ∙ (Extents.image-inside (λ f. f.pa_start) (λ f. f.pa_length) (λ f i. content (text f) i) f
              fs (pa + (a + gap) + x) (omega arith) (omega arith)
            ∙ ap (λ t. some (content (text f) t)) (omega arith)) in
      let (win, all) = filled img (content (text f)) (pa + (a + gap)) off n within in
      let put =
        fill img (bytes (content (text f)) off n) pa a gap n room rest before (sym win)
          (omega arith) in
      (
        a + gap + n,
        rest,
        n,
        c',
        omega arith,
        omega arith,
        omega arith,
        omega arith,
        (good', sizes.1),
        omega (arith, backed-fill img pa a gap n before, backed-le img pa (a + gap + n)),
        copy_frame-eq z src pa (pa + (a + room)) i f c c' (text f) _ _ _ _ _ n off (a + gap) e₁ e₃
            e₄ got e₅ piece e₆ put,
      )

  -- The loop fills the rest of the buffer, where the image agrees with the frames that are left.
  frames_loop_lem :
      (fs : List AvmlFrame) (i lo a room total : ℕ) (c : FrameCache)
      → IsFrom frames i fs
      → Fit c fs
      → All (IsLoadable z src text) fs
      → IsOrdered lo fs
      → Reaches pa a fs
      → ((x : ℕ) → pa + a ≤ x → x < pa + (a + room) → img x ≡ avml_image text fs x)
      → pa + (a + room) < u64_mod
      → total ≡ backed img pa a
      → (c' : FrameCache) × IsGood (IsFrame text frames) c'
        × (frames_loop z src pa (pa + (a + room)) i fs c (window img pa a ++ zeros room) total
            ≡ ok (c', window img pa (a + room), backed img pa (a + room)))
  unfolding frames_loop
  frames_loop_lem [] i lo a room total c from (good, sizes) loads o r agree h t =
      let (win, count) = fill_rest img pa a room (λ x l u. agree x l (omega arith)) in
      (c, good, rw (win, count, t))
  frames_loop_lem (f ∷ fs) i lo a room total c from fit loads o r agree h t =
      let f_end = f.pa_start + f.pa_length in
      let behind =
        Extents.image-behind (λ f. f.pa_start) (λ f. f.pa_length) (λ f i. content (text f) i) f
          fs in
      elim (Bool-cases (ltb f.pa_start (pa + (a + room)))) [
        | inr beyond ↦
            let beyond' = ltb→le _ _ beyond in
            let (win, count) = fill_rest img pa a room (λ x l u.
              agree x l (omega arith)
              ∙ Extents.image-before (λ f. f.pa_start) (λ f. f.pa_length)
                  (λ f i. content (text f) i) lo f fs o x (omega arith)) in
            (c, fit.0, rw (beyond, win, count, t))
        | inl overlap ↦
            let (a', rest, n, c', all, stop, inside, grown, fit', count, copied) =
              copy_frame_lem i f fs lo a room c from fit loads.0 o r agree h (ltb→lt _ _ overlap) in
            let (c'', good, rest_of) =
              frames_loop_lem fs (suc i) f_end a' rest (backed img pa a') c'
                (next-IsFrom frames i f fs from) fit' loads.1 o.2
                (ordered-Reaches pa a' f_end fs inside o.2)
                (λ x l u. agree x (omega arith) (omega arith) ∙ behind x (omega arith))
                (omega arith) refl in
            (
              c'',
              good,
              rw (overlap, copied, t, count)
                  (subst
                    (λ t.
                      frames_loop z src pa (pa + t) (suc i) fs c' (window img pa a' ++ zeros rest)
                        (backed img pa a')
                      ≡ ok (c'', window img pa t, backed img pa t))
                    (sym all) rest_of),
            )
      ]

first_behind-All :
    (P : AvmlFrame → Type 0) (pa i : ℕ) (fs : List AvmlFrame)
    → All P fs
    → All P (first_behind pa i fs).1
unfolding first_behind
first_behind-All P pa i [] h = h
first_behind-All P pa i (f ∷ fs) h = elim (Bool-cases (ltb pa (add64 f.pa_start f.pa_length))) [
  | inl here ↦ rw here h
  | inr past ↦ rw past (first_behind-All P pa (suc i) fs h.1)
]

-- The frames from the first one that ends behind `pa` show what all frames show there.
record Skipped (text : AvmlFrame → List ℕ) (pa i : ℕ) (fs : List AvmlFrame) (r : ℕ × List AvmlFrame)
    : Type 0 where
  low : ℕ
  order : IsOrdered low r.1
  reach : Reaches pa 0 r.1
  agree : (x : ℕ) → pa ≤ x → avml_image text fs x ≡ avml_image text r.1 x
  from : (frames : List AvmlFrame) → IsFrom frames i fs → IsFrom frames r.0 r.1

first_behind-Skipped :
    (text : AvmlFrame → List ℕ) (pa i lo : ℕ) (fs : List AvmlFrame)
    → IsOrdered lo fs
    → Skipped text pa i fs (first_behind pa i fs)
unfolding first_behind
first_behind-Skipped text pa i lo [] o = record {
  low = lo;
  order = o;
  reach = tt;
  agree = λ x h. refl;
  from = λ frames h. h;
}
first_behind-Skipped text pa i lo (f ∷ fs) o =
    let f_end = f.pa_start + f.pa_length in
    let e : add64 f.pa_start f.pa_length ≡ f_end = omega arith in
    elim (Bool-cases (ltb pa f_end)) [
      | inl here ↦
          let here' = ltb→lt _ _ here in
          rw (e, here)
            (record {
              low = lo;
              order = o;
              reach = (ap (λ t. max t f.pa_start) (omega arith), omega arith);
              agree = λ x h. refl;
              from = λ frames h. h;
            })
      | inr past ↦
          let past' = ltb→le _ _ past in
          let s = first_behind-Skipped text pa (suc i) f_end fs o.2 in
          rw (e, past)
            (record {
              low = s.low;
              order = s.order;
              reach = s.reach;
              agree = λ x h.
                  Extents.image-behind (λ f. f.pa_start) (λ f. f.pa_length)
                    (λ f i. content (text f) i) f fs x (omega arith)
                  ∙ s.agree x h;
              from = λ frames h. s.from frames (next-IsFrom frames i f fs h);
            })
    ]

-- `AvmlPhysical::read` on frames that are ordered, can be read and decompress to their lengths, with
-- a cache that has room for a frame and holds only what frames decompress to: a read stores the
-- bytes of the frames and zeros elsewhere, counts the former, stays inside its buffer, reads no
-- frame that the cache has dropped, and leaves such a cache.
pub avml_read-window :
    (z : Snappy) (a : AvmlPhysical) (text : AvmlFrame → List ℕ) (c : FrameCache)
    → IsOrdered 0 a.frames
    → All (IsLoadable z a.src text) a.frames
    → IsGood (IsFrame text a.frames) c
    → All (λ f. f.pa_length ≤ max_frame) a.frames
    → (pa len : ℕ) → pa + len < u64_mod
    → (c' : FrameCache) × IsGood (IsFrame text a.frames) c'
      × (avml_read z a c pa len
          ≡ ok (
            c',
            window (avml_image text a.frames) pa len,
            backed (avml_image text a.frames) pa len,
          ))
unfolding avml_read
avml_read-window z a text c o loads good sizes pa zero h = (c, good, refl)
avml_read-window z a text c o loads good sizes pa (suc m) h =
    let img = avml_image text a.frames in
    let r = first_behind pa 0 a.frames in
    let s = first_behind-Skipped text pa 0 0 a.frames o in
    let e : add64 pa (suc m) ≡ pa + suc m = omega arith in
    let e₂ : 0 + suc m ≡ suc m = omega arith in
    let all : IsFrom a.frames 0 a.frames = λ x g h. let e₀ : 0 + x ≡ x = omega arith in rw e₀ h in
    rw e (
      rw e₂ at (
        frames_loop_lem z a.src text a.frames img pa r.1 r.0 s.low 0 (suc m) 0 c
          (s.from a.frames all)
          (good, first_behind-All (λ f. f.pa_length ≤ max_frame) pa 0 a.frames sizes)
          (first_behind-All (IsLoadable z a.src text) pa 0 a.frames loads) s.order s.reach
          (λ x k u. s.agree x (omega arith)) (omega arith) refl))
