-- ===== src/Linux/ElfCore/Serve.antt =====
-- os/linux/elf_core_stream.cpp: the stream serves the file that `build_elf_core` builds.
use mem_nix_fs.Base.{
  ℕ, ◌+◌, ◌-◌, ◌^◌, ◌≤◌, ◌<◌, ◌≡◌, refl, ap, ap₂, sym, subst, ◌∙◌, List, [], ◌∷◌, ◌++◌, false, All,
  ◌⊎◌, inl, inr, min, max, length, take, drop, length-append, arith, leb, leb→le, leb→lt, ==_iff,
  ◌==◌, Bool-cases, Result, ok,
}
use mem_nix_fs.Base.Word.{add64, sub64}
use mem_nix_fs.Base.Buffer.{zeros, write}
use mem_nix_fs.Physical.{Image, Shows, window, fill_next}
use mem_nix_fs.Paging.{PageTable}
use mem_nix_fs.Paging.Read.{virtual_image}
use mem_nix_fs.Paging.Cache.{UserPageCache, cache_read}
use mem_nix_fs.Paging.Cache.Read.{IsGood, cache_read-virtual_image}
use mem_nix_fs.Linux.ElfCore.{PlannedSegment, ElfCoreStream, serve_segments, serve}
use mem_nix_fs.Linux.ElfCore.Stream.{
  IsPlaced, IsContiguous, IsNearSegment, file_image, file_slice, take-drop-append,
}

-- A round that serves bytes, from what its calls return.
serve_segments-eq :
    (pt : PageTable) (cur remaining base : ℕ) (s : PlannedSegment) (ss : List PlannedSegment)
    (c c' : UserPageCache) (out out' buf : List ℕ) (got s_end stop hit_start hit_len va to : ℕ)
    → add64 s.file_off s.file_len ≡ s_end
    → leb s_end cur ≡ false
    → add64 cur remaining ≡ stop
    → leb stop s.file_off ≡ false
    → max cur s.file_off ≡ hit_start
    → sub64 (min stop s_end) hit_start ≡ hit_len
    → add64 s.vm_start (sub64 hit_start s.file_off) ≡ va
    → cache_read c pt va hit_len ≡ ok (c', buf, got)
    → base + (hit_start - cur) ≡ to
    → write out to buf ≡ ok out'
    → serve_segments pt cur remaining base (s ∷ ss) c out
      ≡ serve_segments pt cur remaining base ss c' out'
unfolding serve_segments
serve_segments-eq pt cur remaining base s ss c c' out out' buf got s_end stop hit_start hit_len va
      to e₁ e₂ e₃ e₄ e₅ e₆ e₇ e₈ e₉ e₁₀ =
    rw (e₁, e₂, e₃, e₄, e₅, e₆, e₇, e₈, e₉, e₁₀)

module _ (pt : PageTable) (img : Image) (shows : Shows pt.phys img) (dtb : pt.dtb + 4096 < 2 ^ 64)
    (file : List ℕ) (end : ℕ) (all_of : length file ≡ end) (small : end < 2 ^ 63)
    (offset base n tail : ℕ) (inside : offset + n ≤ end) (front : base ≤ n) where
  -- How far a request has got, where the segments from `lo` on are left: it is done, or the buffer
  -- is filled up to `lo`.
  abbrev Filled : ℕ → ℕ → Type 0
  Filled lo a = ((a ≡ n) × (offset + n ≤ lo)) ⊎ (offset + a ≡ max (offset + base) lo)

  abbrev seen_so_far : ℕ → ℕ → List ℕ
  seen_so_far a room = window (file_image file) offset a ++ zeros (room + tail)

  -- A round on a segment of which bytes are asked for.
  serve_one :
      (s : PlannedSegment) (ss : List PlannedSegment) (a room : ℕ) (c : UserPageCache)
      → IsGood pt img c
      → IsPlaced (virtual_image pt img) file s
      → IsNearSegment s
      → a + room ≡ n
      → base ≤ a
      → offset + base < s.file_off + s.file_len
      → s.file_off < offset + n
      → offset + a ≡ max (offset + base) s.file_off
      → s.file_off + s.file_len ≤ end
      → (c' : UserPageCache) × (a' : ℕ) × (room' : ℕ) × IsGood pt img c'
        × (a' + room' ≡ n)
        × (a ≤ a')
        × Filled (s.file_off + s.file_len) a'
        × (serve_segments pt (offset + base) (n - base) base (s ∷ ss) c (seen_so_far a room)
            ≡ serve_segments pt (offset + base) (n - base) base ss c' (seen_so_far a' room'))
  serve_one s ss a room c good place near all low reach start_in at fits =
      let F = file_image file in
      let mem = virtual_image pt img in
      let s_end = s.file_off + s.file_len in
      let k = offset + a - s.file_off in
      let m = min (offset + n) s_end - (offset + a) in
      let room' = room - m in
      let va = s.vm_start + k in
      let (c', run, good') = cache_read-virtual_image pt img shows dtb c good va m (omega arith) in
      let (same, within) = place k m (omega arith) in
      let pos : s.file_off + k ≡ offset + a = omega arith in
      let bytes_of : window mem va m ≡ window F (offset + a) m =
        sym same
        ∙ (ap (λ t. take m (drop t file)) pos
            ∙ file_slice file (offset + a) m (omega (arith, within))) in
      let e : room + tail ≡ m + (room' + tail) = omega arith in
      let put : write (seen_so_far a room) a (window mem va m) ≡ ok (seen_so_far (a + m) room') =
        ap (λ t. write (window F offset a ++ zeros t) a (window mem va m)) e
        ∙ fill_next F (window mem va m) offset a m (room' + tail) bytes_of in
      let filled : Filled s_end (a + m) = elim (Bool-cases (leb (offset + n) s_end)) [
        | inl last ↦ let last' = leb→le _ _ last in inl (omega arith, omega arith)
        | inr more ↦ let more' = leb→lt _ _ more in inr (omega arith)
      ] in
      (
        c',
        a + m,
        room',
        good',
        omega arith,
        omega arith,
        filled,
        serve_segments-eq pt (offset + base) (n - base) base s ss c c' (seen_so_far a room)
            (seen_so_far (a + m) room') (window mem va m) _ s_end (offset + n) (offset + a) m va a
            (omega arith) (ground arith) (omega arith) (ground arith) (omega arith) (omega arith)
            (omega arith) run (omega arith) put,
      )

  finished :
      (c : UserPageCache) (a room : ℕ)
      → a ≡ n
      → room ≡ 0
      → ◌≡◌ {A = Result (UserPageCache × List ℕ)}
          (ok (c, seen_so_far a room))
          (ok (c, seen_so_far n 0))
  finished c a room e k = ap₂ (λ a room. ok (c, seen_so_far a room)) e k

  contiguous-le : (ss : List PlannedSegment) (lo : ℕ) → IsContiguous lo end ss → lo ≤ end
  contiguous-le [] lo h = omega arith
  contiguous-le (s ∷ ss) lo h = omega (arith, contiguous-le ss (lo + s.file_len) h.1)

  serve_segments_lem :
      (ss : List PlannedSegment) (lo a room : ℕ) (c : UserPageCache)
      → IsGood pt img c
      → All (IsPlaced (virtual_image pt img) file) ss
      → All IsNearSegment ss
      → IsContiguous lo end ss
      → a + room ≡ n
      → base ≤ a
      → Filled lo a
      → (c' : UserPageCache) × IsGood pt img c'
        × (serve_segments pt (offset + base) (n - base) base ss c (seen_so_far a room)
            ≡ ok (c', seen_so_far n 0))
  unfolding serve_segments
  serve_segments_lem [] lo a room c good place near next all low (inl (done, past)) =
      (c, good, finished c a room done (omega arith))
  serve_segments_lem [] lo a room c good place near next all low (inr at) =
      (c, good, finished c a room (omega arith) (omega arith))
  serve_segments_lem (s ∷ ss) lo a room c good place near (first, next) all low filled =
      let s_end = s.file_off + s.file_len in
      let fits = contiguous-le ss (lo + s.file_len) next in
      let e : add64 s.file_off s.file_len ≡ s_end = omega arith in
      let e' : add64 (offset + base) (n - base) ≡ offset + n = omega arith in
      let next' : IsContiguous s_end end ss =
        subst (λ t. IsContiguous (t + s.file_len) end ss) (sym first) next in
      elim (Bool-cases (leb s_end (offset + base))) [
        | inl past ↦
            let past' = leb→le _ _ past in
            let filled' : Filled s_end a = elim filled [
              | inl (done, over) ↦ inl (done, omega arith)
              | inr at ↦ inr (omega arith)
            ] in
            rw (e, past)
              (serve_segments_lem ss s_end a room c good place.1 near.1 next' all low filled')
        | inr here ↦ elim (Bool-cases (leb (offset + n) s.file_off)) [
          | inl beyond ↦
              let beyond' = leb→le _ _ beyond in
              let done : a ≡ n = elim filled [ inl (done, over) ↦ done | inr at ↦ omega arith ] in
              (c, good, rw (e, here, e', beyond) (finished c a room done (omega arith)))
          | inr touched ↦
              let here' = leb→lt _ _ here in
              let touched' = leb→lt _ _ touched in
              let at : offset + a ≡ max (offset + base) s.file_off = elim filled [
                | inl (done, over) ↦ absurd (omega arith)
                | inr at ↦ omega arith
              ] in
              let (c', a', room', good', all', grown, filled', run) =
                serve_one s ss a room c good place.0 near.0 all low here' touched' at
                  (omega arith) in
              let (c'', good'', rest) =
                serve_segments_lem ss s_end a' room' c' good' place.1 near.1 next' all'
                  (omega arith) filled' in
              (c'', good'', rw run rest)
        ]
      ]

-- `serve` on headers `blob` and segments that lie in a file behind them: it fills the buffer with the
-- file.
module _ (pt : PageTable) (img : Image) (shows : Shows pt.phys img) (dtb : pt.dtb + 4096 < 2 ^ 64)
    (blob back : List ℕ) (segs : List PlannedSegment) (total : ℕ)
    (small : length (blob ++ back) < 2 ^ 63)
    (place : All (IsPlaced (virtual_image pt img) (blob ++ back)) segs)
    (near : All IsNearSegment segs)
    (next : IsContiguous (length blob) (length (blob ++ back)) segs) where
  abbrev stream : ElfCoreStream
  stream = record { user_pt = pt; header_blob = blob; segs = segs; total_size = total }

  abbrev F : Image
  F = file_image (blob ++ back)

  from_headers :
      (offset n : ℕ)
      → take (min (length blob - offset) n) (drop offset blob)
        ≡ window F offset (min (length blob - offset) n)
  from_headers offset n = elim (Bool-cases (leb offset (length blob))) [
    | inl front ↦
        let front' = leb→le _ _ front in
        let h = min (length blob - offset) n in
        sym (take-drop-append h offset blob back (omega arith))
        ∙ file_slice (blob ++ back) offset h (omega (arith, length-append blob back))
    | inr behind ↦
        let behind' = leb→lt _ _ behind in
        let e : min (length blob - offset) n ≡ 0 = omega arith in rw e
  ]

  pub serve_lem :
      (c : UserPageCache) (offset n tail : ℕ)
      → IsGood pt img c
      → offset + n ≤ length (blob ++ back)
      → (c' : UserPageCache) × IsGood pt img c'
        × (serve stream c offset n (zeros (n + tail)) ≡ ok (c', window F offset n ++ zeros tail))
  unfolding serve
  serve_lem c offset n tail good inside =
      let h = min (length blob - offset) n in
      let e : n + tail ≡ h + (n - h + tail) = omega arith in
      let e₀ : offset + 0 ≡ offset = omega arith in
      let first : write (zeros (n + tail)) 0 (take h (drop offset blob))
          ≡ ok (window F offset h ++ zeros (n - h + tail)) =
        ap (λ t. write (zeros t) 0 (take h (drop offset blob))) e
        ∙ fill_next F (take h (drop offset blob)) offset 0 h (n - h + tail)
            (from_headers offset n ∙ ap (λ t. window F t h) (sym e₀))
        ∙ ap (λ t. ok (window F offset t ++ zeros (n - h + tail))) (omega arith) in
      elim (Bool-cases (n == h)) [
        | inl done ↦
            let done' = (==_iff n h).0 done in
            let rest : n - h + tail ≡ tail = omega arith in
            (
              c,
              good,
              rw (first, done) (ap₂ (λ a b. ok (c, window F offset a ++ zeros b)) (sym done') rest),
            )
        | inr more ↦
            let e' : add64 offset h ≡ offset + h = omega arith in
            let short : h < n = ground arith in
            let none_left : 0 + tail ≡ tail = omega arith in
            rw (first, more, e')
              (rw none_left at (
                serve_segments_lem pt img shows dtb (blob ++ back) (length (blob ++ back)) refl
                  small offset h n tail inside (omega arith) segs (length blob) h (n - h) c good
                  place near next (omega arith) (omega arith) (inr (omega arith))))
      ]
