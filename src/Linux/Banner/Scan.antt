-- ===== src/Linux/Banner/Scan.antt =====
-- os/linux/banner_scan.cpp: the scan of a dump without holes finds every place of the banner's start,
-- and nothing else.
use mem_nix_fs.Base.{
  ℕ, zero, suc, ◌+◌, ◌-◌, ◌*◌, ◌/◌, ◌^◌, ◌≤◌, ◌<◌, ◌≡◌, refl, ap, sym, subst, ◌∙◌, List, [], ◌∷◌,
  ◌++◌, map, true, false, inl, inr, All, All-map, All-append, Any, Any-append_left,
  Any-append_right, min, length, take, arith, ltb, ltb→lt, ltb→le, ◌==◌, if◌then◌else◌, Bool-cases,
  ==_iff, ok,
}
use mathlib.Core.Bool.{false≢true}
use native.Mathlib.Nat.{mul-zero, mul-suc}
use mem_nix_fs.Base.Word.{add64, u64_mod}
use mem_nix_fs.Physical.{
  PhysicalLayer, Image, Shows, window, backed, window-add, length-window, backed_all, present,
}
use mem_nix_fs.Linux.Banner.{
  starts_with, prefix, BannerCandidate, candidate, line, read_banner_at, scan_buffer, scan_chunks,
  scan_chunk, scan_banner_candidates, scored, with_score, count_releases,
}

starts_with-append_long :
    (xs ys zs : List ℕ) → length xs ≤ length ys → starts_with xs (ys ++ zs) ≡ starts_with xs ys
unfolding starts_with
starts_with-append_long [] ys zs h = refl
starts_with-append_long (x ∷ xs) [] zs h = absurd (omega arith)
starts_with-append_long (x ∷ xs) (y ∷ ys) zs h =
    ap (λ t. if x == y then t else false) (starts_with-append_long xs ys zs (omega arith))

starts_with-length : (xs ys : List ℕ) → starts_with xs ys ≡ true → length xs ≤ length ys
unfolding starts_with
starts_with-length [] ys h = omega arith
starts_with-length (x ∷ xs) [] h = cc
starts_with-length (x ∷ xs) (y ∷ ys) h = ground (arith, starts_with-length xs ys)

take-all : (xs : List ℕ) (n : ℕ) → n ≡ length xs → take n xs ≡ xs
take-all [] zero h = refl
take-all [] (suc n) h = refl
take-all (x ∷ xs) zero h = absurd (omega arith)
take-all (x ∷ xs) (suc n) h = ap (◌∷◌ x) (take-all xs n (omega arith))

module _ (img : Image) where
  -- The text of a banner at an address: the bytes that are there of 512, up to the end of a line.
  abbrev pub text_at : ℕ → List ℕ
  text_at p = line (take (backed img p 512) (window img p 512))

  -- "Linux version " stands at an address.
  abbrev pub IsBannerAt : ℕ → Type 0
  IsBannerAt p = starts_with prefix (window img p (length prefix)) ≡ true

  -- A candidate of a scan up to `max`.
  abbrev pub IsFound : ℕ → BannerCandidate → Type 0
  IsFound max c = (c.pa + length prefix ≤ max) × IsBannerAt c.pa × (c.banner ≡ text_at c.pa)

  IsBannerAt-window :
      (p n : ℕ)
      → length prefix ≤ n
      → starts_with prefix (window img p n) ≡ starts_with prefix (window img p (length prefix))
  IsBannerAt-window p n h =
      let k = length prefix in
      let e : n ≡ k + (n - k) = omega arith in
      ap (λ t. starts_with prefix (window img p t)) e
      ∙ (ap (starts_with prefix) (window-add img p k (n - k))
          ∙ starts_with-append_long prefix (window img p k) (window img (p + k) (n - k))
              (omega (arith, length-window img p k)))

  module _ (phys : PhysicalLayer) (shows : Shows phys img) where
    read_banner_at-text_at : (p : ℕ) → p + 512 < u64_mod → read_banner_at phys p ≡ ok (text_at p)
    unfolding read_banner_at
    read_banner_at-text_at p h = rw (shows.reads p 512 h)

    -- What the loop over the places of a chunk finds.
    scan_buffer_lem :
        (n pos : ℕ)
        → pos + n + 512 < u64_mod
        → (found : List BannerCandidate) × (scan_buffer phys pos (window img pos n) ≡ ok found)
          × All (IsFound (pos + n)) found
          × ((p : ℕ)
              → pos ≤ p
              → p + length prefix ≤ pos + n
              → IsBannerAt p
              → Any (λ c. c.pa ≡ p) found)
    unfolding scan_buffer candidate
    scan_buffer_lem zero pos h = ([], refl, tt, λ p l u b. absurd (omega arith))
    scan_buffer_lem (suc n) pos h =
        let (found, run, sound, complete) = scan_buffer_lem n (suc pos) (omega arith) in
        let e : suc pos + n ≡ pos + suc n = omega arith in
        elim (Bool-cases (starts_with prefix (window img pos (suc n)))) [
          | inl here ↦
              let room : length prefix ≤ suc n = omega (
                arith,
                starts_with-length prefix (window img pos (suc n)) here,
                length-window img pos (suc n),
              ) in
              let at = sym (IsBannerAt-window pos (suc n) room) ∙ here in
              (
                candidate pos (text_at pos) ∷ found,
                rw (here, read_banner_at-text_at pos (omega arith), run),
                ((omega arith, at, refl), subst (λ t. All (IsFound t) found) e sound),
                λ p l u b. elim (Bool-cases (p == pos)) [
                  | inl same ↦ inl (sym ((==_iff p pos).0 same))
                  | inr other ↦ inr (complete p (ground arith) (omega arith) b)
                ],
              )
          | inr absent ↦ (
            found,
            rw (absent, run),
            subst (λ t. All (IsFound t) found) e sound,
            λ p l u b. elim (Bool-cases (p == pos)) [
              | inl same ↦
                  let same' = (==_iff p pos).0 same in
                  let there = IsBannerAt-window pos (suc n) (omega arith) in
                  absurd (false≢true (sym absent ∙ (there ∙ subst IsBannerAt same' b)))
              | inr other ↦ complete p (ground arith) (omega arith) b
            ],
          )
        ]

    -- Every address below the end of the dump holds a byte.
    module _ (full : (a : ℕ) → a < phys.max_address → present (img a) ≡ 1)
        (low : phys.max_address + 2 ^ 32 < u64_mod) (chunk : ℕ) (some_bytes : 0 < chunk)
        (few : chunk < 2 ^ 31) where
      abbrev max : ℕ
      max = phys.max_address

      chunk_read : (pa n : ℕ) → pa + n ≤ max → phys.read pa n ≡ ok (window img pa n, n)
      chunk_read pa n h =
          let all = backed_all img pa n (λ x l. full (pa + x) (omega arith)) in
          shows.reads pa n (omega arith) ∙ ap (λ t. ok (window img pa n, t)) all

      scan_chunks_lem :
          (fuel pa : ℕ)
          → pa ≤ max + chunk
          → max + chunk < pa + chunk * fuel
          → (cands : List BannerCandidate) × (scan_chunks fuel phys chunk pa ≡ ok cands)
            × All (IsFound max) cands
            × ((p : ℕ)
                → pa ≤ p
                → p + length prefix ≤ max
                → IsBannerAt p
                → Any (λ c. c.pa ≡ p) cands)
      unfolding scan_chunks
      scan_chunks_lem zero pa h k = absurd (omega (arith, mul-zero chunk))
      scan_chunks_lem (suc fuel) pa h k = elim (Bool-cases (ltb pa max)) [
        | inr past ↦
            let past' = ltb→le _ _ past in ([], rw past, tt, λ p l u b. absurd (omega arith))
        | inl more ↦
            let more' = ltb→lt _ _ more in
            let n = min (chunk + 32) (max - pa) in
            let (found, run, sound, complete) = scan_buffer_lem n pa (omega arith) in
            let (cands, runs, sounds, completes) =
              scan_chunks_lem fuel (pa + chunk) (omega arith) (omega (arith, mul-suc chunk fuel)) in
            let e : add64 pa chunk ≡ pa + chunk = omega arith in
            let whole : take n (window img pa n) ≡ window img pa n =
              take-all (window img pa n) n (sym (length-window img pa n)) in
            (
              found ++ cands,
              rw (more, chunk_read pa n (omega arith), whole, run, e, runs),
              All-append _ found cands (All-map (λ c f. (omega (arith, f.0), f.1, f.2)) found sound)
                  sounds,
              λ p l u b. elim (Bool-cases (ltb p (pa + chunk))) [
                | inl near ↦
                    let near' = ltb→lt _ _ near in
                    Any-append_left _ found cands (complete p l (omega arith) b)
                | inr far ↦
                    let far' = ltb→le _ _ far in
                    Any-append_right _ found cands (completes p (omega arith) u b)
              ],
            )
      ]

All-mapped :
    (P Q : BannerCandidate → Type 0) (f : BannerCandidate → BannerCandidate)
    → ((c : BannerCandidate) → P c → Q (f c))
    → (cs : List BannerCandidate) → All P cs
    → All Q (map f cs)
All-mapped P Q f g [] h = tt
All-mapped P Q f g (c ∷ cs) h = (g c h.0, All-mapped P Q f g cs h.1)

Any-mapped :
    (P Q : BannerCandidate → Type 0) (f : BannerCandidate → BannerCandidate)
    → ((c : BannerCandidate) → P c → Q (f c))
    → (cs : List BannerCandidate) → Any P cs
    → Any Q (map f cs)
Any-mapped P Q f g [] h = elim h [ ]
Any-mapped P Q f g (c ∷ cs) (inl h) = inl (g c h)
Any-mapped P Q f g (c ∷ cs) (inr h) = inr (Any-mapped P Q f g cs h)

scan_chunk_facts :
    (m : ℕ)
    → (0 < scan_chunk)
      × (scan_chunk < 2 ^ 31)
      × (m + scan_chunk < 0 + scan_chunk * (m / scan_chunk + 2))
unfolding scan_chunk
scan_chunk_facts m = omega arith

-- What the scan of the whole layer finds: only banners, and every banner.
scan_banner_candidates_lem :
    (phys : PhysicalLayer) (img : Image)
    → Shows phys img
    → ((a : ℕ) → a < phys.max_address → present (img a) ≡ 1)
    → phys.max_address + 2 ^ 32 < u64_mod
    → (cands : List BannerCandidate) × (scan_banner_candidates phys ≡ ok cands)
      × All (IsFound img phys.max_address) cands
      × ((p : ℕ)
          → p + length prefix ≤ phys.max_address
          → IsBannerAt img p
          → Any (λ c. c.pa ≡ p) cands)
unfolding scan_banner_candidates scored with_score
scan_banner_candidates_lem phys img shows full low =
    let (positive, few, enough) = scan_chunk_facts phys.max_address in
    let (cands, run, sound, complete) =
      scan_chunks_lem img phys shows full low scan_chunk positive few
        (phys.max_address / scan_chunk + 2) 0 (omega arith) enough in
    let m = count_releases cands [] in
    (
      scored cands,
      rw run,
      All-mapped (IsFound img phys.max_address) (IsFound img phys.max_address) (with_score m)
          (λ c f. f) cands sound,
      λ p u b.
          Any-mapped (λ c. c.pa ≡ p) (λ c. c.pa ≡ p) (with_score m) (λ c f. f) cands
            (complete p (omega arith) u b),
    )

module _ (phys : PhysicalLayer) (img : Image) (shows : Shows phys img)
    (full : (a : ℕ) → a < phys.max_address → present (img a) ≡ 1)
    (low : phys.max_address + 2 ^ 32 < u64_mod) where
  -- Over a layer that shows an image with a byte at every address below its end, which is 2 ^ 32
  -- below the last 64-bit address at least: the scan ends, throws nothing, finds a given place below
  -- the end where "Linux version " stands, also across the chunks in which it reads, and finds only
  -- such places, each with the line there, of 512 bytes at most, as its banner.
  pub scan_banner_candidates-finds :
      (p : ℕ)
      → p + length prefix ≤ phys.max_address
      → IsBannerAt img p
      → (cands : List BannerCandidate) × (scan_banner_candidates phys ≡ ok cands)
        × All (IsFound img phys.max_address) cands
        × Any (λ c. c.pa ≡ p) cands
  scan_banner_candidates-finds p inside here =
      let (cands, run, sound, complete) = scan_banner_candidates_lem phys img shows full low in
      (cands, run, sound, complete p inside here)
