-- ===== src/Linux/Banner/Select.antt =====
-- os/linux/banner_scan.cpp: the banner that is selected is the best one.
use mem_nix_fs.Base.{
  ℕ, ◌+◌, ◌≤◌, ◌<◌, ◌≡◌, refl, ap, sym, subst, ◌∙◌, List, [], ◌∷◌, ◌++◌, append_assoc, append-nil,
  map, Option, none, some, true, false, ◌⊎◌, inl, inr, All, All-map, All-append, Any,
  Any-append_left, Any-append_right, length, arith, ltb, ◌==◌, ◌&&◌, ◌||◌, if◌then◌else◌,
  Bool-cases, ==_iff, ◌≢◌,
}
use mem_nix_fs.Vfs.Name.{same, same→eq, same_refl}
use mem_nix_fs.Linux.Banner.{
  BannerCandidate, beats, pick_best, banner_of, candidate, scored, select_canonical_banner,
  count_release, release_count, count_releases,
}

-- A score is below 0, below `n`, or `n` where the banner of `size` bytes is no longer than `len`.
abbrev pub Beaten : Option ℕ → ℕ → ℕ → ℕ → Type 0
Beaten none size n len = Unit {0}
Beaten (some m) size n len = (m < n) ⊎ ((m ≡ n) × (size ≤ len))

abbrev pub IsBeaten : ℕ → ℕ → BannerCandidate → Type 0
IsBeaten n len c = Beaten c.score (length c.banner) n len

-- The best of some candidates: none, if all scores are below 0, and else one of them whose score no
-- other passes, nor reaches with a longer banner.
abbrev pub IsBest : Option BannerCandidate → List BannerCandidate → Type 0
IsBest none cs = All (λ c. c.score ≡ none) cs
IsBest (some b) cs =
    (n : ℕ) × (b.score ≡ some n) × Any (λ c. c ≡ b) cs × All (IsBeaten n (length b.banner)) cs

Beaten-mono :
    (s : Option ℕ) (size n m len more : ℕ)
    → (n < m) ⊎ ((n ≡ m) × (len ≤ more))
    → Beaten s size n len
    → Beaten s size m more
Beaten-mono none size n m len more h b = tt
Beaten-mono (some k) size n m len more (inl h) (inl b) = inl (omega arith)
Beaten-mono (some k) size n m len more (inl h) (inr b) = inl (omega (arith, b.0))
Beaten-mono (some k) size n m len more (inr h) (inl b) = inl (omega (arith, h.0))
Beaten-mono (some k) size n m len more (inr h) (inr b) =
    inr (omega (arith, h.0, b.0), omega (arith, h.1, b.1))

Beaten-none : (s : Option ℕ) (size n len : ℕ) → s ≡ none → Beaten s size n len
Beaten-none none size n len e = tt
Beaten-none (some m) size n len e = cc

Beaten-some :
    (s : Option ℕ) (size n m len : ℕ)
    → s ≡ some m
    → (m < n) ⊎ ((m ≡ n) × (size ≤ len))
    → Beaten s size n len
Beaten-some s size n m len e h = rw e h

beats-none : (n : ℕ) (c : BannerCandidate) → beats n c none ≡ true
unfolding beats
beats-none n c = refl

beats-some :
    (n m : ℕ) (c b : BannerCandidate)
    → b.score ≡ some m
    → beats n c (some b) ≡ (ltb m n || (n == m && ltb (length b.banner) (length c.banner)))
unfolding beats
beats-some n m c b h = rw (beats, h)

-- A round over `c`, of that score.
step_score :
    (best : Option BannerCandidate) (seen : List BannerCandidate) (c : BannerCandidate)
    (s : Option ℕ)
    → c.score ≡ s
    → IsBest best seen
    → IsBest
        (elim s [ none ↦ best | some n ↦ if beats n c best then some c else best ])
        (seen ++ (c ∷ []))
step_score none seen c none e h = All-append _ seen (c ∷ []) h (e, tt)
step_score none seen c (some n) e h = rw (beats-none n c) (
  n,
  e,
  Any-append_right _ seen (c ∷ []) (inl refl),
  All-append _ seen (c ∷ [])
      (All-map (λ d. Beaten-none d.score (length d.banner) n (length c.banner)) seen h)
      (Beaten-some c.score _ n n (length c.banner) e (inr (refl, omega arith)), tt),
)
step_score (some b) seen c none e (m, has, there, all) = (
  m,
  has,
  Any-append_left _ seen (c ∷ []) there,
  All-append _ seen (c ∷ []) all (Beaten-none c.score _ m (length b.banner) e, tt),
)
step_score (some b) seen c (some n) e (m, has, there, all) =
    let better = ltb m n || (n == m && ltb (length b.banner) (length c.banner)) in
    elim (Bool-cases better) [
      | inl taken ↦
          let more : (m < n) ⊎ ((m ≡ n) × (length b.banner ≤ length c.banner)) = ground arith in
          rw (beats-some n m c b has, taken)
            (
              n,
              e,
              Any-append_right _ seen (c ∷ []) (inl refl),
              All-append _ seen (c ∷ [])
                  (All-map
                    (λ d.
                      Beaten-mono d.score (length d.banner) m n (length b.banner) (length c.banner)
                        more)
                    seen all)
                  (Beaten-some c.score _ n n (length c.banner) e (inr (refl, omega arith)), tt),
            )
      | inr kept ↦
          let less : (n < m) ⊎ ((n ≡ m) × (length c.banner ≤ length b.banner)) = ground arith in
          rw (beats-some n m c b has, kept)
            (
              m,
              has,
              Any-append_left _ seen (c ∷ []) there,
              All-append _ seen (c ∷ []) all
                  (Beaten-some c.score _ m n (length b.banner) e less, tt),
            )
    ]

pick_best_lem :
    (cs : List BannerCandidate) (best : Option BannerCandidate) (seen : List BannerCandidate)
    → IsBest best seen
    → IsBest (pick_best best cs) (seen ++ cs)
unfolding pick_best
pick_best_lem [] best seen h = rw (append-nil seen) h
pick_best_lem (c ∷ cs) best seen h =
    subst
      (IsBest (
        pick_best (elim c.score [ none ↦ best | some n ↦ if beats n c best then some c else best ])
          cs))
      (append_assoc seen (c ∷ []) cs)
      (pick_best_lem cs _ (seen ++ (c ∷ [])) (step_score best seen c c.score refl h))

-- The loop over the candidates ends with the best of them.
pub pick_best-IsBest : (cs : List BannerCandidate) → IsBest (pick_best none cs) cs
pick_best-IsBest cs = pick_best_lem cs none [] tt

-- `select_canonical_banner` yields the text of the best of its candidates: of the texts whose score
-- is not below 0, one with the highest score, and of those one with a longest text; or the empty text
-- if there is none.
pub select_canonical_banner-IsBest :
    (banners : List (List ℕ))
    → (best : Option BannerCandidate) × (select_canonical_banner banners ≡ banner_of best)
      × IsBest best (scored (map (candidate 0) banners))
unfolding select_canonical_banner
select_canonical_banner-IsBest banners =
    let cands = scored (map (candidate 0) banners) in
    (pick_best none cands, refl, pick_best-IsBest cands)

-- The number of candidates with a release.
abbrev occurrences : List ℕ → List BannerCandidate → ℕ
occurrences r [] = 0
occurrences r (c ∷ cs) = (if same c.release r then 1 else 0) + occurrences r cs

same-sym : (a b : List ℕ) → same a b ≡ same b a
same-sym a b = elim (Bool-cases (same a b)) [
  | inl e ↦ let p = same→eq a b e in rw p refl
  | inr e ↦ elim (Bool-cases (same b a)) [
    | inl e' ↦
        let p : b ≡ a = same→eq b a e' in
        let no : false ≡ true = sym e ∙ (ap (same a) p ∙ same_refl a) in absurd (cc)
    | inr e' ↦ e ∙ sym e'
  ]
]

release_count-count_release :
    (r k : List ℕ) (m : List (List ℕ × ℕ))
    → release_count r (count_release k m) ≡ (if same k r then 1 else 0) + release_count r m
unfolding release_count count_release
release_count-count_release r k [] = ground arith
release_count-count_release r k ((j, n) ∷ m) = elim (Bool-cases (same j k)) [
  | inl e ↦
      let p = same→eq j k e in
      rw e (
        subst
          (λ t.
            (if same j r then n + 1 else release_count r m)
            ≡ (if same t r then 1 else 0) + (if same j r then n else release_count r m))
          p (ground arith))
  | inr e ↦ elim (Bool-cases (same j r)) [
    | inl here ↦
        let p = same→eq j r here in
        let other : same k r ≡ false = ap (same k) (sym p) ∙ (same-sym k j ∙ e) in
        rw (e, here, other) (omega arith)
    | inr there ↦ rw (e, there) (release_count-count_release r k m)
  ]
]

-- The map counts, for a release that is not empty, the candidates that have it.
count_releases-occurrences :
    (r : List ℕ) (cs : List BannerCandidate) (m : List (List ℕ × ℕ))
    → length r ≢ 0
    → release_count r (count_releases cs m) ≡ occurrences r cs + release_count r m
unfolding count_releases
count_releases-occurrences r [] m h = omega arith
count_releases-occurrences r (c ∷ cs) m h = elim (Bool-cases (length c.release == 0)) [
  | inl empty ↦
      let apart : same c.release r ≡ false = elim (Bool-cases (same c.release r)) [
        | inl e ↦ absurd (h (sym (ap length (same→eq c.release r e)) ∙ (==_iff _ _).0 empty))
        | inr e ↦ e
      ] in
      rw (empty, apart) (omega (arith, count_releases-occurrences r cs m h))
  | inr filled ↦ rw filled (
      omega (
        arith,
        count_releases-occurrences r cs (count_release c.release m) h,
        release_count-count_release r c.release m,
      ))
]
