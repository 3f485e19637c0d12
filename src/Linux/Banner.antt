-- ===== src/Linux/Banner.antt =====
-- os/linux/banner_scan.cpp: the kernel's banner, "Linux version ...", in a dump or among texts. A
-- std::string is the list of its bytes.
pub mod Select
pub mod Scan
pub mod Release
mod Tests
use mem_nix_fs.Base.{
  ℕ, zero, suc, ◌+◌, ◌-◌, ◌*◌, ◌/◌, List, [], ◌∷◌, ◌++◌, map, Option, none, some, Bool, true, false,
  not, ◌&&◌, ◌||◌, min, length, take, drop, ltb, leb, ◌==◌, if◌then◌else◌, Result, ok, stuck, ◌>>=◌,
}
use mem_nix_fs.Base.Text.{codes}
use mem_nix_fs.Base.Word.{add64}
use mem_nix_fs.Vfs.Name.{same}
use mem_nix_fs.Physical.{PhysicalLayer}

-- memcmp of a text with the front of another
unfoldable pub starts_with : List ℕ → List ℕ → Bool
starts_with [] s = true
starts_with (c ∷ cs) [] = false
starts_with (c ∷ cs) (d ∷ ds) = if c == d then starts_with cs ds else false

-- std::string::find, from the front on
unfoldable pub find : List ℕ → List ℕ → Option ℕ
unfolding starts_with
find needle [] = if starts_with needle [] then some 0 else none
find needle (c ∷ s) =
    let later = find needle s in
    if starts_with needle (c ∷ s)
    then some 0
    else elim later [ none ↦ none | some i ↦ some (suc i) ]

unfoldable pub is_found : Option ℕ → Bool
is_found none = false
is_found (some i) = true

-- std::tolower, std::isdigit and std::isalpha in the C locale
unfoldable pub to_lower : ℕ → ℕ
to_lower c = if leb b'A' c && leb c b'Z' then c + 32 else c

unfoldable pub is_digit : ℕ → Bool
is_digit c = leb b'0' c && leb c b'9'

unfoldable pub is_alpha : ℕ → Bool
is_alpha c = (leb b'A' c && leb c b'Z') || (leb b'a' c && leb c b'z')

-- `contains_ci`
unfoldable pub contains_ci : List ℕ → List ℕ → Bool
unfolding find is_found to_lower
contains_ci s needle = is_found (find needle (map to_lower s))

-- The other characters of a release.
unfoldable pub is_release_char : ℕ → Bool
unfolding is_alpha
is_release_char c = is_alpha c || c == b'-' || c == b'_' || c == b'+' || c == b'~'

-- The loop of `looks_like_kernel_release`
unfoldable pub looks_loop : Bool → Bool → List ℕ → Bool
unfolding is_digit is_release_char
looks_loop saw_dot saw_digit [] = saw_dot && saw_digit
looks_loop saw_dot saw_digit (c ∷ cs) =
    let digit = looks_loop saw_dot (saw_dot || saw_digit) cs in
    let dot = looks_loop true saw_digit cs in
    let other = looks_loop saw_dot saw_digit cs in
    if is_digit c
    then digit
    else if c == b'.'
    then dot
    else if is_release_char c
    then other
    else false

-- `looks_like_kernel_release`
unfoldable pub looks_like_kernel_release : List ℕ → Bool
unfolding is_digit looks_loop
looks_like_kernel_release [] = false
looks_like_kernel_release (c ∷ cs) =
    if ltb (length (c ∷ cs)) 3
    then false
    else if is_digit c
    then looks_loop false false (c ∷ cs)
    else false

unfoldable pub bonus : Bool → ℕ → ℕ
bonus b n = if b then n else 0

-- `score_banner`; `none` is the score -1000, the only one below 0.
unfoldable pub score_banner : List ℕ → List ℕ → ℕ → Option ℕ
unfolding looks_like_kernel_release find is_found contains_ci bonus
score_banner banner release release_count =
    if length release == 0 || not (looks_like_kernel_release release)
    then none
    else if is_found (find (codes "%") banner)
    then none
    else if contains_ci banner (codes "linux version of ")
    then none
    else if contains_ci banner (codes "linux version wasn't tested")
    then none
    else if contains_ci banner (codes "linux version is unaffected")
    then none
    else some (
        100
        + min release_count 8 * 20
        + min (length banner) 220 / 8
        + bonus (is_found (find (codes " #") banner)) 20
        + bonus (contains_ci banner (codes "smp")) 10
        + bonus (contains_ci banner (codes "preempt")) 10
        + bonus (contains_ci banner (codes "gcc")) 8
        + bonus (contains_ci banner (codes "gnu ld")) 4
        + bonus
            (contains_ci banner (codes "kali")
              || contains_ci banner (codes "ubuntu")
              || contains_ci banner (codes "debian")
              || contains_ci banner (codes "fedora")
              || contains_ci banner (codes "red hat")
              || contains_ci banner (codes "arch"))
            8)

-- "Linux version "
abbrev pub prefix : List ℕ
prefix = codes "Linux version "

-- The text up to a space, if there is one.
unfoldable pub until_space : List ℕ → Option (List ℕ)
until_space [] = none
until_space (c ∷ s) =
    let later = until_space s in
    if c == 32 then some [] else elim later [ none ↦ none | some t ↦ some (c ∷ t) ]

-- What stands between a text and the next space, if both are there.
unfoldable pub word_behind : List ℕ → List ℕ → List ℕ
word_behind pre banner = elim (find pre banner) [
  | none ↦ []
  | some p ↦ elim (until_space (drop (p + length pre) banner)) [ none ↦ [] | some r ↦ r ]
]

-- `parse_kernel_release`
unfoldable pub parse_kernel_release : List ℕ → List ℕ
unfolding find until_space word_behind
parse_kernel_release banner = word_behind prefix banner

-- `BannerCandidate`
pub record BannerCandidate : Type 0 where
  pub pa : ℕ
  pub banner : List ℕ
  pub release : List ℕ
  pub score : Option ℕ

-- The map from releases to their counts.
unfoldable pub count_release : List ℕ → List (List ℕ × ℕ) → List (List ℕ × ℕ)
count_release r [] = (r, 1) ∷ []
count_release r ((k, n) ∷ m) = if same k r then (k, n + 1) ∷ m else (k, n) ∷ count_release r m

unfoldable pub release_count : List ℕ → List (List ℕ × ℕ) → ℕ
release_count r [] = 0
release_count r ((k, n) ∷ m) = if same k r then n else release_count r m

unfoldable pub count_releases : List BannerCandidate → List (List ℕ × ℕ) → List (List ℕ × ℕ)
unfolding count_release
count_releases [] m = m
count_releases (c ∷ cs) m =
    count_releases cs (if length c.release == 0 then m else count_release c.release m)

-- The scores of candidates, by the counts of all.
unfoldable pub with_score : List (List ℕ × ℕ) → BannerCandidate → BannerCandidate
unfolding release_count
with_score m c = record c { score = score_banner c.banner c.release (release_count c.release m) }

unfoldable pub scored : List BannerCandidate → List BannerCandidate
unfolding with_score count_releases
scored cands = map (with_score (count_releases cands [])) cands

-- Whether a candidate of score `n` takes the place of the best so far.
unfoldable pub beats : ℕ → BannerCandidate → Option BannerCandidate → Bool
beats n c none = true
beats n c (some b) = elim b.score [
  | none ↦ true
  | some m ↦ ltb m n || (n == m && ltb (length b.banner) (length c.banner))
]

-- The loop over the candidates that `select_canonical_banner` and `find_banner_in_dump` share.
unfoldable pub pick_best : Option BannerCandidate → List BannerCandidate → Option BannerCandidate
unfolding beats
pick_best best [] = best
pick_best best (c ∷ cs) =
    pick_best (elim c.score [ none ↦ best | some n ↦ if beats n c best then some c else best ]) cs

unfoldable pub banner_of : Option BannerCandidate → List ℕ
banner_of none = []
banner_of (some c) = c.banner

unfoldable pub candidate : ℕ → List ℕ → BannerCandidate
candidate pa banner = record {
  pa = pa;
  banner = banner;
  release = parse_kernel_release banner;
  score = some 0;
}

-- `select_canonical_banner`
unfoldable pub select_canonical_banner : List (List ℕ) → List ℕ
unfolding pick_best scored banner_of candidate
select_canonical_banner banners = banner_of (pick_best none (scored (map (candidate 0) banners)))

-- The text up to the end of a line.
unfoldable pub line : List ℕ → List ℕ
line [] = []
line (c ∷ cs) = if c == 0 || c == 10 || c == 13 then [] else c ∷ line cs

-- `read_banner_at`
unfoldable pub read_banner_at : PhysicalLayer → ℕ → Result (List ℕ)
unfolding line
read_banner_at phys pa = do (buf, got) ← phys.read pa 512; ok (line (take got buf))

-- The loop over the places `i` of a chunk that was read at `pa`, `rest` being what is left of it.
unfoldable pub scan_buffer : PhysicalLayer → ℕ → List ℕ → Result (List BannerCandidate)
scan_buffer phys pos [] = ok []
scan_buffer phys pos (b ∷ rest) =
    let later = scan_buffer phys (suc pos) rest in
    if starts_with prefix (b ∷ rest)
    then (do banner ← read_banner_at phys pos; cands ← later; ok (candidate pos banner ∷ cands))
    else later

-- The loop of `scan_banner_candidates` over chunks of `chunk` bytes, each read with 32 more.
unfoldable pub scan_chunks : ℕ → PhysicalLayer → ℕ → ℕ → Result (List BannerCandidate)
scan_chunks zero phys chunk pa = stuck
scan_chunks (suc fuel) phys chunk pa =
    let rest = scan_chunks fuel phys chunk (add64 pa chunk) in
    let round = phys.read pa (min (chunk + 32) (phys.max_address - pa)) >>= λ r.
    scan_buffer phys pa (take r.1 r.0) >>= λ found. rest >>= λ cands. ok (found ++ cands) in
    if ltb pa phys.max_address then round else ok []

-- `kChunk`; a definition, so that proofs do not compute with it.
unfoldable pub scan_chunk : ℕ
scan_chunk = 4 * 1024 * 1024

-- `scan_banner_candidates`
unfoldable pub scan_banner_candidates : PhysicalLayer → Result (List BannerCandidate)
unfolding scan_chunk
scan_banner_candidates phys = do
  cands ← scan_chunks (phys.max_address / scan_chunk + 2) phys scan_chunk 0
  ok (scored cands)

-- `find_banner_in_dump`
unfoldable pub find_banner_in_dump : PhysicalLayer → Result (List ℕ)
find_banner_in_dump phys = do
  cands ← scan_banner_candidates phys
  ok (banner_of (pick_best none cands))

-- `parse_distro`
pub data Distro : Type 0 where
  ubuntu debian rhel arch unknown : Distro

unfoldable pub parse_distro : List ℕ → Distro
parse_distro banner =
    if contains_ci banner (codes "ubuntu") || contains_ci banner (codes "buildd@")
    then ubuntu
    else if contains_ci banner (codes "debian")
    then debian
    else if contains_ci banner (codes "red hat")
        || contains_ci banner (codes "centos")
        || contains_ci banner (codes "rocky")
        || contains_ci banner (codes "alma")
    then rhel
    else if contains_ci banner (codes "arch")
    then arch
    else unknown
