-- ===== src/Linux/Banner/Tests.antt =====
-- Runs of the banner scan, and its theorems at concrete texts and dumps.
use mem_nix_fs.Base.{
  ℕ, ◌-◌, ◌≡◌, refl, List, [], ◌∷◌, ◌++◌, map, Option, All, Any, take, arith, Result, ok, ◌>>=◌,
}
use mem_nix_fs.Base.Text.{codes}
use mem_nix_fs.Base.Buffer.{zeros}
use mem_nix_fs.Io.Mmap.{mmap_read, mmap_source, content, mmap_source-Serves}
use mem_nix_fs.Physical.{PhysicalLayer, Image, Shows}
use mem_nix_fs.Formats.Raw.{raw_read, open_raw_physical, raw_image, open_raw_physical-Shows}
use mem_nix_fs.Linux.Banner.{
  starts_with, find, is_found, contains_ci, score_banner, until_space, prefix, word_behind,
  parse_kernel_release, BannerCandidate, count_release, release_count, count_releases, with_score,
  scored, beats, pick_best, banner_of, candidate, select_canonical_banner, line, read_banner_at,
  scan_buffer, scan_chunks, scan_banner_candidates, debian, parse_distro,
}
use mem_nix_fs.Linux.Banner.Select.{IsBest, select_canonical_banner-IsBest}
use mem_nix_fs.Linux.Banner.Release.{parse_kernel_release-banner}
use mem_nix_fs.Linux.Banner.Scan.{IsFound, IsBannerAt, scan_banner_candidates-finds}

-- What a run of the banner code computes through.
banner_code : Unit {0}
unfolding mmap_read raw_read open_raw_physical starts_with find is_found contains_ci score_banner
    until_space word_behind parse_kernel_release count_release release_count count_releases
    with_score scored beats pick_best banner_of candidate select_canonical_banner line
    read_banner_at scan_buffer scan_chunks parse_distro
banner_code = tt

abbrev good : List ℕ
good = codes "Linux version 6.1.0-18-amd64 (debian-kernel@lists.debian.org) #1 SMP"

-- A format string, and a text that does not name a release.
abbrev templates : List (List ℕ)
templates = codes "Linux version %s (%s)" ∷ codes "Linux version of the tool" ∷ []

selected : select_canonical_banner (templates ++ (good ∷ [])) ≡ good
unfolding banner_code
selected = refl

none_selected : select_canonical_banner templates ≡ []
unfolding banner_code
none_selected = refl

distro : parse_distro good ≡ debian
unfolding banner_code
distro = refl

select_canonical_banner-IsBest_example :
    (best : Option BannerCandidate) × (select_canonical_banner (good ∷ []) ≡ banner_of best)
    × IsBest best (scored (map (candidate 0) (good ∷ [])))
select_canonical_banner-IsBest_example = select_canonical_banner-IsBest (good ∷ [])

parse_kernel_release-banner_example :
    parse_kernel_release (prefix ++ (codes "6.1" ++ (32 ∷ codes "#1"))) ≡ codes "6.1"
parse_kernel_release-banner_example =
    parse_kernel_release-banner (codes "6.1") (codes "#1") (omega arith)

-- A dump with a banner at address 1.
abbrev dump : List ℕ
dump = 7 ∷ (codes "Linux version 6.1 #1" ++ (10 ∷ 7 ∷ []))

abbrev layer : PhysicalLayer
layer = open_raw_physical (mmap_source dump)

abbrev dump_image : Image
dump_image = raw_image (mmap_source dump) (content dump)

dump-Shows : Shows layer dump_image
dump-Shows =
    open_raw_physical-Shows (mmap_source dump) (content dump)
      (mmap_source-Serves dump (omega arith) (omega arith))

dump_banner : IsBannerAt dump_image 1
unfolding banner_code
dump_banner = refl

scan_banner_candidates-finds_example :
    (cands : List BannerCandidate) × (scan_banner_candidates layer ≡ ok cands)
    × All (IsFound dump_image layer.max_address) cands
    × Any (λ c. c.pa ≡ 1) cands
unfolding open_raw_physical
scan_banner_candidates-finds_example =
    scan_banner_candidates-finds layer dump_image dump-Shows (λ a h. ground arith) (omega arith) 1
      (omega arith) dump_banner

-- The places that a scan yields.
places : Result (List BannerCandidate) → Result (List ℕ)
places r = r >>= λ cands. ok (map (λ c. c.pa) cands)

dump_scanned : places (scan_chunks 3 layer 64 0) ≡ ok (1 ∷ [])
unfolding banner_code places
dump_scanned = refl

-- A place within 18 bytes behind the start of a chunk is found in the chunk before it too.
found_twice :
    places (
      scan_chunks 5 (open_raw_physical (mmap_source (zeros 16 ++ codes "Linux version 6.1 "))) 16 0)
    ≡ ok (16 ∷ 16 ∷ [])
unfolding banner_code places
found_twice = refl

-- A layer with a hole of 8 addresses in front of the banner: a read returns the whole buffer and the
-- count of the bytes that are there.
abbrev holed : PhysicalLayer
holed = record {
  max_address = 24;
  read = λ pa len. ok (take len (zeros 8 ++ codes "Linux version 6 "), len - 8);
  ranges = [];
}

-- As many bytes are scanned as the count says, from the start of the buffer, hole included.
missed_behind_hole : places (scan_chunks 3 holed 64 0) ≡ ok []
unfolding banner_code places
missed_behind_hole = refl
