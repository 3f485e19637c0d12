-- ===== src/Linux/Banner/Release.antt =====
-- os/linux/banner_scan.cpp: `parse_kernel_release`.
use mem_nix_fs.Base.{
  ℕ, ◌+◌, ◌≡◌, ◌≢◌, refl, List, [], ◌∷◌, ◌++◌, some, true, false, All, length, arith, ◌==◌, ==_refl,
}
use mem_nix_fs.Base.Buffer.{drop-append_left}
use mem_nix_fs.Linux.Banner.{
  starts_with, find, until_space, prefix, word_behind, parse_kernel_release,
}

pub starts_with-append : (xs ys : List ℕ) → starts_with xs (xs ++ ys) ≡ true
unfolding starts_with
starts_with-append [] ys = refl
starts_with-append (x ∷ xs) ys = rw (==_refl x) (starts_with-append xs ys)

find-front : (xs ys : List ℕ) → starts_with xs ys ≡ true → find xs ys ≡ some 0
unfolding find
find-front xs [] h = rw h
find-front xs (y ∷ ys) h = rw h

until_space-append :
    (r rest : List ℕ) → All (λ c. c ≢ 32) r → until_space (r ++ (32 ∷ rest)) ≡ some r
unfolding until_space
until_space-append [] rest h = refl
until_space-append (c ∷ r) rest h =
    let other : (c == 32) ≡ false = ground (arith, h.0) in rw (other, until_space-append r rest h.1)

word_behind-append : (pre t r : List ℕ) → until_space t ≡ some r → word_behind pre (pre ++ t) ≡ r
unfolding word_behind
word_behind-append pre t r h =
    let size : 0 + length pre ≡ length pre = omega arith in
    rw (
      word_behind,
      find-front pre (pre ++ t) (starts_with-append pre t),
      size,
      drop-append_left pre t (length pre) refl,
      h,
    )

-- From a banner, the release is what stands between "Linux version " and the next space.
pub parse_kernel_release-banner :
    (release rest : List ℕ)
    → All (λ c. c ≢ 32) release
    → parse_kernel_release (prefix ++ (release ++ (32 ∷ rest))) ≡ release
unfolding parse_kernel_release
parse_kernel_release-banner release rest h =
    word_behind-append prefix (release ++ (32 ∷ rest)) release (until_space-append release rest h)
