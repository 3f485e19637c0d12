-- ===== src/Base/Recent.antt =====
-- Keys in the order of their last use: the std::list of an LRU cache with its splice, push and pop.
use mem_nix_fs.Base.Test.{◌==◌, ==_iff, Bool-cases, if◌then◌else◌}
use mem_nix_fs.Base.Lists.{length}
use Prim.Native.Nat.{ℕ, suc, ◌+◌}
use mathlib.Core.Path.{◌≡◌, refl, ap, sym, ◌∙◌}
use mathlib.Core.Logic.{inl, inr}
use mathlib.Core.Bool.{Bool, true, false, not, ◌&&◌, ◌||◌, false≢true}
use mathlib.Core.List.{List, [], ◌∷◌}
use native.Mathlib.Omega.{arith}

-- The list without a key.
unfoldable pub without : ℕ → List ℕ → List ℕ
without k [] = []
without k (j ∷ ks) = if j == k then ks else j ∷ without k ks

-- The last key of a list with `k` in front, and the list without it.
unfoldable pub back : ℕ → List ℕ → ℕ
back k [] = k
back k (j ∷ ks) = back j ks

unfoldable pub pop_back : ℕ → List ℕ → List ℕ
pop_back k [] = []
pop_back k (j ∷ ks) = k ∷ pop_back j ks

-- Whether a key stands in the list.
abbrev pub mem : ℕ → List ℕ → Bool
mem k [] = false
mem k (j ∷ ks) = k == j || mem k ks

abbrev pub IsDistinct : List ℕ → Type 0
IsDistinct [] = Unit {0}
IsDistinct (j ∷ ks) = (mem j ks ≡ false) × IsDistinct ks

pub mem-without :
    (k : ℕ) (ks : List ℕ) (j : ℕ)
    → IsDistinct ks
    → mem j (without k ks) ≡ (mem j ks && not (j == k))
unfolding without
mem-without k [] j d = refl
mem-without k (i ∷ ks) j d = ground (arith, mem-without k ks j d.1)

pub length-without : (k : ℕ) (ks : List ℕ) → mem k ks ≡ true → length (without k ks) + 1 ≡ length ks
unfolding without
length-without k [] h = cc
length-without k (i ∷ ks) h = ground (arith, length-without k ks)

pub without-IsDistinct : (k : ℕ) (ks : List ℕ) → IsDistinct ks → IsDistinct (without k ks)
unfolding without
without-IsDistinct k [] d = tt
without-IsDistinct k (i ∷ ks) d =
    ground (arith, without-IsDistinct k ks d.1, mem-without k ks i d.1)

pub mem-back : (k : ℕ) (ks : List ℕ) → mem (back k ks) (k ∷ ks) ≡ true
unfolding back
mem-back k [] = ground arith
mem-back k (j ∷ ks) = ground (arith, mem-back j ks)

pub mem-pop_back :
    (k : ℕ) (ks : List ℕ) (i : ℕ)
    → IsDistinct (k ∷ ks)
    → mem i (pop_back k ks) ≡ (mem i (k ∷ ks) && not (i == back k ks))
unfolding back pop_back
mem-pop_back k [] i d = ground arith
mem-pop_back k (j ∷ ks) i d = ground (arith, mem-pop_back j ks i d.1, mem-back j ks)

pub pop_back-IsDistinct : (k : ℕ) (ks : List ℕ) → IsDistinct (k ∷ ks) → IsDistinct (pop_back k ks)
unfolding pop_back
pop_back-IsDistinct k [] d = tt
pop_back-IsDistinct k (j ∷ ks) d =
    (ground (arith, mem-pop_back j ks k d.1), pop_back-IsDistinct j ks d.1)

pub length-pop_back : (k : ℕ) (ks : List ℕ) → length (pop_back k ks) ≡ length ks
unfolding pop_back
length-pop_back k [] = refl
length-pop_back k (j ∷ ks) = ap suc (length-pop_back j ks)

pub mem_back_tail :
    (j : ℕ) (ks : List ℕ) (k : ℕ) → mem k (j ∷ ks) ≡ false → (k == back j ks) ≡ false
mem_back_tail j ks k h = elim (Bool-cases (k == back j ks)) [
  | inr other ↦ other
  | inl same ↦
      let e : k ≡ back j ks = (==_iff _ _).0 same in
      absurd (false≢true (sym h ∙ (ap (λ t. mem t (j ∷ ks)) e ∙ mem-back j ks)))
]
