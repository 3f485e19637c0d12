-- ===== src/Warmer/Collect/Order.antt =====
-- vfs/forensic_warmer.cpp: the order in which `launch` hands the targets out.
use mem_nix_fs.Base.{
  ℕ, suc, ◌+◌, ◌^◌, ◌<◌, length, ◌≤◌, ◌≡◌, refl, ap, ◌∙◌, List, [], ◌∷◌, All, ltb, ◌==◌, Bool-cases,
  inl, inr, arith, ltb→lt, ltb→le,
}
use mem_nix_fs.Vfs.Tree.{Heap, node_cost}
use mem_nix_fs.Warmer.Pool.Steps.{times, one_if}
use mem_nix_fs.Warmer.Collect.{insert_by, stable_sort, rank, thread_count, launch}

-- Each key is at most all later ones.
abbrev pub IsSorted : (ℕ → ℕ) → List ℕ → Type 0
IsSorted key [] = Unit {0}
IsSorted key (x ∷ xs) = All (λ y. key x ≤ key y) xs × IsSorted key xs

module _ (key : ℕ → ℕ) where
  times-insert_by :
      (i x : ℕ) (xs : List ℕ) → times i (insert_by key x xs) ≡ one_if (x == i) + times i xs
  unfolding insert_by
  times-insert_by i x [] = refl
  times-insert_by i x (y ∷ ys) = elim (Bool-cases (ltb (key y) (key x))) [
    | inl less ↦ rw less (omega (arith, times-insert_by i x ys))
    | inr more ↦ rw more refl
  ]

  All-insert_by :
      (P : ℕ → Type 0) (x : ℕ) (xs : List ℕ) → P x → All P xs → All P (insert_by key x xs)
  unfolding insert_by
  All-insert_by P x [] h a = (h, tt)
  All-insert_by P x (y ∷ ys) h a = elim (Bool-cases (ltb (key y) (key x))) [
    | inl less ↦ rw less (a.0, All-insert_by P x ys h a.1)
    | inr more ↦ rw more (h, a)
  ]

  All-le :
      (x y : ℕ) (ys : List ℕ)
      → key x ≤ key y
      → All (λ z. key y ≤ key z) ys
      → All (λ z. key x ≤ key z) ys
  All-le x y [] l a = tt
  All-le x y (z ∷ zs) l a = (omega (arith, a.0), All-le x y zs l a.1)

  insert_by-IsSorted : (x : ℕ) (xs : List ℕ) → IsSorted key xs → IsSorted key (insert_by key x xs)
  unfolding insert_by
  insert_by-IsSorted x [] s = (tt, tt)
  insert_by-IsSorted x (y ∷ ys) s = elim (Bool-cases (ltb (key y) (key x))) [
    | inl less ↦ rw less (
      All-insert_by (λ z. key y ≤ key z) x ys (omega (arith, ltb→lt _ _ less)) s.0,
      insert_by-IsSorted x ys s.1,
    )
    | inr more ↦ rw more ((ltb→le _ _ more, All-le x y ys (ltb→le _ _ more) s.0), s)
  ]

length-insert_by :
    (key : ℕ → ℕ) (x : ℕ) (xs : List ℕ) → length (insert_by key x xs) ≡ suc (length xs)
unfolding insert_by
length-insert_by key x [] = refl
length-insert_by key x (y ∷ ys) = elim (Bool-cases (ltb (key y) (key x))) [
  | inl less ↦ rw less (ap suc (length-insert_by key x ys))
  | inr more ↦ rw more refl
]

pub length-stable_sort : (key : ℕ → ℕ) (xs : List ℕ) → length (stable_sort key xs) ≡ length xs
unfolding stable_sort
length-stable_sort key [] = refl
length-stable_sort key (x ∷ xs) =
    length-insert_by key x (stable_sort key xs) ∙ ap suc (length-stable_sort key xs)

pub All-stable_sort :
    (key : ℕ → ℕ) (P : ℕ → Type 0) (xs : List ℕ) → All P xs → All P (stable_sort key xs)
unfolding stable_sort
All-stable_sort key P [] a = tt
All-stable_sort key P (x ∷ xs) a =
    All-insert_by key P x (stable_sort key xs) a.0 (All-stable_sort key P xs a.1)

stable_sort-IsSorted :
    (key : ℕ → ℕ) (xs : List ℕ)
    → IsSorted key (stable_sort key xs) × ((i : ℕ) → times i (stable_sort key xs) ≡ times i xs)
unfolding stable_sort
stable_sort-IsSorted key [] = (tt, λ i. refl)
stable_sort-IsSorted key (x ∷ xs) =
    let (sorted, same_times) = stable_sort-IsSorted key xs in
    (
      insert_by-IsSorted key x (stable_sort key xs) sorted,
      λ i.
          times-insert_by key i x (stable_sort key xs)
          ∙ ap (λ t. one_if (x == i) + t) (same_times i),
    )

abbrev pub node_rank : Heap → ℕ → ℕ
node_rank h i = rank (node_cost (h.node i).body)

thread_count-bounds :
    (hw jobs n : ℕ)
    → 0 < n
    → n < 2 ^ 32
    → (0 < thread_count hw jobs n) × (thread_count hw jobs n ≤ n)
unfolding thread_count
thread_count-bounds hw jobs n h l = ground arith

-- For fewer than 2 ^ 32 targets and one at least, `launch` hands them out by rank, the cheap and
-- small ones first; it drops none and repeats none, and starts a thread at least and no more
-- threads than there are targets.
pub launch-IsSorted :
    (h : Heap) (hw jobs : ℕ) (t : ℕ) (ts : List ℕ)
    → length (t ∷ ts) < 2 ^ 32
    → IsSorted (node_rank h) (launch h hw jobs (t ∷ ts)).0
      × ((i : ℕ) → times i (launch h hw jobs (t ∷ ts)).0 ≡ times i (t ∷ ts))
      × (0 < (launch h hw jobs (t ∷ ts)).1)
      × ((launch h hw jobs (t ∷ ts)).1 ≤ length (t ∷ ts))
unfolding launch
launch-IsSorted h hw jobs t ts l =
    let (sorted, same_times) = stable_sort-IsSorted (node_rank h) (t ∷ ts) in
    let (some_threads, few) = thread_count-bounds hw jobs (length (t ∷ ts)) (omega arith) l in
    (sorted, same_times, some_threads, few)
