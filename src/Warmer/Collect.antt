-- ===== src/Warmer/Collect.antt =====
-- vfs/forensic_warmer.cpp: `collect`, the choice of the files to warm, and `launch`, their order.
pub mod Allowed
pub mod Order
use mem_nix_fs.Base.{
  ℕ, zero, suc, ◌+◌, ◌*◌, ◌/◌, ◌%◌, ◌^◌, ◌<◌, ◌≤◌, ◌≡◌, refl, ap, sym, ◌∙◌, List, [], ◌∷◌, ◌++◌,
  Option, none, some, Bool, true, false, not, ◌&&◌, ◌||◌, min, length, bit_and, ltb, ◌==◌,
  if◌then◌else◌, Bool-cases, inl, inr, arith, Result, ok, stuck, ◌>>=◌,
}
use mem_nix_fs.Vfs.Name.{Name, same}
use mem_nix_fs.Vfs.Cost.{
  FileCost, Category, no_category, system_info, threat_hunt, per_process, yara, is_small,
  is_expensive, worth_warming, warm_bit,
}
use mem_nix_fs.Vfs.Tree.{Heap, Body, as_dir, node_cost, warmable, dir_at, name_of}

-- The members that `start` and `start_precompute` set: `mask_` and `warm_all_`.
pub record Policy : Type 0 where
  pub mask : ℕ
  pub warm_all : Bool

-- "proc", "files", "fs", "search", "forensic", "pagecache"
abbrev pub heavy_names : List Name
heavy_names =
    (112 ∷ 114 ∷ 111 ∷ 99 ∷ [])
    ∷ (102 ∷ 105 ∷ 108 ∷ 101 ∷ 115 ∷ [])
    ∷ (102 ∷ 115 ∷ [])
    ∷ (115 ∷ 101 ∷ 97 ∷ 114 ∷ 99 ∷ 104 ∷ [])
    ∷ (102 ∷ 111 ∷ 114 ∷ 101 ∷ 110 ∷ 115 ∷ 105 ∷ 99 ∷ [])
    ∷ (112 ∷ 97 ∷ 103 ∷ 101 ∷ 99 ∷ 97 ∷ 99 ∷ 104 ∷ 101 ∷ [])
    ∷ []

abbrev pub any_same : Name → List Name → Bool
any_same n [] = false
any_same n (m ∷ ms) = same n m || any_same n ms

-- heavy_cat
abbrev pub is_heavy : Category → Bool
is_heavy no_category = false
is_heavy system_info = false
is_heavy threat_hunt = true
is_heavy per_process = true
is_heavy yara = true

-- (mask_ & warm_bit(category)) != 0
abbrev pub enabled : Policy → Category → Bool
enabled p c = not (bit_and p.mask (warm_bit c) == 0)

-- `want`, for a file that is not a directory, in a heavy subtree or not
unfoldable pub wants : Policy → Bool → Body → Bool
wants p heavy b =
    let c = node_cost b in
    if p.warm_all
    then (if not (warmable b) || not (is_small c.mem)
        then false
        else (if heavy || is_heavy c.category
            then is_heavy c.category && enabled p c.category
            else true))
    else worth_warming c && enabled p c.category

-- The loop over the children, each by `visit`.
abbrev pub collect_each : (ℕ → Result (List ℕ)) → List ℕ → Result (List ℕ)
collect_each visit [] = ok []
collect_each visit (c ∷ cs) = do first ← visit c; rest ← collect_each visit cs; ok (first ++ rest)

-- `collect`: the nodes it appends to `targets_`. The fuel bounds the depth of the tree.
unfoldable pub collect : ℕ → Policy → Heap → Bool → ℕ → Result (List ℕ)
collect zero p h heavy node = stuck
collect (suc fuel) p h heavy node = elim (dir_at h node) [
  | some dir ↦
      collect_each (collect fuel p h (heavy || any_same (name_of h node) heavy_names)) dir.children
  | none ↦ ok (if wants p heavy (h.node node).body then node ∷ [] else [])
]

-- `rank` of `launch`
unfoldable pub rank : FileCost → ℕ
rank c = (if is_expensive c.compute then 1 else 0) + (if is_small c.mem then 0 else 2)

-- std::stable_sort by `rank`, as an insertion sort; the order of a stable sort is determined.
unfoldable pub insert_by : (ℕ → ℕ) → ℕ → List ℕ → List ℕ
insert_by key x [] = x ∷ []
insert_by key x (y ∷ ys) = if ltb (key y) (key x) then y ∷ insert_by key x ys else x ∷ y ∷ ys

unfoldable pub stable_sort : (ℕ → ℕ) → List ℕ → List ℕ
stable_sort key [] = []
stable_sort key (x ∷ xs) = insert_by key x (stable_sort key xs)

-- The number of threads that `launch` starts; `hw` is hardware_concurrency().
unfoldable pub thread_count : ℕ → ℕ → ℕ → ℕ
thread_count hw jobs targets =
    let n = if jobs == 0 then min (if hw == 0 then 2 else hw) 4 else jobs in
    min n (targets % 2 ^ 32)

-- What `launch` does: no thread where nothing is to warm, or the targets in order and the number
-- of threads.
unfoldable pub launch : Heap → ℕ → ℕ → List ℕ → List ℕ × ℕ
launch h hw jobs [] = ([], 0)
launch h hw jobs (t ∷ ts) = (
  stable_sort (λ i. rank (node_cost (h.node i).body)) (t ∷ ts),
  thread_count hw jobs (length (t ∷ ts)),
)
