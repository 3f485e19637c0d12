-- ===== src/Formats/Kdump/Sort.antt =====
-- formats/kdump_format.cpp: the sort of the ranges puts ranges that are apart in order, and leaves their
-- bytes where they are.
use mem_nix_fs.Base.{
  ℕ, ◌-◌, ◌+◌, ◌≤◌, ◌<◌, ◌≡◌, ◌⊎◌, refl, ◌∙◌, List, [], ◌∷◌, All, Bool, Option, some, none, true,
  false, ltb, leb, ◌&&◌, if◌then◌else◌, Bool-cases, inl, inr, arith,
}
use mem_nix_fs.Base.Word.{u64_mod}
use mem_nix_fs.Formats.Kdump.{LoadRange, insert_range, sort_ranges}
use mem_nix_fs.Formats.Kdump.Read.{IsOrdered, kdump_image}

-- Neither range has an address of the other.
abbrev pub IsApart : LoadRange → LoadRange → Type 0
IsApart r s = (r.pa_start + r.pa_size ≤ s.pa_start) ⊎ (s.pa_start + s.pa_size ≤ r.pa_start)

-- Any two ranges are apart, whatever their order, and their addresses, in memory and in the file, are
-- below the last 64-bit one.
abbrev pub AreApart : List LoadRange → Type 0
AreApart [] = Unit {0}
AreApart (r ∷ rs) =
    (r.pa_start + r.pa_size < u64_mod)
    × (r.file_off + r.pa_size < u64_mod)
    × All (IsApart r) rs
    × AreApart rs

All-insert_range :
    (P : LoadRange → Type 0) (r : LoadRange) (rs : List LoadRange)
    → P r
    → All P rs
    → All P (insert_range r rs)
unfolding insert_range
All-insert_range P r [] h a = (h, tt)
All-insert_range P r (s ∷ ss) h a = elim (Bool-cases (ltb s.pa_start r.pa_start)) [
  | inl e ↦ rw e (a.0, All-insert_range P r ss h a.1)
  | inr e ↦ rw e (h, a)
]

All-sort_ranges : (P : LoadRange → Type 0) (rs : List LoadRange) → All P rs → All P (sort_ranges rs)
unfolding sort_ranges
All-sort_ranges P [] a = tt
All-sort_ranges P (r ∷ rs) a = All-insert_range P r (sort_ranges rs) a.0 (All-sort_ranges P rs a.1)

abbrev pub IsFull : LoadRange → Type 0
IsFull r = 0 < r.pa_size

insert_range-IsOrdered :
    (lo : ℕ) (r : LoadRange) (rs : List LoadRange)
    → IsOrdered lo rs
    → lo ≤ r.pa_start
    → r.pa_start + r.pa_size < u64_mod
    → r.file_off + r.pa_size < u64_mod
    → All (IsApart r) rs
    → IsFull r
    → All IsFull rs
    → IsOrdered lo (insert_range r rs)
unfolding insert_range
insert_range-IsOrdered lo r [] o l t f apart full fulls = (l, t, f, tt)
insert_range-IsOrdered lo r (s ∷ ss) o l t f apart full fulls =
    elim (Bool-cases (ltb s.pa_start r.pa_start)) [
      | inl e ↦
          let behind : s.pa_start + s.pa_size ≤ r.pa_start = ground (arith, apart.0, e) in
          rw e (
            o.0,
            o.1,
            o.2,
            insert_range-IsOrdered (s.pa_start + s.pa_size) r ss o.3 behind t f apart.1 full
                fulls.1,
          )
      | inr e ↦
          let before : r.pa_start + r.pa_size ≤ s.pa_start = ground (arith, apart.0, e, fulls.0) in
          rw e (l, t, f, (before, o.1, o.2, o.3))
    ]

pub sort_ranges-IsOrdered :
    (rs : List LoadRange) → AreApart rs → All IsFull rs → IsOrdered 0 (sort_ranges rs)
unfolding sort_ranges
sort_ranges-IsOrdered [] a fulls = tt
sort_ranges-IsOrdered (r ∷ rs) a fulls =
    insert_range-IsOrdered 0 r (sort_ranges rs) (sort_ranges-IsOrdered rs a.3 fulls.1) (omega arith)
      a.0 a.1 (All-sort_ranges (IsApart r) rs a.2) fulls.0 (All-sort_ranges IsFull rs fulls.1)

else_cong :
    (b : Bool) (x : Option ℕ) {y z : Option ℕ} → y ≡ z → (if b then x else y) ≡ (if b then x else z)
else_cong true x e = refl
else_cong false x e = e

module _ (size : ℕ) (file : ℕ → ℕ) (a : ℕ) where
  insert_range-image :
      (r : LoadRange) (rs : List LoadRange)
      → All (IsApart r) rs
      → kdump_image size file (insert_range r rs) a ≡ kdump_image size file (r ∷ rs) a
  unfolding insert_range
  insert_range-image r [] h = refl
  insert_range-image r (s ∷ ss) h = elim (Bool-cases (ltb s.pa_start r.pa_start)) [
    | inr e ↦ rw e refl
    | inl e ↦
        let rest = insert_range-image r ss h.1 in
        elim (Bool-cases (leb s.pa_start a && ltb a (s.pa_start + s.pa_size))) [
          | inl in_s ↦
              let not_r : (leb r.pa_start a && ltb a (r.pa_start + r.pa_size)) ≡ false =
                ground (arith, h.0, in_s, e) in
              rw (e, in_s, not_r) refl
          | inr out_s ↦ rw (e, out_s) rest
        ]
  ]

  pub sort_ranges-image :
      (rs : List LoadRange)
      → AreApart rs
      → kdump_image size file (sort_ranges rs) a ≡ kdump_image size file rs a
  unfolding sort_ranges
  sort_ranges-image [] h = refl
  sort_ranges-image (r ∷ rs) h =
      insert_range-image r (sort_ranges rs) (All-sort_ranges (IsApart r) rs h.2)
      ∙ else_cong (leb r.pa_start a && ltb a (r.pa_start + r.pa_size))
          (if ltb (r.file_off + (a - r.pa_start)) size
            then some (file (r.file_off + (a - r.pa_start)))
            else none)
          (sort_ranges-image rs h.3)
