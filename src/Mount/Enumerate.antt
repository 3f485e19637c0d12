-- ===== src/Mount/Enumerate.antt =====
-- mount/winfsp_mount.cpp: the pages of `ReadDirectory` make up the directory.
use mem_nix_fs.Base.{
  ℕ, zero, suc, ◌+◌, ◌*◌, ◌^◌, ◌≤◌, ◌<◌, All, ltb, Result, ◌≡◌, refl, ap, sym, subst, ◌∙◌, List, [],
  ◌∷◌, ◌++◌, append-nil, append_assoc, length, length-append, Option, none, some, Bool, true, false,
  Bool-cases, inl, inr, arith, ok,
}
use mem_nix_fs.Vfs.Name.{Name, same, same_refl, same→eq, mem}
use mem_nix_fs.Vfs.Tree.Unique.{IsDistinct, mem-append, or_true}
use mem_nix_fs.Mount.{WinFsp, entry_size, page_loop, read_directory, last_of, enumerate}

-- The names before a marker are skipped, if none of them is the marker.
page_loop-skip :
    (w : WinFsp) (m : Name) (pre rest : List Name)
    → mem m pre ≡ false
    → page_loop w m false [] (pre ++ (m ∷ rest)) ≡ page_loop w m true [] rest
unfolding page_loop
page_loop-skip fits m [] rest h = rw (same_refl m, page_loop)
page_loop-skip fits m (n ∷ pre) rest h = elim (Bool-cases (same n m)) [
  | inl e ↦ let no : true ≡ false = rw e at h in absurd (cc)
  | inr e ↦ rw (e, page_loop) (page_loop-skip fits m pre rest (rw e at h))
]

-- What a page of the names `ns` is: the first of them, and all if the end was reached.
record IsPage (page ns : List Name) (r : Result (List Name × Bool)) : Type 0 where
  taken : List Name
  left : List Name
  at_end : Bool
  parts : ns ≡ taken ++ left
  whole : r ≡ ok (page ++ taken, at_end)
  ended : at_end ≡ true → left ≡ []
  filled : at_end ≡ false → 0 < length page + length taken

-- The name fits the buffer that it is copied into.
abbrev pub IsShort : Name → Type 0
IsShort n = length n ≤ 512

-- WinFsp has room for an entry in an empty buffer and takes the whole name out of an entry whose size
-- is that of its name, and the sizes of entries fit 16 bits.
pub record IsRoomy (w : WinFsp) : Type 0 where
  pub small : w.dir_info_size + 1024 < 2 ^ 16
  pub room : (n : Name) → IsShort n → w.adds [] n (w.dir_info_size + 2 * length n) ≡ true
  pub whole_name : (n : Name) → IsShort n → w.taken_name n (w.dir_info_size + 2 * length n) ≡ n

All-right : (P : Name → Type 0) (xs ys : List Name) → All P (xs ++ ys) → All P ys
All-right P [] ys h = h
All-right P (x ∷ xs) ys h = All-right P xs ys h.1

module _ (w : WinFsp) (roomy : IsRoomy w) where
  entry_size-short : (n : Name) → IsShort n → entry_size w n ≡ w.dir_info_size + 2 * length n
  entry_size-short n h = omega (arith, roomy.small)

  taken_name-short : (n : Name) → IsShort n → w.taken_name n (entry_size w n) ≡ n
  taken_name-short n h = ap (w.taken_name n) (entry_size-short n h) ∙ roomy.whole_name n h

  full_page :
      (page : List Name) (n : Name)
      → IsShort n
      → w.adds page n (entry_size w n) ≡ false
      → 0 < length page
  full_page [] n short h =
      let there = ap (w.adds [] n) (entry_size-short n short) ∙ roomy.room n short in
      let no : true ≡ false = sym there ∙ h in absurd (cc)
  full_page (p ∷ ps) n short h = omega arith

  page_loop-IsPage :
      (m : Name) (page ns : List Name)
      → All IsShort ns
      → IsPage page ns (page_loop w m true page ns)
  unfolding page_loop
  page_loop-IsPage m page [] short = record {
    taken = [];
    left = [];
    at_end = true;
    parts = refl;
    whole = ap (λ t. ok (t, true)) (sym (append-nil page));
    ended = λ e. refl;
    filled = λ e. absurd (cc);
  }
  page_loop-IsPage m page (n ∷ ns) short =
      let name = taken_name-short n short.0 in
      let p = page_loop-IsPage m (page ++ (n ∷ [])) ns short.1 in
      let fine : ltb 512 (length n) ≡ false = ground (arith, short.0) in
      elim (Bool-cases (w.adds page n (entry_size w n))) [
        | inr full ↦
            rw (fine, full)
              (record {
                taken = [];
                left = n ∷ ns;
                at_end = false;
                parts = refl;
                whole = ap (λ t. ok (t, false)) (sym (append-nil page));
                ended = λ e. absurd (cc);
                filled = λ e. omega (arith, full_page page n short.0 full);
              })
        | inl space ↦
            rw (fine, space, name)
              (record {
                taken = n ∷ p.taken;
                left = p.left;
                at_end = p.at_end;
                parts = ap (◌∷◌ n) p.parts;
                whole = p.whole ∙ ap (λ t. ok (t, p.at_end)) (append_assoc page (n ∷ []) p.taken);
                ended = p.ended;
                filled = λ e. omega arith;
              })
      ]

  last-split :
      (x : Option Name) (n : Name) (ns : List Name)
      → (pre : List Name) × (m : Name) × (n ∷ ns ≡ pre ++ (m ∷ [])) × (last_of x (n ∷ ns) ≡ some m)
  last-split x n [] = ([], n, refl, refl)
  last-split x n (k ∷ ns) =
      let (pre, m, e, l) = last-split (some n) k ns in (n ∷ pre, m, ap (◌∷◌ n) e, l)

  last_of-append :
      (x : Option Name) (ms ns : List Name) → last_of (last_of x ms) ns ≡ last_of x (ms ++ ns)
  last_of-append x [] ns = refl
  last_of-append x (m ∷ ms) ns = last_of-append (some m) ms ns

  mem-before :
      (pre : List Name) (m : Name) (rest : List Name)
      → IsDistinct (pre ++ (m ∷ rest))
      → mem m pre ≡ false
  mem-before [] m rest d = refl
  mem-before (n ∷ pre) m rest d = elim (Bool-cases (same n m)) [
    | inl e ↦
        let there : mem n (pre ++ (m ∷ rest)) ≡ true =
          mem-append n pre (m ∷ rest) ∙ rw (same→eq n m e, same_refl m) (or_true _) in
        let no : true ≡ false = sym there ∙ d.0 in absurd (cc)
    | inr e ↦ rw e (mem-before pre m rest d.1)
  ]

  -- A page from the last of the names `seen` on.
  read_directory-behind :
      (seen rest : List Name)
      → IsDistinct (seen ++ rest)
      → All IsShort rest
      → IsPage [] rest (read_directory w (seen ++ rest) (last_of none seen))
  unfolding read_directory
  read_directory-behind [] rest d short = page_loop-IsPage [] [] rest short
  read_directory-behind (n ∷ ns) rest d short =
      let (pre, m, e, l) = last-split none n ns in
      let all : (n ∷ ns) ++ rest ≡ pre ++ (m ∷ rest) =
        ap (λ t. t ++ rest) e ∙ append_assoc pre (m ∷ []) rest in
      let skip = page_loop-skip w m pre rest (mem-before pre m rest (subst IsDistinct all d)) in
      subst (λ t. IsPage [] rest (read_directory w t (last_of none (n ∷ ns)))) (sym all)
        (subst (λ t. IsPage [] rest (read_directory w (pre ++ (m ∷ rest)) t)) (sym l)
          (subst (IsPage [] rest) (sym skip) (page_loop-IsPage m [] rest short)))

  enumerate-rest :
      (fuel : ℕ) (seen rest : List Name)
      → IsDistinct (seen ++ rest)
      → All IsShort rest
      → length rest < fuel
      → enumerate fuel w (seen ++ rest) (last_of none seen) ≡ ok rest
  enumerate-rest zero seen rest d short h = absurd (omega arith)
  enumerate-rest (suc fuel) seen rest d short h =
      let p = read_directory-behind seen rest d short in
      elim (Bool-cases p.at_end) [
        | inl done ↦
            rw (p.whole, done)
              (ap ok (sym (p.parts ∙ (ap (λ t. p.taken ++ t) (p.ended done) ∙ append-nil p.taken))))
        | inr more ↦
            let all : (seen ++ p.taken) ++ p.left ≡ seen ++ rest =
              append_assoc seen p.taken p.left ∙ ap (λ t. seen ++ t) (sym p.parts) in
            let size : length rest ≡ length p.taken + length p.left =
              ap length p.parts ∙ length-append p.taken p.left in
            let later =
              enumerate-rest fuel (seen ++ p.taken) p.left (subst IsDistinct (sym all) d)
                (All-right IsShort p.taken p.left (subst (All IsShort) p.parts short))
                (omega (arith, p.filled more)) in
            rw (p.whole, more, last_of-append none seen p.taken, sym all, later)
              (ap ok (sym p.parts))
      ]

-- Where the names of a directory are unique, each has at most 512 wide characters, sizes of entries
-- fit 16 bits, an empty buffer has room for an entry and WinFsp takes out of an entry the name that its
-- size covers, listing the directory page by page, each
-- from the last name of the page before, ends, copies no name past its buffer and yields every name
-- once, whole and in order, whatever the pages hold.
pub enumerate-entries :
    (w : WinFsp)
    → IsRoomy w
    → (entries : List Name) → IsDistinct entries
    → All IsShort entries
    → enumerate (suc (length entries)) w entries none ≡ ok entries
enumerate-entries w roomy entries d short =
    enumerate-rest w roomy (suc (length entries)) [] entries d short (omega arith)
