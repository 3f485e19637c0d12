-- ===== src/Vfs/Tree/Ensure.antt =====
-- vfs/vfs.cpp: `DirNode::ensure_dir_child`.
use mem_nix_fs.Base.{
  ℕ, ◌≤◌, ◌<◌, ◌≡◌, refl, ap, ap₂, sym, subst, ◌∙◌, List, [], ◌∷◌, ◌++◌, All, none, some, true,
  false, ◌==◌, ==_refl, arith, Bool-cases, Option-cases, some_injective, inl, inr,
}
use mem_nix_fs.Vfs.Name.{Name, same, same_refl, same→eq, mem}
use mem_nix_fs.Vfs.Tree.{
  DirNode, dir_node, Node, Heap, name_of, names_of, dir_at, alloc, put_dir, empty_dir, dir_find,
  Scan, found, replaced, absent, scan_behind, scan, ensure_scanned, ensure_dir_child,
}
use mem_nix_fs.Vfs.Tree.Unique.{
  IsDistinct, IsDirectory, IsTree, Extends, Extends-trans, alloc-Extends, put_dir-Extends,
  IsTree-alloc, IsTree-put_dir, IsDirectory-Extends, grown-IsDirectory, All-grows, names_of-Extends,
}

pub dir_find-Extends :
    (h h' : Heap) (cs : List ℕ) (m : Name)
    → Extends h h'
    → All (λ c. c < h.next) cs
    → dir_find h' cs m ≡ dir_find h cs m
unfolding dir_find
dir_find-Extends h h' [] m x b = refl
dir_find-Extends h h' (c ∷ cs) m x b = rw (x.named c b.0, dir_find-Extends h h' cs m x b.1)

-- A child at the end is found if none before it has the name.
dir_find-last :
    (h : Heap) (cs : List ℕ) (c : ℕ)
    → mem (name_of h c) (names_of h cs) ≡ false
    → dir_find h (cs ++ (c ∷ [])) (name_of h c) ≡ some c
unfolding dir_find
dir_find-last h [] c e = rw (same_refl (name_of h c))
dir_find-last h (b ∷ cs) c e = elim (Bool-cases (same (name_of h b) (name_of h c))) [
  | inl y ↦ let no : true ≡ false = rw y at e in absurd (cc)
  | inr y ↦ rw y (dir_find-last h cs c (rw y at e))
]

dir_find-new :
    (h : Heap) (cs : List ℕ) (n : Name) → mem n (names_of h cs) ≡ false → dir_find h cs n ≡ none
unfolding dir_find
dir_find-new h [] n e = refl
dir_find-new h (b ∷ cs) n e = elim (Bool-cases (same (name_of h b) n)) [
  | inl y ↦ let no : true ≡ false = rw y at e in absurd (cc)
  | inr y ↦ rw y (dir_find-new h cs n (rw y at e))
]

dir_find-before :
    (h : Heap) (cs : List ℕ) (c : ℕ) (m : Name)
    → same (name_of h c) m ≡ false
    → dir_find h (cs ++ (c ∷ [])) m ≡ dir_find h cs m
unfolding dir_find
dir_find-before h [] c m e = rw e
dir_find-before h (b ∷ cs) c m e = elim (Bool-cases (same (name_of h b) m)) [
  | inl y ↦ rw y
  | inr y ↦ rw y (dir_find-before h cs c m e)
]

module _ (h h' : Heap) (x : Extends h h') (fresh : ℕ) (n : Name)
    (named : name_of h' fresh ≡ n) where
  -- What the loop has found out about the children `cs`, for a heap `h'` with the new node.
  IsScan : List ℕ → Scan → Type 0
  IsScan cs (found c) = (dir_find h cs n ≡ some c) × ((sub : DirNode) × (dir_at h c ≡ some sub))
  IsScan cs (replaced cs') =
      (names_of h' cs' ≡ names_of h cs)
      × (dir_find h' cs' n ≡ some fresh)
      × ((m : Name) → same n m ≡ false → dir_find h' cs' m ≡ dir_find h cs m)
      × ((k : ℕ) → fresh < k → All (λ c. c < h.next) cs → h.next ≤ k → All (λ c. c < k) cs')
      × ((y : ℕ) → dir_find h cs n ≡ some y → dir_at h y ≡ none)
  IsScan cs absent = mem n (names_of h cs) ≡ false

  -- A child of another name in front.
  scan_behind-IsScan :
      (c : ℕ) (cs : List ℕ) (s : Scan)
      → same (name_of h c) n ≡ false
      → c < h.next
      → IsScan cs s
      → IsScan (c ∷ cs) (scan_behind c s)
  unfolding dir_find IsScan
  scan_behind-IsScan c cs (found d) e b i = (rw e i.0, i.1)
  scan_behind-IsScan c cs absent e b i = rw e i
  scan_behind-IsScan c cs (replaced cs') e b (names, there, rest, low, file) = (
    ap₂ (◌∷◌) (x.named c b) names,
    rw (x.named c b, e) there,
    λ m l. rw (x.named c b, rest m l),
    λ k f a g. (omega arith, low k f a.1 g),
    λ y l. file y (rw e at l),
  )

  scan-other :
      (c : ℕ) (cs : List ℕ)
      → same (name_of h c) n ≡ false
      → scan h fresh n (c ∷ cs) ≡ scan_behind c (scan h fresh n cs)
  unfolding scan
  scan-other c cs e = rw e

  scan-file :
      (c : ℕ) (cs : List ℕ)
      → same (name_of h c) n ≡ true
      → dir_at h c ≡ none
      → scan h fresh n (c ∷ cs) ≡ replaced (fresh ∷ cs)
  unfolding scan
  scan-file c cs e f = rw (e, f, scan)

  scan-dir :
      (c : ℕ) (cs : List ℕ) {sub : DirNode}
      → same (name_of h c) n ≡ true
      → dir_at h c ≡ some sub
      → scan h fresh n (c ∷ cs) ≡ found c
  unfolding scan
  scan-dir c cs e f = rw (e, f, scan)

  -- Behind a child that is replaced, the others are found as before.
  replaced-IsScan :
      (c : ℕ) (cs : List ℕ)
      → same (name_of h c) n ≡ true
      → All (λ c. c < h.next) (c ∷ cs)
      → dir_at h c ≡ none
      → IsScan (c ∷ cs) (replaced (fresh ∷ cs))
  unfolding IsScan dir_find
  replaced-IsScan c cs e b file =
      let is_n : name_of h c ≡ n = same→eq _ _ e in
      (
        ap₂ (◌∷◌) (named ∙ sym is_n) (names_of-Extends h h' cs x b.1),
        rw (named, same_refl n),
        λ m l. rw (named, is_n, l) (dir_find-Extends h h' cs m x b.1),
        λ k f a g. (f, All-grows h.next k cs g a.1),
        λ y l. subst (λ z. dir_at h z ≡ none) (some_injective (rw e at l)) file,
      )

  scan-IsScan : (cs : List ℕ) → All (λ c. c < h.next) cs → IsScan cs (scan h fresh n cs)
  unfolding IsScan
  scan-IsScan [] b = unfold scan in refl
  scan-IsScan (c ∷ cs) b = elim (Bool-cases (same (name_of h c) n)) [
    | inr e ↦
        subst (IsScan (c ∷ cs)) (sym (scan-other c cs e))
          (scan_behind-IsScan c cs _ e b.0 (scan-IsScan cs b.1))
    | inl e ↦ elim (Option-cases (dir_at h c)) [
      | inl f ↦ subst (IsScan (c ∷ cs)) (sym (scan-file c cs e f)) (replaced-IsScan c cs e b f)
      | inr (sub, f) ↦
          subst (IsScan (c ∷ cs)) (sym (scan-dir c cs e f)) (unfold dir_find in rw e, (sub, f))
    ]
  ]

-- What `ensure_dir_child` of `n` leaves of the directory `d`, whose members were `dir`.
pub record Ensured (h : Heap) (d : ℕ) (dir : DirNode) (n : Name) (h' : Heap) (c : ℕ) : Type 0 where
  pub tree : IsTree h'
  pub extends : Extends h h'
  -- the child is a directory
  pub made : (sub : DirNode) × (dir_at h' c ≡ some sub)
  -- a lookup of the name finds it, and one of another name finds what it found before
  pub finds :
      (dir' : DirNode) × (dir_at h' d ≡ some dir')
      × (dir_find h' dir'.children n ≡ some c)
      × ((m : Name) → same n m ≡ false → dir_find h' dir'.children m ≡ dir_find h dir.children m)
  -- a directory of the name is kept, and the other directories are as before
  pub kept :
      (y : ℕ) (sub : DirNode) → dir_find h dir.children n ≡ some y → dir_at h y ≡ some sub → y ≡ c
  pub elsewhere : (x : ℕ) → (x == d) ≡ false → x < h.next → dir_at h' x ≡ dir_at h x

module _ (h : Heap) (d : ℕ) (n : Name) (t : IsTree h) (dir : DirNode) (e : dir_at h d ≡ some dir)
    (below : d < h.next) where
  abbrev new_dir : Node
  new_dir = record { name = n; body = dir_node empty_dir }

  abbrev grown : Heap
  grown = alloc h new_dir

  grown-next : (name_of grown h.next ≡ n) × (dir_at grown h.next ≡ some empty_dir)
  unfolding alloc
  grown-next = let here = ==_refl h.next in (rw (here, name_of), rw (here, dir_at))

  put_dir-here : (dir' : DirNode) → dir_at (put_dir grown d dir') d ≡ some dir'
  unfolding put_dir
  put_dir-here dir' = let here = ==_refl d in rw (here, dir_at)

  put_dir-there : (dir' : DirNode) → dir_at (put_dir grown d dir') h.next ≡ some empty_dir
  unfolding put_dir
  put_dir-there dir' =
      let other : (h.next == d) ≡ false = ground arith in rw (other, dir_at) grown-next.1

  put_dir-elsewhere :
      (dir' : DirNode) (x : ℕ)
      → (x == d) ≡ false
      → x < h.next
      → dir_at (put_dir grown d dir') x ≡ dir_at h x
  unfolding put_dir alloc
  put_dir-elsewhere dir' x other b =
      let old : (x == h.next) ≡ false = ground arith in rw (other, old, dir_at)

  -- Where the new node is a child now.
  Ensured-new :
      (dir' : DirNode)
      → IsDirectory grown dir'
      → dir_find grown dir'.children n ≡ some h.next
      → ((m : Name) → same n m ≡ false → dir_find grown dir'.children m ≡ dir_find h dir.children m)
      → ((y : ℕ) → dir_find h dir.children n ≡ some y → dir_at h y ≡ none)
      → Ensured h d dir n (put_dir grown d dir') h.next
  Ensured-new dir' i there rest file =
      let bare : (x : DirNode) → some empty_dir ≡ some x → x ≡ empty_dir =
        λ x w. sym (some_injective w) in
      let written = put_dir-Extends grown d dir' in
      let as_grown = λ (m : Name).
        dir_find-Extends grown (put_dir grown d dir') dir'.children m written i.below in
      record {
        tree = IsTree-put_dir grown d dir' i (IsTree-alloc h new_dir bare t);
        extends = Extends-trans h grown (put_dir grown d dir') (alloc-Extends h new_dir) written;
        made = (empty_dir, put_dir-there dir');
        finds = (dir', put_dir-here dir', as_grown n ∙ there, λ m l. as_grown m ∙ rest m l);
        kept = λ y sub l is_dir. let no : none ≡ some sub = sym (file y l) ∙ is_dir in absurd (cc);
        elsewhere = put_dir-elsewhere dir';
      }

  scanned-Ensured :
      (r : Scan)
      → IsScan h grown (alloc-Extends h new_dir) h.next n grown-next.0 dir.children r
      → Ensured h d dir n (ensure_scanned h d n dir r).0 (ensure_scanned h d n dir r).1
  unfolding ensure_scanned IsScan
  scanned-Ensured (found c) (there, sub) = record {
    tree = t;
    extends = record { grows = omega arith; named = λ c b. refl };
    made = sub;
    finds = (dir, e, there, λ m l. refl);
    kept = λ y s l is_dir. some_injective (sym l ∙ there);
    elsewhere = λ x o b. refl;
  }
  scanned-Ensured (replaced cs) (names, there, rest, low, file) =
      let i = t d dir e in
      Ensured-new (record { children = cs; names = dir.names })
        (record {
          below =
              low grown.next (unfold alloc in omega arith) i.below (unfold alloc in omega arith);
          distinct = subst IsDistinct (sym names) i.distinct;
          listed = λ m. i.listed m ∙ ap (mem m) (sym names);
        })
        there rest file
  scanned-Ensured absent new =
      let i = t d dir e in
      let x = alloc-Extends h new_dir in
      let (called, bare) = grown-next in
      let unused : mem n dir.names ≡ false = i.listed n ∙ new in
      let names = names_of-Extends h grown dir.children x i.below in
      Ensured-new (record { children = dir.children ++ (h.next ∷ []); names = n ∷ dir.names })
        (subst
          (λ l.
            IsDirectory grown
              (record { children = dir.children ++ (h.next ∷ []); names = l ∷ dir.names }))
          called
          (grown-IsDirectory grown dir h.next (unfold alloc in omega arith) (rw called unused)
            (IsDirectory-Extends h grown dir x i)))
        (rw called at (dir_find-last grown dir.children h.next (rw (called, names) new)))
        (λ m l.
          dir_find-before grown dir.children h.next m (rw called l)
          ∙ dir_find-Extends h grown dir.children m x i.below)
        (λ y l. let no : none ≡ some y = sym (dir_find-new h dir.children n new) ∙ l in absurd (cc))

-- `ensure_dir_child` on a directory of a tree: the child it returns is a directory, which a lookup
-- of the name then finds, whether it was there, was made, or took the place of a file; a lookup
-- of any other name finds what it found before; a directory of the name is kept, all others are as
-- they were; no node is renamed, and the heap stays a tree of unique names.
pub ensure_dir_child-Ensured :
    (h : Heap) (d : ℕ) (dir : DirNode) (n : Name)
    → IsTree h
    → dir_at h d ≡ some dir
    → d < h.next
    → Ensured h d dir n (ensure_dir_child h d dir n).0 (ensure_dir_child h d dir n).1
unfolding ensure_dir_child
ensure_dir_child-Ensured h d dir n t e below = scanned-Ensured h d n t dir e below _ (
    scan-IsScan h (alloc h (new_dir h d n t dir e below)) (alloc-Extends h _) h.next n
      (grown-next h d n t dir e below).0 dir.children (t d dir e).below)
