-- ===== src/Vfs/Tree/Unique.antt =====
-- vfs/vfs.cpp: the names in a directory are unique, whatever is added.
use mem_nix_fs.Base.{
  ℕ, ◌≤◌, ◌<◌, ◌≡◌, refl, ap, ap₂, sym, subst, ◌∙◌, List, [], ◌∷◌, ◌++◌, All, All-append, Option,
  none, some, Bool, true, false, ◌||◌, ◌==◌, ==_iff, arith, Bool-cases, Option-cases,
  some_injective, inl, inr,
}
use mem_nix_fs.Vfs.Name.{Name, same, same_refl, same→eq, mem}
use mem_nix_fs.Vfs.Tree.{
  DirNode, Node, as_dir, Heap, name_of, names_of, dir_at, alloc, put_dir, empty_dir, add_child,
  dir_add,
}

abbrev pub IsDistinct : List Name → Type 0
IsDistinct [] = Unit {0}
IsDistinct (n ∷ ns) = (mem n ns ≡ false) × IsDistinct ns

-- The children are allocated, no two have one name, and the set holds just their names.
pub record IsDirectory (h : Heap) (dir : DirNode) : Type 0 where
  pub below : All (λ c. c < h.next) dir.children
  pub distinct : IsDistinct (names_of h dir.children)
  pub listed : (n : Name) → mem n dir.names ≡ mem n (names_of h dir.children)

-- Every directory of the heap is such.
abbrev pub IsTree : Heap → Type 0
IsTree h = (d : ℕ) (dir : DirNode) → dir_at h d ≡ some dir → IsDirectory h dir

pub or_true : (b : Bool) → (b || true) ≡ true
or_true true = refl
or_true false = refl

pub or_false : (b : Bool) → b ≡ (b || false)
or_false true = refl
or_false false = refl

pub mem-append : (n : Name) (ms ns : List Name) → mem n (ms ++ ns) ≡ (mem n ms || mem n ns)
mem-append n [] ns = refl
mem-append n (m ∷ ms) ns = elim (Bool-cases (same m n)) [
  | inl e ↦ rw e
  | inr e ↦ rw e (mem-append n ms ns)
]

IsDistinct-append :
    (ns : List Name) (n : Name) → IsDistinct ns → mem n ns ≡ false → IsDistinct (ns ++ (n ∷ []))
IsDistinct-append [] n d h = (refl, tt)
IsDistinct-append (m ∷ ns) n d h = elim (Bool-cases (same m n)) [
  | inl e ↦ let no : true ≡ false = rw e at h in absurd (cc)
  | inr e ↦
      let later : mem n ns ≡ false = rw e at h in
      let apart : same n m ≡ false = not_same n m e in
      (mem-append m ns (n ∷ []) ∙ rw (d.0, apart), IsDistinct-append ns n d.1 later)
]
  where
    not_same : (n m : Name) → same m n ≡ false → same n m ≡ false
    not_same n m e = elim (Bool-cases (same n m)) [
      | inr e' ↦ e'
      | inl e' ↦
          let no : true ≡ false =
            sym (same_refl n) ∙ subst (λ x. same x n ≡ false) (sym (same→eq n m e')) e in
          absurd (cc)
    ]

pub names_of-append :
    (h : Heap) (cs ds : List ℕ) → names_of h (cs ++ ds) ≡ names_of h cs ++ names_of h ds
names_of-append h [] ds = refl
names_of-append h (c ∷ cs) ds = ap (◌∷◌ (name_of h c)) (names_of-append h cs ds)

-- What every operation does to the heap: no allocated node changes its name.
pub record Extends (h h' : Heap) : Type 0 where
  pub grows : h.next ≤ h'.next
  pub named : (c : ℕ) → c < h.next → name_of h' c ≡ name_of h c

pub names_of-Extends :
    (h h' : Heap) (cs : List ℕ)
    → Extends h h'
    → All (λ c. c < h.next) cs
    → names_of h' cs ≡ names_of h cs
names_of-Extends h h' [] x b = refl
names_of-Extends h h' (c ∷ cs) x b = ap₂ (◌∷◌) (x.named c b.0) (names_of-Extends h h' cs x b.1)

pub All-grows : (k m : ℕ) (cs : List ℕ) → k ≤ m → All (λ c. c < k) cs → All (λ c. c < m) cs
All-grows k m [] h b = tt
All-grows k m (c ∷ cs) h b = (omega (arith, b.0), All-grows k m cs h b.1)

pub IsDirectory-Extends :
    (h h' : Heap) (dir : DirNode) → Extends h h' → IsDirectory h dir → IsDirectory h' dir
IsDirectory-Extends h h' dir x i =
    let e = names_of-Extends h h' dir.children x i.below in
    record {
      below = All-grows h.next h'.next dir.children x.grows i.below;
      distinct = subst IsDistinct (sym e) i.distinct;
      listed = λ n. i.listed n ∙ ap (mem n) (sym e);
    }

pub Extends-trans : (h i j : Heap) → Extends h i → Extends i j → Extends h j
Extends-trans h i j x y = record {
  grows = omega (arith, x.grows, y.grows);
  named = λ c b. y.named c (omega (arith, x.grows)) ∙ x.named c b;
}

pub alloc-Extends : (h : Heap) (n : Node) → Extends h (alloc h n)
unfolding alloc
alloc-Extends h n = record {
  grows = omega arith;
  named = λ c b. let old : (c == h.next) ≡ false = ground arith in rw (old, name_of);
}

pub put_dir-Extends : (h : Heap) (d : ℕ) (dir : DirNode) → Extends h (put_dir h d dir)
unfolding put_dir
put_dir-Extends h d dir = record {
  grows = omega arith;
  named = λ c b. elim (Bool-cases (c == d)) [
    | inl e ↦ rw (e, name_of) (ap (name_of h) (sym ((==_iff c d).0 e)))
    | inr e ↦ rw (e, name_of)
  ];
}

pub empty_dir-IsDirectory : (h : Heap) → IsDirectory h empty_dir
empty_dir-IsDirectory h = record { below = tt; distinct = tt; listed = λ n. refl }

-- A new node has no children.
pub IsTree-alloc :
    (h : Heap) (n : Node)
    → ((dir : DirNode) → as_dir n.body ≡ some dir → dir ≡ empty_dir)
    → IsTree h
    → IsTree (alloc h n)
unfolding alloc
IsTree-alloc h n bare t d dir e = elim (Bool-cases (d == h.next)) [
  | inl new ↦
      subst (IsDirectory (alloc h n)) (sym (bare dir (rw (new, dir_at) at e)))
        (empty_dir-IsDirectory (alloc h n))
  | inr old ↦
      IsDirectory-Extends h (alloc h n) dir (alloc-Extends h n) (t d dir (rw (old, dir_at) at e))
]

pub IsTree-put_dir :
    (h : Heap) (d : ℕ) (dir : DirNode) → IsDirectory h dir → IsTree h → IsTree (put_dir h d dir)
unfolding put_dir
IsTree-put_dir h d dir i t d' dir' e =
    IsDirectory-Extends h (put_dir h d dir) dir' (put_dir-Extends h d dir)
      (elim (Bool-cases (d' == d)) [
        | inl here ↦ subst (IsDirectory h) (some_injective (rw (here, dir_at) at e)) i
        | inr other ↦ t d' dir' (rw (other, dir_at) at e)
      ])

-- A child whose name is new goes to the end.
pub grown-IsDirectory :
    (h : Heap) (dir : DirNode) (c : ℕ)
    → c < h.next
    → mem (name_of h c) dir.names ≡ false
    → IsDirectory h dir
    → IsDirectory h
        (record { children = dir.children ++ (c ∷ []); names = name_of h c ∷ dir.names })
grown-IsDirectory h dir c b new i =
    let e = names_of-append h dir.children (c ∷ []) in
    record {
      below = All-append _ dir.children (c ∷ []) i.below (b, tt);
      distinct = subst IsDistinct (sym e) (
          IsDistinct-append (names_of h dir.children) (name_of h c) i.distinct
            (sym (i.listed _) ∙ new));
      listed = λ n. elim (Bool-cases (same (name_of h c) n)) [
        | inl y ↦ rw (e, mem-append, y) (sym (or_true _))
        | inr y ↦ rw (e, mem-append, y) (i.listed n ∙ or_false _)
      ];
    }

add_child-IsDirectory :
    (h : Heap) (dir : DirNode) (c : ℕ)
    → c < h.next
    → IsDirectory h dir
    → IsDirectory h (add_child c (name_of h c) dir)
unfolding add_child
add_child-IsDirectory h dir c b i = elim (Bool-cases (mem (name_of h c) dir.names)) [
  | inl there ↦ rw there i
  | inr new ↦ rw new (grown-IsDirectory h dir c b new i)
]

dir_add-put_dir :
    (h : Heap) (d c : ℕ) (dir : DirNode)
    → dir_at h d ≡ some dir
    → dir_add h d (some c) ≡ put_dir h d (add_child c (name_of h c) dir)
unfolding dir_add
dir_add-put_dir h d c dir e = rw (e, dir_add)

dir_add-file : (h : Heap) (d c : ℕ) → dir_at h d ≡ none → dir_add h d (some c) ≡ h
unfolding dir_add
dir_add-file h d c e = rw (e, dir_add)

pub dir_add-IsTree :
    (h : Heap) (d : ℕ) (child : Option ℕ)
    → ((c : ℕ) → child ≡ some c → c < h.next)
    → IsTree h
    → IsTree (dir_add h d child)
dir_add-IsTree h d none b t = unfold dir_add in t
dir_add-IsTree h d (some c) b t = elim (Option-cases (dir_at h d)) [
  | inl e ↦ subst IsTree (sym (dir_add-file h d c e)) t
  | inr (dir, e) ↦
      subst IsTree (sym (dir_add-put_dir h d c dir e))
        (IsTree-put_dir h d _ (add_child-IsDirectory h dir c (b c refl) (t d dir e)) t)
]
