-- ===== src/Vfs/Resolve/RoundTrip.antt =====
-- app/engine.cpp and vfs/vfs.cpp: `resolve` finds the directory that `get_or_make_dir` made.
use mem_nix_fs.Base.{
  ℕ, ◌<◌, ◌≤◌, ◌≡◌, refl, ap, sym, subst, ◌∙◌, List, [], ◌∷◌, ◌++◌, ◌⊎◌, Option-cases, All, Option,
  some, Bool, true, false, ◌==◌, ==_iff, Bool-cases, some_injective, inl, inr, arith,
}
use mem_nix_fs.Vfs.Name.{Name, same, same→eq}
use mem_nix_fs.Vfs.Tree.{DirNode, Heap, name_of, dir_at, dir_find, ensure_dir_child}
use mem_nix_fs.Vfs.Tree.Unique.{IsTree}
use mem_nix_fs.Vfs.Tree.Ensure.{dir_find-Extends, Ensured, ensure_dir_child-Ensured}
use mem_nix_fs.Vfs.Resolve.{
  slash, onto_first, getlines, split, find_in, resolve_parts, resolve, ensure_at, Made,
  sanitise_component, make_parts, get_or_make_dir,
}

-- The directory `y` is the child `m` of the directory `x`.
pub record Leads (h : Heap) (x : ℕ) (m : Name) (y : ℕ) : Type 0 where
  dir : DirNode
  here : dir_at h x ≡ some dir
  there : dir_find h dir.children m ≡ some y
  sub : DirNode
  is_dir : dir_at h y ≡ some sub

-- What was a directory stays one, at its path.
record Persists (h h' : Heap) : Type 0 where
  grows : h.next ≤ h'.next
  dirs :
      (x : ℕ) (dir : DirNode)
      → x < h.next
      → dir_at h x ≡ some dir
      → (dir' : DirNode) × (dir_at h' x ≡ some dir')
  leads : (x : ℕ) (m : Name) (y : ℕ) → x < h.next → Leads h x m y → Leads h' x m y

Persists-refl : (h : Heap) → Persists h h
Persists-refl h = record {
  grows = omega arith;
  dirs = λ x dir b e. (dir, e);
  leads = λ x m y b l. l;
}

Persists-trans : (h i j : Heap) → Persists h i → Persists i j → Persists h j
Persists-trans h i j p q = record {
  grows = omega (arith, p.grows, q.grows);
  dirs =
      λ x dir b e. let (dir', e') = p.dirs x dir b e in q.dirs x dir' (omega (arith, p.grows)) e';
  leads = λ x m y b l. q.leads x m y (omega (arith, p.grows)) (p.leads x m y b l);
}

found_below :
    (h : Heap) (cs : List ℕ) (m : Name) {y : ℕ}
    → All (λ c. c < h.next) cs
    → dir_find h cs m ≡ some y
    → y < h.next
unfolding dir_find
found_below h [] m b e = absurd (cc)
found_below h (c ∷ cs) m b e = elim (Bool-cases (same (name_of h c) m)) [
  | inl y ↦ subst (λ z. z < h.next) (some_injective (rw y at e)) b.0
  | inr y ↦ found_below h cs m b.1 (rw y at e)
]

module _ (h : Heap) (d : ℕ) (dir : DirNode) (n : Name) (t : IsTree h) (e : dir_at h d ≡ some dir)
    (h' : Heap) (c : ℕ) (r : Ensured h d dir n h' c) where
  Ensured-dirs :
      (x : ℕ) (was : DirNode)
      → x < h.next
      → dir_at h x ≡ some was
      → (dir' : DirNode) × (dir_at h' x ≡ some dir')
  Ensured-dirs x was b o = elim (Bool-cases (x == d)) [
    | inr other ↦ (was, r.elsewhere x other b ∙ o)
    | inl same_dir ↦
        let (dir', w, there, rest) = r.finds in (dir', ap (dir_at h') ((==_iff x d).0 same_dir) ∙ w)
  ]

  -- At another directory.
  Leads-elsewhere :
      (x : ℕ) (m : Name) (y : ℕ) → (x == d) ≡ false → x < h.next → Leads h x m y → Leads h' x m y
  Leads-elsewhere x m y other b l =
      let low = (t x l.dir l.here).below in
      let (sub, is_dir) =
        Ensured-dirs y l.sub (found_below h l.dir.children m low l.there) l.is_dir in
      record {
        dir = l.dir;
        here = r.elsewhere x other b ∙ l.here;
        there = dir_find-Extends h h' l.dir.children m r.extends low ∙ l.there;
        sub = sub;
        is_dir = is_dir;
      }

  Leads-here : (m : Name) (y : ℕ) → Leads h d m y → Leads h' d m y
  Leads-here m y l =
      let low = (t d l.dir l.here).below in
      let (sub, is_dir) =
        Ensured-dirs y l.sub (found_below h l.dir.children m low l.there) l.is_dir in
      let (dir', w, there, rest) = r.finds in
      let same_dir : l.dir ≡ dir = some_injective (sym l.here ∙ e) in
      let was : dir_find h dir.children m ≡ some y =
        ap (λ z. dir_find h z.children m) (sym same_dir) ∙ l.there in
      record {
        dir = dir';
        here = w;
        there = elim (Bool-cases (same n m)) [
          | inr apart ↦ rest m apart ∙ was
          | inl eq ↦
              let is_n : n ≡ m = same→eq n m eq in
              let at_c = r.kept y l.sub (ap (dir_find h dir.children) is_n ∙ was) l.is_dir in
              ap (dir_find h' dir'.children) (sym is_n) ∙ (there ∙ ap some (sym at_c))
        ];
        sub = sub;
        is_dir = is_dir;
      }

  Ensured-Persists : Persists h h'
  Ensured-Persists = record {
    grows = r.extends.grows;
    dirs = Ensured-dirs;
    leads = λ x m y b l. elim (Bool-cases (x == d)) [
      | inr other ↦ Leads-elsewhere x m y other b l
      | inl here ↦
          let at_d : x ≡ d = (==_iff x d).0 here in
          subst (λ z. Leads h' z m y) (sym at_d)
            (Leads-here m y (subst (λ z. Leads h z m y) at_d l))
    ];
  }

  -- The child is at its name.
  Ensured-Leads : Leads h' d n c
  Ensured-Leads =
      let (dir', w, there, rest) = r.finds in
      record { dir = dir'; here = w; there = there; sub = r.made.0; is_dir = r.made.1 }

find_in-dir :
    (h : Heap) (x : ℕ) (part : Name) (dir : DirNode)
    → dir_at h x ≡ some dir
    → find_in h (some x) part ≡ some (dir_find h dir.children part)
unfolding find_in
find_in-dir h x part dir e = rw (e, find_in)

ensure_at-dir :
    (h : Heap) (x : ℕ) (n : Name) (dir : DirNode)
    → dir_at h x ≡ some dir
    → ensure_at h x n ≡ ensure_dir_child h x dir n
unfolding ensure_at
ensure_at-dir h x n dir e = rw (e, ensure_at)

resolve_parts-Leads :
    (h : Heap) (x y : ℕ) (a : ℕ) (part : Name) (parts : List Name)
    → Leads h x (a ∷ part) y
    → resolve_parts h (some x) ((a ∷ part) ∷ parts) ≡ resolve_parts h (some y) parts
unfolding resolve_parts
resolve_parts-Leads h x y a part parts l =
    rw (find_in-dir h x (a ∷ part) l.dir l.here, resolve_parts, l.there)

-- What the loop has done when it accepted every component.
record IsMade (h : Heap) (cur : ℕ) (parts : List Name) (r : Made) : Type 0 where
  tree : IsTree r.heap
  persists : Persists h r.heap
  resolves : resolve_parts r.heap (some cur) parts ≡ some r.dir
  is_dir : (dir : DirNode) × (dir_at r.heap r.dir ≡ some dir)

module _ (valid : Name → Bool) (root : ℕ) where
  accepted :
      (h : Heap) (cur : ℕ) (a : ℕ) (part : Name) (parts : List Name) (dir : DirNode)
      → dir_at h cur ≡ some dir
      → (make_parts valid root h cur ((a ∷ part) ∷ parts)).ok ≡ true
      → make_parts valid root h cur ((a ∷ part) ∷ parts)
        ≡ make_parts valid root
            (ensure_dir_child h cur dir (a ∷ part)).0
            (ensure_dir_child h cur dir (a ∷ part)).1
            parts
  unfolding make_parts sanitise_component
  accepted h cur a part parts dir e o = elim (Bool-cases (valid (slash ∷ a ∷ part))) [
    | inl good ↦ rw (good, ensure_at-dir h cur (a ∷ part) dir e)
    | inr bad ↦ let no : false ≡ true = rw bad at o in absurd (cc)
  ]

  make_parts-skip :
      (h : Heap) (cur : ℕ) (parts : List Name)
      → make_parts valid root h cur ([] ∷ parts) ≡ make_parts valid root h cur parts
  unfolding make_parts
  make_parts-skip h cur parts = refl

  IsMade-skip :
      (h : Heap) (cur : ℕ) (parts : List Name) (r : Made)
      → IsMade h cur parts r
      → IsMade h cur ([] ∷ parts) r
  IsMade-skip h cur parts r i = record {
    tree = i.tree;
    persists = i.persists;
    resolves = unfold resolve_parts in i.resolves;
    is_dir = i.is_dir;
  }

  make_parts-IsMade :
      (parts : List Name) (h : Heap) (cur : ℕ) (dir : DirNode)
      → IsTree h
      → dir_at h cur ≡ some dir
      → cur < h.next
      → (make_parts valid root h cur parts).ok ≡ true
      → IsMade h cur parts (make_parts valid root h cur parts)
  make_parts-IsMade [] h cur dir t e b o =
      unfold make_parts resolve_parts in
      record { tree = t; persists = Persists-refl h; resolves = refl; is_dir = (dir, e) }
  make_parts-IsMade ([] ∷ parts) h cur dir t e b o =
      let skip = make_parts-skip h cur parts in
      subst (IsMade h cur ([] ∷ parts)) (sym skip) (
        IsMade-skip h cur parts _
          (make_parts-IsMade parts h cur dir t e b (subst (λ m. m.ok ≡ true) skip o)))
  make_parts-IsMade ((a ∷ part) ∷ parts) h cur dir t e b o =
      let step = ensure_dir_child-Ensured h cur dir (a ∷ part) t e b in
      let h' = (ensure_dir_child h cur dir (a ∷ part)).0 in
      let next = (ensure_dir_child h cur dir (a ∷ part)).1 in
      let same_run = accepted h cur a part parts dir e o in
      let first = Ensured-Persists h cur dir (a ∷ part) t e h' next step in
      let l = Ensured-Leads h cur dir (a ∷ part) t e h' next step in
      let r =
        make_parts-IsMade parts h' next l.sub step.tree l.is_dir
          (found_below h' l.dir.children (a ∷ part) (step.tree cur l.dir l.here).below l.there)
          (subst (λ m. m.ok ≡ true) same_run o) in
      subst (IsMade h cur ((a ∷ part) ∷ parts)) (sym same_run) (record {
        tree = r.tree;
        persists = Persists-trans h h' _ first r.persists;
        resolves =
            resolve_parts-Leads _ cur next a part parts
              (r.persists.leads cur (a ∷ part) next (omega (arith, step.extends.grows)) l)
            ∙ r.resolves;
        is_dir = r.is_dir;
      })

-- The indices delimit the parts that std::getline yields and, where the path does not end in a part,
-- an empty one.
abbrev AreSame : List Name → List Name → Type 0
AreSame split_ones lines = (split_ones ≡ lines ++ ([] ∷ [])) ⊎ (split_ones ≡ lines)

onto_first-AreSame :
    (c : ℕ) (xs lines : List Name)
    → AreSame xs lines
    → AreSame (onto_first c xs) (onto_first c lines)
onto_first-AreSame c xs [] (inl e) = inr (ap (onto_first c) e)
onto_first-AreSame c xs (p ∷ ps) (inl e) = inl (ap (onto_first c) e)
onto_first-AreSame c xs lines (inr e) = inr (ap (onto_first c) e)

split-getlines : (path : Name) → AreSame (split path) (getlines path)
unfolding split getlines
split-getlines [] = inl refl
split-getlines (c ∷ cs) = elim (Bool-cases (c == slash)) [
  | inl at_slash ↦
      rw at_slash
        (elim (split-getlines cs) [ inl e ↦ inl (ap (◌∷◌ []) e) | inr e ↦ inr (ap (◌∷◌ []) e) ])
  | inr inside ↦ rw inside (onto_first-AreSame c (split cs) (getlines cs) (split-getlines cs))
]

resolve_parts-last :
    (h : Heap) (cur : Option ℕ) (parts : List Name)
    → resolve_parts h cur (parts ++ ([] ∷ [])) ≡ resolve_parts h cur parts
unfolding resolve_parts
resolve_parts-last h cur [] = refl
resolve_parts-last h cur ([] ∷ parts) = resolve_parts-last h cur parts
resolve_parts-last h cur ((c ∷ cs) ∷ parts) = elim (Option-cases (find_in h cur (c ∷ cs))) [
  | inl e ↦ rw (e, resolve_parts) refl
  | inr (next, e) ↦ rw (e, resolve_parts) (resolve_parts-last h next parts)
]

resolve_parts-getlines :
    (h : Heap) (cur : Option ℕ) (path : Name)
    → resolve_parts h cur (getlines path) ≡ resolve_parts h cur (split path)
resolve_parts-getlines h cur path = elim (split-getlines path) [
  | inl e ↦ sym (ap (resolve_parts h cur) e ∙ resolve_parts-last h cur (getlines path))
  | inr e ↦ ap (resolve_parts h cur) (sym e)
]

resolve-split :
    (h : Heap) (root : Option ℕ) (path : Name)
    → resolve h root path ≡ resolve_parts h root (split path)
unfolding resolve resolve_parts split
resolve-split h root path = elim (Bool-cases (same path [])) [
  | inl empty ↦ rw (same→eq path [] empty)
  | inr more ↦ elim (Bool-cases (same path (slash ∷ []))) [
    | inl only ↦ rw (same→eq path (slash ∷ []) only)
    | inr parts ↦ rw (more, parts) (resolve_parts-getlines h root path)
  ]
]

-- Where `get_or_make_dir` accepts a path below a directory of a tree, whatever the verdicts on its
-- components, `resolve` then finds at that path just the directory that it returned, the heap is a
-- tree of unique names still, and every directory that was at some path before is at that path.
pub get_or_make_dir-resolve :
    (valid : Name → Bool) (h : Heap) (root : ℕ) (dir : DirNode) (path : Name)
    → IsTree h
    → dir_at h root ≡ some dir
    → root < h.next
    → (get_or_make_dir valid h root path).ok ≡ true
    → (resolve (get_or_make_dir valid h root path).heap (some root) path
        ≡ some (get_or_make_dir valid h root path).dir)
      × IsTree (get_or_make_dir valid h root path).heap
      × ((x : ℕ) (m : Name) (y : ℕ)
          → x < h.next
          → Leads h x m y
          → Leads (get_or_make_dir valid h root path).heap x m y)
unfolding get_or_make_dir
get_or_make_dir-resolve valid h root dir path t e b o =
    let r = make_parts-IsMade valid root (split path) h root dir t e b o in
    (resolve-split _ (some root) path ∙ r.resolves, r.tree, r.persists.leads)
