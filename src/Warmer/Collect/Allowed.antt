-- ===== src/Warmer/Collect/Allowed.antt =====
-- vfs/forensic_warmer.cpp: which files `collect` can choose, and that it ends.
use mem_nix_fs.Base.{
  ℕ, zero, suc, ◌≡◌, refl, sym, subst, ◌∙◌, List, [], ◌∷◌, All, All-append, none, some, Bool, true,
  false, not, ◌&&◌, ◌||◌, if◌then◌else◌, Bool-cases, Option-cases, inl, inr, Result, ok, >>=-eq-ok,
  ok-injective,
}
use mem_nix_fs.Vfs.Cost.{is_small, worth_warming}
use mem_nix_fs.Vfs.Tree.{Heap, DirNode, node_cost, warmable, dir_at, name_of}
use mem_nix_fs.Warmer.Collect.{
  Policy, heavy_names, any_same, is_heavy, enabled, wants, collect_each, collect,
}

-- What a target is: a file that is small to keep, whose category is enabled if it is a heavy one
-- or if this is no precompute pass; a precompute pass takes lazy files only, and any other takes
-- files that are expensive to compute.
pub record IsAllowed (p : Policy) (h : Heap) (i : ℕ) : Type 0 where
  pub file : dir_at h i ≡ none
  pub is_kept : is_small (node_cost (h.node i).body).mem ≡ true
  pub opted_in :
      is_heavy (node_cost (h.node i).body).category ≡ true
      → enabled p (node_cost (h.node i).body).category ≡ true
  pub lazy : p.warm_all ≡ true → warmable (h.node i).body ≡ true
  pub worthy :
      p.warm_all ≡ false
      → (worth_warming (node_cost (h.node i).body)
          && enabled p (node_cost (h.node i).body).category)
        ≡ true

and-left : (a b : Bool) → (a && b) ≡ true → a ≡ true
and-left true b e = refl
and-left false b e = e

and-right : (a b : Bool) → (a && b) ≡ true → b ≡ true
and-right true b e = e
and-right false b e = absurd (cc)

-- The test of a precompute pass, on its parts.
precompute-wants :
    (warm small heavy cat on : Bool)
    → (if not warm || not small then false else (if heavy || cat then cat && on else true)) ≡ true
    → (warm ≡ true) × (small ≡ true) × (cat ≡ true → on ≡ true)
precompute-wants true true true true on e = (refl, refl, λ c. e)
precompute-wants true true true false on e = absurd (cc)
precompute-wants true true false true on e = (refl, refl, λ c. e)
precompute-wants true true false false on e = (refl, refl, λ c. absurd (cc))
precompute-wants true false heavy cat on e = absurd (cc)
precompute-wants false small heavy cat on e = absurd (cc)

wants-IsAllowed :
    (p : Policy) (h : Heap) (heavy : Bool) (i : ℕ)
    → dir_at h i ≡ none
    → wants p heavy (h.node i).body ≡ true
    → IsAllowed p h i
unfolding wants
wants-IsAllowed p h heavy i f e =
    let c = node_cost (h.node i).body in
    elim (Bool-cases p.warm_all) [
      | inl all ↦
          let (lazy, small, on) =
            precompute-wants (warmable (h.node i).body) (is_small c.mem) heavy (is_heavy c.category)
              (enabled p c.category) (rw all at e) in
          record {
            file = f;
            is_kept = small;
            opted_in = on;
            lazy = λ a. lazy;
            worthy = λ a. let no : true ≡ false = sym all ∙ a in absurd (cc);
          }
      | inr part ↦
          let both : (worth_warming c && enabled p c.category) ≡ true = rw part at e in
          record {
            file = f;
            is_kept = and-right _ _ (and-left (worth_warming c) _ both);
            opted_in = λ a. and-right (worth_warming c) _ both;
            lazy = λ a. let no : true ≡ false = sym a ∙ part in absurd (cc);
            worthy = λ a. both;
          }
    ]

module _ (p : Policy) (h : Heap) where
  collect_each-All :
      (visit : ℕ → Result (List ℕ)) (cs ts : List ℕ)
      → ((c : ℕ) (us : List ℕ) → visit c ≡ ok us → All (IsAllowed p h) us)
      → collect_each visit cs ≡ ok ts
      → All (IsAllowed p h) ts
  collect_each-All visit [] ts v e = subst (All (IsAllowed p h)) (ok-injective e) tt
  collect_each-All visit (c ∷ cs) ts v e =
      let (first, a, rest) = >>=-eq-ok (visit c) _ e in
      let (later, b, all) = >>=-eq-ok (collect_each visit cs) _ rest in
      subst (All (IsAllowed p h)) (ok-injective all)
        (All-append _ first later (v c first a) (collect_each-All visit cs later v b))

  collect-dir :
      (fuel : ℕ) (heavy : Bool) (x : ℕ) (dir : DirNode)
      → dir_at h x ≡ some dir
      → collect (suc fuel) p h heavy x
        ≡ collect_each (collect fuel p h (heavy || any_same (name_of h x) heavy_names)) dir.children
  unfolding collect
  collect-dir fuel heavy x dir e = rw (e, collect)

  collect-file :
      (fuel : ℕ) (heavy : Bool) (x : ℕ)
      → dir_at h x ≡ none
      → collect (suc fuel) p h heavy x ≡ ok (if wants p heavy (h.node x).body then x ∷ [] else [])
  unfolding collect
  collect-file fuel heavy x e = rw (e, collect)

  one-All :
      (heavy : Bool) (x : ℕ)
      → dir_at h x ≡ none
      → All (IsAllowed p h) (if wants p heavy (h.node x).body then x ∷ [] else [])
  one-All heavy x f = elim (Bool-cases (wants p heavy (h.node x).body)) [
    | inl wanted ↦ rw wanted (wants-IsAllowed p h heavy x f wanted, tt)
    | inr other ↦ rw other tt
  ]

-- Where `collect` ends, it has collected only files that are small to keep, whose category is
-- enabled if it is a heavy one or if this is no precompute pass; a precompute pass takes lazy
-- files only, and any other files that are expensive to compute only.
pub collect-IsAllowed :
    (p : Policy) (h : Heap) (fuel : ℕ) (heavy : Bool) (x : ℕ) (ts : List ℕ)
    → collect fuel p h heavy x ≡ ok ts
    → All (IsAllowed p h) ts
collect-IsAllowed p h zero heavy x ts e = absurd (unfold collect in cc)
collect-IsAllowed p h (suc fuel) heavy x ts e = elim (Option-cases (dir_at h x)) [
  | inl f ↦
      subst (All (IsAllowed p h)) (ok-injective (sym (collect-file p h fuel heavy x f) ∙ e))
        (one-All p h heavy x f)
  | inr (dir, d) ↦
      collect_each-All p h _ dir.children ts
        (λ c us v. collect-IsAllowed p h fuel (heavy || any_same (name_of h x) heavy_names) c us v)
        (sym (collect-dir p h fuel heavy x dir d) ∙ e)
]
