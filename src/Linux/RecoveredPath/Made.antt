-- ===== src/Linux/RecoveredPath/Made.antt =====
-- app/engine.cpp: with the verdict of os/linux/pagecache.cpp, `get_or_make_dir` makes directories of safe
-- names only.
use mem_nix_fs.Base.{
  ℕ, ◌≡◌, ◌≢◌, refl, List, [], ◌∷◌, Bool, true, false, All, ◌==◌, arith, Bool-cases, inl, inr,
  subst,
}
use mem_nix_fs.Vfs.Name.{Name}
use mem_nix_fs.Vfs.Tree.{Heap}
use mem_nix_fs.Vfs.Resolve.{
  slash, split, onto_first, sanitise_component, make_parts, get_or_make_dir, ensure_at,
}
use mem_nix_fs.Linux.RecoveredPath.{
  PathTrust, trusted, rejected, validate_recovered_fs_path, is_trusted, trusts,
}
use mem_nix_fs.Linux.RecoveredPath.Safe.{IsSafe, validate_recovered_fs_path-IsSafe}

abbrev HasNoSlash : Name → Type 0
HasNoSlash = All (λ c. c ≢ slash)

-- A name without a slash is one part.
split-name : (s : Name) → HasNoSlash s → split s ≡ s ∷ []
unfolding split
split-name [] h = refl
split-name (c ∷ cs) h =
    let no : (c == slash) ≡ false = ground (arith, h.0) in rw (no, split-name cs h.1) refl

split-HasNoSlash : (path : Name) → All HasNoSlash (split path)
unfolding split
split-HasNoSlash [] = (tt, tt)
split-HasNoSlash (c ∷ cs) = elim (Bool-cases (c == slash)) [
  | inl at_slash ↦ rw at_slash (tt, split-HasNoSlash cs)
  | inr inside ↦ rw inside (onto c (split cs) (ground arith) (split-HasNoSlash cs))
]
  where
    onto :
        (c : ℕ) (parts : List Name)
        → c ≢ slash
        → All HasNoSlash parts
        → All HasNoSlash (onto_first c parts)
    onto c [] h a = ((h, tt), tt)
    onto c (p ∷ ps) h a = ((h, a.0), a.1)

trusted-is_trusted : (t : PathTrust) → is_trusted t ≡ true → t ≡ trusted
unfolding is_trusted
trusted-is_trusted trusted e = refl
trusted-is_trusted (rejected why) e = absurd (cc)

-- What is trusted behind a slash is safe.
trusts-IsSafe : (s : Name) → HasNoSlash s → trusts (slash ∷ s) ≡ true → IsSafe s
unfolding split
trusts-IsSafe s h e =
    let t = trusted-is_trusted (validate_recovered_fs_path (slash ∷ s)) e in
    let (safe, _) = validate_recovered_fs_path-IsSafe (slash ∷ s) t in
    (subst (All IsSafe) (split-name s h) safe.1).0

-- The verdict on a part that is not empty.
abbrev Accepts : (Name → Bool) → Name → Type 0
Accepts valid [] = Unit {0}
Accepts valid (c ∷ cs) = valid (slash ∷ c ∷ cs) ≡ true

module _ (valid : Name → Bool) (root : ℕ) where
  first_part :
      (h : Heap) (cur c : ℕ) (cs : Name) (parts : List Name)
      → (make_parts valid root h cur ((c ∷ cs) ∷ parts)).ok ≡ true
      → (valid (slash ∷ c ∷ cs) ≡ true)
        × ((make_parts valid root
              (ensure_at h cur (c ∷ cs)).0
              (ensure_at h cur (c ∷ cs)).1
              parts).ok
            ≡ true)
  unfolding make_parts sanitise_component
  first_part h cur c cs parts e = elim (Bool-cases (valid (slash ∷ c ∷ cs))) [
    | inl good ↦ (good, rw good at e)
    | inr bad ↦ let no : false ≡ true = rw bad at e in absurd (cc)
  ]

  make_parts-Accepts :
      (parts : List Name) (h : Heap) (cur : ℕ)
      → (make_parts valid root h cur parts).ok ≡ true
      → All (Accepts valid) parts
  unfolding make_parts
  make_parts-Accepts [] h cur e = tt
  make_parts-Accepts ([] ∷ parts) h cur e = (tt, make_parts-Accepts parts h cur e)
  make_parts-Accepts ((c ∷ cs) ∷ parts) h cur e =
      let (good, rest) = first_part h cur c cs parts e in
      (
        good,
        make_parts-Accepts parts (ensure_at h cur (c ∷ cs)).0 (ensure_at h cur (c ∷ cs)).1 rest,
      )

Accepts-IsSafe :
    (parts : List Name) → All HasNoSlash parts → All (Accepts trusts) parts → All IsSafe parts
Accepts-IsSafe [] h a = tt
Accepts-IsSafe ([] ∷ parts) h a = (tt, Accepts-IsSafe parts h.1 a.1)
Accepts-IsSafe ((c ∷ cs) ∷ parts) h a =
    (trusts-IsSafe (c ∷ cs) h.0 a.0, Accepts-IsSafe parts h.1 a.1)

-- Where `get_or_make_dir` accepts a path, with the verdict of `validate_recovered_fs_path` on each
-- part, no part of it is "." or "..", holds a control byte, a NUL or a character that a host forbids,
-- or ends in a space or a dot.
pub get_or_make_dir-IsSafe :
    (h : Heap) (root : ℕ) (path : Name)
    → (get_or_make_dir trusts h root path).ok ≡ true
    → All IsSafe (split path)
unfolding get_or_make_dir
get_or_make_dir-IsSafe h root path e =
    Accepts-IsSafe (split path) (split-HasNoSlash path)
      (make_parts-Accepts trusts root (split path) h root e)
