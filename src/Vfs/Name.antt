-- ===== src/Vfs/Name.antt =====
-- File names and paths: the characters of a std::string, as numbers.
use mem_nix_fs.Base.{
  ℕ, ◌≡◌, refl, ap₂, List, [], ◌∷◌, Bool, true, false, ◌==◌, ==_iff, ==_refl, Bool-cases, inl, inr,
  if◌then◌else◌,
}

abbrev pub Name : Type 0
Name = List ℕ

-- operator== of std::string
abbrev pub same : Name → Name → Bool
same [] [] = true
same [] (d ∷ ds) = false
same (c ∷ cs) [] = false
same (c ∷ cs) (d ∷ ds) = if c == d then same cs ds else false

pub same_refl : (n : Name) → same n n ≡ true
same_refl [] = refl
same_refl (c ∷ cs) = rw (==_refl c) (same_refl cs)

pub same→eq : (m n : Name) → same m n ≡ true → m ≡ n
same→eq [] [] h = refl
same→eq [] (d ∷ ds) h = cc
same→eq (c ∷ cs) [] h = cc
same→eq (c ∷ cs) (d ∷ ds) h = elim (Bool-cases (c == d)) [
  | inl e ↦ ap₂ (◌∷◌) ((==_iff c d).0 e) (same→eq cs ds (rw e at h))
  | inr e ↦ let no : false ≡ true = rw e at h in absurd (cc)
]

-- unordered_set::count of a set that is kept as a list
abbrev pub mem : Name → List Name → Bool
mem n [] = false
mem n (m ∷ ms) = if same m n then true else mem n ms
