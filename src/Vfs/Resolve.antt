-- ===== src/Vfs/Resolve.antt =====
-- vfs/vfs.cpp: `resolve`; app/engine.cpp: `get_or_make_dir`, which builds what `resolve` finds.
pub mod RoundTrip
use mem_nix_fs.Base.{
  ℕ, List, [], ◌∷◌, Option, none, some, Bool, true, false, ◌||◌, ◌==◌, if◌then◌else◌,
}
use mem_nix_fs.Vfs.Name.{Name, same}
use mem_nix_fs.Vfs.Tree.{Heap, dir_at, dir_find, ensure_dir_child}

abbrev pub slash : ℕ
slash = 0x2F

-- A character goes to the front of the first part.
abbrev pub onto_first : ℕ → List Name → List Name
onto_first c [] = (c ∷ []) ∷ []
onto_first c (p ∷ ps) = (c ∷ p) ∷ ps

-- What std::getline with '/' yields in turn: behind a slash at the end of the path there is no part.
unfoldable pub getlines : Name → List Name
getlines [] = []
getlines (c ∷ cs) = let rest = getlines cs in if c == slash then [] ∷ rest else onto_first c rest

-- The parts between the slashes of a path, empty ones included, that the indices of
-- `get_or_make_dir` delimit; its loop skips the empty ones.
unfoldable pub split : Name → List Name
split [] = [] ∷ []
split (c ∷ cs) = let rest = split cs in if c == slash then [] ∷ rest else onto_first c rest

-- `cur && cur->is_dir()`, then `cur->find(part)`: the outer `none` is a `return nullptr`.
unfoldable pub find_in : Heap → Option ℕ → Name → Option (Option ℕ)
find_in h none part = none
find_in h (some d) part = elim (dir_at h d) [
  | none ↦ none
  | some dir ↦ some (dir_find h dir.children part)
]

-- The loop of `resolve`.
unfoldable pub resolve_parts : Heap → Option ℕ → List Name → Option ℕ
resolve_parts h cur [] = cur
resolve_parts h cur ([] ∷ parts) = resolve_parts h cur parts
resolve_parts h cur ((c ∷ cs) ∷ parts) = elim (find_in h cur (c ∷ cs)) [
  | none ↦ none
  | some next ↦ resolve_parts h next parts
]

-- `resolve`
unfoldable pub resolve : Heap → Option ℕ → Name → Option ℕ
resolve h root path =
    if same path [] || same path (slash ∷ []) then root else resolve_parts h root (getlines path)

-- `ensure_dir_child` on the node `d`, which is a DirNode wherever it is called.
unfoldable pub ensure_at : Heap → ℕ → Name → Heap × ℕ
ensure_at h d n = elim (dir_at h d) [ none ↦ (h, d) | some dir ↦ ensure_dir_child h d dir n ]

-- What `get_or_make_dir` returns, with its flag `ok`.
pub record Made : Type 0 where
  pub heap : Heap
  pub dir : ℕ
  pub ok : Bool

-- `sanitise_component`, where `valid` is the verdict of validate_recovered_fs_path on "/" + s.
unfoldable pub sanitise_component : (Name → Bool) → Name → Name
sanitise_component valid s = if valid (slash ∷ s) then s else []

-- The loop of `get_or_make_dir`; a component that is rejected gives the root.
unfoldable pub make_parts : (Name → Bool) → ℕ → Heap → ℕ → List Name → Made
make_parts valid root h cur [] = record { heap = h; dir = cur; ok = true }
make_parts valid root h cur ([] ∷ parts) = make_parts valid root h cur parts
make_parts valid root h cur ((c ∷ cs) ∷ parts) =
    let comp = sanitise_component valid (c ∷ cs) in
    let (h', next) = ensure_at h cur comp in
    let rest = make_parts valid root h' next parts in
    if same comp [] then record { heap = h; dir = root; ok = false } else rest

-- `get_or_make_dir`
unfoldable pub get_or_make_dir : (Name → Bool) → Heap → ℕ → Name → Made
get_or_make_dir valid h root path = make_parts valid root h root (split path)
