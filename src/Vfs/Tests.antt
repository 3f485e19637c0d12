-- ===== src/Vfs/Tests.antt =====
-- Runs of the virtual file system, and its theorems at concrete inputs.
use mem_nix_fs.Base.{
  ℕ, ◌<◌, ◌≡◌, refl, subst, List, [], ◌∷◌, some, true, false, some_injective, if◌then◌else◌, ◌==◌,
  arith, ok, err, io_error,
}
use mem_nix_fs.Vfs.Name.{Name}
use mem_nix_fs.Vfs.Cost.{default_cost}
use mem_nix_fs.Vfs.Lazy.{LazyFileNode, ensure_loaded, produce, loaded_then, lazy_read, slice}
use mem_nix_fs.Vfs.Lazy.History.{
  Call, size_hint_call, warm_call, read_call, calls, file_answers, touched_by, calls-IsFile,
}
use mem_nix_fs.Vfs.Tree.{
  DirNode, Heap, dir_node, lazy_file_node, dir_at, dir_find, empty_dir, alloc, put_dir, add_child,
  dir_add, scan, ensure_scanned, ensure_dir_child,
}
use mem_nix_fs.Vfs.Tree.Unique.{IsTree, IsDirectory}
use mem_nix_fs.Vfs.Tree.Ensure.{Ensured, ensure_dir_child-Ensured}
use mem_nix_fs.Vfs.Tree.Steps.{Built, unbuilt, then_step, make, add, ensure, Built-IsTree}
use mem_nix_fs.Vfs.Resolve.{
  split, getlines, find_in, resolve_parts, resolve, ensure_at, sanitise_component, make_parts,
  get_or_make_dir,
}
use mem_nix_fs.Vfs.Resolve.RoundTrip.{Leads, get_or_make_dir-resolve}

-- A file whose producer returns three bytes.
abbrev file : LazyFileNode
file = record {
  cost = default_cost;
  content = record { producer = λ k. ok (7 ∷ 8 ∷ 9 ∷ []); runs = 0; produced = []; loaded = false };
}

abbrev some_calls : List Call
some_calls = size_hint_call ∷ read_call 1 5 ∷ size_hint_call ∷ warm_call ∷ []

calls-IsFile_example :
    ((calls file some_calls).1 ≡ file_answers default_cost (7 ∷ 8 ∷ 9 ∷ []) false some_calls)
    × ((calls file some_calls).0.content.runs
        ≡ (if touched_by default_cost some_calls then 1 else 0))
calls-IsFile_example = calls-IsFile file (7 ∷ 8 ∷ 9 ∷ []) some_calls (λ k. refl) refl refl

-- A producer that throws at its first call is called again.
abbrev flaky : LazyFileNode
flaky = record {
  cost = default_cost;
  content = record {
    producer = λ k. if k == 0 then err (io_error 0 0) else ok (7 ∷ []);
    runs = 0;
    produced = [];
    loaded = false;
  };
}

flaky_read : (lazy_read (lazy_read flaky 0 1).0 0 1).1 ≡ ok (7 ∷ [])
unfolding lazy_read loaded_then ensure_loaded produce slice
flaky_read = refl

-- A heap of one empty directory, the root.
abbrev start : Heap
start = record { next = 1; node = λ i. record { name = []; body = dir_node empty_dir } }

start-IsTree : IsTree start
start-IsTree d dir e =
    subst (IsDirectory start) (some_injective e)
      (record { below = tt; distinct = tt; listed = λ n. refl })

abbrev name_a : Name
name_a = 97 ∷ []

ensure_dir_child-Ensured_example :
    Ensured start 0 empty_dir name_a
      (ensure_dir_child start 0 empty_dir name_a).0
      (ensure_dir_child start 0 empty_dir name_a).1
ensure_dir_child-Ensured_example =
    ensure_dir_child-Ensured start 0 empty_dir name_a start-IsTree refl (omega arith)

-- A file `a` in the root, and then a directory of that name, which takes its place.
abbrev with_file : Heap
with_file = dir_add (alloc start (record { name = name_a; body = lazy_file_node file })) 0 (some 1)

abbrev with_file_dir : DirNode
with_file_dir = record { children = 1 ∷ []; names = name_a ∷ [] }

with_file-dir_at : dir_at with_file 0 ≡ some with_file_dir
unfolding dir_add put_dir add_child alloc
with_file-dir_at = refl

with_file-next : 0 < with_file.next
unfolding dir_add put_dir add_child alloc
with_file-next = omega arith

with_file-Built : Built start with_file
unfolding alloc
with_file-Built =
    then_step
      (then_step unbuilt
        (make (record { name = name_a; body = lazy_file_node file }) (λ dir e. absurd (cc))))
      (add 0 (some 1) (λ c e. subst (λ x. x < 2) (some_injective e) (omega arith)))

Built-IsTree_example : IsTree (ensure_dir_child with_file 0 with_file_dir name_a).0
Built-IsTree_example =
    Built-IsTree
      (then_step with_file-Built (ensure 0 with_file_dir name_a with_file-dir_at with_file-next))
      start-IsTree

-- "/a//b"
abbrev path : Name
path = 0x2F ∷ 97 ∷ 0x2F ∷ 0x2F ∷ 98 ∷ []

tree_code : Unit {0}
unfolding split getlines find_in resolve_parts resolve ensure_at sanitise_component make_parts
    get_or_make_dir ensure_dir_child scan ensure_scanned put_dir alloc dir_find add_child dir_add
tree_code = tt

path_made : (get_or_make_dir (λ s. true) start 0 path).ok ≡ true
unfolding tree_code
path_made = refl

path_found : resolve (get_or_make_dir (λ s. true) start 0 path).heap (some 0) path ≡ some 2
unfolding tree_code
path_found = refl

get_or_make_dir-resolve_example :
    (resolve (get_or_make_dir (λ s. true) start 0 path).heap (some 0) path
      ≡ some (get_or_make_dir (λ s. true) start 0 path).dir)
    × IsTree (get_or_make_dir (λ s. true) start 0 path).heap
    × ((x : ℕ) (m : Name) (y : ℕ)
        → x < start.next
        → Leads start x m y
        → Leads (get_or_make_dir (λ s. true) start 0 path).heap x m y)
get_or_make_dir-resolve_example =
    get_or_make_dir-resolve (λ s. true) start 0 empty_dir path start-IsTree refl (omega arith)
      path_made
