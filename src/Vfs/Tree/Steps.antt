-- ===== src/Vfs/Tree/Steps.antt =====
-- vfs/vfs.cpp: the trees that are built by making nodes, `add` and `ensure_dir_child`.
use mem_nix_fs.Base.{ℕ, ◌<◌, ◌≡◌, Option, some}
use mem_nix_fs.Vfs.Name.{Name}
use mem_nix_fs.Vfs.Tree.{
  DirNode, Node, as_dir, Heap, dir_at, alloc, empty_dir, dir_add, ensure_dir_child,
}
use mem_nix_fs.Vfs.Tree.Unique.{IsTree, IsTree-alloc, dir_add-IsTree}
use mem_nix_fs.Vfs.Tree.Ensure.{ensure_dir_child-Ensured}

-- One operation on the tree. A new directory is empty, and only nodes that exist are added.
pub data Step : Heap → Heap → Type 0 where
  make :
      {h : Heap} (n : Node)
      → ((dir : DirNode) → as_dir n.body ≡ some dir → dir ≡ empty_dir)
      → Step h (alloc h n)
  add :
      {h : Heap} (d : ℕ) (child : Option ℕ)
      → ((c : ℕ) → child ≡ some c → c < h.next)
      → Step h (dir_add h d child)
  ensure :
      {h : Heap} (d : ℕ) (dir : DirNode) (n : Name)
      → dir_at h d ≡ some dir
      → d < h.next
      → Step h (ensure_dir_child h d dir n).0

pub data Built (start : Heap) : Heap → Type 0 where
  unbuilt : Built start start
  then_step : {h h' : Heap} → Built start h → Step h h' → Built start h'

Step-IsTree : {h h' : Heap} → Step h h' → IsTree h → IsTree h'
Step-IsTree (make n bare) t = IsTree-alloc _ n bare t
Step-IsTree (add d child b) t = dir_add-IsTree _ d child b t
Step-IsTree (ensure d dir n e b) t = (ensure_dir_child-Ensured _ d dir n t e b).tree

-- Whatever sequence of operations builds a tree from one where it holds, as the empty one, no
-- directory has two children of one name, and its set of names is that of its children.
pub Built-IsTree : {start h : Heap} → Built start h → IsTree start → IsTree h
Built-IsTree unbuilt t = t
Built-IsTree (then_step b s) t = Step-IsTree s (Built-IsTree b t)
