-- ===== src/Vfs/Tree.antt =====
-- vfs/vfs.h and vfs.cpp: the nodes of the tree, and `DirNode`. Nodes are shared pointers to
-- mutable objects: a heap of nodes, with the number of a node as the pointer to it.
pub mod Unique
pub mod Ensure
pub mod Steps
use mem_nix_fs.Base.{
  ℕ, suc, List, [], ◌∷◌, ◌++◌, Option, none, some, Bool, true, false, ◌==◌, if◌then◌else◌, Result,
}
use mem_nix_fs.Vfs.Name.{Name, same, mem}
use mem_nix_fs.Vfs.Cost.{FileCost, default_cost}
use mem_nix_fs.Vfs.Lazy.{LazyFileNode, SizedLazyFileNode}

-- `StreamReader` of core/stream.h
pub record StreamReader : Type 0 where
  pub size : ℕ
  pub read : ℕ → ℕ → Result (List ℕ × ℕ)

-- `DirNode`: its children in order, and the set of their names
pub record DirNode : Type 0 where
  pub children : List ℕ
  pub names : List Name

-- The subclasses of `Node`.
pub data Body : Type 0 where
  dir_node : DirNode → Body
  lazy_file_node : LazyFileNode → Body
  sized_lazy_file_node : SizedLazyFileNode → Body
  stream_file_node : StreamReader → Body

-- `Node`; its name never changes.
pub record Node : Type 0 where
  pub name : Name
  pub body : Body

-- dynamic_pointer_cast<DirNode>, which is `is_dir` too.
abbrev pub as_dir : Body → Option DirNode
as_dir (dir_node d) = some d
as_dir (lazy_file_node n) = none
as_dir (sized_lazy_file_node n) = none
as_dir (stream_file_node r) = none

-- `Node::cost`
abbrev pub node_cost : Body → FileCost
node_cost (dir_node d) = default_cost
node_cost (lazy_file_node n) = n.cost
node_cost (sized_lazy_file_node n) = n.cost
node_cost (stream_file_node r) = default_cost

-- `Node::warmable`
abbrev pub warmable : Body → Bool
warmable (dir_node d) = false
warmable (lazy_file_node n) = true
warmable (sized_lazy_file_node n) = false
warmable (stream_file_node r) = false

-- The nodes below `next` are allocated.
pub record Heap : Type 0 where
  pub next : ℕ
  pub node : ℕ → Node

abbrev pub name_of : Heap → ℕ → Name
name_of h c = (h.node c).name

abbrev pub names_of : Heap → List ℕ → List Name
names_of h [] = []
names_of h (c ∷ cs) = name_of h c ∷ names_of h cs

abbrev pub dir_at : Heap → ℕ → Option DirNode
dir_at h d = as_dir (h.node d).body

-- make_shared of a node: the heap, where `next` was the new pointer.
unfoldable pub alloc : Heap → Node → Heap
alloc h n = record { next = suc h.next; node = λ i. if i == h.next then n else h.node i }

-- A directory's members are written.
unfoldable pub put_dir : Heap → ℕ → DirNode → Heap
put_dir h d dir = record h {
  node = λ i. if i == d then record { name = name_of h d; body = dir_node dir } else h.node i;
}

abbrev pub empty_dir : DirNode
empty_dir = record { children = []; names = [] }

-- The members of a directory after `add` of a child with this name.
unfoldable pub add_child : ℕ → Name → DirNode → DirNode
add_child c n dir =
    if mem n dir.names
    then dir
    else record { children = dir.children ++ (c ∷ []); names = n ∷ dir.names }

-- `DirNode::add`, on the directory `d`.
unfoldable pub dir_add : Heap → ℕ → Option ℕ → Heap
dir_add h d none = h
dir_add h d (some c) = elim (dir_at h d) [
  | none ↦ h
  | some dir ↦ put_dir h d (add_child c (name_of h c) dir)
]

-- `DirNode::list`: the names, and the nodes.
unfoldable pub dir_list : Heap → List ℕ → List (Name × ℕ)
dir_list h [] = []
dir_list h (c ∷ cs) = (name_of h c, c) ∷ dir_list h cs

-- `DirNode::find`
unfoldable pub dir_find : Heap → List ℕ → Name → Option ℕ
dir_find h [] n = none
dir_find h (c ∷ cs) n = if same (name_of h c) n then some c else dir_find h cs n

-- What the loop of `ensure_dir_child` comes to: a directory of that name, the children with a new
-- node in place of a file of that name, or no child of that name.
pub data Scan : Type 0 where
  found : ℕ → Scan
  replaced : List ℕ → Scan
  absent : Scan

abbrev pub scan_behind : ℕ → Scan → Scan
scan_behind c (found d) = found d
scan_behind c (replaced cs) = replaced (c ∷ cs)
scan_behind c absent = absent

-- The loop of `ensure_dir_child`, with `fresh` for a directory that it makes.
unfoldable pub scan : Heap → ℕ → Name → List ℕ → Scan
scan h fresh n [] = absent
scan h fresh n (c ∷ cs) =
    if same (name_of h c) n
    then elim (dir_at h c) [ some _ ↦ found c | none ↦ replaced (fresh ∷ cs) ]
    else scan_behind c (scan h fresh n cs)

-- What follows the loop, on the directory `d` with these members.
unfoldable pub ensure_scanned : Heap → ℕ → Name → DirNode → Scan → Heap × ℕ
ensure_scanned h d n dir (found c) = (h, c)
ensure_scanned h d n dir (replaced cs) = (
  put_dir (alloc h (record { name = n; body = dir_node empty_dir })) d
      (record { children = cs; names = dir.names }),
  h.next,
)
ensure_scanned h d n dir absent = (
  put_dir (alloc h (record { name = n; body = dir_node empty_dir })) d
      (record { children = dir.children ++ (h.next ∷ []); names = n ∷ dir.names }),
  h.next,
)

-- `DirNode::ensure_dir_child`, on the directory `d`: the heap, and the child.
unfoldable pub ensure_dir_child : Heap → ℕ → DirNode → Name → Heap × ℕ
ensure_dir_child h d dir n = ensure_scanned h d n dir (scan h h.next n dir.children)
