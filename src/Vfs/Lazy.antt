-- ===== src/Vfs/Lazy.antt =====
-- vfs/vfs.h and vfs.cpp: `LazyFileNode` and `SizedLazyFileNode`. Their operations hold a mutex
-- of the node (`warm` of the former excepted), so that calls of many threads are a sequence.
pub mod History
use mem_nix_fs.Base.{
  ℕ, suc, ◌-◌, List, [], Bool, true, false, length, take, drop, min, leb, if◌then◌else◌, Result, ok,
  err, fault, stuck, ◌>>=◌,
}
use mem_nix_fs.Base.Buffer.{part}
use mem_nix_fs.Vfs.Cost.{FileCost, cheap_to_size}

-- A producer with the flag and the field that keep what it returned. A producer is a closure
-- whose calls need not agree: `producer k` is what its call number `k` does, and `runs` counts
-- the calls.
pub record Memo {ℓ} (A : Type ℓ) : Type ℓ where
  pub producer : ℕ → Result A
  pub runs : ℕ
  pub produced : A
  pub loaded : Bool

module _ {ℓ} {A : Type ℓ} where
  -- One call of the producer: an exception leaves the flag unset.
  unfoldable pub produce : Memo A → Result A → Memo A × Result (Unit {0})
  produce m (ok d) = (record m { runs = suc m.runs; produced = d; loaded = true }, ok tt)
  produce m (err e) = (record m { runs = suc m.runs }, err e)
  produce m fault = (record m { runs = suc m.runs }, fault)
  produce m stuck = (record m { runs = suc m.runs }, stuck)

  -- `ensure_loaded`
  unfoldable pub ensure_loaded : Memo A → Memo A × Result (Unit {0})
  ensure_loaded m = if m.loaded then (m, ok tt) else produce m (m.producer m.runs)

-- `LazyFileNode`
pub record LazyFileNode : Type 0 where
  pub cost : FileCost
  pub content : Memo (List ℕ)

-- What is answered after the content was loaded.
unfoldable pub loaded_then {ℓ} :
    {A : Type ℓ}
    → LazyFileNode
    → Memo (List ℕ) × Result (Unit {0})
    → (List ℕ → A)
    → LazyFileNode × Result A
loaded_then n (m, r) answer = (record n { content = m }, r >>= λ _. ok (answer m.produced))

-- `LazyFileNode::size`
unfoldable pub lazy_size : LazyFileNode → LazyFileNode × Result ℕ
lazy_size n = loaded_then n (ensure_loaded n.content) length

-- `LazyFileNode::size_hint`
unfoldable pub lazy_size_hint : LazyFileNode → LazyFileNode × Result ℕ
lazy_size_hint n =
    if n.content.loaded
    then (n, ok (length n.content.produced))
    else (if cheap_to_size n.cost
        then loaded_then n (ensure_loaded n.content) length
        else (n, ok 0))

-- The bytes of `bs` that a read at `offset` stores.
unfoldable pub slice : List ℕ → ℕ → ℕ → Result (List ℕ)
slice bs offset len =
    if leb (length bs) offset then ok [] else part bs offset (min len (length bs - offset))

-- `LazyFileNode::read`: the bytes that were stored at the front of the buffer.
unfoldable pub lazy_read : LazyFileNode → ℕ → ℕ → LazyFileNode × Result (List ℕ)
lazy_read n offset len =
    let (n', r) = loaded_then n (ensure_loaded n.content) (λ bs. slice bs offset len) in
    (n', r >>= λ got. got)

-- `LazyFileNode::warm`
unfoldable pub lazy_warm : LazyFileNode → LazyFileNode × Result (Unit {0})
lazy_warm n = loaded_then n (ensure_loaded n.content) (λ _. tt)

-- `SizedLazyFileNode`: `size_cached_`, `cached_size_` and `size_fn_` are the memo `size`.
pub record SizedLazyFileNode : Type 0 where
  pub cost : FileCost
  pub size : Memo ℕ
  pub content : Memo (List ℕ)

-- `SizedLazyFileNode::size`
unfoldable pub sized_size : SizedLazyFileNode → SizedLazyFileNode × Result ℕ
sized_size n =
    let (m, r) = ensure_loaded n.size in (record n { size = m }, r >>= λ _. ok m.produced)

-- `SizedLazyFileNode::read`
unfoldable pub sized_read : SizedLazyFileNode → ℕ → ℕ → SizedLazyFileNode × Result (List ℕ)
sized_read n offset len =
    let (m, r) = ensure_loaded n.content in
    (record n { content = m }, r >>= λ _. slice m.produced offset len)

-- `SizedLazyFileNode::warm`
unfoldable pub sized_warm : SizedLazyFileNode → SizedLazyFileNode × Result (Unit {0})
sized_warm n = let (m, r) = ensure_loaded n.content in (record n { content = m }, r)
