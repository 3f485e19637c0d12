-- ===== src/Mount.antt =====
-- mount/winfsp_mount.cpp: `ReadDirectory`, which lists a directory in pages.
pub mod Enumerate
mod Tests
use mem_nix_fs.Base.{
  ℕ, zero, suc, ◌+◌, ◌-◌, ◌*◌, ◌/◌, ◌%◌, ◌^◌, length, take, ltb, fault, List, [], ◌∷◌, ◌++◌, Option,
  none, some, Bool, true, false, if◌then◌else◌, Result, ok, stuck, ◌>>=◌,
}
use mem_nix_fs.Vfs.Name.{Name, same}

-- WinFsp: sizeof(FSP_FSCTL_DIR_INFO), what `FspFileSystemAddDirInfo` returns for an entry of a name
-- and a size where the buffer holds the names `page`, and the name that it takes out of such an entry.
pub record WinFsp : Type 0 where
  pub dir_info_size : ℕ
  pub adds : List Name → Name → ℕ → Bool
  pub taken_name : Name → ℕ → Name

-- U.Di.Size, a UINT16
abbrev pub entry_size : WinFsp → Name → ℕ
entry_size w n = (w.dir_info_size + 2 * length n) % 2 ^ 16

-- The loop of `ReadDirectory`; `entries` are the wide names of the children that are left. The
-- second result tells whether the end of the directory was reached. The names are copied into a
-- buffer of 512 wide characters; behind its end that is undefined behaviour.
unfoldable pub page_loop : WinFsp → Name → Bool → List Name → List Name → Result (List Name × Bool)
page_loop w marker past page [] = ok (page, true)
page_loop w marker false page (n ∷ ns) = page_loop w marker (same n marker) page ns
page_loop w marker true page (n ∷ ns) =
    let rest = page_loop w marker true (page ++ (w.taken_name n (entry_size w n) ∷ [])) ns in
    if ltb 512 (length n)
    then fault
    else (if w.adds page n (entry_size w n) then rest else ok (page, false))

-- `ReadDirectory`; `none` is the null marker.
unfoldable pub read_directory : WinFsp → List Name → Option Name → Result (List Name × Bool)
read_directory w entries none = page_loop w [] true [] entries
read_directory w entries (some marker) = page_loop w marker false [] entries

abbrev pub last_of : Option Name → List Name → Option Name
last_of m [] = m
last_of m (n ∷ ns) = last_of (some n) ns

-- How WinFsp lists a directory, as vfs/vfs.h describes it: in pages, each resumed from the last
-- name that the one before emitted.
abbrev pub enumerate : ℕ → WinFsp → List Name → Option Name → Result (List Name)
enumerate zero w entries marker = stuck
enumerate (suc fuel) w entries marker = read_directory w entries marker >>= λ r.
    let rest = enumerate fuel w entries (last_of marker r.0) in
    if r.1 then ok r.0 else (rest >>= λ names. ok (r.0 ++ names))
