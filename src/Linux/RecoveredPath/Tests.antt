-- ===== src/Linux/RecoveredPath/Tests.antt =====
-- Runs of the judgement of paths, and its theorem at a concrete path.
use mem_nix_fs.Base.{◌≡◌, refl, [], ◌∷◌, ◌++◌, true, false, All}
use mem_nix_fs.Base.Text.{codes}
use mem_nix_fs.Base.Recent.{back}
use mem_nix_fs.Vfs.Tree.{
  Heap, dir_node, ensure_dir_child, scan, ensure_scanned, put_dir, alloc, dir_find, add_child,
  dir_add,
}
use mem_nix_fs.Vfs.Resolve.{split, ensure_at, sanitise_component, make_parts, get_or_make_dir}
use mem_nix_fs.Linux.RecoveredPath.{
  trusted, rejected, traversal, invalid_utf8, control_codepoint, trailing_space_or_dot, no_leaf,
  is_host_forbidden_path_char, bytes_behind, are_behind, utf8_sequence_len, starts_low, check_bytes,
  check_back, and_then, validate_path_component, check_parts, validate_recovered_fs_path,
  is_trusted, trusts,
}
use mem_nix_fs.Linux.RecoveredPath.Safe.{IsSafe}
use mem_nix_fs.Linux.RecoveredPath.Made.{get_or_make_dir-IsSafe}

-- What a run of the judgement computes through.
path_code : Unit {0}
unfolding split is_host_forbidden_path_char bytes_behind are_behind utf8_sequence_len starts_low
    check_bytes check_back and_then validate_path_component check_parts validate_recovered_fs_path
    is_trusted back
path_code = tt

-- A name in UTF-8, a surrogate, a control of two bytes, and paths that are not safe.
judged :
    (validate_recovered_fs_path (codes "/srv/" ++ (0xC3 ∷ 0xA9 ∷ [])) ≡ trusted)
    × (validate_recovered_fs_path (codes "/srv/" ++ (0xED ∷ 0xA0 ∷ 0x80 ∷ []))
        ≡ rejected invalid_utf8)
    × (validate_recovered_fs_path (codes "/srv/" ++ (0xC2 ∷ 0x85 ∷ []))
        ≡ rejected control_codepoint)
    × (validate_recovered_fs_path (codes "/srv/../etc") ≡ rejected traversal)
    × (validate_recovered_fs_path (codes "/srv/a.") ≡ rejected trailing_space_or_dot)
    × (validate_recovered_fs_path (codes "//") ≡ rejected no_leaf)
unfolding path_code
judged = (refl, refl, refl, refl, refl, refl)

-- A root directory with nothing in it.
abbrev bare : Heap
bare = record {
  next = 1;
  node = λ i. record { name = []; body = dir_node (record { children = []; names = [] }) };
}

made : (get_or_make_dir trusts bare 0 (codes "etc/ssh")).ok ≡ true
unfolding path_code get_or_make_dir make_parts sanitise_component ensure_at ensure_dir_child scan
    ensure_scanned put_dir alloc dir_find add_child dir_add
made = refl

refused : (get_or_make_dir trusts bare 0 (codes "etc/../ssh")).ok ≡ false
unfolding path_code get_or_make_dir make_parts sanitise_component ensure_at ensure_dir_child scan
    ensure_scanned put_dir alloc dir_find add_child dir_add
refused = refl

get_or_make_dir-IsSafe_example : All IsSafe (split (codes "etc/ssh"))
get_or_make_dir-IsSafe_example = get_or_make_dir-IsSafe bare 0 (codes "etc/ssh") made
