-- ===== src/Linux/RecoveredPath.antt =====
-- os/linux/pagecache.cpp: `validate_recovered_fs_path`, which judges the paths that the page cache of the
-- kernel yields before they are put into the tree.
pub mod Safe
pub mod Made
mod Tests
use mem_nix_fs.Base.{
  ℕ, zero, suc, ◌-◌, List, [], ◌∷◌, Option, none, some, Bool, true, false, not, ◌&&◌, ◌||◌, length,
  ltb, leb, ◌==◌, if◌then◌else◌,
}
use mem_nix_fs.Base.Text.{codes}
use mem_nix_fs.Base.Recent.{back}
use mem_nix_fs.Vfs.Name.{Name, same}
use mem_nix_fs.Vfs.Resolve.{slash, split}

-- The texts of `PathTrust::reason`.
pub data Reason : Type 0 where
  empty_component traversal embedded_nul slash_inside control_byte forbidden_character invalid_utf8
        control_codepoint trailing_space_or_dot empty_path null_path not_absolute too_long no_leaf :
      Reason

-- `PathTrust`
pub data PathTrust : Type 0 where
  trusted : PathTrust
  rejected : Reason → PathTrust

-- `is_host_forbidden_path_char`: one of :\*?"<>|
unfoldable pub is_host_forbidden_path_char : ℕ → Bool
is_host_forbidden_path_char c =
    c == 0x3A
    || c == 0x5C
    || c == 0x2A
    || c == 0x3F
    || c == 0x22
    || c == 0x3C
    || c == 0x3E
    || c == 0x7C

abbrev pub between : ℕ → ℕ → ℕ → Bool
between lo hi c = leb lo c && leb c hi

-- The bounds of the bytes behind a first byte of `utf8_sequence_len`.
unfoldable pub bytes_behind : ℕ → Option (List (ℕ × ℕ))
bytes_behind c =
    if ltb c 0x80
    then some []
    else if between 0xC2 0xDF c
    then some ((0x80, 0xBF) ∷ [])
    else if c == 0xE0
    then some ((0xA0, 0xBF) ∷ (0x80, 0xBF) ∷ [])
    else if between 0xE1 0xEC c
    then some ((0x80, 0xBF) ∷ (0x80, 0xBF) ∷ [])
    else if c == 0xED
    then some ((0x80, 0x9F) ∷ (0x80, 0xBF) ∷ [])
    else if between 0xEE 0xEF c
    then some ((0x80, 0xBF) ∷ (0x80, 0xBF) ∷ [])
    else if c == 0xF0
    then some ((0x90, 0xBF) ∷ (0x80, 0xBF) ∷ (0x80, 0xBF) ∷ [])
    else if between 0xF1 0xF3 c
    then some ((0x80, 0xBF) ∷ (0x80, 0xBF) ∷ (0x80, 0xBF) ∷ [])
    else if c == 0xF4
    then some ((0x80, 0x8F) ∷ (0x80, 0xBF) ∷ (0x80, 0xBF) ∷ [])
    else none

-- `avail` suffices and `cont` holds for each byte.
unfoldable pub are_behind : List (ℕ × ℕ) → List ℕ → Bool
are_behind [] bs = true
are_behind (r ∷ rs) [] = false
are_behind (r ∷ rs) (b ∷ bs) = between r.0 r.1 b && are_behind rs bs

-- `utf8_sequence_len`, for the byte `c` in front of `cs`.
unfoldable pub utf8_sequence_len : ℕ → List ℕ → ℕ
utf8_sequence_len c cs = elim (bytes_behind c) [
  | none ↦ 0
  | some rs ↦ if are_behind rs cs then suc (length rs) else 0
]

-- p[i + 1] <= 0x9F
unfoldable pub starts_low : List ℕ → Bool
starts_low [] = false
starts_low (b ∷ bs) = leb b 0x9F

-- The loop of `validate_path_component`, behind `skip` bytes of a sequence.
unfoldable pub check_bytes : ℕ → List ℕ → PathTrust
check_bytes skip [] = trusted
check_bytes (suc skip) (b ∷ bs) = check_bytes skip bs
check_bytes zero (c ∷ cs) =
    let next = check_bytes 0 cs in
    let len = utf8_sequence_len c cs in
    let behind = check_bytes (len - 1) cs in
    if ltb c 0x80
    then (if c == 0
        then rejected embedded_nul
        else if c == slash
        then rejected slash_inside
        else if ltb c 0x20 || c == 0x7F
        then rejected control_byte
        else if is_host_forbidden_path_char c
        then rejected forbidden_character
        else next)
    else if len == 0
    then rejected invalid_utf8
    else if len == 2 && c == 0xC2 && starts_low cs
    then rejected control_codepoint
    else behind

-- What follows the loop.
unfoldable pub check_back : ℕ → PathTrust
check_back c = if c == 0x20 || c == 0x2E then rejected trailing_space_or_dot else trusted

-- The first verdict that is not in favour.
unfoldable pub and_then : PathTrust → PathTrust → PathTrust
and_then trusted next = next
and_then (rejected why) next = rejected why

-- `validate_path_component`
unfoldable pub validate_path_component : Name → PathTrust
validate_path_component [] = rejected empty_component
validate_path_component (c ∷ cs) =
    if same (c ∷ cs) (codes ".") || same (c ∷ cs) (codes "..")
    then rejected traversal
    else and_then (check_bytes 0 (c ∷ cs)) (check_back (back c cs))

-- The loop of `validate_recovered_fs_path`, and what follows; it skips the empty parts.
unfoldable pub check_parts : Bool → List Name → PathTrust
check_parts saw_component [] = if saw_component then trusted else rejected no_leaf
check_parts saw_component ([] ∷ parts) = check_parts saw_component parts
check_parts saw_component ((c ∷ cs) ∷ parts) =
    and_then (validate_path_component (c ∷ cs)) (check_parts true parts)

-- `validate_recovered_fs_path`
unfoldable pub validate_recovered_fs_path : Name → PathTrust
validate_recovered_fs_path [] = rejected empty_path
validate_recovered_fs_path (c ∷ cs) =
    if same (c ∷ cs) (codes "(null)")
    then rejected null_path
    else if not (c == slash)
    then rejected not_absolute
    else if ltb 4096 (length (c ∷ cs))
    then rejected too_long
    else check_parts false (split (c ∷ cs))

-- The field `ok` of `PathTrust`.
unfoldable pub is_trusted : PathTrust → Bool
is_trusted trusted = true
is_trusted (rejected why) = false

-- The verdict that `sanitise_component` of the engine asks for.
abbrev pub trusts : Name → Bool
trusts path = is_trusted (validate_recovered_fs_path path)
