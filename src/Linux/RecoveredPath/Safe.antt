-- ===== src/Linux/RecoveredPath/Safe.antt =====
-- os/linux/pagecache.cpp: the paths that are trusted have parts that are safe to show.
use mem_nix_fs.Base.{
  ℕ, zero, suc, ◌-◌, ◌≤◌, ◌≡◌, ◌≢◌, refl, sym, ◌∙◌, List, [], ◌∷◌, Option, none, some, Bool, true,
  false, not, All, length, take, ltb, ◌==◌, arith, Bool-cases, Option-cases, inl, inr, subst,
  some_injective, if◌then◌else◌, ◌||◌, ltb→le, ◌⊎◌,
}
use mathlib.Core.Bool.{false≢true}
use mem_nix_fs.Base.Recent.{back}
use mem_nix_fs.Base.Text.{codes}
use mem_nix_fs.Vfs.Name.{Name, same}
use mem_nix_fs.Vfs.Resolve.{slash, split}
use mem_nix_fs.Linux.RecoveredPath.{
  Reason, embedded_nul, slash_inside, control_byte, forbidden_character, invalid_utf8,
  control_codepoint, traversal, trailing_space_or_dot, null_path, not_absolute, too_long, PathTrust,
  trusted, rejected, is_host_forbidden_path_char, between, bytes_behind, are_behind,
  utf8_sequence_len, check_bytes, check_back, and_then, validate_path_component, check_parts,
  validate_recovered_fs_path,
}

-- A byte that is no control, no slash and none that a host forbids in a name.
abbrev pub IsPlain : ℕ → Type 0
IsPlain b = (0x20 ≤ b) × (b ≢ 0x7F) × (b ≢ slash) × (is_host_forbidden_path_char b ≡ false)

abbrev IsHigh : ℕ → Type 0
IsHigh b = 0x80 ≤ b

high-IsPlain : (b : ℕ) → IsHigh b → IsPlain b
unfolding is_host_forbidden_path_char
high-IsPlain b h = (omega arith, omega arith, omega arith, ground arith)

abbrev AreHigh : List (ℕ × ℕ) → Type 0
AreHigh = All (λ r. 0x80 ≤ r.0)

-- What a table yields has high bytes only.
record YieldsHigh (o : Option (List (ℕ × ℕ))) : Type 0 where
  high : (rs : List (ℕ × ℕ)) → o ≡ some rs → AreHigh rs

none_lem : YieldsHigh none
none_lem = record { high = λ rs e. absurd (cc) }

-- A row of a table, and the rows below it.
row_lem :
    (b : Bool) (x : List (ℕ × ℕ)) (next : Option (List (ℕ × ℕ)))
    → AreHigh x
    → YieldsHigh next
    → YieldsHigh (if b then some x else next)
row_lem true x next h k = record { high = λ rs e. subst AreHigh (some_injective e) h }
row_lem false x next h k = k

bytes_behind-YieldsHigh : (c : ℕ) → YieldsHigh (bytes_behind c)
unfolding bytes_behind
bytes_behind-YieldsHigh c =
    let one : AreHigh ((0x80, 0xBF) ∷ []) = (omega arith, tt) in
    let two : AreHigh ((0x80, 0xBF) ∷ (0x80, 0xBF) ∷ []) = (omega arith, one) in
    let three : AreHigh ((0x80, 0xBF) ∷ (0x80, 0xBF) ∷ (0x80, 0xBF) ∷ []) = (omega arith, two) in
    let after_e0 : AreHigh ((0xA0, 0xBF) ∷ (0x80, 0xBF) ∷ []) = (omega arith, one) in
    let after_ed : AreHigh ((0x80, 0x9F) ∷ (0x80, 0xBF) ∷ []) = (omega arith, one) in
    let after_f0 : AreHigh ((0x90, 0xBF) ∷ (0x80, 0xBF) ∷ (0x80, 0xBF) ∷ []) = (omega arith, two) in
    let after_f4 : AreHigh ((0x80, 0x8F) ∷ (0x80, 0xBF) ∷ (0x80, 0xBF) ∷ []) = (omega arith, two) in
    row_lem (ltb c 0x80) [] _ tt (
      row_lem (between 0xC2 0xDF c) ((0x80, 0xBF) ∷ []) _ one (
        row_lem (c == 0xE0) ((0xA0, 0xBF) ∷ (0x80, 0xBF) ∷ []) _ after_e0 (
          row_lem (between 0xE1 0xEC c) ((0x80, 0xBF) ∷ (0x80, 0xBF) ∷ []) _ two (
            row_lem (c == 0xED) ((0x80, 0x9F) ∷ (0x80, 0xBF) ∷ []) _ after_ed (
              row_lem (between 0xEE 0xEF c) ((0x80, 0xBF) ∷ (0x80, 0xBF) ∷ []) _ two (
                row_lem (c == 0xF0) ((0x90, 0xBF) ∷ (0x80, 0xBF) ∷ (0x80, 0xBF) ∷ []) _ after_f0 (
                  row_lem (between 0xF1 0xF3 c) ((0x80, 0xBF) ∷ (0x80, 0xBF) ∷ (0x80, 0xBF) ∷ []) _
                    three
                    (row_lem (c == 0xF4) ((0x80, 0x8F) ∷ (0x80, 0xBF) ∷ (0x80, 0xBF) ∷ []) _
                      after_f4 none_lem))))))))

are_behind-IsHigh :
    (rs : List (ℕ × ℕ)) (bs : List ℕ)
    → AreHigh rs
    → are_behind rs bs ≡ true
    → All IsHigh (take (length rs) bs)
unfolding are_behind
are_behind-IsHigh [] bs h e = tt
are_behind-IsHigh (r ∷ rs) [] h e = tt
are_behind-IsHigh (r ∷ rs) (b ∷ bs) h e =
    (ground (arith, h.0), are_behind-IsHigh rs bs h.1 (ground arith))

utf8_sequence_len-IsHigh :
    (c : ℕ) (cs : List ℕ)
    → (utf8_sequence_len c cs == 0) ≡ false
    → All IsHigh (take (utf8_sequence_len c cs - 1) cs)
unfolding utf8_sequence_len
utf8_sequence_len-IsHigh c cs h = elim (Option-cases (bytes_behind c)) [
  | inl no_first ↦ absurd (false≢true (sym h ∙ rw (utf8_sequence_len, no_first) refl))
  | inr (rs, first) ↦ elim (Bool-cases (are_behind rs cs)) [
    | inl follow ↦
        let high = are_behind-IsHigh rs cs ((bytes_behind-YieldsHigh c).high rs first) follow in
        rw (utf8_sequence_len, first, follow)
          (subst (λ n. All IsHigh (take n cs)) (omega arith) high)
    | inr broken ↦ absurd (false≢true (sym h ∙ rw (utf8_sequence_len, first, broken) refl))
  ]
]

gate :
    (b : Bool) (why : Reason) (t : PathTrust)
    → (if b then rejected why else t) ≡ trusted
    → (b ≡ false) × (t ≡ trusted)
gate true why t e = absurd (cc)
gate false why t e = (refl, e)

split_if :
    (b : Bool) (x y : PathTrust)
    → (if b then x else y) ≡ trusted
    → ((b ≡ true) × (x ≡ trusted)) ⊎ ((b ≡ false) × (y ≡ trusted))
split_if true x y e = inl (refl, e)
split_if false x y e = inr (refl, e)

-- A byte of ASCII that passes, and the first byte of a sequence that does.
ascii_lem :
    (c : ℕ) (next : PathTrust)
    → (if c == 0
        then rejected embedded_nul
        else if c == slash
        then rejected slash_inside
        else if ltb c 0x20 || c == 0x7F
        then rejected control_byte
        else if is_host_forbidden_path_char c
        then rejected forbidden_character
        else next)
      ≡ trusted
    → IsPlain c × (next ≡ trusted)
ascii_lem c next e =
    let (_, e₁) = gate (c == 0) embedded_nul _ e in
    let (not_slash, e₂) = gate (c == slash) slash_inside _ e₁ in
    let (no_control, e₃) = gate (ltb c 0x20 || c == 0x7F) control_byte _ e₂ in
    let (allowed, e₄) = gate (is_host_forbidden_path_char c) forbidden_character _ e₃ in
    ((ground arith, ground arith, ground arith, allowed), e₄)

check_bytes-IsPlain :
    (skip : ℕ) (bs : List ℕ)
    → check_bytes skip bs ≡ trusted
    → All IsHigh (take skip bs)
    → All IsPlain bs
unfolding check_bytes
check_bytes-IsPlain skip [] e h = tt
check_bytes-IsPlain (suc skip) (b ∷ bs) e h =
    (high-IsPlain b h.0, check_bytes-IsPlain skip bs e h.1)
check_bytes-IsPlain zero (c ∷ cs) e h =
    let len = utf8_sequence_len c cs in
    elim (split_if (ltb c 0x80) _ _ e) [
      | inl (low, e₁) ↦
          let (plain, e₂) = ascii_lem c (check_bytes 0 cs) e₁ in
          (plain, check_bytes-IsPlain 0 cs e₂ tt)
      | inr (high, e₁) ↦
          let (some_len, e₂) = gate (len == 0) invalid_utf8 _ e₁ in
          let (_, e₃) = gate _ control_codepoint _ e₂ in
          (
            high-IsPlain c (ltb→le c 0x80 high),
            check_bytes-IsPlain (len - 1) cs e₃ (utf8_sequence_len-IsHigh c cs some_len),
          )
    ]

-- A part of a path is neither "." nor "..", its bytes are plain, and its last byte is neither a
-- space nor a dot.
abbrev pub IsSafe : Name → Type 0
IsSafe [] = Unit {0}
IsSafe (c ∷ cs) =
    (same (c ∷ cs) (codes ".") ≡ false)
    × (same (c ∷ cs) (codes "..") ≡ false)
    × All IsPlain (c ∷ cs)
    × (back c cs ≢ 0x20)
    × (back c cs ≢ 0x2E)

and_then-trusted : (t u : PathTrust) → and_then t u ≡ trusted → (t ≡ trusted) × (u ≡ trusted)
unfolding and_then
and_then-trusted trusted u e = (refl, e)
and_then-trusted (rejected why) u e = absurd (cc)

neither : (b d : Bool) → (b || d) ≡ false → (b ≡ false) × (d ≡ false)
neither true d e = absurd (cc)
neither false d e = (refl, e)

validate_path_component-IsSafe : (s : Name) → validate_path_component s ≡ trusted → IsSafe s
unfolding validate_path_component check_back
validate_path_component-IsSafe [] e = tt
validate_path_component-IsSafe (c ∷ cs) e =
    let (no_dots, e₁) =
      gate (same (c ∷ cs) (codes ".") || same (c ∷ cs) (codes "..")) traversal _ e in
    let (bytes_pass, e₂) = and_then-trusted (check_bytes 0 (c ∷ cs)) _ e₁ in
    let (no_end, _) = gate (back c cs == 0x20 || back c cs == 0x2E) trailing_space_or_dot _ e₂ in
    let (one, two) = neither (same (c ∷ cs) (codes ".")) (same (c ∷ cs) (codes "..")) no_dots in
    (one, two, check_bytes-IsPlain 0 (c ∷ cs) bytes_pass tt, ground arith, ground arith)

check_parts-IsSafe :
    (saw : Bool) (parts : List Name) → check_parts saw parts ≡ trusted → All IsSafe parts
unfolding check_parts
check_parts-IsSafe saw [] e = tt
check_parts-IsSafe saw ([] ∷ parts) e = (tt, check_parts-IsSafe saw parts e)
check_parts-IsSafe saw ((c ∷ cs) ∷ parts) e =
    let (first, rest) = and_then-trusted (validate_path_component (c ∷ cs)) _ e in
    (validate_path_component-IsSafe (c ∷ cs) first, check_parts-IsSafe true parts rest)

-- Of a path that `validate_recovered_fs_path` trusts, no part between slashes is "." or "..", holds a
-- control byte, a NUL or a character that a host forbids, or ends in a space or a dot; the path has
-- 4096 bytes at most.
pub validate_recovered_fs_path-IsSafe :
    (path : Name)
    → validate_recovered_fs_path path ≡ trusted
    → All IsSafe (split path) × (length path ≤ 4096)
unfolding validate_recovered_fs_path
validate_recovered_fs_path-IsSafe [] e = absurd (cc)
validate_recovered_fs_path-IsSafe (c ∷ cs) e =
    let (_, e₁) = gate (same (c ∷ cs) (codes "(null)")) null_path _ e in
    let (_, e₂) = gate (not (c == slash)) not_absolute _ e₁ in
    let (short, e₃) = gate (ltb 4096 (length (c ∷ cs))) too_long _ e₂ in
    (check_parts-IsSafe false (split (c ∷ cs)) e₃, ground arith)
