-- ===== src/Mount/Tests.antt =====
-- Runs of the directory pages.
use mem_nix_fs.Base.{
  ℕ, zero, ◌+◌, ◌*◌, ◌-◌, ◌/◌, ap, take, suc, ◌≡◌, refl, List, [], ◌∷◌, length, none, some, true,
  ltb, ok, stuck, fault, replicate, arith,
}
use mem_nix_fs.Vfs.Name.{Name}
use mem_nix_fs.Mount.{WinFsp, page_loop, read_directory, enumerate}
use mem_nix_fs.Mount.Enumerate.{enumerate-entries}

-- The name in an entry of a size, behind 104 bytes.
abbrev named : Name → ℕ → Name
named n size = take ((size - 104) / 2) n

take_all : (n : ℕ) (xs : Name) → n ≡ length xs → take n xs ≡ xs
take_all zero [] e = refl
take_all zero (x ∷ xs) e = absurd (omega arith)
take_all (suc n) [] e = absurd (omega arith)
take_all (suc n) (x ∷ xs) e = ap (◌∷◌ x) (take_all n xs (omega arith))

-- Room for two entries.
abbrev two : WinFsp
two = record { dir_info_size = 104; adds = λ page n size. ltb (length page) 2; taken_name = named }

abbrev three_names : List Name
three_names = (65 ∷ []) ∷ (66 ∷ []) ∷ (67 ∷ []) ∷ []

second_page : read_directory two three_names (some (66 ∷ [])) ≡ ok ((67 ∷ []) ∷ [], true)
unfolding read_directory page_loop
second_page = refl

-- A name of 513 characters is copied past the end of its buffer.
long_name : read_directory two (replicate 513 65 ∷ []) none ≡ fault
unfolding read_directory page_loop
long_name = refl

-- Two children of one name: the second page never gets past the first of them.
abbrev one_at_a_time : WinFsp
one_at_a_time = record {
  dir_info_size = 104;
  adds = λ page n size. ltb (length page) 1;
  taken_name = named;
}

duplicates :
    enumerate 9 one_at_a_time ((65 ∷ []) ∷ (66 ∷ []) ∷ (65 ∷ []) ∷ (67 ∷ []) ∷ []) none ≡ stuck
unfolding read_directory page_loop
duplicates = refl

enumerate-entries_example :
    enumerate (suc (length three_names)) two three_names none ≡ ok three_names
enumerate-entries_example =
    enumerate-entries two
      (record {
        small = omega arith;
        room = λ n short. refl;
        whole_name = λ n short. take_all ((104 + 2 * length n - 104) / 2) n (omega arith);
      })
      three_names (refl, (refl, (refl, tt))) (omega arith)
