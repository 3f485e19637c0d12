-- ===== src/Formats/Extents.antt =====
-- Address spaces that are made of extents: what the segments of a LiME dump, the ranges of a
-- kdump and the frames of an AVML dump have in common.
use mem_nix_fs.Base.{
  ℕ, ◌+◌, ◌-◌, ◌≤◌, ◌<◌, ◌≡◌, refl, List, [], ◌∷◌, ◌&&◌, none, some, arith, ltb, leb, if◌then◌else◌,
}
use mem_nix_fs.Base.Word.{u64_mod}
use mem_nix_fs.Physical.{Image}

module _ {A : Type 0} (start size : A → ℕ) where
  -- The extents follow one another from `lo` on, and each ends below the last 64-bit address.
  abbrev pub IsOrdered : ℕ → List A → Type 0
  IsOrdered lo [] = Unit {0}
  IsOrdered lo (s ∷ ss) =
      (lo ≤ start s) × (start s + size s < u64_mod) × IsOrdered (start s + size s) ss

  module _ (byte : A → ℕ → ℕ) where
    -- The byte at an address: that of the first extent that covers it.
    abbrev pub image : List A → Image
    image [] a = none
    image (s ∷ ss) a =
        if leb (start s) a && ltb a (start s + size s)
        then some (byte s (a - start s))
        else image ss a

    -- Below the first of ordered extents there is nothing.
    pub image-below :
        (lo : ℕ) (ss : List A) → IsOrdered lo ss → (a : ℕ) → a < lo → image ss a ≡ none
    image-below lo [] o a h = refl
    image-below lo (s ∷ ss) o a h = ground (arith, image-below (start s + size s) ss o.2 a)

    -- Before an extent: nothing, if the extents are ordered.
    pub image-before :
        (lo : ℕ) (s : A) (ss : List A)
        → IsOrdered lo (s ∷ ss)
        → (a : ℕ) → a < start s
        → image (s ∷ ss) a ≡ none
    image-before lo s ss o a h = ground (arith, image-below (start s + size s) ss o.2 a)

    -- Inside an extent: its byte.
    pub image-inside :
        (s : A) (ss : List A) (a : ℕ)
        → start s ≤ a
        → a < start s + size s
        → image (s ∷ ss) a ≡ some (byte s (a - start s))
    image-inside s ss a h k = ground arith

    -- Behind an extent: what the others hold.
    pub image-behind :
        (s : A) (ss : List A) (a : ℕ) → start s + size s ≤ a → image (s ∷ ss) a ≡ image ss a
    image-behind s ss a h = ground arith
