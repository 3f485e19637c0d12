-- ===== src/Formats/Lime/Open.antt =====
-- formats/lime_format.cpp: an opened LiME dump, from the file to the reads.
use mem_nix_fs.Base.{
  ℕ, ◌+◌, ◌≤◌, ◌<◌, ◌≡◌, ap, sym, subst, List, [], ◌∷◌, All, some, arith, ok, ◌>>=◌, >>=-eq-ok,
  ok-injective, ◌/◌, require, ◌==◌,
}
use mem_nix_fs.Base.Word.{u64_mod}
use mem_nix_fs.Io.{MemorySource, Serves}
use mem_nix_fs.Physical.{Shows}
use mem_nix_fs.Formats.Lime.{
  LimeSegment, LimePhysical, last_end, finish, load_segments, lime_layer, open_lime_physical,
  load_loop,
}
use mem_nix_fs.Formats.Lime.Read.{IsOrdered, IsWithin, lime_image, lime_layer-Shows}
use mem_nix_fs.Formats.Lime.Layout.{IsLayout, load_segments-IsLayout}
use mem_nix_fs.Formats.Lime.Load.{load_segments-IsOrdered}

module _ (file : ℕ → ℕ) where
  -- Every byte of ordered segments lies below the end of the last one.
  below_last_end :
      (ss : List LimeSegment) (s : LimeSegment) (lo : ℕ)
      → IsOrdered lo (s ∷ ss)
      → (s.pa_start + s.pa_length ≤ last_end s ss)
        × ((a : ℕ) (b : ℕ) → lime_image file (s ∷ ss) a ≡ some b → a < last_end s ss)
  unfolding last_end
  below_last_end [] s lo o = (omega arith, λ a b e. ground arith)
  below_last_end (t ∷ ss) s lo o =
      let (over, under) = below_last_end ss t (s.pa_start + s.pa_length) o.2 in
      (omega arith, λ a b e. ground (arith, under a b))

  max_addr-last_end :
      (src : MemorySource) (segs : List LimeSegment) {l : LimePhysical}
      → finish src segs ≡ ok l
      → IsOrdered 0 l.segs
      → (a : ℕ) (b : ℕ) → lime_image file l.segs a ≡ some b
      → a < l.max_addr
  unfolding finish
  max_addr-last_end src [] e = absurd (cc)
  max_addr-last_end src (s ∷ ss) e =
      subst
        (λ l.
          IsOrdered 0 l.segs → (a : ℕ) (b : ℕ) → lime_image file l.segs a ≡ some b → a < l.max_addr)
        (ok-injective e) (λ o. (below_last_end ss s 0 o).1)

-- A LiME dump that loads is headers of the right magic and version, each followed by as many bytes as
-- it has addresses, counted in 64 bits, one behind the other to the end of the file. If every segment
-- ends below the last 64-bit address, the dump opens as a layer that shows at each segment's addresses,
-- as its header has them, the bytes that follow the header, and every byte lies below `max_address`.
pub open_lime_physical-Shows :
    (src : MemorySource) (file : ℕ → ℕ) (l : LimePhysical)
    → Serves src file
    → load_segments src ≡ ok l
    → All (λ s. s.pa_start + s.pa_length < u64_mod) l.segs
    → IsLayout file src.size 0 l.segs
      × (open_lime_physical src ≡ ok (lime_layer l))
      × Shows (lime_layer l) (lime_image file l.segs)
      × ((a b : ℕ) → lime_image file l.segs a ≡ some b → a < (lime_layer l).max_address)
unfolding open_lime_physical load_segments lime_layer
open_lime_physical-Shows src file l serves e fits =
    let (same, inside, order) = load_segments-IsOrdered src file serves e in
    let (r, found, rest) = >>=-eq-ok (load_loop (src.size / 32 + 1) src 0 0 []) _ e in
    let (u, whole, ended) = >>=-eq-ok (require (r.1 == src.size) _) _ rest in
    (
      load_segments-IsLayout src file serves e,
      ap (λ m. m >>= λ l. ok (lime_layer l)) e,
      lime_layer-Shows l file (subst (λ t. Serves t file) (sym same) serves) (order fits)
          (subst (λ t. IsWithin (t.size) l.segs) (sym same) inside),
      max_addr-last_end file src r.0 ended (order fits),
    )
