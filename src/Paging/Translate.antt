-- ===== src/Paging/Translate.antt =====
-- arch/x86_64/paging.cpp: what `PageTable::translate` promises.
use mem_nix_fs.Base.{
  ℕ, ◌+◌, ◌-◌, ◌*◌, ◌%◌, ◌^◌, ◌<◌, ◌≡◌, refl, ap, sym, subst, ◌∙◌, Option, none, some, bit_and,
  arith, Bool-cases, inl, inr, ◌==◌, Result, IsOk, >>=-IsOk, ok_some-injective, ok, err, fault,
  stuck, ◌>>=◌,
}
use mem_nix_fs.Base.Word.{add64}
use mem_nix_fs.Physical.{PhysicalLayer, Image, Shows, read_u64, read_exact}
use mem_nix_fs.Paging.{
  PageTable, addr_mask, ps_bit, idx, read_entry, on_present, walk_pt, walk_pd, walk_pdpt, translate,
}
use mem_nix_fs.Paging.Entry.{idx-eq, addr_mask-eq, page_4k, page_2mb, page_1gb}

-- A translation moved up by an offset within the page.
abbrev pub moved : ℕ → Option ℕ → Option ℕ
moved k none = none
moved k (some pa) = some (pa + k)

abbrev pub shift_by : ℕ → Result (Option ℕ) → Result (Option ℕ)
shift_by k r = r >>= λ o. ok (moved k o)

on_present-shift :
    (k : ℕ) (r : Result (Option ℕ)) (f g : ℕ → Result (Option ℕ))
    → ((e : ℕ) → f e ≡ shift_by k (g e))
    → on_present r f ≡ shift_by k (on_present r g)
unfolding on_present
on_present-shift k (ok none) f g h = refl
on_present-shift k (ok (some e)) f g h = h e
on_present-shift k (err e) f g h = refl
on_present-shift k fault f g h = refl
on_present-shift k stuck f g h = refl

-- The first address of the page that holds `va`.
abbrev pub page_of : ℕ → ℕ
page_of va = va - va % 4096

idx-page_of :
    (va : ℕ)
    → (idx va 12 ≡ idx (page_of va) 12)
      × (idx va 21 ≡ idx (page_of va) 21)
      × (idx va 30 ≡ idx (page_of va) 30)
      × (idx va 39 ≡ idx (page_of va) 39)
idx-page_of va = (
  idx-eq va 12 ∙ (omega arith ∙ sym (idx-eq (page_of va) 12)),
  idx-eq va 21 ∙ (omega arith ∙ sym (idx-eq (page_of va) 21)),
  idx-eq va 30 ∙ (omega arith ∙ sym (idx-eq (page_of va) 30)),
  idx-eq va 39 ∙ (omega arith ∙ sym (idx-eq (page_of va) 39)),
)

module _ (phys : PhysicalLayer) (va : ℕ) where
  walk_pt-page_of : (e : ℕ) → walk_pt phys va e ≡ shift_by (va % 4096) (walk_pt phys (page_of va) e)
  unfolding walk_pt
  walk_pt-page_of e = rw (idx-page_of va).0 (
      on_present-shift (va % 4096) _ _ _ (λ pte.
        ap (λ t. ok (some t))
          (page_4k pte va
            ∙ (omega arith ∙ ap (λ t. t + va % 4096) (sym (page_4k pte (page_of va)))))))

  walk_pd-page_of : (e : ℕ) → walk_pd phys va e ≡ shift_by (va % 4096) (walk_pd phys (page_of va) e)
  unfolding walk_pd
  walk_pd-page_of e = rw (idx-page_of va).1 (
      on_present-shift (va % 4096) _ _ _ (λ pde. elim (Bool-cases (bit_and pde ps_bit == 0)) [
        | inl table ↦ rw table (walk_pt-page_of pde)
        | inr page ↦ rw page (
            ap (λ t. ok (some t))
              (page_2mb pde va
                ∙ (omega arith ∙ ap (λ t. t + va % 4096) (sym (page_2mb pde (page_of va))))))
      ]))

  walk_pdpt-page_of :
      (e : ℕ) → walk_pdpt phys va e ≡ shift_by (va % 4096) (walk_pdpt phys (page_of va) e)
  unfolding walk_pdpt
  walk_pdpt-page_of e = rw (idx-page_of va).2 (
      on_present-shift (va % 4096) _ _ _ (λ pdpte. elim (Bool-cases (bit_and pdpte ps_bit == 0)) [
        | inl table ↦ rw table (walk_pd-page_of pdpte)
        | inr page ↦ rw page (
            ap (λ t. ok (some t))
              (page_1gb pdpte va
                ∙ (omega arith ∙ ap (λ t. t + va % 4096) (sym (page_1gb pdpte (page_of va))))))
      ]))

-- Within a page, whatever its size, a translation moves with the address: the page's translation
-- and the offset give that of each of its bytes, errors and unmapped pages included.
pub translate-page_of :
    (pt : PageTable) (va : ℕ) → translate pt va ≡ shift_by (va % 4096) (translate pt (page_of va))
unfolding translate
translate-page_of pt va =
    rw (idx-page_of va).3 (on_present-shift (va % 4096) _ _ _ (walk_pdpt-page_of pt.phys va))

on_present-eq-some :
    (r : Result (Option ℕ)) (f : ℕ → Result (Option ℕ)) {pa : ℕ}
    → on_present r f ≡ ok (some pa)
    → (e : ℕ) × (f e ≡ ok (some pa))
unfolding on_present
on_present-eq-some (ok none) f h = absurd (cc)
on_present-eq-some (ok (some e)) f h = (e, h)
on_present-eq-some (err e) f h = absurd (cc)
on_present-eq-some fault f h = absurd (cc)
on_present-eq-some stuck f h = absurd (cc)

-- What every translation of `va` has: 52 bits, and the offset of `va` in its page.
abbrev IsFrameOf : ℕ → ℕ → Type 0
IsFrameOf va pa = (pa < 2 ^ 52) × (pa % 4096 ≡ va % 4096)

module _ (phys : PhysicalLayer) (va : ℕ) {pa : ℕ} where
  walk_pt-IsFrameOf : (e : ℕ) → walk_pt phys va e ≡ ok (some pa) → IsFrameOf va pa
  unfolding walk_pt
  walk_pt-IsFrameOf e h =
      let (pte, found) = on_present-eq-some (read_entry phys _) _ h in
      subst (IsFrameOf va) (ok_some-injective found) (omega (arith, page_4k pte va))

  walk_pd-IsFrameOf : (e : ℕ) → walk_pd phys va e ≡ ok (some pa) → IsFrameOf va pa
  unfolding walk_pd
  walk_pd-IsFrameOf e h =
      let (pde, found) = on_present-eq-some (read_entry phys _) _ h in
      elim (Bool-cases (bit_and pde ps_bit == 0)) [
        | inl table ↦ walk_pt-IsFrameOf pde (rw table at found)
        | inr page ↦
            subst (IsFrameOf va) (ok_some-injective (rw page at found))
              (omega (arith, page_2mb pde va))
      ]

  walk_pdpt-IsFrameOf : (e : ℕ) → walk_pdpt phys va e ≡ ok (some pa) → IsFrameOf va pa
  unfolding walk_pdpt
  walk_pdpt-IsFrameOf e h =
      let (pdpte, found) = on_present-eq-some (read_entry phys _) _ h in
      elim (Bool-cases (bit_and pdpte ps_bit == 0)) [
        | inl table ↦ walk_pd-IsFrameOf pdpte (rw table at found)
        | inr page ↦
            subst (IsFrameOf va) (ok_some-injective (rw page at found))
              (omega (arith, page_1gb pdpte va))
      ]

-- A translation is a 52-bit address, and keeps the offset in the page.
pub translate-IsFrameOf :
    (pt : PageTable) (va : ℕ) {pa : ℕ}
    → translate pt va ≡ ok (some pa)
    → (pa < 2 ^ 52) × (pa % 4096 ≡ va % 4096)
unfolding translate
translate-IsFrameOf pt va h =
    let (e, found) = on_present-eq-some (read_entry pt.phys _) _ h in
    walk_pdpt-IsFrameOf pt.phys va e found

on_present-IsOk :
    (r : Result (Option ℕ)) (f : ℕ → Result (Option ℕ))
    → IsOk r
    → ((e : ℕ) → IsOk (f e))
    → IsOk (on_present r f)
unfolding on_present
on_present-IsOk r f (none, e) h = (none, rw e)
on_present-IsOk r f (some x, e) h = rw e (h x)

module _ (phys : PhysicalLayer) (img : Image) (shows : Shows phys img) where
  read_entry-IsOk : (pa : ℕ) → pa + 8 < 2 ^ 64 → IsOk (read_entry phys pa)
  unfolding read_entry read_u64 read_exact
  read_entry-IsOk pa h =
      >>=-IsOk (read_u64 phys pa) _
        (>>=-IsOk (read_exact phys pa 8) _
          (>>=-IsOk (phys.read pa 8) _ (_, shows.reads pa 8 h) (λ a. (_, refl))) (λ a. (_, refl)))
        (λ a. (_, refl))

  -- The entry of a table whose address another entry names.
  table_entry-IsOk :
      (e va shift : ℕ) → IsOk (read_entry phys (add64 (bit_and e addr_mask) (idx va shift * 8)))
  table_entry-IsOk e va shift = read_entry-IsOk _ (omega (arith, addr_mask-eq e, idx-eq va shift))

  walk_pdpt-IsOk : (va e : ℕ) → IsOk (walk_pdpt phys va e)
  unfolding walk_pdpt walk_pd walk_pt
  walk_pdpt-IsOk va e = on_present-IsOk _ _ (table_entry-IsOk e va 30) (λ pdpte.
      elim (Bool-cases (bit_and pdpte ps_bit == 0)) [
        | inr page ↦ rw page (_, refl)
        | inl table ↦ rw table (
            on_present-IsOk _ _ (table_entry-IsOk pdpte va 21) (λ pde.
              elim (Bool-cases (bit_and pde ps_bit == 0)) [
                | inr page ↦ rw page (_, refl)
                | inl table' ↦
                    rw table' (on_present-IsOk _ _ (table_entry-IsOk pde va 12) (λ pte. (_, refl)))
              ]))
      ])

-- Over a layer that shows an image, from a top table below the last page of 64-bit addresses, a walk
-- throws nothing, whatever the tables hold.
pub translate-IsOk :
    (pt : PageTable) (img : Image)
    → Shows pt.phys img
    → pt.dtb + 4096 < 2 ^ 64
    → (va : ℕ) → IsOk (translate pt va)
unfolding translate
translate-IsOk pt img shows h va =
    on_present-IsOk _ _ (read_entry-IsOk pt.phys img shows _ (omega (arith, idx-eq va 39)))
      (walk_pdpt-IsOk pt.phys img shows va)
