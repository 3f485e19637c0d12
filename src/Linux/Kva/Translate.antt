-- ===== src/Linux/Kva/Translate.antt =====
-- os/linux/kva_reader.cpp: `kva_read` and `kva_translate` agree on every byte.
use mem_nix_fs.Base.{
  ℕ, ◌+◌, ◌^◌, ◌<◌, ◌≡◌, refl, ap, ◌∙◌, List, [], ◌∷◌, Option, none, some, Bool, true, false, leb,
  arith, ◌==◌, Bool-cases, Option-cases, inl, inr, Result, ok, ◌>>=◌,
}
use mem_nix_fs.Base.Word.{u64_mod}
use mem_nix_fs.Physical.{Image, Shows, window, backed}
use mem_nix_fs.Paging.{PageTable, translate, page_table_read}
use mem_nix_fs.Paging.Translate.{translate-IsOk, translate-IsFrameOf}
use mem_nix_fs.Paging.Read.{seen, page_table_read-virtual_image}
use mem_nix_fs.Linux.Kva.{
  Engine, kernel_pt, kva_to_pa_image, resolve_init_mm_pgd_pa, Outcome, or_else, by_init_mm,
  by_tables, direct_pa, image_pa, by_linear, kva_read, Strategy, KvaTranslate, probe, or_translate,
  translate_by_init_mm, translate_by_tables, kva_translate, vmalloc_start, vmalloc_dtb,
  vmalloc_init_mm, direct_map, kernel_image, fallback_dtb, fallback_init_mm,
}

-- What a read of one byte leaves fits a translation: both fail, or the read yields the byte of the
-- dump at the address that the translation names.
abbrev pub Fits : Image → List ℕ → Bool → KvaTranslate → Type 0
Fits img buf true none = ⊥
Fits img buf true (some (pa, how)) = (byte : ℕ) × (img pa ≡ some byte) × (buf ≡ byte ∷ [])
Fits img buf false none = Unit {0}
Fits img buf false (some (pa, how)) = ⊥

-- A read of one byte and a translation both return, leave the same in `cached`, and fit.
pub record Agree (img : Image) (read : Result Outcome) (found : Result (ℕ × KvaTranslate))
    : Type 0 where
  pub cached : ℕ
  pub buf : List ℕ
  pub whole : Bool
  pub result : KvaTranslate
  pub reads : read ≡ ok (cached, buf, whole)
  pub translates : found ≡ ok (cached, result)
  pub fits : Fits img buf whole result

-- Where an address lies in the maps.
direct_pa-low :
    (eng : Engine) (va : ℕ)
    → va + 1 < 2 ^ 64
    → (pa : ℕ) → direct_pa eng va ≡ some pa
    → pa + 1 < u64_mod
unfolding direct_pa
direct_pa-low eng va small pa h = ground arith

image_pa-low :
    (eng : Engine) (va : ℕ)
    → kva_to_pa_image va eng.kaslr_phys_shift + 1 < 2 ^ 64
    → (pa : ℕ) → image_pa eng va ≡ some pa
    → pa + 1 < u64_mod
unfolding image_pa
image_pa-low eng va low pa h = ground arith

abbrev table : Engine → ℕ → PageTable
table eng dtb = record { phys = eng.phys; dtb = dtb }

module _ (eng : Engine) (img : Image) (shows : Shows eng.phys img) where
  neither : (cached : ℕ) (buf : List ℕ) → Agree img (ok (cached, buf, false)) (ok (cached, none))
  neither cached buf = record {
    cached = cached;
    buf = buf;
    whole = false;
    result = none;
    reads = refl;
    translates = refl;
    fits = tt;
  }

  -- An attempt that reads where the translation probes.
  linear-Agree :
      (cached pa : ℕ) (how : Strategy) (next : List ℕ → Result Outcome)
      (next_found : Result (ℕ × KvaTranslate))
      → pa + 1 < u64_mod
      → ((buf : List ℕ) → Agree img (next buf) next_found)
      → Agree img
          (or_else (eng.phys.read pa 1) cached 1 next)
          (or_translate eng cached (some pa) how next_found)
  unfolding or_else or_translate probe
  linear-Agree cached pa how next next_found low h = elim (Option-cases (img pa)) [
    | inl hole ↦
        let e : eng.phys.read pa 1 ≡ ok (0 ∷ [], 0) = shows.reads pa 1 low ∙ rw hole in
        rw e (h (0 ∷ []))
    | inr (b, there) ↦
        let e : eng.phys.read pa 1 ≡ ok (b ∷ [], 1) = shows.reads pa 1 low ∙ rw there in
        rw e (record {
          cached = cached;
          buf = b ∷ [];
          whole = true;
          result = some (pa, how);
          reads = refl;
          translates = refl;
          fits = (b, there, refl);
        })
  ]

  -- What a page table reads at one address, by what the address translates to.
  read_one :
      (dtb va : ℕ) (o : Option ℕ)
      → dtb + 4096 < 2 ^ 64
      → va + 1 < 2 ^ 64
      → translate (table eng dtb) va ≡ ok o
      → page_table_read (table eng dtb) va 1
        ≡ ok (window (λ _. seen img (ok o)) va 1, backed (λ _. seen img (ok o)) va 1)
  read_one dtb va o low small walked =
      page_table_read-virtual_image (table eng dtb) img shows low va 1 small ∙ rw walked refl

  -- An attempt through a page table.
  table-Agree :
      (dtb cached va : ℕ) (how : Strategy) (next : List ℕ → Result Outcome)
      (next_found : Result (ℕ × KvaTranslate))
      → dtb + 4096 < 2 ^ 64
      → va + 1 < 2 ^ 64
      → ((buf : List ℕ) → Agree img (next buf) next_found)
      → Agree img
          (or_else (page_table_read (table eng dtb) va 1) cached 1 next)
          (translate (table eng dtb) va >>= λ o. or_translate eng cached o how next_found)
  unfolding or_else or_translate probe
  table-Agree dtb cached va how next next_found low small h =
      let (o, walked) = translate-IsOk (table eng dtb) img shows low va in
      let got = read_one dtb va o low small walked in
      elim (Option-cases o) [
        | inl unmapped ↦ rw (got, walked, unmapped) (h (0 ∷ []))
        | inr (pa, mapped) ↦
            let to_pa : translate (table eng dtb) va ≡ ok (some pa) = walked ∙ ap ok mapped in
            let at_pa = read_one dtb va (some pa) low small to_pa in
            let (in_reach, _) = translate-IsFrameOf (table eng dtb) va to_pa in
            let probed = shows.reads pa 1 (omega arith) in
            elim (Option-cases (img pa)) [
              | inl hole ↦ rw (at_pa, to_pa, probed, hole) (h (0 ∷ []))
              | inr (b, there) ↦
                  rw (at_pa, to_pa, probed, there)
                    (record {
                      cached = cached;
                      buf = b ∷ [];
                      whole = true;
                      result = some (pa, how);
                      reads = refl;
                      translates = refl;
                      fits = (b, there, refl);
                    })
            ]
      ]

  -- The attempt through the table of init_mm.
  init_mm-Agree :
      (cached va pgd : ℕ) (how : Strategy)
      → resolve_init_mm_pgd_pa eng cached ≡ ok pgd
      → pgd + 4096 < 2 ^ 64
      → va + 1 < 2 ^ 64
      → (dst : List ℕ)
      → Agree img (by_init_mm eng cached va dst 1) (translate_by_init_mm eng cached va how)
  unfolding by_init_mm translate_by_init_mm
  init_mm-Agree cached va pgd how resolved low small dst = elim (Bool-cases (pgd == 0)) [
    | inl without ↦ rw (resolved, without) (neither pgd dst)
    | inr with_it ↦
        rw (resolved, with_it)
          (table-Agree pgd pgd va how (λ buf. ok (pgd, buf, false)) (ok (pgd, none)) low small
            (neither pgd))
  ]

  -- The attempts through tables.
  tables-Agree :
      (cached va pgd : ℕ) (by_dtb by_init : Strategy)
      → eng.dtb + 4096 < 2 ^ 64
      → resolve_init_mm_pgd_pa eng cached ≡ ok pgd
      → pgd + 4096 < 2 ^ 64
      → va + 1 < 2 ^ 64
      → (dst : List ℕ)
      → Agree img (by_tables eng cached va dst 1) (translate_by_tables eng cached va by_dtb by_init)
  unfolding by_tables translate_by_tables kernel_pt by_init_mm translate_by_init_mm
      resolve_init_mm_pgd_pa
  tables-Agree cached va pgd by_dtb by_init dtb_low resolved low small dst =
      let last = init_mm-Agree cached va pgd by_init resolved low small in
      elim (Bool-cases eng.dtb_validated) [
        | inl valid ↦ rw valid (
            table-Agree eng.dtb cached va by_dtb (λ buf. by_init_mm eng cached va buf 1)
              (translate_by_init_mm eng cached va by_init) dtb_low small last)
        | inr invalid ↦ rw invalid (last dst)
      ]

  -- A linear map, if `va` is in its range.
  optional-Agree :
      (cached : ℕ) (o : Option ℕ) (how : Strategy) (dst : List ℕ) (next : List ℕ → Result Outcome)
      (next_found : Result (ℕ × KvaTranslate))
      → ((pa : ℕ) → o ≡ some pa → pa + 1 < u64_mod)
      → ((buf : List ℕ) → Agree img (next buf) next_found)
      → Agree img (by_linear eng cached o dst 1 next) (or_translate eng cached o how next_found)
  unfolding by_linear or_translate
  optional-Agree cached none how dst next next_found low h = h dst
  optional-Agree cached (some pa) how dst next next_found low h =
      linear-Agree cached pa how next next_found (low pa refl) h

  -- On a layer that shows an image: a one byte `kva_read` and `kva_translate` of the same address both
  -- return, they leave the same in `cached`, and either both fail, or the byte that was read is the
  -- dump's byte at the physical address that the translation names. The conditions: the address, the
  -- page tables and the place of the address in the kernel image do not reach the end of 64 bits.
  pub kva_read-kva_translate :
      (cached va pgd : ℕ) (dst : List ℕ)
      → eng.dtb + 4096 < 2 ^ 64
      → resolve_init_mm_pgd_pa eng cached ≡ ok pgd
      → pgd + 4096 < 2 ^ 64
      → va + 1 < 2 ^ 64
      → kva_to_pa_image va eng.kaslr_phys_shift + 1 < 2 ^ 64
      → Agree img (kva_read eng cached va dst 1) (kva_translate eng cached va)
  unfolding kva_read kva_translate
  kva_read-kva_translate cached va pgd dst dtb_low resolved low small image_low =
      let walks : (by_dtb by_init : Strategy) (buf : List ℕ)
          → Agree img (by_tables eng cached va buf 1)
              (translate_by_tables eng cached va by_dtb by_init) =
        λ by_dtb by_init. tables-Agree cached va pgd by_dtb by_init dtb_low resolved low small in
      elim (Bool-cases (leb vmalloc_start va)) [
        | inl modules ↦ rw modules (walks vmalloc_dtb vmalloc_init_mm dst)
        | inr lower ↦ rw lower (
            optional-Agree cached (direct_pa eng va) direct_map dst _ _ (direct_pa-low eng va small)
              (λ dst₁.
                optional-Agree cached (image_pa eng va) kernel_image dst₁ _ _
                  (image_pa-low eng va image_low) (walks fallback_dtb fallback_init_mm)))
      ]
