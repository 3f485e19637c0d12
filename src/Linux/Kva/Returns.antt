-- ===== src/Linux/Kva/Returns.antt =====
-- os/linux/kva_reader.cpp: `kva_read` returns, and fills its destination.
use mem_nix_fs.Base.{
  ℕ, ◌+◌, ◌^◌, ◌<◌, ◌≤◌, ◌≡◌, refl, List, Option, none, some, Bool, true, false, length, leb, arith,
  ◌==◌, if◌then◌else◌, Bool-cases, inl, inr, Result, ok,
}
use mem_nix_fs.Base.Word.{u64_mod}
use mem_nix_fs.Physical.{Image, Shows, window, backed, length-window}
use mem_nix_fs.Paging.{PageTable, page_table_read}
use mem_nix_fs.Paging.Read.{virtual_image, page_table_read-virtual_image}
use mem_nix_fs.Linux.Kva.{
  Engine, kernel_pt, resolve_init_mm_pgd_pa, unresolved, Outcome, or_else, by_init_mm, by_tables,
  direct_pa, image_pa, by_linear, kva_read, vmalloc_start, kva_to_pa_image,
}

-- A read of `n` bytes returns, fills its destination, and leaves a cache that stands for `pgd`.
pub record Returns (eng : Engine) (pgd n : ℕ) (r : Result Outcome) : Type 0 where
  pub cached : ℕ
  pub buf : List ℕ
  pub whole : Bool
  pub returns : r ≡ ok (cached, buf, whole)
  pub size : length buf ≡ n
  pub resolved : resolve_init_mm_pgd_pa eng cached ≡ ok pgd

-- Once `cached` holds the table, it stays.
resolve-cached :
    (eng : Engine) (pgd : ℕ) → pgd + 4096 < 2 ^ 64 → resolve_init_mm_pgd_pa eng pgd ≡ ok pgd
unfolding resolve_init_mm_pgd_pa
resolve-cached eng pgd low = let known : (pgd == unresolved) ≡ false = ground arith in rw known

-- A kernel with the layer of an image, page tables below the end of 64 bits, and a shift that does not
-- take the kernel image there.
module _ (eng : Engine) (img : Image) (shows : Shows eng.phys img) (dtb : eng.dtb + 4096 < 2 ^ 64)
    (pgd : ℕ) (low : pgd + 4096 < 2 ^ 64) (shift : eng.kaslr_phys_shift + 2 ^ 32 < 2 ^ 64) where
  either-Returns :
      {n : ℕ} (b : Bool) {r t : Result Outcome}
      → Returns eng pgd n r
      → Returns eng pgd n t
      → Returns eng pgd n (if b then r else t)
  either-Returns true h k = h
  either-Returns false h k = k

  or_else-Returns :
      (cached n k : ℕ) (r : Result (List ℕ × ℕ)) (bs : List ℕ) (next : List ℕ → Result Outcome)
      → r ≡ ok (bs, k)
      → length bs ≡ n
      → resolve_init_mm_pgd_pa eng cached ≡ ok pgd
      → ((buf : List ℕ) → length buf ≡ n → Returns eng pgd n (next buf))
      → Returns eng pgd n (or_else r cached n next)
  unfolding or_else
  or_else-Returns cached n k r bs next e size resolved h = elim (Bool-cases (k == n)) [
    | inl all ↦
        rw (e, all)
          (record {
            cached = cached;
            buf = bs;
            whole = true;
            returns = refl;
            size = size;
            resolved = resolved;
          })
    | inr short ↦ rw (e, short) (h bs size)
  ]

  module _ (n va : ℕ) (small : va + n < 2 ^ 64) where
    -- An attempt through a page table.
    table-Returns :
        (cached table : ℕ) (next : List ℕ → Result Outcome)
        → table + 4096 < 2 ^ 64
        → resolve_init_mm_pgd_pa eng cached ≡ ok pgd
        → ((buf : List ℕ) → length buf ≡ n → Returns eng pgd n (next buf))
        → Returns eng pgd n
            (or_else (page_table_read (record { phys = eng.phys; dtb = table }) va n) cached n next)
    table-Returns cached table next fits resolved h =
        let pt : PageTable = record { phys = eng.phys; dtb = table } in
        or_else-Returns cached n (backed (virtual_image pt img) va n) (page_table_read pt va n)
          (window (virtual_image pt img) va n) next
          (page_table_read-virtual_image pt img shows fits va n small)
          (length-window (virtual_image pt img) va n) resolved h

    init_mm-Returns :
        (cached : ℕ)
        → resolve_init_mm_pgd_pa eng cached ≡ ok pgd
        → (dst : List ℕ) → length dst ≡ n
        → Returns eng pgd n (by_init_mm eng cached va dst n)
    unfolding by_init_mm
    init_mm-Returns cached resolved dst size =
        let kept = resolve-cached eng pgd low in
        let failed : (buf : List ℕ) → length buf ≡ n → Returns eng pgd n (ok (pgd, buf, false)) =
          λ buf same. record {
            cached = pgd;
            buf = buf;
            whole = false;
            returns = refl;
            size = same;
            resolved = kept;
          } in
        elim (Bool-cases (pgd == 0)) [
          | inl without ↦ rw (resolved, without) (failed dst size)
          | inr with_it ↦
              rw (resolved, with_it)
                (table-Returns pgd pgd (λ buf. ok (pgd, buf, false)) low kept failed)
        ]

    tables-Returns :
        (cached : ℕ)
        → resolve_init_mm_pgd_pa eng cached ≡ ok pgd
        → (dst : List ℕ) → length dst ≡ n
        → Returns eng pgd n (by_tables eng cached va dst n)
    unfolding by_tables kernel_pt
    tables-Returns cached resolved dst size =
        let last = init_mm-Returns cached resolved in
        either-Returns eng.dtb_validated
          (table-Returns cached eng.dtb (λ buf. by_init_mm eng cached va buf n) dtb resolved last)
          (last dst size)

    linear-Returns :
        (cached : ℕ) (o : Option ℕ) (next : List ℕ → Result Outcome)
        → ((pa : ℕ) → o ≡ some pa → pa + n < u64_mod)
        → resolve_init_mm_pgd_pa eng cached ≡ ok pgd
        → ((buf : List ℕ) → length buf ≡ n → Returns eng pgd n (next buf))
        → (dst : List ℕ) → length dst ≡ n
        → Returns eng pgd n (by_linear eng cached o dst n next)
    unfolding by_linear
    linear-Returns cached none next fits resolved h dst size = h dst size
    linear-Returns cached (some pa) next fits resolved h dst size =
        or_else-Returns cached n (backed img pa n) (eng.phys.read pa n) (window img pa n) next
          (shows.reads pa n (fits pa refl)) (length-window img pa n) resolved h

    direct_pa-fits : (pa : ℕ) → direct_pa eng va ≡ some pa → pa + n < u64_mod
    unfolding direct_pa
    direct_pa-fits pa h = ground arith

    image_pa-fits : n ≤ 4096 → (pa : ℕ) → image_pa eng va ≡ some pa → pa + n < u64_mod
    unfolding image_pa kva_to_pa_image
    image_pa-fits page pa h = ground arith

    -- `kva_read` of a page at most returns and fills its destination.
    pub kva_read-Returns :
        n ≤ 4096
        → (cached : ℕ) → resolve_init_mm_pgd_pa eng cached ≡ ok pgd
        → (dst : List ℕ) → length dst ≡ n
        → Returns eng pgd n (kva_read eng cached va dst n)
    unfolding kva_read
    kva_read-Returns page cached resolved dst size =
        let walks = tables-Returns cached resolved in
        either-Returns (leb vmalloc_start va) (walks dst size) (
          linear-Returns cached (direct_pa eng va) _ direct_pa-fits resolved
            (linear-Returns cached (image_pa eng va) _ (image_pa-fits page) resolved walks) dst
            size)
