-- ===== src/Paging/Read.antt =====
-- arch/x86_64/paging.cpp: `PageTable::read` shows the virtual address space.
use mem_nix_fs.Base.{
  ℕ, zero, suc, ◌+◌, ◌-◌, ◌%◌, ◌^◌, ◌≤◌, ◌<◌, ◌≡◌, refl, ap, sym, subst, ◌∙◌, ◌++◌, Option, none,
  some, bit_and, min, append-nil, arith, Result, ok, err, fault, stuck,
}
use mem_nix_fs.Base.Bits.{bit_and-ones}
use mem_nix_fs.Base.Word.{add64, u64_mod}
use mem_nix_fs.Base.Buffer.{zeros}
use mem_nix_fs.Physical.{
  Image, Shows, IsHole, window, backed, backed-le, backed-add, hole, window_agree, fill_next,
  skip_next,
}
use mem_nix_fs.Paging.{
  PageTable, translate, read_chunk, read_pages, page_table_read, page_mask, page_size,
}
use mem_nix_fs.Paging.Entry.{page_mask-eq}
use mem_nix_fs.Paging.Translate.{
  page_of, moved, translate-page_of, translate-IsFrameOf, translate-IsOk,
}

-- The byte behind a translation.
abbrev pub seen : Image → Result (Option ℕ) → Option ℕ
seen img (ok none) = none
seen img (ok (some pa)) = img pa
seen img (err e) = none
seen img fault = none
seen img stuck = none

-- The virtual address space: the byte that an address translates to, if it does.
abbrev pub virtual_image : PageTable → Image → Image
virtual_image pt img va = seen img (translate pt va)

module _ (pt : PageTable) (img : Image) (va : ℕ) where
  -- Inside the page that holds `va`, by the page's translation.
  seen-page_of :
      (o : Option ℕ) (x : ℕ)
      → translate pt (page_of va) ≡ ok o
      → va % 4096 + x < 4096
      → virtual_image pt img (va + x) ≡ seen img (ok (moved (va % 4096 + x) o))
  seen-page_of o x e h =
      let same : page_of (va + x) ≡ page_of va = omega arith in
      let low : (va + x) % 4096 ≡ va % 4096 + x = omega arith in
      ap (seen img) (translate-page_of pt (va + x)) ∙ rw (same, low, e)

  pub IsHole-none :
      (n : ℕ)
      → translate pt (page_of va) ≡ ok none
      → va % 4096 + n ≤ 4096
      → IsHole (virtual_image pt img) va n
  IsHole-none n e h = λ x l u.
      let at_x : va + (x - va) ≡ x = omega arith in
      ap (virtual_image pt img) (sym at_x) ∙ seen-page_of none (x - va) e (omega arith)

  window_of_some :
      (pa n : ℕ)
      → translate pt (page_of va) ≡ ok (some pa)
      → va % 4096 + n ≤ 4096
      → (window (virtual_image pt img) va n ≡ window img (pa + va % 4096) n)
        × (backed (virtual_image pt img) va n ≡ backed img (pa + va % 4096) n)
  window_of_some pa n e h =
      window_agree (virtual_image pt img) img va (pa + va % 4096) n
        (λ x l. seen-page_of (some pa) x e (omega arith) ∙ ap img (omega arith))

module _ (pt : PageTable) (img : Image) (shows : Shows pt.phys img) (dtb : pt.dtb + 4096 < 2 ^ 64)
    (va : ℕ) where
  -- One round's chunk fills the buffer further.
  read_chunk_lem :
      (o : Option ℕ) (a n rest : ℕ)
      → translate pt (page_of (va + a)) ≡ ok o
      → (va + a) % 4096 + n ≤ 4096
      → read_chunk pt o
          ((va + a) % 4096)
          n
          a
          (window (virtual_image pt img) va a ++ zeros (n + rest))
        ≡ ok (
          window (virtual_image pt img) va (a + n) ++ zeros rest,
          backed (virtual_image pt img) (va + a) n,
        )
  unfolding read_chunk
  read_chunk_lem none a n rest e h =
      let empty = IsHole-none pt img (va + a) n e h in
      rw (skip_next (virtual_image pt img) va a n rest empty, (hole _ (va + a) n empty).1)
  read_chunk_lem (some pa) a n rest e h =
      let (low, off) = translate-IsFrameOf pt (page_of (va + a)) e in
      let at_off : add64 pa ((va + a) % 4096) ≡ pa + (va + a) % 4096 = omega arith in
      let (win, count) = window_of_some pt img (va + a) pa n e h in
      rw (at_off, shows.reads (pa + (va + a) % 4096) n (omega arith))
        (rw (fill_next (virtual_image pt img) _ va a n rest (sym win), count))

  read_pages_lem :
      (fuel a len total : ℕ)
      → len ≤ fuel
      → va + (a + len) < u64_mod
      → total ≡ backed (virtual_image pt img) va a
      → read_pages fuel pt (va + a) len a (window (virtual_image pt img) va a ++ zeros len) total
        ≡ ok
            (window (virtual_image pt img) va (a + len), backed (virtual_image pt img) va (a + len))
  unfolding read_pages
  read_pages_lem fuel a zero total h b t = let e : a + 0 ≡ a = omega arith in rw (e, append-nil, t)
  read_pages_lem zero a (suc len) total h b t = absurd (omega arith)
  read_pages_lem (suc fuel) a (suc len) total h b t =
      let img' = virtual_image pt img in
      let off = (va + a) % 4096 in
      let n = min (suc len) (4096 - off) in
      let rest = suc len - n in
      let mask : bit_and (va + a) page_mask ≡ page_of (va + a) =
        page_mask-eq (va + a) (omega arith) in
      let low : bit_and (va + a) (page_size - 1) ≡ off = bit_and-ones 12 (va + a) in
      let next : add64 (va + a) n ≡ va + (a + n) = omega arith in
      let (o, found) = translate-IsOk pt img shows dtb (page_of (va + a)) in
      let room : suc len ≡ n + rest = omega arith in
      let stored =
        subst
          (λ t.
            read_chunk pt o off n a (window img' va a ++ zeros t)
            ≡ ok (window img' va (a + n) ++ zeros rest, backed img' (va + a) n))
          (sym room) (read_chunk_lem o a n rest found (omega arith)) in
      let total' = add64 total (backed img' (va + a) n) in
      let count : total' ≡ backed img' va (a + n) =
        omega (arith, backed-add img' va a n, backed-le img' va (a + n)) in
      let all : a + n + rest ≡ a + suc len = omega arith in
      let later = read_pages_lem fuel (a + n) rest total' (omega arith) (omega arith) count in
      rw (mask, low, found, stored, next)
        (subst
          (λ t.
            read_pages fuel pt (va + (a + n)) rest (a + n) (window img' va (a + n) ++ zeros rest)
              total'
            ≡ ok (window img' va t, backed img' va t))
          all later)

-- `PageTable::read` shows the virtual address space that `translate` defines: page by page, it
-- stores the byte of every mapped address that the dump holds and zeros elsewhere, and counts the
-- former; it ends, throws nothing and writes inside its buffer only. The layer is one that shows an
-- image, the top table is below the last page of 64-bit addresses, and the request ends below the
-- last address.
pub page_table_read-virtual_image :
    (pt : PageTable) (img : Image)
    → Shows pt.phys img
    → pt.dtb + 4096 < 2 ^ 64
    → (va len : ℕ) → va + len < 2 ^ 64
    → page_table_read pt va len
      ≡ ok (window (virtual_image pt img) va len, backed (virtual_image pt img) va len)
unfolding page_table_read
page_table_read-virtual_image pt img shows dtb va len h =
    let e₁ : va + 0 ≡ va = omega arith in
    let e₂ : 0 + len ≡ len = omega arith in
    rw (e₁, e₂) at (read_pages_lem pt img shows dtb va len 0 len 0 (omega arith) (omega arith) refl)
