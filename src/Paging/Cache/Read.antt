-- ===== src/Paging/Cache/Read.antt =====
-- arch/x86_64/page_cache.cpp: the cache is transparent.
use mem_nix_fs.Base.{
  ℕ, zero, suc, ◌+◌, ◌-◌, ◌/◌, ◌%◌, ◌^◌, ◌≤◌, ◌<◌, ◌≡◌, refl, ap, sym, subst, ◌∙◌, ◌++◌, append-nil,
  Option, none, some, Bool, true, false, bit_and, min, arith, ◌==◌, ==_iff, ==_refl, if◌then◌else◌,
  Bool-cases, Option-cases, some_injective, inl, inr, Result, ok, err, fault, stuck,
}
use mem_nix_fs.Base.Bits.{bit_and-ones}
use mem_nix_fs.Base.Word.{add64, u64_mod}
use mem_nix_fs.Base.Buffer.{zeros}
use mem_nix_fs.Physical.{
  Image, Shows, IsHole, window, backed, backed-add, hole, window_agree, fill_next, skip_next,
  slice-window, backed_all,
}
use mem_nix_fs.Paging.{PageTable, translate}
use mem_nix_fs.Paging.Entry.{page_mask-eq}
use mem_nix_fs.Paging.Translate.{page_of, moved, translate-page_of, translate-IsOk}
use mem_nix_fs.Paging.Canonical.{translate_canonical}
use mem_nix_fs.Paging.Read.{virtual_image, seen, IsHole-none, page_table_read-virtual_image}
use mem_nix_fs.Paging.Cache.{
  Page, UserPageCache, page_bytes, page_len, key, promote, probe, decode_page, evict_locked, store,
  insert, fetch, copy_page, cache_loop, cache_read,
}
use mem_nix_fs.Paging.Cache.Key.{key-injective}
use mem_nix_fs.Paging.Cache.Lru.{
  IsAccounted, promote-IsAccounted, store-IsAccounted, evict_locked-Evicted,
}

abbrev pub is_mapped : Result (Option ℕ) → Bool
is_mapped (ok none) = false
is_mapped (ok (some pa)) = true
is_mapped (err e) = false
is_mapped fault = false
is_mapped stuck = false

-- What the bytes that are counted have: their page is mapped, whether the dump holds it or not.
abbrev pub mapped_image : PageTable → Image
mapped_image pt va = if is_mapped (translate pt va) then some va else none

-- The page that the cache should hold for a page's first address.
abbrev pub page_at : PageTable → Image → ℕ → Page
page_at pt img va = record {
  mapped = is_mapped (translate pt va);
  bytes = window (virtual_image pt img) va page_len;
}

page_len-eq : page_len ≡ 4096
unfolding page_len
page_len-eq = refl

-- Every page of the cache is the one that its key stands for under the page table.
abbrev pub IsCoherent : PageTable → Image → UserPageCache → Type 0
IsCoherent pt img c =
    (va : ℕ) (p : Page)
    → va % 4096 ≡ 0
    → va + 4096 < 2 ^ 64
    → c.map (key pt.dtb va) ≡ some p
    → p ≡ page_at pt img va

pub record IsGood (pt : PageTable) (img : Image) (c : UserPageCache) : Type 0 where
  pub accounted : IsAccounted c
  pub room : page_bytes ≤ c.max_bytes
  pub coherent : IsCoherent pt img c

is_mapped-moved : (k : ℕ) (o : Option ℕ) → is_mapped (ok (moved k o)) ≡ is_mapped (ok o)
is_mapped-moved k none = refl
is_mapped-moved k (some pa) = refl

module _ (pt : PageTable) (img : Image) (shows : Shows pt.phys img)
    (dtb : pt.dtb + 4096 < 2 ^ 64) where
  decode_translated :
      (va : ℕ) (o : Option ℕ)
      → translate pt va ≡ ok o
      → va % 4096 ≡ 0
      → va + 4096 < 2 ^ 64
      → decode_page pt va ≡ ok (page_at pt img va)
  unfolding decode_page
  decode_translated va none w al h =
      let n = page_len-eq in
      let e : page_of va ≡ va = omega arith in
      let empty = IsHole-none pt img va page_len (ap (translate pt) e ∙ w) (omega arith) in
      rw (w, (hole (virtual_image pt img) va page_len empty).0)
  decode_translated va (some pa) w al h =
      let n = page_len-eq in
      rw (w, page_table_read-virtual_image pt img shows dtb va page_len (omega arith))

  decode_page-page_at :
      (va : ℕ) → va % 4096 ≡ 0 → va + 4096 < 2 ^ 64 → decode_page pt va ≡ ok (page_at pt img va)
  decode_page-page_at va al h =
      let (o, w) = translate-IsOk pt img shows dtb va in decode_translated va o w al h

  page_at_same :
      (a b : ℕ)
      → a % 4096 ≡ 0
      → b % 4096 ≡ 0
      → key pt.dtb a ≡ key pt.dtb b
      → page_at pt img a ≡ page_at pt img b
  page_at_same a b ha hb e =
      let near : a / 4096 % 2 ^ 36 ≡ b / 4096 % 2 ^ 36 = key-injective pt.dtb a b e in
      let t = translate_canonical pt a b (omega arith) in
      let (w, c) =
        window_agree (virtual_image pt img) (virtual_image pt img) a b page_len
          (λ x l. ap (seen img) (translate_canonical pt (a + x) (b + x) (omega arith))) in
      λ i. record { mapped = is_mapped (t i); bytes = w i }

  promote-IsGood :
      (c : UserPageCache) (k : ℕ) {p : Page}
      → IsGood pt img c
      → c.map k ≡ some p
      → IsGood pt img (promote c k)
  promote-IsGood c k g h = record {
    accounted = promote-IsAccounted c k g.accounted h;
    room = unfold promote in g.room;
    coherent = unfold promote in g.coherent;
  }

  -- A page that is new to the cache is stored, and stays while others are evicted.
  insert_new :
      (c : UserPageCache) (va : ℕ)
      → IsGood pt img c
      → va % 4096 ≡ 0
      → c.map (key pt.dtb va) ≡ none
      → (c' : UserPageCache) × (insert c (key pt.dtb va) (page_at pt img va)
          ≡ ok (c', page_at pt img va))
        × IsGood pt img c'
  unfolding insert store
  insert_new c va g al miss =
      let k = key pt.dtb va in
      let page = page_at pt img va in
      let s = store c k page in
      let e = evict_locked-Evicted s (store-IsAccounted c k page g.accounted miss) in
      let held : (evict_locked s).map k ≡ some page =
        e.front k c.lru refl g.room ∙ rw (==_refl k) in
      let good : IsGood pt img (evict_locked s) = record {
        accounted = e.accounted;
        room = rw e.shrinks.bound g.room;
        coherent = λ b p hb low found.
            let there = e.shrinks.kept (key pt.dtb b) p found in
            elim (Bool-cases (key pt.dtb b == k)) [
              | inl same ↦
                  sym (some_injective (rw same at there))
                  ∙ page_at_same va b al hb (sym ((==_iff _ _).0 same))
              | inr other ↦ g.coherent b p hb low (rw other at there)
            ];
      } in
      (evict_locked s, rw (miss, insert, held), good)

  -- A page comes as the page table gives it, whatever the cache held, and the cache stays good.
  fetch-page_at :
      (c : UserPageCache) (va : ℕ)
      → IsGood pt img c
      → va % 4096 ≡ 0
      → va + 4096 < 2 ^ 64
      → (c' : UserPageCache) × (fetch c pt va ≡ ok (c', page_at pt img va)) × IsGood pt img c'
  unfolding fetch probe
  fetch-page_at c va g al h = elim (Option-cases (c.map (key pt.dtb va))) [
    | inr (p, hit) ↦ (
      promote c (key pt.dtb va),
      rw (hit, fetch, g.coherent va p al h hit),
      promote-IsGood c (key pt.dtb va) g hit,
    )
    | inl miss ↦
        let (c', stored, good) = insert_new c va g al miss in
        (c', rw (miss, fetch, decode_page-page_at va al h, stored), good)
  ]

  module _ (va : ℕ) where
    -- Inside a page, what is counted is what the page's first address has.
    mapped_image-page_of :
        (v x : ℕ) (o : Option ℕ)
        → translate pt (page_of v) ≡ ok o
        → v % 4096 + x < 4096
        → is_mapped (translate pt (v + x)) ≡ is_mapped (ok o)
    mapped_image-page_of v x o w h =
        let same : page_of (v + x) ≡ page_of v = omega arith in
        ap is_mapped (translate-page_of pt (v + x)) ∙ rw (same, w) (is_mapped-moved _ o)

    -- One round fills the buffer further.
    copy_page_lem :
        (a n rest : ℕ) (o : Option ℕ)
        → translate pt (page_of (va + a)) ≡ ok o
        → (va + a) % 4096 + n ≤ 4096
        → copy_page
            (page_at pt img (page_of (va + a)))
            ((va + a) % 4096)
            n
            a
            (window (virtual_image pt img) va a ++ zeros (n + rest))
          ≡ ok (
            window (virtual_image pt img) va (a + n) ++ zeros rest,
            backed (mapped_image pt) (va + a) n,
          )
    unfolding copy_page
    copy_page_lem a n rest none w h =
        let empty = IsHole-none pt img (va + a) n w h in
        let none_mapped : IsHole (mapped_image pt) (va + a) n = λ x l u.
          let at_x : va + a + (x - (va + a)) ≡ x = omega arith in
          rw (rw at_x at (mapped_image-page_of (va + a) (x - (va + a)) none w (omega arith))) in
        rw
          (w, skip_next (virtual_image pt img) va a n rest empty, (hole _ (va + a) n none_mapped).1)
    copy_page_lem a n rest (some pa) w h =
        let k = page_len-eq in
        let whole : page_of (va + a) + (va + a) % 4096 ≡ va + a = omega arith in
        let slice =
          slice-window (virtual_image pt img) (page_of (va + a)) ((va + a) % 4096) n page_len
            (omega arith) in
        let all : backed (mapped_image pt) (va + a) n ≡ n =
          backed_all (mapped_image pt) (va + a) n
            (λ x l. rw (mapped_image-page_of (va + a) x (some pa) w (omega arith))) in
        rw (w, fill_next (virtual_image pt img) _ va a n rest (rw whole at slice), all)

    -- One round and the rest, for a page that was fetched.
    cache_round :
        (fuel a n rest len total : ℕ) (c c' d : UserPageCache)
        → n ≡ min (suc len) (4096 - (va + a) % 4096)
        → suc len ≡ n + rest
        → va + a + n < u64_mod
        → fetch c pt (page_of (va + a)) ≡ ok (c', page_at pt img (page_of (va + a)))
        → cache_loop fuel c' pt
            (va + (a + n))
            rest
            (a + n)
            (window (virtual_image pt img) va (a + n) ++ zeros rest)
            (total + backed (mapped_image pt) (va + a) n)
          ≡ ok (
            d,
            window (virtual_image pt img) va (a + n + rest),
            backed (mapped_image pt) va (a + n + rest),
          )
        → cache_loop
            (suc fuel)
            c
            pt
            (va + a)
            (suc len)
            a
            (window (virtual_image pt img) va a ++ zeros (suc len))
            total
          ≡ ok (
            d,
            window (virtual_image pt img) va (a + suc len),
            backed (mapped_image pt) va (a + suc len),
          )
    unfolding cache_loop
    cache_round fuel a n rest len total c c' d en room h fetched later =
        let mask : bit_and (va + a) 0xfffffffffffff000 ≡ page_of (va + a) =
          page_mask-eq (va + a) (omega arith) in
        let low : bit_and (va + a) 0xFFF ≡ (va + a) % 4096 = bit_and-ones 12 (va + a) in
        let next : add64 (va + a) n ≡ va + (a + n) = omega arith in
        let left : suc len - n ≡ rest = omega arith in
        let (o, w) = translate-IsOk pt img shows dtb (page_of (va + a)) in
        let stored =
          subst
            (λ t.
              copy_page (page_at pt img (page_of (va + a))) ((va + a) % 4096) n a
                (window (virtual_image pt img) va a ++ zeros t)
              ≡ ok (
                window (virtual_image pt img) va (a + n) ++ zeros rest,
                backed (mapped_image pt) (va + a) n,
              ))
            (sym room) (copy_page_lem a n rest o w (omega arith)) in
        let all : a + n + rest ≡ a + suc len = omega arith in
        rw (mask, low, sym en, fetched, stored, next, left) (rw all at later)

    cache_loop_lem :
        (fuel a len total : ℕ) (c : UserPageCache)
        → len ≤ fuel
        → va + (a + len) + 8192 < u64_mod
        → IsGood pt img c
        → total ≡ backed (mapped_image pt) va a
        → (c' : UserPageCache) × (cache_loop fuel c pt
              (va + a)
              len
              a
              (window (virtual_image pt img) va a ++ zeros len)
              total
            ≡ ok (
              c',
              window (virtual_image pt img) va (a + len),
              backed (mapped_image pt) va (a + len),
            ))
          × IsGood pt img c'
    unfolding cache_loop
    cache_loop_lem fuel a zero total c h b g t =
        let e : a + 0 ≡ a = omega arith in (c, rw (e, append-nil, t), g)
    cache_loop_lem zero a (suc len) total c h b g t = absurd (omega arith)
    cache_loop_lem (suc fuel) a (suc len) total c h b g t =
        let n = min (suc len) (4096 - (va + a) % 4096) in
        let rest = suc len - n in
        let (c', fetched, good) =
          fetch-page_at c (page_of (va + a)) g (omega arith) (omega arith) in
        let total' = total + backed (mapped_image pt) (va + a) n in
        let count : total' ≡ backed (mapped_image pt) va (a + n) =
          omega (arith, backed-add (mapped_image pt) va a n) in
        let (d, later, fine) =
          cache_loop_lem fuel (a + n) rest total' c' (omega arith) (omega arith) good count in
        (
          d,
          cache_round fuel a n rest len total c c' d refl (omega arith) (omega arith) fetched later,
          fine,
        )

-- The cache is transparent: `UserPageCache::read` on a cache whose pages are those of the page
-- table, with room for one page at least, gives what a read of the page table gives, whatever it
-- holds and evicts, and leaves such a cache. What it counts are the mapped bytes, in the dump or
-- not. The layer is one that shows an image, the top table is below the last page of 64-bit
-- addresses, and the request ends two pages below the last address.
pub cache_read-virtual_image :
    (pt : PageTable) (img : Image)
    → Shows pt.phys img
    → pt.dtb + 4096 < 2 ^ 64
    → (c : UserPageCache) → IsGood pt img c
    → (va len : ℕ) → va + len + 8192 < 2 ^ 64
    → (c' : UserPageCache) × (cache_read c pt va len
        ≡ ok (c', window (virtual_image pt img) va len, backed (mapped_image pt) va len))
      × IsGood pt img c'
unfolding cache_read
cache_read-virtual_image pt img shows dtb c g va len h =
    let e₁ : va + 0 ≡ va = omega arith in
    let e₂ : 0 + len ≡ len = omega arith in
    rw (e₁, e₂) at
      (cache_loop_lem pt img shows dtb va len 0 len 0 c (omega arith) (omega arith) g refl)
