-- ===== src/Paging/Cache.antt =====
-- arch/x86_64/page_cache.cpp and page_cache.h: `UserPageCache`, a cache of decoded pages that
-- evicts the least recently used one. The map is a function from keys; a `fetch` is two critical
-- sections, and other threads may run between them.
pub mod Key
pub mod Lru
pub mod Read
pub mod Tests
use mem_nix_fs.Base.{
  ℕ, zero, suc, ◌+◌, ◌-◌, ◌*◌, ◌/◌, ◌%◌, ◌^◌, List, [], ◌∷◌, Option, none, some, Bool, true, false,
  ◌&&◌, ◌||◌, not, min, bit_and, bit_xor, ltb, ◌==◌, if◌then◌else◌, length, take, drop, Result, ok,
  fault, stuck, ◌>>=◌,
}
use mem_nix_fs.Base.Recent.{without, back, pop_back}
use mem_nix_fs.Base.Word.{add64, sub64, u64_mod}
use mem_nix_fs.Base.Buffer.{zeros, write}
use mem_nix_fs.Paging.{PageTable, translate, page_table_read}

-- `UserPageCache::Page`; a shared pointer to one is the page, since no one writes to it later.
pub record Page : Type 0 where
  pub mapped : Bool
  pub bytes : List ℕ

-- sizeof(Page): a bool and 4096 bytes
abbrev pub page_bytes : ℕ
page_bytes = 4097

-- The length of the array `bytes`; a definition, so that proofs do not compute with 4096 bytes.
unfoldable pub page_len : ℕ
page_len = 4096

-- `UserPageCache`; the most recently used key stands first in `lru`. An `Entry`'s iterator is the
-- place of its key in `lru`.
pub record UserPageCache : Type 0 where
  pub max_bytes : ℕ
  pub cur_bytes : ℕ
  pub lru : List ℕ
  pub map : ℕ → Option Page

-- `va_bits` and `key`
unfoldable pub key : ℕ → ℕ → ℕ
key pgd page_va =
    bit_xor (pgd / 2 ^ 12)
      (bit_and page_va 0x0000FFFFFFFFFFFF / 2 ^ 12 * 0x9E3779B97F4A7C15 % u64_mod)

-- lru_.splice(lru_.begin(), lru_, it): the key moves to the front.
unfoldable pub promote : UserPageCache → ℕ → UserPageCache
promote c k = record c { lru = k ∷ without k c.lru }

-- The first critical section of `fetch`: a hit, with its page.
unfoldable pub probe : UserPageCache → ℕ → Option (UserPageCache × Page)
probe c k = elim (c.map k) [ none ↦ none | some page ↦ some (promote c k, page) ]

-- What `fetch` does between its critical sections: walk and decode.
unfoldable pub decode_page : PageTable → ℕ → Result Page
decode_page pt page_va = do
  pa ← translate pt page_va
  elim pa [
    | none ↦ ok (record { mapped = false; bytes = zeros page_len })
    | some _ ↦ do
      (buf, got) ← page_table_read pt page_va page_len
      ok (record { mapped = true; bytes = buf })
  ]

abbrev pub update : (ℕ → Option Page) → ℕ → Option Page → ℕ → Option Page
update m k v j = if j == k then v else m j

-- One round of `evict_locked`, for a list of keys with `k` in front.
unfoldable pub evict_one : UserPageCache → ℕ → List ℕ → UserPageCache
evict_one c k ks =
    let victim = back k ks in
    elim (c.map victim) [
      | none ↦ record c { lru = pop_back k ks }
      | some _ ↦ record c {
        lru = pop_back k ks;
        cur_bytes = sub64 c.cur_bytes page_bytes;
        map = update c.map victim none;
      }
    ]

-- The loop of `evict_locked`; every round takes a key, so their number is fuel enough.
unfoldable pub evict_loop : ℕ → UserPageCache → List ℕ → UserPageCache
evict_loop zero c ks = c
evict_loop (suc n) c [] = c
evict_loop (suc n) c (k ∷ ks) =
    let next = evict_one c k ks in
    let rest = evict_loop n next next.lru in if ltb c.max_bytes c.cur_bytes then rest else c

-- `evict_locked`
unfoldable pub evict_locked : UserPageCache → UserPageCache
evict_locked c = evict_loop (length c.lru) c c.lru

-- lru_.push_front, map_.emplace and the count of the second critical section
unfoldable pub store : UserPageCache → ℕ → Page → UserPageCache
store c k page = record c {
  lru = k ∷ c.lru;
  map = update c.map k (some page);
  cur_bytes = add64 c.cur_bytes page_bytes;
}

-- The second critical section of `fetch`. The page is read through the new entry after the
-- eviction, which is undefined behaviour if the eviction took that entry.
unfoldable pub insert : UserPageCache → ℕ → Page → Result (UserPageCache × Page)
insert c k page = elim (c.map k) [
  | some other ↦ ok (promote c k, other)
  | none ↦
      let c' = evict_locked (store c k page) in
      elim (c'.map k) [ none ↦ fault | some stored ↦ ok (c', stored) ]
]

-- `UserPageCache::fetch` where no other thread runs in between.
unfoldable pub fetch : UserPageCache → PageTable → ℕ → Result (UserPageCache × Page)
fetch c pt page_va =
    let k = key pt.dtb page_va in
    elim (probe c k) [
      | some hit ↦ ok hit
      | none ↦ decode_page pt page_va >>= λ page. insert c k page
    ]

-- What a round of `UserPageCache::read` stores: the buffer and the count.
unfoldable pub copy_page : Page → ℕ → ℕ → ℕ → List ℕ → Result (List ℕ × ℕ)
copy_page page page_off chunk done out =
    if page.mapped
    then (write out done (take chunk (drop page_off page.bytes)) >>= λ out'. ok (out', chunk))
    else ok (out, 0)

-- The loop of `UserPageCache::read`: `len` bytes are left, `done` are behind `out`.
unfoldable pub cache_loop :
    ℕ → UserPageCache → PageTable → ℕ → ℕ → ℕ → List ℕ → ℕ → Result (UserPageCache × List ℕ × ℕ)
cache_loop fuel c pt va zero done out total = ok (c, out, total)
cache_loop zero c pt va (suc len) done out total = stuck
cache_loop (suc fuel) c pt va (suc len) done out total = do
  let page_off = bit_and va 0xFFF
  let chunk = min (suc len) (0x1000 - page_off)
  (c', page) ← fetch c pt (bit_and va 0xfffffffffffff000)
  (out', got) ← copy_page page page_off chunk done out
  cache_loop fuel c' pt (add64 va chunk) (suc len - chunk) (done + chunk) out' (total + got)

-- `UserPageCache::read`: the cache, the buffer and the count.
unfoldable pub cache_read : UserPageCache → PageTable → ℕ → ℕ → Result (UserPageCache × List ℕ × ℕ)
cache_read c pt va len = cache_loop len c pt va len 0 (zeros len) 0
