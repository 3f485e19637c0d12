-- ===== src/Paging/Cache/Tests.antt =====
-- Runs of the page cache, and its theorems at concrete inputs.
use mem_nix_fs.Base.{
  ◌+◌, ◌/◌, ◌%◌, ◌^◌, ◌≡◌, refl, [], ◌∷◌, some, none, false, ◌==◌, if◌then◌else◌, arith, ok,
}
use mem_nix_fs.Physical.{window, backed}
use mem_nix_fs.Paging.Read.{virtual_image}
use mem_nix_fs.Paging.Tests.{self_table, self_image, self-Shows}
use mem_nix_fs.Base.Recent.{without, back, pop_back}
use mem_nix_fs.Paging.Cache.{
  Page, UserPageCache, key, evict_one, evict_loop, evict_locked, promote, cache_read,
}
use mem_nix_fs.Paging.Cache.Key.{key-injective}
use mem_nix_fs.Paging.Cache.Lru.{IsAccounted, Evicted, evict_locked-Evicted}
use mem_nix_fs.Paging.Cache.Read.{IsGood, mapped_image, cache_read-virtual_image}

abbrev page_a : Page
page_a = record { mapped = false; bytes = [] }

-- Room for one page, and two that are stored.
abbrev full : UserPageCache
full = record {
  max_bytes = 5000;
  cur_bytes = 8194;
  lru = 7 ∷ 3 ∷ [];
  map = λ k. if k == 7 then some page_a else if k == 3 then some page_a else none;
}

full-IsAccounted : IsAccounted full
full-IsAccounted = record {
  distinct = (refl, (refl, tt));
  listed = λ k. ground arith;
  counted = refl;
}

full_evicted : (evict_locked full).lru ≡ 7 ∷ []
unfolding evict_locked evict_loop evict_one back pop_back
full_evicted = refl

full_promoted : (promote full 3).lru ≡ 3 ∷ 7 ∷ []
unfolding promote without
full_promoted = refl

evict_locked-Evicted_example : Evicted full (evict_locked full)
evict_locked-Evicted_example = evict_locked-Evicted full full-IsAccounted

same_key : key 8192 4096 ≡ key 8192 (2 ^ 48 + 4096)
unfolding key
same_key = refl

key-injective_example : 4096 / 4096 % 2 ^ 36 ≡ (2 ^ 48 + 4096) / 4096 % 2 ^ 36
key-injective_example = key-injective 8192 4096 (2 ^ 48 + 4096) same_key

abbrev pub empty : UserPageCache
empty = record { max_bytes = 5000; cur_bytes = 0; lru = []; map = λ k. none }

pub empty-IsGood : IsGood self_table self_image empty
empty-IsGood = record {
  accounted = record { distinct = tt; listed = λ k. refl; counted = refl };
  room = omega arith;
  coherent = λ va p h l e. absurd (cc);
}

cache_read-virtual_image_example :
    (c : UserPageCache) × (cache_read empty self_table 6 4
      ≡ ok (
        c,
        window (virtual_image self_table self_image) 6 4,
        backed (mapped_image self_table) 6 4,
      ))
    × IsGood self_table self_image c
cache_read-virtual_image_example =
    cache_read-virtual_image self_table self_image self-Shows (omega arith) empty empty-IsGood 6 4
      (omega arith)
