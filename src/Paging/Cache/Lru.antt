-- ===== src/Paging/Cache/Lru.antt =====
-- arch/x86_64/page_cache.cpp: the list and the map of `UserPageCache` go together.
use mem_nix_fs.Base.{
  ℕ, zero, suc, ◌*◌, ◌%◌, ◌≤◌, ◌<◌, ◌≡◌, refl, ap, sym, subst, ◌∙◌, List, [], ◌∷◌, Option, none,
  some, Bool, true, false, arith, ltb, ltb→le, ltb→lt, Bool-cases, Option-cases, inl, inr, length,
}
use mathlib.Core.Bool.{false≢true}
use mem_nix_fs.Base.Recent.{
  back, pop_back, mem, IsDistinct, mem-without, length-without, without-IsDistinct, mem-back,
  mem-pop_back, pop_back-IsDistinct, length-pop_back, mem_back_tail,
}
use mem_nix_fs.Base.Word.{sub64, u64_mod}
use mem_nix_fs.Paging.Cache.{
  Page, UserPageCache, page_bytes, promote, update, evict_one, evict_loop, evict_locked, store,
}

abbrev pub is_some : Option Page → Bool
is_some none = false
is_some (some p) = true

-- The keys of the list are those of the map, each once, and the bytes are counted, in 64 bits.
pub record IsAccounted (c : UserPageCache) : Type 0 where
  pub distinct : IsDistinct c.lru
  pub listed : (k : ℕ) → is_some (c.map k) ≡ mem k c.lru
  pub counted : c.cur_bytes ≡ page_bytes * length c.lru % u64_mod

pub promote-IsAccounted :
    (c : UserPageCache) (k : ℕ) {p : Page}
    → IsAccounted c
    → c.map k ≡ some p
    → IsAccounted (promote c k)
unfolding promote
promote-IsAccounted c k {p} a h =
    let there : mem k c.lru ≡ true = sym (a.listed k) ∙ ap is_some h in
    record {
      distinct =
          (ground (arith, mem-without k c.lru k a.distinct), without-IsDistinct k c.lru a.distinct);
      listed = λ j. ground (arith, a.listed j, mem-without k c.lru j a.distinct);
      counted = omega (arith, a.counted, length-without k c.lru there);
    }

pub store-IsAccounted :
    (c : UserPageCache) (k : ℕ) (p : Page)
    → IsAccounted c
    → c.map k ≡ none
    → IsAccounted (store c k p)
unfolding store
store-IsAccounted c k p a h = record {
  distinct = (sym (a.listed k) ∙ ap is_some h, a.distinct);
  listed = λ j. ground (arith, a.listed j);
  counted = omega (arith, a.counted);
}

-- What an eviction keeps: the bound, no page that was not there, and no more keys.
pub record Shrinks (c d : UserPageCache) : Type 0 where
  pub bound : d.max_bytes ≡ c.max_bytes
  pub fewer : length d.lru ≤ length c.lru
  pub kept : (j : ℕ) (p : Page) → d.map j ≡ some p → c.map j ≡ some p

module _ (c : UserPageCache) (k : ℕ) (ks : List ℕ) (a : IsAccounted c) (all : c.lru ≡ k ∷ ks) where
  victim_stored : (p : Page) × (c.map (back k ks) ≡ some p)
  victim_stored =
      let there : is_some (c.map (back k ks)) ≡ true =
        a.listed (back k ks) ∙ (ap (mem (back k ks)) all ∙ mem-back k ks) in
      elim (Option-cases (c.map (back k ks))) [
        | inl gone ↦ absurd (false≢true (sym (ap is_some gone) ∙ there))
        | inr found ↦ found
      ]

  evict_one-eq : evict_one c k ks ≡ record c {
    lru = pop_back k ks;
    cur_bytes = sub64 c.cur_bytes page_bytes;
    map = update c.map (back k ks) none;
  }
  unfolding evict_one
  evict_one-eq = rw (victim_stored.1, evict_one)

  evict_one-IsAccounted : IsAccounted (evict_one c k ks)
  evict_one-IsAccounted =
      let d : IsDistinct (k ∷ ks) = subst IsDistinct all a.distinct in
      let n : length c.lru ≡ suc (length ks) = ap length all in
      rw evict_one-eq (record {
        distinct = pop_back-IsDistinct k ks d;
        listed = λ j.
            let l : is_some (c.map j) ≡ mem j (k ∷ ks) = a.listed j ∙ ap (mem j) all in
            ground (arith, l, mem-pop_back k ks j d);
        counted = omega (arith, a.counted, length-pop_back k ks, n);
      })

  evict_one-Shrinks : Shrinks c (evict_one c k ks)
  evict_one-Shrinks =
      let n : length c.lru ≡ suc (length ks) = ap length all in
      rw evict_one-eq (record {
        bound = refl;
        fewer = omega (arith, length-pop_back k ks, n);
        kept = λ j p h. ground arith;
      })

-- What `evict_locked` makes of `c`: the count fits the bound, and so do the pages themselves, where
-- they were fewer than 2 ^ 64 bytes; and the page that was used last
-- stays, if the bound has room for one page.
pub record Evicted (c d : UserPageCache) : Type 0 where
  pub accounted : IsAccounted d
  pub shrinks : Shrinks c d
  pub fits : d.cur_bytes ≤ d.max_bytes
  pub resident : page_bytes * length c.lru < u64_mod → page_bytes * length d.lru ≤ d.max_bytes
  pub front : (k : ℕ) (ks : List ℕ) → c.lru ≡ k ∷ ks → page_bytes ≤ c.max_bytes → d.map k ≡ c.map k

Evicted-done : (c : UserPageCache) → IsAccounted c → c.cur_bytes ≤ c.max_bytes → Evicted c c
Evicted-done c a h = record {
  accounted = a;
  shrinks = record { bound = refl; fewer = omega arith; kept = λ j p e. e };
  fits = h;
  resident = λ small. omega (arith, a.counted, h);
  front = λ k ks e r. refl;
}

-- The front of a list of two keys at least is not the victim.
front_stays :
    (c : UserPageCache) (k j : ℕ) (ks : List ℕ) (a : IsAccounted c) (all : c.lru ≡ k ∷ (j ∷ ks))
    → ((evict_one c k (j ∷ ks)).lru ≡ k ∷ pop_back j ks)
      × ((evict_one c k (j ∷ ks)).map k ≡ c.map k)
unfolding pop_back back
front_stays c k j ks a all =
    let d : IsDistinct (k ∷ (j ∷ ks)) = subst IsDistinct all a.distinct in
    let e = mem_back_tail j ks k d.0 in rw (evict_one-eq c k (j ∷ ks) a all) (refl, rw e)

Evicted-next :
    (c : UserPageCache) (k : ℕ) (ks : List ℕ) (d : UserPageCache)
    → IsAccounted c
    → c.lru ≡ k ∷ ks
    → c.max_bytes < c.cur_bytes
    → Evicted (evict_one c k ks) d
    → Evicted c d
Evicted-next c k [] d a all over e = record {
  accounted = e.accounted;
  shrinks = record {
    bound = e.shrinks.bound ∙ (evict_one-Shrinks c k [] a all).bound;
    fewer = omega (arith, e.shrinks.fewer, (evict_one-Shrinks c k [] a all).fewer);
    kept = λ j p h. (evict_one-Shrinks c k [] a all).kept j p (e.shrinks.kept j p h);
  };
  fits = e.fits;
  resident = λ small. e.resident (omega (arith, small, (evict_one-Shrinks c k [] a all).fewer));
  front = λ i is same room.
      let n : length c.lru ≡ 1 = ap length all in absurd (omega (arith, a.counted));
}
Evicted-next c k (j ∷ ks) d a all over e =
    let s = evict_one-Shrinks c k (j ∷ ks) a all in
    let (tail, stays) = front_stays c k j ks a all in
    record {
      accounted = e.accounted;
      shrinks = record {
        bound = e.shrinks.bound ∙ s.bound;
        fewer = omega (arith, e.shrinks.fewer, s.fewer);
        kept = λ i p h. s.kept i p (e.shrinks.kept i p h);
      };
      fits = e.fits;
      resident = λ small. e.resident (omega (arith, small, s.fewer));
      front = λ i is same room.
          let i' : i ≡ k = ground (arith, sym same ∙ all) in
          rw i' (e.front k (pop_back j ks) tail (rw s.bound room) ∙ stays);
    }

evict_loop-Evicted :
    (n : ℕ) (c : UserPageCache) (ks : List ℕ)
    → c.lru ≡ ks
    → length ks ≤ n
    → IsAccounted c
    → Evicted c (evict_loop n c ks)
unfolding evict_loop
evict_loop-Evicted zero c [] all h a =
    let n : length c.lru ≡ 0 = ap length all in Evicted-done c a (omega (arith, a.counted))
evict_loop-Evicted (suc n) c [] all h a =
    let n : length c.lru ≡ 0 = ap length all in Evicted-done c a (omega (arith, a.counted))
evict_loop-Evicted zero c (k ∷ ks) all h a = absurd (omega arith)
evict_loop-Evicted (suc n) c (k ∷ ks) all h a = elim (Bool-cases (ltb c.max_bytes c.cur_bytes)) [
  | inr fits ↦ rw fits (Evicted-done c a (ltb→le _ _ fits))
  | inl over ↦
      let next = evict_one c k ks in
      let shorter : length next.lru ≡ length ks =
        ap (λ t. length t.lru) (evict_one-eq c k ks a all) ∙ length-pop_back k ks in
      rw over (
        Evicted-next c k ks _ a all (ltb→lt _ _ over) (
          evict_loop-Evicted n next next.lru refl (omega arith)
            (evict_one-IsAccounted c k ks a all)))
]

-- On a cache whose list, map and count in 64 bits agree, `evict_locked` ends with the count within the
-- bound, and the pages' bytes too where they were fewer than 2 ^ 64; it keeps the three together, adds and changes no page, and leaves the page that was used last, if
-- the bound has room for one.
pub evict_locked-Evicted : (c : UserPageCache) → IsAccounted c → Evicted c (evict_locked c)
unfolding evict_locked
evict_locked-Evicted c a = evict_loop-Evicted (length c.lru) c c.lru refl (omega arith) a
