-- ===== src/Formats/Avml/Cached.antt =====
-- formats/avml_format.cpp: `FrameCache` hands out what a frame decompresses to, and what it hands
-- out is still in the cache.
use mem_nix_fs.Base.{
  ℕ, zero, suc, ◌+◌, ◌≤◌, ◌<◌, ◌^◌, ◌≡◌, refl, ap, fun_ext, sym, subst, ◌∙◌, List, [], ◌∷◌, Option,
  none, some, Bool, true, false, arith, ltb, ltb→le, ltb→lt, ◌==◌, ==_iff, ==_refl, Bool-cases,
  Option-cases, some_injective, inl, inr, length, ok,
}
use mem_nix_fs.Base.Word.{u64_mod, sub64}
use mem_nix_fs.Base.Recent.{
  without, back, pop_back, mem, IsDistinct, mem-without, without-IsDistinct, mem-pop_back,
  pop_back-IsDistinct, length-pop_back, mem_back_tail,
}
use mem_nix_fs.Io.{MemorySource}
use mem_nix_fs.Formats.Avml.Load.{max_frame}
use mem_nix_fs.Formats.Avml.{
  Snappy, AvmlFrame, FrameCache, load_frame, update, evict_back, evict_rounds, evict_if_needed,
  emplace, keep, get,
}

abbrev pub is_some : Option (List ℕ) → Bool
is_some none = false
is_some (some bs) = true

abbrev pub stored : Option (List ℕ) → ℕ
stored none = 0
stored (some bs) = length bs

-- The bytes that a map holds for the keys of a list.
abbrev pub total : (ℕ → Option (List ℕ)) → List ℕ → ℕ
total m [] = 0
total m (k ∷ ks) = stored (m k) + total m ks

total-update :
    (m : ℕ → Option (List ℕ)) (v : ℕ) (o : Option (List ℕ)) (ks : List ℕ)
    → mem v ks ≡ false
    → total (update m v o) ks ≡ total m ks
total-update m v o [] h = refl
total-update m v o (k ∷ ks) h = ground (arith, total-update m v o ks)

total-pop_back :
    (m : ℕ → Option (List ℕ)) (k : ℕ) (ks : List ℕ)
    → total m (pop_back k ks) + stored (m (back k ks)) ≡ total m (k ∷ ks)
unfolding back pop_back
total-pop_back m k [] = omega arith
total-pop_back m k (j ∷ ks) = omega (arith, total-pop_back m j ks)

total-without :
    (m : ℕ → Option (List ℕ)) (k : ℕ) (ks : List ℕ)
    → mem k ks ≡ true
    → stored (m k) + total m (without k ks) ≡ total m ks
unfolding without
total-without m k [] h = cc
total-without m k (j ∷ ks) h = elim (Bool-cases (j == k)) [
  | inl e ↦ rw e (ap (λ t. stored (m t) + total m ks) (sym ((==_iff j k).0 e)))
  | inr e ↦
      let there : mem k ks ≡ true = ground arith in rw e (omega (arith, total-without m k ks there))
]

-- The keys of the order are those of the map, each once, and the bytes are counted.
pub record IsAccounted (c : FrameCache) : Type 0 where
  pub distinct : IsDistinct c.order
  pub listed : (k : ℕ) → is_some (c.map k) ≡ mem k c.order
  pub counted : c.cur_bytes ≡ total c.map c.order
  pub low : c.cur_bytes < u64_mod

-- What an eviction from `c` leaves.
pub record Evicted (c d : FrameCache) : Type 0 where
  pub accounted : IsAccounted d
  pub bound : d.max_bytes ≡ c.max_bytes
  pub kept : (j : ℕ) (bs : List ℕ) → d.map j ≡ some bs → c.map j ≡ some bs
  pub front :
      (k : ℕ) (ks : List ℕ) → c.order ≡ k ∷ ks → stored (c.map k) ≤ c.max_bytes → d.map k ≡ c.map k

module _ (c : FrameCache) (k : ℕ) (ks : List ℕ) (a : IsAccounted c) (all : c.order ≡ k ∷ ks) where
  abbrev victim : ℕ
  victim = back k ks

  abbrev next : FrameCache
  next = evict_back c k ks

  next_fields :
      (next.order ≡ pop_back k ks)
      × ((j : ℕ) → next.map j ≡ update c.map victim none j)
      × (next.cur_bytes ≡ sub64 c.cur_bytes (stored (c.map victim)))
      × (next.max_bytes ≡ c.max_bytes)
  unfolding evict_back
  next_fields =
      let low = a.low in
      elim (Option-cases (c.map victim)) [
        | inl gone ↦
            rw (gone, evict_back)
              (
                refl,
                λ j. elim (Bool-cases (j == victim)) [
                  | inl e ↦ rw e (ap c.map ((==_iff j victim).0 e) ∙ gone)
                  | inr e ↦ rw e
                ],
                omega arith,
                refl,
              )
        | inr (bs, found) ↦ rw (found, evict_back) (refl, λ j. refl, refl, refl)
      ]

  d : IsDistinct (k ∷ ks)
  d = subst IsDistinct all a.distinct

  victim_gone : mem victim (pop_back k ks) ≡ false
  victim_gone = ground (arith, mem-pop_back k ks victim d)

  total-next : total next.map (pop_back k ks) ≡ total c.map (pop_back k ks)
  total-next =
      ap (λ m. total m (pop_back k ks)) (fun_ext next_fields.1)
      ∙ total-update c.map victim none (pop_back k ks) victim_gone

  next-IsAccounted : IsAccounted next
  next-IsAccounted =
      let (order, map, cur, bound) = next_fields in
      let low = a.low in
      let whole : c.cur_bytes ≡ total c.map (pop_back k ks) + stored (c.map victim) =
        a.counted ∙ (ap (total c.map) all ∙ sym (total-pop_back c.map k ks)) in
      let rest : next.cur_bytes ≡ total c.map (pop_back k ks) = omega (arith, cur) in
      record {
        distinct = rw order (pop_back-IsDistinct k ks d);
        listed = λ j.
            let l : is_some (c.map j) ≡ mem j (k ∷ ks) = a.listed j ∙ ap (mem j) all in
            rw order (ground (arith, l, map j, mem-pop_back k ks j d));
        counted = rest ∙ (sym total-next ∙ ap (total next.map) (sym order));
        low = omega (arith, rest, whole);
      }

  next-kept : (j : ℕ) (bs : List ℕ) → next.map j ≡ some bs → c.map j ≡ some bs
  next-kept j bs h = ground (arith, next_fields.1 j)

  next-front :
      (j : ℕ) (js : List ℕ)
      → ks ≡ j ∷ js
      → (next.order ≡ k ∷ pop_back j js) × (next.map k ≡ c.map k)
  unfolding pop_back back
  next-front j js e =
      let apart : (k == victim) ≡ false =
        let apart' = mem_back_tail j js k (subst (λ t. mem k t ≡ false) e d.0) in
        ap (λ t. k == back k t) e ∙ apart' in
      (next_fields.0 ∙ ap (pop_back k) e, next_fields.1 k ∙ rw apart)

Evicted-refl : (c : FrameCache) → IsAccounted c → Evicted c c
Evicted-refl c a = record {
  accounted = a;
  bound = refl;
  kept = λ j bs h. h;
  front = λ k ks e h. refl;
}

-- The only frame fits, so no round takes it.
alone_fits :
    (c : FrameCache) (k : ℕ) → IsAccounted c → c.order ≡ k ∷ [] → c.cur_bytes ≡ stored (c.map k)
alone_fits c k a e = a.counted ∙ (ap (total c.map) e ∙ omega arith)

Evicted-next :
    (c : FrameCache) (k : ℕ) (ks : List ℕ) (d : FrameCache)
    → IsAccounted c
    → c.order ≡ k ∷ ks
    → c.max_bytes < c.cur_bytes
    → Evicted (evict_back c k ks) d
    → Evicted c d
Evicted-next c k [] d a all over e = record {
  accounted = e.accounted;
  bound = e.bound ∙ (next_fields c k [] a all).3;
  kept = λ j bs h. next-kept c k [] a all j bs (e.kept j bs h);
  front = λ i is same room.
      let i' : k ≡ i = ground (arith, sym all ∙ same) in
      let size = alone_fits c k a all in
      let room' : stored (c.map k) ≤ c.max_bytes = rw i' room in absurd (omega arith);
}
Evicted-next c k (j ∷ js) d a all over e =
    let (tail, stays) = next-front c k (j ∷ js) a all j js refl in
    let bound = (next_fields c k (j ∷ js) a all).3 in
    record {
      accounted = e.accounted;
      bound = e.bound ∙ bound;
      kept = λ i bs h. next-kept c k (j ∷ js) a all i bs (e.kept i bs h);
      front = λ i is same room.
          let i' : i ≡ k = ground (arith, sym same ∙ all) in
          let room' : stored (c.map k) ≤ c.max_bytes = rw (← i') room in
          rw i' (e.front k (pop_back j js) tail (rw (stays, bound) room') ∙ stays);
    }

evict_rounds-Evicted :
    (n : ℕ) (c : FrameCache) (ks : List ℕ)
    → c.order ≡ ks
    → length ks ≤ n
    → IsAccounted c
    → Evicted c (evict_rounds n c ks)
      × ((evict_rounds n c ks).cur_bytes ≤ (evict_rounds n c ks).max_bytes)
unfolding evict_rounds
evict_rounds-Evicted zero c [] all h a =
    let none_left = a.counted ∙ ap (total c.map) all in (Evicted-refl c a, omega arith)
evict_rounds-Evicted (suc n) c [] all h a =
    let none_left = a.counted ∙ ap (total c.map) all in (Evicted-refl c a, omega arith)
evict_rounds-Evicted zero c (k ∷ ks) all h a = absurd (omega arith)
evict_rounds-Evicted (suc n) c (k ∷ ks) all h a = elim (Bool-cases (ltb c.max_bytes c.cur_bytes)) [
  | inr fits ↦ rw fits (Evicted-refl c a, ltb→le _ _ fits)
  | inl over ↦
      let shorter = ap length (next_fields c k ks a all).0 ∙ length-pop_back k ks in
      let (rest, fits) =
        evict_rounds-Evicted n (evict_back c k ks) (evict_back c k ks).order refl (omega arith)
          (next-IsAccounted c k ks a all) in
      rw over (Evicted-next c k ks _ a all (ltb→lt _ _ over) rest, fits)
]

-- What the cache holds is what `Holds` allows for a frame, and it has room for a frame.
pub record IsGood (Holds : ℕ → List ℕ → Type 0) (c : FrameCache) : Type 0 where
  pub accounted : IsAccounted c
  pub fits : c.cur_bytes ≤ c.max_bytes
  pub bound : c.max_bytes < 2 ^ 63
  pub room : max_frame ≤ c.max_bytes
  pub holds : (i : ℕ) (bs : List ℕ) → c.map i ≡ some bs → Holds i bs

-- A frame is moved to the front.
promoted-IsGood :
    (Holds : ℕ → List ℕ → Type 0) (c : FrameCache) (i : ℕ) {bs : List ℕ}
    → IsGood Holds c
    → c.map i ≡ some bs
    → IsGood Holds (record c { order = i ∷ without i c.order })
promoted-IsGood Holds c i g found =
    let a = g.accounted in
    let there = sym (a.listed i) ∙ ap is_some found in
    record {
      accounted = record {
        distinct = (
          ground (arith, mem-without i c.order i a.distinct),
          without-IsDistinct i c.order a.distinct,
        );
        listed = λ j. ground (arith, a.listed j, mem-without i c.order j a.distinct);
        counted = a.counted ∙ sym (total-without c.map i c.order there);
        low = a.low;
      };
      fits = g.fits;
      bound = g.bound;
      room = g.room;
      holds = g.holds;
    }

emplace-IsAccounted :
    (c : FrameCache) (i : ℕ) (bs : List ℕ)
    → IsAccounted c
    → c.map i ≡ none
    → c.cur_bytes + length bs < u64_mod
    → IsAccounted (emplace c i bs)
unfolding emplace
emplace-IsAccounted c i bs a miss small =
    let new : mem i c.order ≡ false = sym (a.listed i) ∙ ap is_some miss in
    record {
      distinct = (new, a.distinct);
      listed = λ j. ground (arith, a.listed j);
      counted =
          rw (==_refl i) (omega (arith, a.counted, total-update c.map i (some bs) c.order new));
      low = omega arith;
    }

module _ (z : Snappy) (src : MemorySource) (Holds : ℕ → List ℕ → Type 0) where
  keep-IsGood :
      (c : FrameCache) (i : ℕ) (bs : List ℕ)
      → IsGood Holds c
      → c.map i ≡ none
      → Holds i bs
      → length bs ≤ max_frame
      → (c' : FrameCache) × (keep c i bs ≡ ok (c', bs)) × IsGood Holds c'
  unfolding keep emplace evict_if_needed
  keep-IsGood c i bs g miss right room =
      let large = g.room in
      let bound = g.bound in
      let fits = g.fits in
      let s = emplace c i bs in
      let (e, within) =
        evict_rounds-Evicted (length s.order) s s.order refl (omega arith)
          (emplace-IsAccounted c i bs g.accounted miss (omega arith)) in
      let c' = evict_rounds (length s.order) s s.order in
      let held : c'.map i ≡ some bs =
        e.front i c.order refl (rw (==_refl i) (omega arith)) ∙ rw (==_refl i) in
      (
        c',
        rw (held, keep),
        record {
          accounted = e.accounted;
          fits = within;
          bound = rw e.bound g.bound;
          room = rw e.bound g.room;
          holds = λ j cs found.
              let there = e.kept j cs found in
              elim (Bool-cases (j == i)) [
                | inl same ↦
                    let same' = (==_iff j i).0 same in
                    subst (λ t. Holds t cs) (sym same')
                      (subst (Holds i) (some_injective (rw same at there)) right)
                | inr other ↦ g.holds j cs (rw other at there)
              ];
        },
      )

  -- A frame that decompresses is handed out, whatever was cached and evicted.
  pub get-IsGood :
      (c : FrameCache) (i : ℕ) (f : AvmlFrame) (bs : List ℕ)
      → IsGood Holds c
      → load_frame z src i f ≡ ok bs
      → Holds i bs
      → ((cs : List ℕ) → Holds i cs → cs ≡ bs)
      → length bs ≤ max_frame
      → (c' : FrameCache) × (get c z src i f ≡ ok (c', bs)) × IsGood Holds c'
  unfolding get
  get-IsGood c i f bs g loads right only room = elim (Option-cases (c.map i)) [
    | inl miss ↦
        let (c', kept, good) = keep-IsGood c i bs g miss right room in
        (c', rw (miss, get, loads, kept), good)
    | inr (cs, found) ↦
        let same = only cs (g.holds i cs found) in
        (
          record c { order = i ∷ without i c.order },
          rw (found, get, same),
          promoted-IsGood Holds c i g found,
        )
  ]
