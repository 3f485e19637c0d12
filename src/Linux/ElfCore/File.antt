-- ===== src/Linux/ElfCore/File.antt =====
-- os/linux/elf_core_stream.cpp: the stream is the file that `build_elf_core` builds.
use mem_nix_fs.Base.{
  ℕ, ◌+◌, ◌-◌, ◌*◌, ◌^◌, ◌≤◌, ◌<◌, ◌≡◌, refl, ap, sym, subst, ◌∙◌, List, [], ◌∷◌, ◌++◌,
  append_assoc, inl, inr, min, length, length-append, length-replicate, arith, ltb, leb, leb→le,
  leb→lt, le→leb, lt→leb, if◌then◌else◌, Bool-cases, ok,
}
use mem_nix_fs.Base.Word.{add64, u64_mod}
use mem_nix_fs.Base.Buffer.{zeros, zeros-add, write, write_parts}
use mem_nix_fs.Physical.{Image, Shows, window, fill_rest}
use mem_nix_fs.Paging.{PageTable}
use mem_nix_fs.Paging.Read.{virtual_image}
use mem_nix_fs.Paging.Cache.{UserPageCache}
use mem_nix_fs.Paging.Cache.Read.{IsGood}
use mem_nix_fs.Linux.ElfCore.{
  Vma, elf_header, data_start, ElfCoreStream, used, elf_core_stream, serve, elf_core_read,
  plan_core, build_elf_core,
}
use mem_nix_fs.Linux.ElfCore.Layout.{
  length-elf_header, data_start-le, taken, headers, contents, whole, length-whole, plan_core-whole,
}
use mem_nix_fs.Linux.ElfCore.Build.{
  IsLow, length-headers, length-contents, core_of, length-core_of, build_elf_core-core_of,
}
use mem_nix_fs.Linux.ElfCore.Stream.{
  segments, plan_segments_lem, segments-IsPlaced, IsContiguous, segments-IsContiguous, IsNear,
  segments-IsNear, file_image,
}
use mem_nix_fs.Linux.ElfCore.Serve.{serve_lem}

whole-IsLow : (vs : List Vma) → IsNear vs → IsLow (whole vs)
whole-IsLow [] h = tt
whole-IsLow (v ∷ vs) h = (omega (arith, h.0), whole-IsLow vs h.1)

-- What a read of a stream of that size counts.
abbrev pub served_count : ℕ → ℕ → ℕ → ℕ
served_count size offset len = if leb size offset then len else min len (size - offset)

elf_core_read-past :
    (s : ElfCoreStream) (c : UserPageCache) (offset len : ℕ)
    → s.total_size ≤ offset
    → elf_core_read s c offset len ≡ ok (c, zeros len, len)
unfolding elf_core_read
elf_core_read-past s c offset len h = rw (le→leb _ _ h)

elf_core_read-inside :
    (s : ElfCoreStream) (c c' : UserPageCache) (offset len n : ℕ) (out : List ℕ)
    → offset < s.total_size
    → offset + len < u64_mod
    → n ≡ min len (s.total_size - offset)
    → serve s c offset n (zeros len) ≡ ok (c', out)
    → elf_core_read s c offset len ≡ ok (c', out, n)
unfolding elf_core_read
elf_core_read-inside s c c' offset len n out h low e run =
    let e₁ : add64 offset len ≡ offset + len = omega arith in
    let cut : (if ltb s.total_size (offset + len) then s.total_size - offset else len) ≡ n =
      ground arith in
    rw (lt→leb _ _ h, e₁, cut, run)

module _ (pt : PageTable) (img : Image) (shows : Shows pt.phys img) (dtb : pt.dtb + 4096 < 2 ^ 64)
    (vmas : List Vma) (near : IsNear (used vmas)) (few : length (used vmas) < 2 ^ 32)
    (small : taken (whole (used vmas)) < 2 ^ 62) where
  abbrev plan_of : List (Vma × ℕ)
  plan_of = whole (used vmas)

  abbrev mem : Image
  mem = virtual_image pt img

  abbrev core : List ℕ
  core = core_of mem plan_of

  abbrev start : ℕ
  start = data_start (length plan_of)

  abbrev blob : List ℕ
  blob =
      (elf_header (length plan_of) ++ headers start plan_of)
      ++ zeros (start - (64 + 56 * length plan_of))

  abbrev planned : ElfCoreStream
  planned = record {
    user_pt = pt;
    header_blob = blob;
    segs = segments start (used vmas);
    total_size = start + taken plan_of;
  }

  few_parts : length plan_of < 2 ^ 32
  few_parts = omega (arith, length-whole (used vmas))

  length-blob : length blob ≡ start
  length-blob =
      let k = length plan_of in
      omega (
        arith,
        length-append (elf_header k ++ headers start plan_of) (zeros (start - (64 + 56 * k))),
        length-append (elf_header k) (headers start plan_of),
        length-replicate {A = ℕ} (start - (64 + 56 * k)) 0,
        length-elf_header k,
        length-headers start plan_of,
        data_start-le k few_parts,
      )

  core-blob : core ≡ blob ++ contents mem plan_of
  core-blob = sym (
      append_assoc (elf_header (length plan_of) ++ headers start plan_of)
        (zeros (start - (64 + 56 * length plan_of))) (contents mem plan_of))

  stream-planned : elf_core_stream pt vmas ≡ ok planned
  unfolding elf_core_stream
  stream-planned =
      let k = length (used vmas) in
      let n = length-whole (used vmas) in
      let z = data_start k - (64 + 56 * k) in
      let bounds = data_start-le k few in
      let e : data_start k ≡ 64 + (56 * k + z) = omega (arith, bounds.0) in
      let first : write (zeros (data_start k)) 0 (elf_header k)
          ≡ ok (elf_header k ++ zeros (56 * k + z)) =
        ap (λ t. write t 0 (elf_header k)) (ap zeros e ∙ zeros-add 64 (56 * k + z))
        ∙ write_parts [] (zeros 64) (zeros (56 * k + z)) (elf_header k) 0 refl
            (length-elf_header k) in
      let size = length-elf_header k in
      let rest =
        plan_segments_lem (used vmas) 0 (data_start k) z (elf_header k) (omega (arith, size))
          (omega (arith, bounds.1)) in
      rw (first, rest, n)

  core_small : length core < 2 ^ 63
  core_small =
      omega (arith, length-core_of mem plan_of few_parts, data_start-le (length plan_of) few_parts)

  core_served :
      (c : UserPageCache) (offset n tail : ℕ)
      → IsGood pt img c
      → offset + n ≤ length core
      → (c' : UserPageCache) × IsGood pt img c'
        × (serve planned c offset n (zeros (n + tail))
            ≡ ok (c', window (file_image core) offset n ++ zeros tail))
  core_served =
      let file = blob ++ contents mem plan_of in
      let len : start + taken plan_of ≡ length file = omega (
        arith,
        length-blob,
        length-append blob (contents mem plan_of),
        length-contents mem plan_of,
      ) in
      let served =
        serve_lem pt img shows dtb blob (contents mem plan_of) (segments start (used vmas))
          (start + taken plan_of) (subst (λ t. length t < 2 ^ 63) core-blob core_small)
          (segments-IsPlaced mem blob start (used vmas) length-blob)
          (segments-IsNear start (used vmas) near)
          (subst (λ t. IsContiguous t (length file) (segments start (used vmas))) (sym length-blob)
            (subst (λ t. IsContiguous start t (segments start (used vmas))) len
              (segments-IsContiguous start (used vmas)))) in
      subst
        (λ t.
          (c : UserPageCache) (offset n tail : ℕ)
          → IsGood pt img c
          → offset + n ≤ length t
          → (c' : UserPageCache) × IsGood pt img c'
            × (serve planned c offset n (zeros (n + tail))
                ≡ ok (c', window (file_image t) offset n ++ zeros tail)))
        (sym core-blob) served

  core_read :
      (c : UserPageCache) (offset len : ℕ)
      → IsGood pt img c
      → offset + len < u64_mod
      → (c' : UserPageCache) × IsGood pt img c'
        × (elf_core_read planned c offset len
            ≡ ok (c', window (file_image core) offset len, served_count (length core) offset len))
  core_read c offset len good low =
      let total = start + taken plan_of in
      let size : length core ≡ total = length-core_of mem plan_of few_parts in
      let F = file_image core in
      elim (Bool-cases (leb (length core) offset)) [
        | inl past ↦
            let past' = leb→le _ _ past in
            let (empty, none_there) = fill_rest F offset 0 len (λ x l u. ground arith) in
            let e₀ : 0 + len ≡ len = omega arith in
            let win : window F offset len ≡ zeros len = rw e₀ at empty in
            (
              c,
              good,
              elf_core_read-past planned c offset len (omega (arith, size))
                  ∙ rw past (ap (λ t. ok (c, t, len)) (sym win)),
            )
        | inr inside ↦
            let inside' = leb→lt _ _ inside in
            let n = min len (length core - offset) in
            let tail = len - n in
            let e₁ : n + tail ≡ len = omega arith in
            let (c', good', run) = core_served c offset n tail good (omega arith) in
            let run' : serve planned c offset n (zeros len)
                ≡ ok (c', window F offset n ++ zeros tail) =
              ap (λ t. serve planned c offset n (zeros t)) (sym e₁) ∙ run in
            let (rest, none_there) = fill_rest F offset n tail (λ x l u. ground arith) in
            let win : window F offset n ++ zeros tail ≡ window F offset len =
              sym rest ∙ ap (window F offset) e₁ in
            (
              c',
              good',
              elf_core_read-inside planned c c' offset len n _ (omega (arith, size)) low
                    (omega (arith, size)) run'
                  ∙ rw inside (ap (λ t. ok (c', t, n)) win),
            )
      ]

module _ (pt : PageTable) (img : Image) (shows : Shows pt.phys img) (dtb : pt.dtb + 4096 < 2 ^ 64)
    (vmas : List Vma) (near : IsNear (used vmas)) (few : length (used vmas) < 2 ^ 32)
    (small : taken (whole (used vmas)) < 2 ^ 62) where
  -- The stream of a process is the file that `build_elf_core` builds where its limit is not reached:
  -- both come about, have one size, and a read of the stream, through a good page cache, stores the
  -- bytes of that file at any offset with zeros behind its end, and leaves a good cache. It counts the
  -- bytes up to the end, and behind the end every byte asked for. The used areas end three pages below
  -- the last 64-bit address, are fewer than 2 ^ 32 and have fewer than 2 ^ 62 bytes.
  pub elf_core_read-build_elf_core :
      (max_bytes : ℕ)
      → taken (whole (used vmas)) ≤ max_bytes
      → max_bytes < 2 ^ 63
      → (c : UserPageCache) (offset len : ℕ) → IsGood pt img c
      → offset + len < u64_mod
      → (s : ElfCoreStream) × (file : List ℕ) × (c' : UserPageCache) × (elf_core_stream pt vmas
          ≡ ok s)
        × (build_elf_core pt vmas max_bytes ≡ ok file)
        × (s.total_size ≡ length file)
        × (elf_core_read s c offset len
            ≡ ok (c', window (file_image file) offset len, served_count (length file) offset len))
        × IsGood pt img c'
  elf_core_read-build_elf_core max_bytes room limit c offset len good end =
      let plan = whole (used vmas) in
      let planned_whole : plan_core max_bytes vmas 0 ≡ (plan, 0 + taken plan) =
        plan_core-whole max_bytes vmas 0 (omega arith) (omega arith) in
      let few' = few_parts pt img shows dtb vmas near few small in
      let built =
        build_elf_core-core_of pt img shows dtb vmas max_bytes limit (rw planned_whole few')
          (rw planned_whole (whole-IsLow (used vmas) near)) in
      let (c', kept, served) =
        core_read pt img shows dtb vmas near few small c offset len good end in
      (
        planned pt img shows dtb vmas near few small,
        core_of (virtual_image pt img) plan,
        c',
        stream-planned pt img shows dtb vmas near few small,
        built ∙ ap (λ p. ok (core_of (virtual_image pt img) p.0)) planned_whole,
        sym (length-core_of (virtual_image pt img) plan few'),
        served,
        kept,
      )
