-- ===== src/Linux/Kva/Stream.antt =====
-- os/linux/kern_va_stream.cpp: the stream of the kernel half returns, and stays in its buffer.
use mem_nix_fs.Base.{
  ℕ, zero, suc, ◌+◌, ◌-◌, ◌^◌, ◌<◌, ◌≤◌, ◌≡◌, refl, ap, ◌∙◌, List, Bool, true, false, length, min,
  ltb, take, drop, ◌++◌, bit_and, ◌%◌, length-append, length-take, length-drop, length-replicate,
  leb, arith, ok,
}
use mem_nix_fs.Base.Word.{add64}
use mem_nix_fs.Base.Bits.{bit_and-ones}
use mem_nix_fs.Base.Buffer.{write, zeros}
use mem_nix_fs.Physical.{Image, Shows}
use mem_nix_fs.Linux.Kva.{
  Engine, resolve_init_mm_pgd_pa, stream_base, stream_span, va_loop, kern_va_read, kva_read,
}
use mem_nix_fs.Linux.Kva.Returns.{kva_read-Returns}

write-IsOk :
    (buf : List ℕ) (off : ℕ) (bs : List ℕ)
    → off + length bs ≤ length buf
    → (out : List ℕ) × (write buf off bs ≡ ok out) × (length out ≡ length buf)
unfolding write
write-IsOk buf off bs room =
    let fits : leb (off + length bs) (length buf) ≡ true = ground arith in
    (
      take off buf ++ (bs ++ drop (off + length bs) buf),
      rw fits refl,
      omega (
        arith,
        length-append (take off buf) (bs ++ drop (off + length bs) buf),
        length-append bs (drop (off + length bs) buf),
        length-take off buf,
        length-drop (off + length bs) buf,
      ),
    )

-- One round of the loop.
va_round :
    (fuel : ℕ) (eng : Engine) (cached offset len done : ℕ) (out : List ℕ) (va chunk c : ℕ)
    (buf : List ℕ) (whole : Bool) (out' : List ℕ)
    → add64 (add64 stream_base offset) done ≡ va
    → min (4096 - bit_and va 0xFFF) (suc len) ≡ chunk
    → kva_read eng cached va (take chunk (drop done out)) chunk ≡ ok (c, buf, whole)
    → write out done buf ≡ ok out'
    → va_loop (suc fuel) eng cached offset (suc len) done out
      ≡ va_loop fuel eng c offset (suc len - chunk) (done + chunk) out'
unfolding va_loop
va_round fuel eng cached offset len done out va chunk c buf whole out' at size got wrote =
    rw (at, size, got, wrote) refl

-- A kernel with the layer of an image, page tables below the end of 64 bits, and a shift that does not
-- take the kernel image there.
module _ (eng : Engine) (img : Image) (shows : Shows eng.phys img) (dtb : eng.dtb + 4096 < 2 ^ 64)
    (pgd : ℕ) (low : pgd + 4096 < 2 ^ 64) (shift : eng.kaslr_phys_shift + 2 ^ 32 < 2 ^ 64) where
  -- A round of the loop at the address `va` reads `chunk` bytes, to the end of a page at most.
  round-IsOk :
      (fuel offset len done cached : ℕ) (out : List ℕ) (va chunk : ℕ)
      → add64 (add64 stream_base offset) done ≡ va
      → min (4096 - va % 4096) (suc len) ≡ chunk
      → length out ≡ done + suc len
      → va + chunk < 2 ^ 64
      → resolve_init_mm_pgd_pa eng cached ≡ ok pgd
      → (c : ℕ) × (out' : List ℕ) × (va_loop (suc fuel) eng cached offset (suc len) done out
          ≡ va_loop fuel eng c offset (suc len - chunk) (done + chunk) out')
        × (length out' ≡ length out)
        × (resolve_init_mm_pgd_pa eng c ≡ ok pgd)
  round-IsOk fuel offset len done cached out va chunk at count size room resolved =
      let part = take chunk (drop done out) in
      let part_size : length part ≡ chunk =
        omega (arith, length-take chunk (drop done out), length-drop done out) in
      let got =
        kva_read-Returns eng img shows dtb pgd low shift chunk va room (omega arith) cached resolved
          part part_size in
      let (out', wrote, same) = write-IsOk out done got.buf (omega (arith, got.size)) in
      (
        got.cached,
        out',
        va_round fuel eng cached offset len done out va chunk got.cached got.buf got.whole out' at
            (ap (λ m. min (4096 - m) (suc len)) (bit_and-ones 12 va) ∙ count) got.returns wrote,
        same,
        got.resolved,
      )

  va_loop-IsOk :
      (fuel offset len done cached : ℕ) (out : List ℕ)
      → len ≤ fuel
      → length out ≡ done + len
      → offset + (done + len) < stream_span
      → resolve_init_mm_pgd_pa eng cached ≡ ok pgd
      → (c : ℕ) × (buf : List ℕ) × (va_loop fuel eng cached offset len done out ≡ ok (c, buf))
        × (length buf ≡ length out)
        × (resolve_init_mm_pgd_pa eng c ≡ ok pgd)
  unfolding va_loop
  va_loop-IsOk fuel offset zero done cached out f size room resolved =
      (cached, out, refl, refl, resolved)
  va_loop-IsOk zero offset (suc len) done cached out f size room resolved = absurd (omega arith)
  va_loop-IsOk (suc fuel) offset (suc len) done cached out f size room resolved =
      next_round (stream_base + offset + done)
        (min (4096 - (stream_base + offset + done) % 4096) (suc len)) (omega arith) refl
        (omega arith) (omega arith) (omega arith)
        (λ chunk c₁ out₁ positive few same held.
          va_loop-IsOk fuel offset (suc len - chunk) (done + chunk) c₁ out₁ (omega arith)
            (omega (arith, same)) (omega arith) held)
    where
      next_round :
          (va chunk : ℕ)
          → add64 (add64 stream_base offset) done ≡ va
          → min (4096 - va % 4096) (suc len) ≡ chunk
          → va + chunk < 2 ^ 64
          → 0 < chunk
          → chunk ≤ suc len
          → ((chunk c₁ : ℕ) (out₁ : List ℕ)
              → 0 < chunk
              → chunk ≤ suc len
              → length out₁ ≡ length out
              → resolve_init_mm_pgd_pa eng c₁ ≡ ok pgd
              → (c : ℕ) × (buf : List ℕ) × (va_loop fuel eng c₁ offset
                    (suc len - chunk)
                    (done + chunk)
                    out₁
                  ≡ ok (c, buf))
                × (length buf ≡ length out₁)
                × (resolve_init_mm_pgd_pa eng c ≡ ok pgd))
          → (c : ℕ) × (buf : List ℕ) × (va_loop (suc fuel) eng cached offset (suc len) done out
              ≡ ok (c, buf))
            × (length buf ≡ length out)
            × (resolve_init_mm_pgd_pa eng c ≡ ok pgd)
      next_round va chunk at count end positive few rest =
          let (c₁, out₁, step, same, held) =
            round-IsOk fuel offset len done cached out va chunk at count size end resolved in
          let (c₂, buf, run, kept, held₂) = rest chunk c₁ out₁ positive few same held in
          (c₂, buf, step ∙ run, kept ∙ same, held₂)

  -- On a layer that shows an image, the read of the stream of the kernel half ends, throws nothing,
  -- stays inside its buffer and reports every byte, whatever `cached` holds that resolves to the page
  -- table of init_mm, and it leaves such a `cached`. The two page tables end below 2 ^ 64,
  -- kaslr_phys_shift as a 64-bit word is 2 ^ 32 below 2 ^ 64 at least (which excludes small negative
  -- shifts), and the read ends below the last address.
  pub kern_va_read-IsOk :
      (cached offset len : ℕ)
      → resolve_init_mm_pgd_pa eng cached ≡ ok pgd
      → offset + len < stream_span
      → (c : ℕ) × (buf : List ℕ) × (kern_va_read eng cached offset len ≡ ok (c, buf, len))
        × (length buf ≡ len)
        × (resolve_init_mm_pgd_pa eng c ≡ ok pgd)
  unfolding kern_va_read
  kern_va_read-IsOk cached offset len resolved room =
      let inside : leb stream_span offset ≡ false = ground arith in
      let whole : ltb stream_span (add64 offset len) ≡ false = ground arith in
      let filled : length (zeros len) ≡ len = length-replicate {A = ℕ} len 0 in
      let (c, buf, run, kept, held) =
        va_loop-IsOk len offset len 0 cached (zeros len) (omega arith) (omega (arith, filled))
          (omega arith) resolved in
      (c, buf, rw (inside, whole, run) refl, kept ∙ filled, held)
