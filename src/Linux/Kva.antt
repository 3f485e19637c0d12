-- ===== src/Linux/Kva.antt =====
-- os/linux/kva_reader.cpp and os/linux/kern_va_stream.cpp: reads at kernel addresses, by the linear
-- maps and by page tables.
pub mod Translate
pub mod Returns
pub mod Stream
mod Tests
use mem_nix_fs.Base.{
  ℕ, zero, suc, ◌+◌, ◌-◌, ◌%◌, ◌^◌, List, [], ◌∷◌, ◌++◌, Option, none, some, Bool, true, false, not,
  ◌&&◌, min, length, take, drop, bit_and, ltb, leb, ◌==◌, if◌then◌else◌, Result, ok, stuck, ◌>>=◌,
}
use mem_nix_fs.Base.Word.{add64, sub64}
use mem_nix_fs.Base.Buffer.{zeros, write}
use mem_nix_fs.Physical.{PhysicalLayer, read_u64}
use mem_nix_fs.Paging.{PageTable, translate, page_table_read}

-- kStartKernelMap, kPhysmapStart and kVmallocStart
abbrev pub start_kernel_map : ℕ
start_kernel_map = 0xffffffff80000000

abbrev pub physmap_start : ℕ
physmap_start = 0xffff800000000000

abbrev pub vmalloc_start : ℕ
vmalloc_start = 0xffffffffc0000000

-- What the reads use of `Engine`: the layer, its `KernelContext` (a signed shift is kept as the word
-- of its bits), and what the symbols say of init_mm and of mm_struct.pgd.
pub record Engine : Type 0 where
  pub phys : PhysicalLayer
  pub dtb : ℕ
  pub dtb_validated : Bool
  pub kaslr_phys_shift : ℕ
  pub direct_map_base : ℕ
  pub init_mm : Option ℕ
  pub pgd_off : Option ℕ

unfoldable pub kernel_pt : Engine → PageTable
kernel_pt eng = record { phys = eng.phys; dtb = eng.dtb }

-- `kva_to_pa_image`
unfoldable pub kva_to_pa_image : ℕ → ℕ → ℕ
kva_to_pa_image va phys_shift = add64 (sub64 va start_kernel_map) phys_shift

-- The initial value of `cached`, the static variable of `resolve_init_mm_pgd_pa`.
abbrev pub unresolved : ℕ
unresolved = 2 ^ 64 - 1

-- The physical address for the value of init_mm.pgd, or 0.
unfoldable pub pgd_pa : Engine → ℕ → ℕ
unfolding kva_to_pa_image
pgd_pa eng pgd_va =
    if leb start_kernel_map pgd_va
    then kva_to_pa_image pgd_va eng.kaslr_phys_shift
    else if not (eng.direct_map_base == 0) && leb eng.direct_map_base pgd_va
    then sub64 pgd_va eng.direct_map_base
    else 0

-- What `resolve_init_mm_pgd_pa` computes where nothing is cached.
unfoldable pub find_init_pgd : Engine → Result ℕ
unfolding pgd_pa
find_init_pgd eng = elim eng.init_mm [
  | none ↦ ok 0
  | some address ↦ elim eng.pgd_off [
    | none ↦ ok 0
    | some off ↦ do
      r ← read_u64 eng.phys (add64 (kva_to_pa_image address eng.kaslr_phys_shift) off)
      ok (elim r [ none ↦ 0 | some pgd_va ↦ if pgd_va == 0 then 0 else pgd_pa eng pgd_va ])
  ]
]

-- `resolve_init_mm_pgd_pa`: the new value of `cached`, which is the result too.
unfoldable pub resolve_init_mm_pgd_pa : Engine → ℕ → Result ℕ
unfolding find_init_pgd
resolve_init_mm_pgd_pa eng cached = if cached == unresolved then find_init_pgd eng else ok cached

-- What a call leaves: `cached`, the destination, and whether the read was whole.
abbrev pub Outcome : Type 0
Outcome = ℕ × List ℕ × Bool

-- A read into the destination, and what follows if it is not whole.
unfoldable pub or_else : Result (List ℕ × ℕ) → ℕ → ℕ → (List ℕ → Result Outcome) → Result Outcome
or_else r cached n next = r >>= λ p. if p.1 == n then ok (cached, p.0, true) else next p.0

-- The table of init_mm, the last attempt.
unfoldable pub by_init_mm : Engine → ℕ → ℕ → List ℕ → ℕ → Result Outcome
unfolding or_else
by_init_mm eng cached va dst n = do
  init_pgd ← resolve_init_mm_pgd_pa eng cached
  if init_pgd == 0
      then ok (init_pgd, dst, false)
      else or_else (page_table_read (record { phys = eng.phys; dtb = init_pgd }) va n) init_pgd n
          λ buf. ok (init_pgd, buf, false)

-- The walks that `kva_read` makes for modules, and as its last resort.
unfoldable pub by_tables : Engine → ℕ → ℕ → List ℕ → ℕ → Result Outcome
unfolding or_else
by_tables eng cached va dst n =
    if eng.dtb_validated
    then or_else (page_table_read (kernel_pt eng) va n) cached n
        (λ buf. by_init_mm eng cached va buf n)
    else by_init_mm eng cached va dst n

-- The address in the direct map, and in the kernel image, if `va` is in their range.
unfoldable pub direct_pa : Engine → ℕ → Option ℕ
direct_pa eng va =
    if leb physmap_start va
      && ltb va start_kernel_map
      && not (eng.direct_map_base == 0)
      && leb eng.direct_map_base va
    then some (sub64 va eng.direct_map_base)
    else none

unfoldable pub image_pa : Engine → ℕ → Option ℕ
unfolding kva_to_pa_image
image_pa eng va =
    if leb start_kernel_map va && ltb va vmalloc_start
    then some (kva_to_pa_image va eng.kaslr_phys_shift)
    else none

unfoldable pub by_linear :
    Engine → ℕ → Option ℕ → List ℕ → ℕ → (List ℕ → Result Outcome) → Result Outcome
unfolding or_else
by_linear eng cached none dst n next = next dst
by_linear eng cached (some pa) dst n next = or_else (eng.phys.read pa n) cached n next

-- `kva_read`
unfoldable pub kva_read : Engine → ℕ → ℕ → List ℕ → ℕ → Result Outcome
unfolding direct_pa image_pa
kva_read eng cached va dst n =
    if leb vmalloc_start va
    then by_tables eng cached va dst n
    else by_linear eng cached (direct_pa eng va) dst n
        λ dst₁. by_linear eng cached (image_pa eng va) dst₁ n λ dst₂. by_tables eng cached va dst₂ n

-- The bytes in front of the first zero.
unfoldable pub until_zero : List ℕ → List ℕ
until_zero [] = []
until_zero (c ∷ cs) = if c == 0 then [] else c ∷ until_zero cs

-- `kva_read_cstr`
unfoldable pub kva_read_cstr : Engine → ℕ → ℕ → ℕ → Result (ℕ × List ℕ)
unfolding until_zero
kva_read_cstr eng cached va maxlen = if va == 0 then ok (cached, []) else do
  (cached', buf, whole) ← kva_read eng cached va (zeros maxlen) maxlen
  ok (cached', if whole then until_zero buf else [])

-- The strategies that `KvaTranslate` names.
pub data Strategy : Type 0 where
  vmalloc_dtb vmalloc_init_mm direct_map kernel_image fallback_dtb fallback_init_mm : Strategy

-- `KvaTranslate`; `none` is an address that is not mapped.
abbrev pub KvaTranslate : Type 0
KvaTranslate = Option (ℕ × Strategy)

-- `probe`: one byte at the address.
unfoldable pub probe : Engine → ℕ → Result Bool
probe eng pa = eng.phys.read pa 1 >>= λ p. ok (p.1 == 1)

-- A translation that is accepted if the probe finds a byte, and what follows if not.
unfoldable pub or_translate :
    Engine → ℕ → Option ℕ → Strategy → Result (ℕ × KvaTranslate) → Result (ℕ × KvaTranslate)
unfolding probe
or_translate eng cached none how next = next
or_translate eng cached (some pa) how next =
    probe eng pa >>= λ there. if there then ok (cached, some (pa, how)) else next

unfoldable pub translate_by_init_mm : Engine → ℕ → ℕ → Strategy → Result (ℕ × KvaTranslate)
unfolding or_translate
translate_by_init_mm eng cached va how = do
  init_pgd ← resolve_init_mm_pgd_pa eng cached
  if init_pgd == 0 then ok (init_pgd, none) else (do
    o ← translate (record { phys = eng.phys; dtb = init_pgd }) va
    or_translate eng init_pgd o how (ok (init_pgd, none)))

unfoldable pub translate_by_tables :
    Engine → ℕ → ℕ → Strategy → Strategy → Result (ℕ × KvaTranslate)
unfolding or_translate
translate_by_tables eng cached va by_dtb by_init =
    if eng.dtb_validated
    then (do
      o ← translate (kernel_pt eng) va
      or_translate eng cached o by_dtb (translate_by_init_mm eng cached va by_init))
    else translate_by_init_mm eng cached va by_init

-- `kva_translate`
unfoldable pub kva_translate : Engine → ℕ → ℕ → Result (ℕ × KvaTranslate)
unfolding direct_pa image_pa
kva_translate eng cached va =
    if leb vmalloc_start va
    then translate_by_tables eng cached va vmalloc_dtb vmalloc_init_mm
    else or_translate eng cached (direct_pa eng va) direct_map (
        or_translate eng cached (image_pa eng va) kernel_image
          (translate_by_tables eng cached va fallback_dtb fallback_init_mm))

-- kBase and kSpan
abbrev pub stream_base : ℕ
stream_base = 0xffff800000000000

abbrev pub stream_span : ℕ
stream_span = 0x800000000000

-- The loop of `KernVaRawStream::read`: `len` bytes are left, `done` are behind `out`.
unfoldable pub va_loop : ℕ → Engine → ℕ → ℕ → ℕ → ℕ → List ℕ → Result (ℕ × List ℕ)
va_loop fuel eng cached offset zero done out = ok (cached, out)
va_loop zero eng cached offset (suc len) done out = stuck
va_loop (suc fuel) eng cached offset (suc len) done out = do
  let va = add64 (add64 stream_base offset) done
  let chunk = min (4096 - bit_and va 0xFFF) (suc len)
  (cached', buf, whole) ← kva_read eng cached va (take chunk (drop done out)) chunk
  out' ← write out done buf
  va_loop fuel eng cached' offset (suc len - chunk) (done + chunk) out'

-- `KernVaRawStream::read`: `cached`, the buffer and the count.
unfoldable pub kern_va_read : Engine → ℕ → ℕ → ℕ → Result (ℕ × List ℕ × ℕ)
kern_va_read eng cached offset len =
    if leb stream_span offset
    then ok (cached, zeros len, len)
    else let n = if ltb stream_span (add64 offset len) then stream_span - offset else len in
      va_loop n eng cached offset n 0 (zeros len) >>= λ r. ok (r.0, r.1, n)
