-- ===== src/Physical/Window.antt =====
-- What `PhysicalLayer::read` promises, whatever the format: an address space is a partial map from
-- addresses to bytes; a read fills its buffer with the bytes that are there and zeros for the
-- holes, and counts the bytes that are there.
use mem_nix_fs.Base.{
  ℕ, zero, suc, ◌+◌, ◌-◌, ◌≤◌, ◌<◌, ◌≡◌, refl, ap, ap₂, sym, ◌∙◌, List, [], ◌∷◌, ◌++◌, append_assoc,
  Option, none, some, length, take, drop, arith, ok,
}
use mem_nix_fs.Base.Word.{u64_mod}
use mem_nix_fs.Base.Buffer.{
  zeros, zeros-add, take-append_left, drop-append_left, write, write_ahead,
}
use mem_nix_fs.Io.{bytes}
use mem_nix_fs.Physical.Layer.{PhysicalLayer}

abbrev pub Image : Type 0
Image = ℕ → Option ℕ

abbrev pub byte_or_zero : Option ℕ → ℕ
byte_or_zero none = 0
byte_or_zero (some b) = b

abbrev pub present : Option ℕ → ℕ
present none = 0
present (some b) = 1

-- The bytes of the addresses from `a` to `a + n`, zeros in the holes.
abbrev pub window : Image → ℕ → ℕ → List ℕ
window img a zero = []
window img a (suc n) = byte_or_zero (img a) ∷ window img (suc a) n

-- How many of those addresses hold a byte.
abbrev pub backed : Image → ℕ → ℕ → ℕ
backed img a zero = 0
backed img a (suc n) = present (img a) + backed img (suc a) n

-- The contract of `PhysicalLayer::read`, for requests whose end is a 64-bit address.
pub record Shows (phys : PhysicalLayer) (img : Image) : Type 0 where
  pub reads :
      (pa len : ℕ)
      → pa + len < u64_mod
      → phys.read pa len ≡ ok (window img pa len, backed img pa len)

pub length-window : (img : Image) (a n : ℕ) → length (window img a n) ≡ n
length-window img a zero = refl
length-window img a (suc n) = ap suc (length-window img (suc a) n)

pub backed-le : (img : Image) (a n : ℕ) → backed img a n ≤ n
backed-le img a zero = omega arith
backed-le img a (suc n) = ground (arith, backed-le img (suc a) n)

pub window-add :
    (img : Image) (a m n : ℕ) → window img a (m + n) ≡ window img a m ++ window img (a + m) n
window-add img a zero n =
    let e : 0 + n ≡ n = omega arith in let e' : a + 0 ≡ a = omega arith in rw (e, e')
window-add img a (suc m) n =
    let e : suc m + n ≡ suc (m + n) = omega arith in
    let e' : a + suc m ≡ suc a + m = omega arith in
    rw (e, e') (ap (◌∷◌ (byte_or_zero (img a))) (window-add img (suc a) m n))

pub backed-add :
    (img : Image) (a m n : ℕ) → backed img a (m + n) ≡ backed img a m + backed img (a + m) n
backed-add img a zero n =
    let e : 0 + n ≡ n = omega arith in let e' : a + 0 ≡ a = omega arith in rw (e, e') (omega arith)
backed-add img a (suc m) n =
    let e : suc m + n ≡ suc (m + n) = omega arith in
    let e' : a + suc m ≡ suc a + m = omega arith in
    rw (e, e') (omega (arith, backed-add img (suc a) m n))

-- No address from `a` to `a + n` holds a byte.
abbrev pub IsHole : Image → ℕ → ℕ → Type 0
IsHole img a n = (x : ℕ) → a ≤ x → x < a + n → img x ≡ none

-- The addresses from `a` to `a + n` hold the bytes of `file` from `off` on.
abbrev pub IsFilled : Image → (ℕ → ℕ) → ℕ → ℕ → ℕ → Type 0
IsFilled img file a off n = (x : ℕ) → x < n → img (a + x) ≡ some (file (off + x))

pub hole :
    (img : Image) (a n : ℕ) → IsHole img a n → (window img a n ≡ zeros n) × (backed img a n ≡ 0)
hole img a zero h = (refl, refl)
hole img a (suc n) h =
    let (w, b) = hole img (suc a) n (λ x l u. h x (omega arith) (omega arith)) in
    let e = h a (omega arith) (omega arith) in (rw (e, w), rw e (omega arith))

pub filled :
    (img : Image) (file : ℕ → ℕ) (a off n : ℕ)
    → IsFilled img file a off n
    → (window img a n ≡ bytes file off n) × (backed img a n ≡ n)
filled img file a off zero h = (refl, refl)
filled img file a off (suc n) h =
    let (w, b) = filled img file (suc a) (suc off) n (λ x l.
      let e : suc a + x ≡ a + suc x = omega arith in
      let e' : suc off + x ≡ off + suc x = omega arith in rw (e, e') (h (suc x) (omega arith))) in
    let e₁ : a + 0 ≡ a = omega arith in
    let e₂ : off + 0 ≡ off = omega arith in
    let e = rw (e₁, e₂) at (h 0 (omega arith)) in (rw (e, w), rw e (omega (arith, b)))

-- One step of a read: behind a hole, the bytes that an image holds are stored in a buffer that is
-- filled up to `a` and zero from there on.
pub fill :
    (img : Image) (bs : List ℕ) (pa a gap n room rest : ℕ)
    → IsHole img (pa + a) gap
    → bs ≡ window img (pa + (a + gap)) n
    → room ≡ gap + (n + rest)
    → write (window img pa a ++ zeros room) (a + gap) bs
      ≡ ok (window img pa (a + gap + n) ++ zeros rest)
fill img bs pa a gap n room rest h e r =
    let size : length bs ≡ n = ap length e ∙ length-window img _ n in
    let all : window img pa (a + gap + n) ≡ (window img pa a ++ zeros gap) ++ bs =
      window-add img pa (a + gap) n
      ∙ ap₂ (◌++◌)
          (window-add img pa a gap ∙ ap (λ t. window img pa a ++ t) (hole img (pa + a) gap h).0)
          (sym e) in
    write_ahead (window img pa a) bs (a + gap) gap room rest (omega (arith, length-window img pa a))
      (omega arith)
    ∙ rw all (rw (append_assoc, append_assoc))

pub backed-fill :
    (img : Image) (pa a gap n : ℕ)
    → IsHole img (pa + a) gap
    → backed img pa (a + gap + n) ≡ backed img pa a + backed img (pa + (a + gap)) n
backed-fill img pa a gap n h =
    omega
      (arith, backed-add img pa (a + gap) n, backed-add img pa a gap, (hole img (pa + a) gap h).1)

-- Where the rest of the buffer is a hole, its zeros are what the image holds.
pub fill_rest :
    (img : Image) (pa a room : ℕ)
    → IsHole img (pa + a) room
    → (window img pa (a + room) ≡ window img pa a ++ zeros room)
      × (backed img pa (a + room) ≡ backed img pa a)
fill_rest img pa a room h =
    let (w, b) = hole img (pa + a) room h in
    (
      window-add img pa a room ∙ ap (λ t. window img pa a ++ t) w,
      omega (arith, backed-add img pa a room),
    )

-- Two images that agree on a range show the same there.
pub window_agree :
    (f g : Image) (a b n : ℕ)
    → ((x : ℕ) → x < n → f (a + x) ≡ g (b + x))
    → (window f a n ≡ window g b n) × (backed f a n ≡ backed g b n)
window_agree f g a b zero h = (refl, refl)
window_agree f g a b (suc n) h =
    let next : (x : ℕ) → x < n → f (suc a + x) ≡ g (suc b + x) = λ x l.
      let e : suc a + x ≡ a + suc x = omega arith in
      let e' : suc b + x ≡ b + suc x = omega arith in rw (e, e') (h (suc x) (omega arith)) in
    let (w, c) = window_agree f g (suc a) (suc b) n next in
    let e₁ : a + 0 ≡ a = omega arith in
    let e₂ : b + 0 ≡ b = omega arith in
    let first = rw (e₁, e₂) at (h 0 (omega arith)) in (rw (first, w), rw (first, c))

-- A step with no hole in between.
pub fill_next :
    (img : Image) (bs : List ℕ) (pa a n rest : ℕ)
    → bs ≡ window img (pa + a) n
    → write (window img pa a ++ zeros (n + rest)) a bs ≡ ok (window img pa (a + n) ++ zeros rest)
fill_next img bs pa a n rest e =
    let e₀ : a + 0 ≡ a = omega arith in
    rw e₀ at
      (fill img bs pa a 0 n (n + rest) rest (λ x l u. absurd (omega arith)) (rw e₀ e) (omega arith))

-- A step over a hole leaves the buffer as it is.
pub skip_next :
    (img : Image) (pa a n rest : ℕ)
    → IsHole img (pa + a) n
    → window img pa a ++ zeros (n + rest) ≡ window img pa (a + n) ++ zeros rest
skip_next img pa a n rest h =
    ap (λ t. window img pa a ++ t) (zeros-add n rest)
    ∙ (sym (append_assoc (window img pa a) (zeros n) (zeros rest))
        ∙ ap (λ t. t ++ zeros rest) (sym (fill_rest img pa a n h).0))

-- A slice of a window is a window.
pub slice-window :
    (img : Image) (a off n size : ℕ)
    → off + n ≤ size
    → take n (drop off (window img a size)) ≡ window img (a + off) n
slice-window img a off n size h =
    let e : size ≡ off + (n + (size - off - n)) = omega arith in
    let parts : window img a size
        ≡ window img a off
          ++ (window img (a + off) n ++ window img (a + off + n) (size - off - n)) =
      ap (window img a) e
      ∙ (window-add img a off _ ∙ ap (λ t. window img a off ++ t) (window-add img (a + off) n _)) in
    rw (parts, drop-append_left (window img a off) _ off (length-window img a off))
      (take-append_left (window img (a + off) n) _ n (length-window img (a + off) n))

-- Where every address holds a byte, all are counted.
pub backed_all :
    (img : Image) (a n : ℕ) → ((x : ℕ) → x < n → present (img (a + x)) ≡ 1) → backed img a n ≡ n
backed_all img a zero h = refl
backed_all img a (suc n) h =
    let e : a + 0 ≡ a = omega arith in
    let first : present (img a) ≡ 1 = rw e at (h 0 (omega arith)) in
    let next : (x : ℕ) → x < n → present (img (suc a + x)) ≡ 1 =
      λ x l. let e' : suc a + x ≡ a + suc x = omega arith in rw e' (h (suc x) (omega arith)) in
    omega (arith, backed_all img (suc a) n next)
