-- ===== src/Base/Buffer.antt =====
-- Caller-supplied output buffers as lists of bytes, and little-endian fields (`memset`, `memcpy`
-- and reads of a packed struct in the C++ code).
use Prim.Native.Nat.{ℕ, zero, suc, ◌+◌, ◌*◌, ◌/◌, ◌%◌, ◌^◌, ◌<◌}
use mathlib.Core.Path.{◌≡◌, refl, ap, sym, ◌∙◌}
use mathlib.Core.Bool.{true}
use mathlib.Core.List.{List, [], ◌∷◌, ◌++◌, append_assoc}
use native.Mathlib.Omega.{arith}
use native.Mathlib.Nat.{pow-suc}
use mem_nix_fs.Base.Test.{leb, if◌then◌else◌, le→leb}
use mem_nix_fs.Base.Lists.{All, length, take, drop, replicate, length-append, length-replicate}
use mem_nix_fs.Base.Outcome.{Result, ok, fault}

-- memset(out, 0, n)
abbrev pub zeros : ℕ → List ℕ
zeros n = replicate n 0

-- memcpy(buf + off, bs.data(), bs.size()); past the end of the buffer it is undefined behaviour.
unfoldable pub write : List ℕ → ℕ → List ℕ → Result (List ℕ)
write buf off bs =
    if leb (off + length bs) (length buf)
    then ok (take off buf ++ (bs ++ drop (off + length bs) buf))
    else fault

-- memcpy(dst, bs.data() + off, n); past the end of `bs` it is undefined behaviour.
abbrev pub part : List ℕ → ℕ → ℕ → Result (List ℕ)
part bs off n = if leb (off + n) (length bs) then ok (take n (drop off bs)) else fault

-- The unsigned number that little-endian bytes stand for.
abbrev pub le_value : List ℕ → ℕ
le_value [] = 0
le_value (b ∷ bs) = b + 256 * le_value bs

-- The `n` bytes of a field that is stored little-endian, without the bits beyond them.
abbrev pub le_bytes : ℕ → ℕ → List ℕ
le_bytes zero v = []
le_bytes (suc n) v = v % 256 ∷ le_bytes n (v / 256)

-- The field of `n` bytes at offset `off` of a packed struct.
abbrev pub field : List ℕ → ℕ → ℕ → ℕ
field bs off n = le_value (take n (drop off bs))

module _ {ℓ} {A : Type ℓ} where
  pub take-append_left : (xs ys : List A) (n : ℕ) → length xs ≡ n → take n (xs ++ ys) ≡ xs
  take-append_left [] ys zero h = refl
  take-append_left [] ys (suc n) h = absurd (omega arith)
  take-append_left (x ∷ xs) ys zero h = absurd (omega arith)
  take-append_left (x ∷ xs) ys (suc n) h = ap (◌∷◌ x) (take-append_left xs ys n (omega arith))

  pub drop-append_left : (xs ys : List A) (n : ℕ) → length xs ≡ n → drop n (xs ++ ys) ≡ ys
  drop-append_left [] ys zero h = refl
  drop-append_left [] ys (suc n) h = absurd (omega arith)
  drop-append_left (x ∷ xs) ys zero h = absurd (omega arith)
  drop-append_left (x ∷ xs) ys (suc n) h = drop-append_left xs ys n (omega arith)

  drop-empty : (n : ℕ) → drop {A = A} n [] ≡ []
  drop-empty zero = refl
  drop-empty (suc n) = refl

  pub drop-drop : (n m : ℕ) (xs : List A) → drop n (drop m xs) ≡ drop (m + n) xs
  drop-drop n zero xs = ap (λ t. drop t xs) (omega arith)
  drop-drop n (suc m) [] = let e : suc m + n ≡ suc (m + n) = omega arith in rw e (drop-empty n)
  drop-drop n (suc m) (x ∷ xs) =
      let e : suc m + n ≡ suc (m + n) = omega arith in rw e (drop-drop n m xs)

pub zeros-add : (m n : ℕ) → zeros (m + n) ≡ zeros m ++ zeros n
zeros-add zero n = ap zeros (omega arith)
zeros-add (suc m) n =
    let e : suc m + n ≡ suc (m + n) = omega arith in rw e (ap (◌∷◌ 0) (zeros-add m n))

-- A write into three parts replaces the middle one.
pub write_parts :
    (xs ys zs bs : List ℕ) (off : ℕ)
    → length xs ≡ off
    → length bs ≡ length ys
    → write (xs ++ (ys ++ zs)) off bs ≡ ok (xs ++ (bs ++ zs))
unfolding write
write_parts xs ys zs bs off hx hb =
    let end : length (xs ++ ys) ≡ off + length bs = omega (arith, length-append xs ys) in
    let fits : leb (off + length bs) (length (xs ++ (ys ++ zs))) ≡ true =
      le→leb _ _ (omega (arith, length-append xs (ys ++ zs), length-append ys zs)) in
    let back : drop (off + length bs) (xs ++ (ys ++ zs)) ≡ zs =
      rw (← append_assoc xs ys zs) (drop-append_left (xs ++ ys) zs _ end) in
    rw (fits, take-append_left xs (ys ++ zs) off hx, back)

-- A write into the zeros behind what is filled already.
pub write_ahead :
    (xs bs : List ℕ) (off gap room rest : ℕ)
    → length xs + gap ≡ off
    → room ≡ gap + (length bs + rest)
    → write (xs ++ zeros room) off bs ≡ ok (xs ++ (zeros gap ++ (bs ++ zeros rest)))
write_ahead xs bs off gap room rest ho hr =
    let n = length bs in
    let split : zeros room ≡ zeros gap ++ (zeros n ++ zeros rest) =
      ap zeros hr ∙ (zeros-add gap (n + rest) ∙ ap (λ t. zeros gap ++ t) (zeros-add n rest)) in
    let front : length (xs ++ zeros gap) ≡ off =
      omega (arith, length-append xs (zeros gap), length-replicate {A = ℕ} gap 0) in
    rw (split, ← append_assoc xs (zeros gap) (zeros n ++ zeros rest))
      (write_parts (xs ++ zeros gap) (zeros n) (zeros rest) bs off front
          (sym (length-replicate {A = ℕ} n 0))
        ∙ ap ok (append_assoc xs (zeros gap) (bs ++ zeros rest)))

-- A field of `n` octets is below 256 ^ n.
pub le_value-lt : (n : ℕ) (bs : List ℕ) → All (λ b. b < 256) bs → le_value (take n bs) < 256 ^ n
le_value-lt zero bs o = omega arith
le_value-lt (suc n) [] o = omega (arith, le_value-lt n [] tt, pow-suc 256 n)
le_value-lt (suc n) (b ∷ bs) o = omega (arith, le_value-lt n bs o.1, pow-suc 256 n, o.0)

pub All-drop : (n : ℕ) (bs : List ℕ) → All (λ b. b < 256) bs → All (λ b. b < 256) (drop n bs)
All-drop zero bs o = o
All-drop (suc n) [] o = tt
All-drop (suc n) (b ∷ bs) o = All-drop n bs o.1

pub field-lt : (bs : List ℕ) (off n : ℕ) → All (λ b. b < 256) bs → field bs off n < 256 ^ n
field-lt bs off n o = le_value-lt n (drop off bs) (All-drop off bs o)
