-- ===== src/Base/Outcome.antt =====
-- What a C++ call can do: return, throw one of the program's errors (core/error.h), write outside
-- a buffer, or, in a model of a loop on fuel, not finish.
use Prim.Native.Nat.{ℕ}
use mathlib.Core.Path.{◌≡◌, refl, ap}
use mathlib.Core.Bool.{Bool, true, false}
use mathlib.Core.Logic.{◌≢◌, ◌⊎◌, inl, inr}
use mathlib.Core.Option.{Option, none, some}

-- One constructor for each `throw_error` of the modelled files, with the values that its message
-- is built from.
pub data Error : Type 0 where
  io_error : ℕ → ℕ → Error
  lime_short_header lime_trailing : ℕ → Error
  lime_bad_magic lime_bad_version lime_bad_range : ℕ → ℕ → Error
  lime_out_of_order : ℕ → Error
  lime_truncated : ℕ → ℕ → Error
  lime_no_segments : Error
  kdump_too_small kdump_not_elf kdump_not_elf64 kdump_not_little_endian kdump_no_headers : Error
  kdump_not_core kdump_bad_phentsize : ℕ → Error
  kdump_short_headers kdump_no_load : Error
  bad_alloc : ℕ → Error
  avml_frame_short : ℕ → ℕ → Error
  avml_probe_failed avml_decompress_failed : ℕ → Error
  avml_probe_length avml_frame_length : ℕ → ℕ → ℕ → Error
  avml_short_read avml_bad_magic avml_past_end avml_no_tag avml_tiny avml_bad_snappy : ℕ → Error
  avml_bad_version avml_bad_range avml_too_large : ℕ → ℕ → Error
  avml_unskippable : ℕ → Error
  avml_short_header avml_no_frames : Error
  not_a_directory not_a_file : ℕ → Error
  dtb_no_candidates : Error
  file_not_open : Error

pub data Result {ℓ} (A : Type ℓ) : Type ℓ where
  ok : A → Result A
  err : Error → Result A
  -- undefined behaviour: a write past the end of a buffer
  fault : Result A
  -- the fuel ran out; no value of the program
  stuck : Result A

-- What follows a call that returns; any other outcome ends the whole.
infixl 5 ◌>>=◌ ◌>>◌
abbrev pub ◌>>=◌ {ℓ κ} : {A : Type ℓ} {B : Type κ} → Result A → (A → Result B) → Result B
ok value >>= next = next value
err thrown >>= next = err thrown
fault >>= next = fault
stuck >>= next = stuck

-- `if (!test) throw_error(e)`
abbrev pub require : Bool → Error → Result (Unit {0})
require true e = ok tt
require false e = err e

pub require-eq-ok : (b : Bool) (e : Error) {u : Unit {0}} → require b e ≡ ok u → b ≡ true
require-eq-ok true e h = refl
require-eq-ok false e h = cc

abbrev pub ◌>>◌ {ℓ} : {B : Type ℓ} → Result (Unit {0}) → Result B → Result B
check >> rest = check >>= λ _. rest

-- A sequence returns only if its first call does, and the rest then does.
pub >>=-eq-ok {ℓ κ} :
    {A : Type ℓ} {B : Type κ} (step : Result A) (next : A → Result B) {out : B}
    → (step >>= next) ≡ ok out
    → (mid : A) × (step ≡ ok mid) × (next mid ≡ ok out)
>>=-eq-ok fault next e = cc
>>=-eq-ok stuck next e = cc
>>=-eq-ok (err thrown) next e = cc
>>=-eq-ok (ok mid) next e = (mid, refl, e)

-- A bind does not finish only if one of its parts does not.
pub >>=-eq-stuck {ℓ κ} :
    {A : Type ℓ} {B : Type κ} (m : Result A) (f : A → Result B)
    → (m >>= f) ≡ stuck
    → (m ≡ stuck) ⊎ ((a : A) × (m ≡ ok a) × (f a ≡ stuck))
>>=-eq-stuck (ok a) f h = inr (a, refl, h)
>>=-eq-stuck (err e) f h = cc
>>=-eq-stuck fault f h = cc
>>=-eq-stuck stuck f h = inl refl

value_or {ℓ} : {A : Type ℓ} → A → Result A → A
value_or d (ok a) = a
value_or d (err e) = d
value_or d fault = d
value_or d stuck = d

pub ok-injective {ℓ} : {A : Type ℓ} {a b : A} → ok a ≡ ok b → a ≡ b
unfolding value_or
ok-injective {a} p = ap (value_or a) p

-- The call returns.
abbrev pub IsOk {ℓ} : {A : Type ℓ} → Result A → Type ℓ
IsOk {A = A} r = (a : A) × (r ≡ ok a)

pub >>=-IsOk {ℓ κ} :
    {A : Type ℓ} {B : Type κ} (m : Result A) (f : A → Result B)
    → IsOk m
    → ((a : A) → IsOk (f a))
    → IsOk (m >>= f)
>>=-IsOk m f (a, e) h = rw e (h a)

value_of : ℕ → Option ℕ → ℕ
value_of d none = d
value_of d (some a) = a

pub ok_some-injective : {a b : ℕ} → ok (some a) ≡ ok (some b) → a ≡ b
unfolding value_of
ok_some-injective {a} p = ap (value_of a) (ok-injective p)

-- A sequence of calls that finish finishes.
pub >>=-ne-stuck {ℓ κ} :
    {A : Type ℓ} {B : Type κ} (m : Result A) (f : A → Result B)
    → m ≢ stuck
    → ((a : A) → f a ≢ stuck)
    → (m >>= f) ≢ stuck
>>=-ne-stuck (ok a) f h k e = k a e
>>=-ne-stuck (err thrown) f h k e = cc
>>=-ne-stuck fault f h k e = cc
>>=-ne-stuck stuck f h k e = h refl

pub require-ne-stuck : (b : Bool) (e : Error) → require b e ≢ stuck
require-ne-stuck true e h = cc
require-ne-stuck false e h = cc
