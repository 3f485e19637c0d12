-- ===== src/Vfs/Lazy/History.antt =====
-- vfs/vfs.cpp: a lazy file under any sequence of calls.
use mem_nix_fs.Base.{
  ℕ, suc, ◌≡◌, refl, ap, subst, ◌∙◌, List, [], ◌∷◌, Bool, true, false, ◌||◌, length, if◌then◌else◌,
  Bool-cases, inl, inr, arith, min, leb, leb→le, leb→lt, ◌+◌, ◌-◌, Result, ok, ◌>>=◌,
}
use mem_nix_fs.Io.{bytes}
use mem_nix_fs.Io.Mmap.{content, slice-bytes}
use mem_nix_fs.Vfs.Cost.{FileCost, cheap_to_size}
use mem_nix_fs.Vfs.Lazy.{
  Memo, produce, ensure_loaded, LazyFileNode, loaded_then, lazy_size, lazy_size_hint, slice,
  lazy_read, lazy_warm,
}

pub data Call : Type 0 where
  size_call size_hint_call warm_call : Call
  read_call : ℕ → ℕ → Call

pub data Answer : Type 0 where
  number : ℕ → Answer
  octets : List ℕ → Answer
  returned : Answer

abbrev pub answer {ℓ} :
    {A : Type ℓ} → (A → Answer) → LazyFileNode × Result A → LazyFileNode × Result Answer
answer f (n, r) = (n, r >>= λ a. ok (f a))

-- One call on a lazy file.
abbrev pub call : LazyFileNode → Call → LazyFileNode × Result Answer
call n size_call = answer number (lazy_size n)
call n size_hint_call = answer number (lazy_size_hint n)
call n warm_call = answer (λ _. returned) (lazy_warm n)
call n (read_call offset len) = answer octets (lazy_read n offset len)

-- The node and the answers after calls in turn; an exception ends its call only.
abbrev pub calls : LazyFileNode → List Call → LazyFileNode × List (Result Answer)
calls n [] = (n, [])
calls n (c ∷ cs) = let (n', a) = call n c in let (last, rest) = calls n' cs in (last, a ∷ rest)

-- A file that is never lazy, whose reads give the bytes of its content from the offset on, as many as
-- are asked for or are left there, but for the size in a listing: 0 until something has touched it.
abbrev pub touches : FileCost → Call → Bool
touches cost size_call = true
touches cost size_hint_call = cheap_to_size cost
touches cost warm_call = true
touches cost (read_call offset len) = true

abbrev pub file_answer : FileCost → List ℕ → Bool → Call → Answer
file_answer cost c touched size_call = number (length c)
file_answer cost c touched size_hint_call =
    number (if touched || cheap_to_size cost then length c else 0)
file_answer cost c touched warm_call = returned
file_answer cost c touched (read_call offset len) =
    octets (bytes (content c) offset (min len (length c - offset)))

abbrev pub file_answers : FileCost → List ℕ → Bool → List Call → List (Result Answer)
file_answers cost c touched [] = []
file_answers cost c touched (k ∷ ks) =
    ok (file_answer cost c touched k) ∷ file_answers cost c (touched || touches cost k) ks

abbrev pub touched_by : FileCost → List Call → Bool
touched_by cost [] = false
touched_by cost (k ∷ ks) = touches cost k || touched_by cost ks

or_false : (b : Bool) → b ≡ (b || false)
or_false true = refl
or_false false = refl

or_assoc : (a b c : Bool) → (a || b || c) ≡ (a || (b || c))
or_assoc true b c = refl
or_assoc false b c = refl

slice-content :
    (c : List ℕ) (offset len : ℕ)
    → slice c offset len ≡ ok (bytes (content c) offset (min len (length c - offset)))
unfolding slice
slice-content c offset len = elim (Bool-cases (leb (length c) offset)) [
  | inl past ↦
      let e : min len (length c - offset) ≡ 0 = omega (arith, leb→le _ _ past) in rw (past, e)
  | inr inside ↦
      let n = min len (length c - offset) in
      let fits : leb (offset + n) (length c) ≡ true = ground (arith, leb→lt _ _ inside) in
      rw (inside, fits) (ap ok (slice-bytes offset n c (omega (arith, leb→lt _ _ inside))))
]

module _ (c : List ℕ) where
  -- Where a file stands whose producer returns `c` at every call.
  record IsAt (touched : Bool) (m : Memo (List ℕ)) : Type 0 where
    pure : (k : ℕ) → m.producer k ≡ ok c
    flag : m.loaded ≡ touched
    kept : touched ≡ true → m.produced ≡ c
    ran : m.runs ≡ (if touched then 1 else 0)

  ensure_loaded-IsAt :
      (t : Bool) (m : Memo (List ℕ))
      → IsAt t m
      → (m' : Memo (List ℕ)) × (ensure_loaded m ≡ (m', ok tt)) × (m'.produced ≡ c) × IsAt true m'
  unfolding ensure_loaded produce
  ensure_loaded-IsAt true m h = (m, rw h.flag, h.kept refl, h)
  ensure_loaded-IsAt false m h = (
    record m { runs = suc m.runs; produced = c; loaded = true },
    rw (h.flag, h.pure m.runs),
    refl,
    record { pure = h.pure; flag = refl; kept = λ e. refl; ran = ap suc h.ran },
  )

  loaded_then-IsAt {ℓ} :
      {A : Type ℓ} (t : Bool) (n : LazyFileNode) (f : List ℕ → A)
      → IsAt t n.content
      → (n' : LazyFileNode) × (loaded_then n (ensure_loaded n.content) f ≡ (n', ok (f c)))
        × (n'.cost ≡ n.cost)
        × IsAt true n'.content
  unfolding loaded_then
  loaded_then-IsAt t n f h =
      let (m, e, d, there) = ensure_loaded-IsAt t n.content h in
      (record n { content = m }, rw (e, d), refl, there)

  -- What a call on a file at `touched` gives, and where it leaves the file.
  abbrev Gives : Bool → LazyFileNode → Call → Type 0
  Gives t n k =
      (n' : LazyFileNode) × (call n k ≡ (n', ok (file_answer n.cost c t k)))
      × (n'.cost ≡ n.cost)
      × IsAt (t || touches n.cost k) n'.content

  IsAt-touched : (t : Bool) {m : Memo (List ℕ)} → IsAt true m → IsAt (t || true) m
  IsAt-touched true h = h
  IsAt-touched false h = h

  size_hint-unloaded :
      (n : LazyFileNode)
      → n.content.loaded ≡ false
      → lazy_size_hint n ≡ (
          if cheap_to_size n.cost
          then loaded_then n (ensure_loaded n.content) length
          else (n, ok 0))
  unfolding lazy_size_hint
  size_hint-unloaded n h = rw h

  size_hint-loaded :
      (n : LazyFileNode)
      → n.content.loaded ≡ true
      → lazy_size_hint n ≡ (n, ok (length n.content.produced))
  unfolding lazy_size_hint
  size_hint-loaded n h = rw h

  size_hint-Gives : (t : Bool) (n : LazyFileNode) → IsAt t n.content → Gives t n size_hint_call
  size_hint-Gives true n h = (
    n,
    ap (answer number) (size_hint-loaded n h.flag)
        ∙ ap (λ d. (n, ok (number (length d)))) (h.kept refl),
    refl,
    h,
  )
  size_hint-Gives false n h =
      let (n', e, cost, there) = loaded_then-IsAt false n length h in
      let hint = size_hint-unloaded n h.flag in
      elim (Bool-cases (cheap_to_size n.cost)) [
        | inl trivial ↦
            (n', rw trivial (ap (answer number) (rw trivial at hint ∙ e)), cost, rw trivial there)
        | inr costly ↦ (n, rw costly (ap (answer number) (rw costly at hint)), refl, rw costly h)
      ]

  call-Gives : (t : Bool) (n : LazyFileNode) (k : Call) → IsAt t n.content → Gives t n k
  unfolding lazy_size lazy_read lazy_warm
  call-Gives t n size_call h =
      let (n', e, cost, there) = loaded_then-IsAt t n length h in
      (n', ap (answer number) e, cost, IsAt-touched t there)
  call-Gives t n warm_call h =
      let (n', e, cost, there) = loaded_then-IsAt {0} t n (λ _. tt) h in
      (n', ap (answer (λ _. returned)) e, cost, IsAt-touched t there)
  call-Gives t n (read_call offset len) h =
      let (n', e, cost, there) = loaded_then-IsAt t n (λ bs. slice bs offset len) h in
      (
        n',
        ap (λ p. answer octets (p.0, p.1 >>= λ got. got)) e
            ∙ ap (λ d. answer octets (n', d)) (slice-content c offset len),
        cost,
        IsAt-touched t there,
      )
  call-Gives t n size_hint_call h = size_hint-Gives t n h

  -- A call on a file whose cost is known.
  call-IsAt :
      (t : Bool) (cost : FileCost) (n : LazyFileNode) (k : Call)
      → n.cost ≡ cost
      → IsAt t n.content
      → (n' : LazyFileNode) × (call n k ≡ (n', ok (file_answer cost c t k)))
        × (n'.cost ≡ cost)
        × IsAt (t || touches cost k) n'.content
  call-IsAt t cost n k same h =
      subst
        (λ x.
          (n' : LazyFileNode) × (call n k ≡ (n', ok (file_answer x c t k)))
          × (n'.cost ≡ x)
          × IsAt (t || touches x k) n'.content)
        same (call-Gives t n k h)

  calls-file_answers :
      (t : Bool) (cost : FileCost) (n : LazyFileNode) (ks : List Call)
      → n.cost ≡ cost
      → IsAt t n.content
      → ((calls n ks).1 ≡ file_answers cost c t ks)
        × IsAt (t || touched_by cost ks) (calls n ks).0.content
  calls-file_answers t cost n [] same h = (refl, subst (λ b. IsAt b n.content) (or_false t) h)
  calls-file_answers t cost n (k ∷ ks) same h =
      let (n', e, same', there) = call-IsAt t cost n k same h in
      let (answers, last) = calls-file_answers (t || touches cost k) cost n' ks same' there in
      (
        rw e (ap (λ rest. ok (file_answer cost c t k) ∷ rest) answers),
        rw e (subst (λ b. IsAt b (calls n' ks).0.content) (or_assoc t _ _) last),
      )

-- A lazy file that nothing has touched and whose producer always returns `c`, under any sequence
-- of calls, answers each as a file would that holds `c` from the start, but for the size in a
-- listing: that is 0 until a call loads the content, unless the file is tagged as cheap to size.
-- The producer runs once if a call loads, and else never.
pub calls-IsFile :
    (n : LazyFileNode) (c : List ℕ) (ks : List Call)
    → ((k : ℕ) → n.content.producer k ≡ ok c)
    → n.content.loaded ≡ false
    → n.content.runs ≡ 0
    → ((calls n ks).1 ≡ file_answers n.cost c false ks)
      × ((calls n ks).0.content.runs ≡ (if touched_by n.cost ks then 1 else 0))
calls-IsFile n c ks pure flag ran =
    let (answers, last) =
      calls-file_answers c false n.cost n ks refl
        (record { pure = pure; flag = flag; kept = λ e. absurd (cc); ran = ran }) in
    (answers, last.ran)
