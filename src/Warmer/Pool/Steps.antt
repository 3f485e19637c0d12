-- ===== src/Warmer/Pool/Steps.antt =====
-- vfs/forensic_warmer.cpp: whatever the order of the workers' steps, every target is warmed once.
use mem_nix_fs.Base.{
  ℕ, ◌+◌, ◌<◌, ◌≤◌, ◌≡◌, ◌⊎◌, List, [], ◌∷◌, ◌++◌, length, min, Bool, true, false, ltb, ◌==◌,
  if◌then◌else◌, inl, inr, arith,
}
use mem_nix_fs.Warmer.Pool.{
  Job, Note, Shared, Pc, fetching, warming, sized, oversizing, counting, leaving, gone, Pool,
}

abbrev pub one_if : Bool → ℕ
one_if true = 1
one_if false = 0

-- How often `i` stands in a list.
abbrev pub times : ℕ → List ℕ → ℕ
times i [] = 0
times i (j ∷ js) = one_if (j == i) + times i js

-- A worker with target `i` in hand, one that has not left, and one that has seen the end.
abbrev pub has : ℕ → Pc → ℕ
has i fetching = 0
has i (warming j) = one_if (j == i)
has i (sized sz) = 0
has i oversizing = 0
has i counting = 0
has i leaving = 0
has i gone = 0

abbrev pub is_working : Pc → ℕ
is_working fetching = 1
is_working (warming j) = 1
is_working (sized sz) = 1
is_working oversizing = 1
is_working counting = 1
is_working leaving = 1
is_working gone = 0

abbrev pub has_left : Pc → ℕ
has_left fetching = 0
has_left (warming j) = 0
has_left (sized sz) = 0
has_left oversizing = 0
has_left counting = 0
has_left leaving = 1
has_left gone = 1

abbrev pub in_hand : Pc → ℕ
in_hand fetching = 0
in_hand (warming j) = 1
in_hand (sized sz) = 0
in_hand oversizing = 0
in_hand counting = 0
in_hand leaving = 0
in_hand gone = 0

-- A worker that has warmed a target and not counted it.
abbrev pub to_count : Pc → ℕ
to_count fetching = 0
to_count (warming j) = 0
to_count (sized sz) = 1
to_count oversizing = 1
to_count counting = 1
to_count leaving = 0
to_count gone = 0

abbrev pub sum : (Pc → ℕ) → List Pc → ℕ
sum f [] = 0
sum f (p ∷ ps) = f p + sum f ps

pub sum-append :
    (f : Pc → ℕ) (ps : List Pc) (p : Pc) (qs : List Pc)
    → sum f (ps ++ (p ∷ qs)) ≡ sum f ps + (f p + sum f qs)
sum-append f [] p qs = omega arith
sum-append f (r ∷ ps) p qs = omega (arith, sum-append f ps p qs)

-- The lines that were logged when the last worker has left.
abbrev pub summary : Shared → List Note
summary s =
    if s.warmed == 0
    then []
    else record { files = s.warmed; octets = s.total_bytes; over = s.oversized } ∷ []

pub summary-nothing : (s : Shared) → (s.warmed == 0) ≡ true → summary s ≡ []
summary-nothing s e = rw e

pub summary-something :
    (s : Shared)
    → (s.warmed == 0) ≡ false
    → summary s ≡ record { files = s.warmed; octets = s.total_bytes; over = s.oversized } ∷ []
summary-something s e = rw e

-- What holds of the pool at every moment.
pub record IsSound (job : Job) (p : Pool) : Type 0 where
  -- a target is warmed or in hand once, if it was handed out, and else not at all
  pub once :
      (i : ℕ)
      → i < job.targets
      → times i p.shared.warm_log + sum (has i) p.threads ≡ one_if (ltb i p.shared.next)
  pub never : (i : ℕ) → job.targets ≤ i → times i p.shared.warm_log + sum (has i) p.threads ≡ 0
  -- as many were handed out as `next` says
  pub handed : length p.shared.warm_log + sum in_hand p.threads ≡ min p.shared.next job.targets
  pub counted : p.shared.warmed + sum to_count p.threads ≡ length p.shared.warm_log
  -- the workers that are left are counted
  pub working : p.shared.remaining_workers ≡ sum is_working p.threads
  -- who has left has seen the end of the targets
  pub ended : 0 < sum has_left p.threads → job.targets ≤ p.shared.next
  -- nothing is reported before the last worker leaves, and all is then
  pub quiet : 0 < p.shared.remaining_workers → (p.shared.reported ≡ false) × (p.shared.notes ≡ [])
  pub told : p.shared.remaining_workers ≡ 0 → p.shared.notes ≡ summary p.shared

-- What a step has to do to keep it.
pub record Keeps (job : Job) (s : Shared) (pc : Pc) (r : Shared × Pc) : Type 0 where
  pub once :
      (i : ℕ)
      → i < job.targets
      → times i r.0.warm_log + (has i r.1 + one_if (ltb i s.next))
        ≡ times i s.warm_log + (has i pc + one_if (ltb i r.0.next))
  pub never :
      (i : ℕ) → job.targets ≤ i → times i r.0.warm_log + has i r.1 ≡ times i s.warm_log + has i pc
  pub handed :
      length r.0.warm_log + (in_hand r.1 + min s.next job.targets)
      ≡ length s.warm_log + (in_hand pc + min r.0.next job.targets)
  pub counted :
      r.0.warmed + (to_count r.1 + length s.warm_log)
      ≡ s.warmed + (to_count pc + length r.0.warm_log)
  pub working :
      is_working pc ≤ s.remaining_workers
      → r.0.remaining_workers + is_working pc ≡ s.remaining_workers + is_working r.1
  pub onward : s.next ≤ r.0.next
  pub ended : has_left r.1 ≤ has_left pc ⊎ (job.targets ≤ r.0.next)
  pub quiet :
      0 < r.0.remaining_workers
      → (s.reported ≡ false) × (s.notes ≡ [])
      → (r.0.reported ≡ false) × (r.0.notes ≡ [])
  pub grows : r.0.remaining_workers ≤ s.remaining_workers
  pub told :
      r.0.remaining_workers ≡ 0
      → (s.remaining_workers ≡ 0 → s.notes ≡ summary s)
      → (0 < s.remaining_workers → (s.reported ≡ false) × (s.notes ≡ []))
      → is_working pc ≤ s.remaining_workers
      → r.0.notes ≡ summary r.0

module _ (job : Job) (s : Shared) (before after : List Pc) (pc : Pc) (r : Shared × Pc) where
  pub Keeps-IsSound :
      Keeps job s pc r
      → IsSound job (record { shared = s; threads = before ++ (pc ∷ after) })
      → IsSound job (record { shared = r.0; threads = before ++ (r.1 ∷ after) })
  Keeps-IsSound k h =
      let at_work : is_working pc ≤ s.remaining_workers =
        omega (arith, h.working, sum-append is_working before pc after) in
      record {
        once = λ i b. omega (
          arith,
          sum-append (has i) before pc after,
          sum-append (has i) before r.1 after,
          h.once i b,
          k.once i b,
        );
        never = λ i b. omega (
          arith,
          sum-append (has i) before pc after,
          sum-append (has i) before r.1 after,
          h.never i b,
          k.never i b,
        );
        handed = omega (
          arith,
          sum-append in_hand before pc after,
          sum-append in_hand before r.1 after,
          h.handed,
          k.handed,
        );
        counted = omega (
          arith,
          sum-append to_count before pc after,
          sum-append to_count before r.1 after,
          h.counted,
          k.counted,
        );
        working = omega (
          arith,
          h.working,
          k.working at_work,
          sum-append is_working before pc after,
          sum-append is_working before r.1 after,
        );
        ended = λ l. elim k.ended [
          | inr past ↦ past
          | inl less ↦
              let was : job.targets ≤ s.next = h.ended (
                omega (
                  arith,
                  less,
                  l,
                  sum-append has_left before pc after,
                  sum-append has_left before r.1 after,
                )) in
              omega (arith, was, k.onward)
        ];
        quiet = λ l. k.quiet l (h.quiet (omega (arith, k.grows)));
        told = λ l. k.told l h.told h.quiet at_work;
      }
