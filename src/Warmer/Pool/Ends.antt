-- ===== src/Warmer/Pool/Ends.antt =====
-- vfs/forensic_warmer.cpp: the workers come to their end, whatever the order of their steps.
use mem_nix_fs.Base.{
  ℕ, zero, suc, ◌+◌, ◌-◌, ◌*◌, ◌≡◌, ◌⊎◌, refl, List, [], ◌∷◌, ◌++◌, leb, ltb, not, ◌&&◌, ◌==◌, ◌≤◌,
  Option-cases, subst, sym, Bool-cases, inl, inr, arith, leb→le, leb→lt,
}
use mem_nix_fs.Warmer.Pool.{
  Job, Shared, Pc, fetching, warming, sized, oversizing, counting, leaving, gone, report_summary,
  warn_bytes, after_warm, after_size, worker_step, Pool, Step, step_of, Run, started, then_step,
  workers, launched,
}
use mem_nix_fs.Warmer.Pool.Steps.{is_working, sum, sum-append}

-- The steps that a worker has to make apart from warming the targets that are left.
abbrev pub due : Pc → ℕ
due fetching = 2
due (warming i) = 6
due (sized sz) = 5
due oversizing = 4
due counting = 3
due leaving = 1
due gone = 0

abbrev pub steps_left : Job → Pool → ℕ
steps_left job p = sum due p.threads + 5 * (job.targets - p.shared.next)

-- The steps of a run that are made by workers that have not gone.
abbrev pub steps_made : {job : Job} {start p : Pool} → Run job start p → ℕ
steps_made started = 0
steps_made (then_step r (step_of s before pc after)) = is_working pc + steps_made r

report_summary-next : (s : Shared) → (report_summary s).next ≡ s.next
unfolding report_summary
report_summary-next s = ground arith

-- A step takes one of the steps that are left at least.
worker_step-due :
    (job : Job) (s : Shared) (pc : Pc)
    → is_working pc
        + (due (worker_step job s pc).1 + 5 * (job.targets - (worker_step job s pc).0.next))
      ≤ due pc + 5 * (job.targets - s.next)
unfolding worker_step after_warm after_size
worker_step-due job s fetching = elim (Bool-cases (leb job.targets s.next)) [
  | inl over ↦ rw over (omega (arith, leb→le _ _ over))
  | inr more ↦ rw more (omega (arith, leb→lt _ _ more))
]
worker_step-due job s (warming i) = elim (Option-cases (job.outcome i)) [
  | inl failed ↦ rw (failed, after_warm) (omega arith)
  | inr (sz, e) ↦ rw (e, after_warm) (omega arith)
]
worker_step-due job s (sized sz) = elim (Bool-cases (not job.warm_all && ltb warn_bytes sz)) [
  | inl over ↦ rw over (omega arith)
  | inr small ↦ rw small (omega arith)
]
worker_step-due job s oversizing = omega arith
worker_step-due job s counting = omega arith
worker_step-due job s leaving = elim (Bool-cases (s.remaining_workers == 1)) [
  | inl last ↦ rw last (
      omega (arith, report_summary-next (record s { remaining_workers = s.remaining_workers - 1 })))
  | inr others ↦ rw others (omega arith)
]
worker_step-due job s gone = omega arith

due-workers : (n : ℕ) → sum due (workers n) ≡ 2 * n
due-workers zero = refl
due-workers (suc n) = omega (arith, due-workers n)

steps_made-left :
    (job : Job) (n : ℕ) {p : Pool} (r : Run job (launched n) p)
    → steps_made r + steps_left job p ≤ 5 * job.targets + 2 * n
steps_made-left job n started = omega (arith, due-workers n)
steps_made-left job n (then_step r (step_of s before pc after)) = omega (
  arith,
  steps_made-left job n r,
  worker_step-due job s pc,
  sum-append due before pc after,
  sum-append due before (worker_step job s pc).1 after,
)

-- A worker that has not gone, with the others around it.
find_working :
    (ps : List Pc)
    → (sum is_working ps ≡ 0)
      ⊎ ((before : List Pc) × (pc : Pc) × (after : List Pc) × (ps ≡ before ++ (pc ∷ after))
          × (is_working pc ≡ 1))
find_working [] = inl refl
find_working (fetching ∷ ps) = inr ([], fetching, ps, refl, refl)
find_working (warming i ∷ ps) = inr ([], warming i, ps, refl, refl)
find_working (sized sz ∷ ps) = inr ([], sized sz, ps, refl, refl)
find_working (oversizing ∷ ps) = inr ([], oversizing, ps, refl, refl)
find_working (counting ∷ ps) = inr ([], counting, ps, refl, refl)
find_working (leaving ∷ ps) = inr ([], leaving, ps, refl, refl)
find_working (gone ∷ ps) = elim (find_working ps) [
  | inl none_left ↦ inl (omega (arith, none_left))
  | inr (before, pc, after, e, works) ↦ inr (gone ∷ before, pc, after, rw e refl, works)
]

-- However the steps of `n` workers interleave, the workers that have not gone make 5 * t + 2 * n
-- steps in all at most, for t targets, and until all have gone one of them can make such a step: no order
-- of the steps keeps the pool from its end.
pub Run-ends :
    (job : Job) (n : ℕ) {p : Pool} (r : Run job (launched n) p)
    → (steps_made r ≤ 5 * job.targets + 2 * n)
      × ((sum is_working p.threads ≡ 0)
          ⊎ ((q : Pool) × (s : Step job p q) × (steps_made (then_step r s) ≡ suc (steps_made r))))
Run-ends job n {p} r = (
  omega (arith, steps_made-left job n r),
  elim (find_working p.threads) [
    | inl all_gone ↦ inl all_gone
    | inr (before, pc, after, e, works) ↦ inr (can_step before pc after e works)
  ],
)
  where
    can_step :
        (before : List Pc) (pc : Pc) (after : List Pc)
        → p.threads ≡ before ++ (pc ∷ after)
        → is_working pc ≡ 1
        → (q : Pool) × (s : Step job p q) × (steps_made (then_step r s) ≡ suc (steps_made r))
    can_step before pc after e works =
        subst
          (λ ts.
            (run : Run job (launched n) (record { shared = p.shared; threads = ts }))
            → (q : Pool) × (s : Step job (record { shared = p.shared; threads = ts }) q)
              × (steps_made (then_step run s) ≡ suc (steps_made run)))
          (sym e) (λ run. (_, step_of p.shared before pc after, omega (arith, works))) r
