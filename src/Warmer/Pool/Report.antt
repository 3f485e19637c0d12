-- ===== src/Warmer/Pool/Report.antt =====
-- vfs/forensic_warmer.cpp: when `report_summary` has been called, and what a second call does.
use mem_nix_fs.Base.{
  ℕ, ◌<◌, ◌≡◌, refl, ap, List, [], ◌∷◌, ◌++◌, Bool, true, ◌==◌, if◌then◌else◌, Bool-cases, inl, inr,
  arith,
}
use mem_nix_fs.Warmer.Pool.{
  Job, Pc, fetching, warming, sized, oversizing, counting, leaving, gone, Shared, Pool, Step,
  step_of, started, then_step, Run, launched, report_summary, worker_step,
}

pub if_true : {A : Type 0} (b : Bool) (x y : A) → b ≡ true → (if b then x else y) ≡ x
if_true b x y e = rw e refl

-- A pool without threads makes no step.
pub Run-idle : (job : Job) {p : Pool} → Run job (launched 0) p → p ≡ launched 0
Run-idle job started = refl
Run-idle job (then_step r s) = absurd (no_step s (Run-idle job r))
  where
    no_step : {p q : Pool} → Step job p q → p ≡ launched 0 → ⊥
    no_step (step_of s before pc after) e = no_thread before (ap (λ p. p.threads) e)
      where
        no_thread : (before : List Pc) → before ++ (pc ∷ after) ≡ [] → ⊥
        no_thread [] e = cc
        no_thread (b ∷ before) e = cc

report_summary-reported : (s : Shared) → (report_summary s).reported ≡ true
unfolding report_summary
report_summary-reported s = ground arith

-- A report that was made is not made again.
pub report_summary-same : (s : Shared) → s.reported ≡ true → report_summary s ≡ s
unfolding report_summary
report_summary-same s e = if_true s.reported _ _ e

-- The last worker has reported.
abbrev pub IsReported : Shared → Type 0
IsReported s = s.remaining_workers ≡ 0 → s.reported ≡ true

worker_step-IsReported :
    (job : Job) (s : Shared) (pc : Pc) → IsReported s → IsReported (worker_step job s pc).0
unfolding worker_step
worker_step-IsReported job s fetching r = r
worker_step-IsReported job s (warming i) r = r
worker_step-IsReported job s (sized sz) r = r
worker_step-IsReported job s oversizing r = r
worker_step-IsReported job s counting r = r
worker_step-IsReported job s leaving r = elim (Bool-cases (s.remaining_workers == 1)) [
  | inl last ↦ rw last (λ e. report_summary-reported _)
  | inr others ↦ rw others (λ e. r (ground arith))
]
worker_step-IsReported job s gone r = r

pub Run-IsReported :
    (job : Job) (n : ℕ) {p : Pool} → Run job (launched n) p → 0 < n → IsReported p.shared
Run-IsReported job n started h = λ e. absurd (omega arith)
Run-IsReported job n (then_step r (step_of s before pc after)) h =
    worker_step-IsReported job s pc (Run-IsReported job n r h)
