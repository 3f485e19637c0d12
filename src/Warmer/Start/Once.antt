-- ===== src/Warmer/Start/Once.antt =====
-- vfs/forensic_warmer.cpp: from a new warmer to `join`, whatever it is asked and how its threads run.
use mem_nix_fs.Base.{
  ℕ, zero, suc, ◌^◌, ◌<◌, ◌≡◌, refl, ap, sym, subst, ◌∙◌, List, [], ◌∷◌, Option, true, false, All,
  length, ltb, ◌==◌, Bool-cases, inl, inr, arith, ok, >>=-eq-ok, ok-injective,
}
use mem_nix_fs.Vfs.Tree.{Heap}
use mem_nix_fs.Warmer.Collect.{Policy, collect, launch}
use mem_nix_fs.Warmer.Collect.Allowed.{IsAllowed, collect-IsAllowed}
use mem_nix_fs.Warmer.Collect.Order.{
  IsSorted, node_rank, launch-IsSorted, All-stable_sort, length-stable_sort,
}
use mem_nix_fs.Warmer.Pool.{Job, Shared, Pool, Run, launched, report_summary}
use mem_nix_fs.Warmer.Pool.Steps.{times, one_if, is_working, sum, summary}
use mem_nix_fs.Warmer.Pool.Report.{if_true, Run-idle, report_summary-same, Run-IsReported}
use mem_nix_fs.Warmer.Pool.Once.{Run-once, Run-IsSound}
use mem_nix_fs.Warmer.Start.{
  ForensicWarmer, new_warmer, collect_and_launch, start, start_precompute, Call, forensic,
  precompute, call, calls, job_of, join,
}

-- The mask of a call and its mode: `start_precompute` warms all, `start` what the mask selects.
abbrev pub policy_of : Call → Policy
policy_of (forensic mask jobs) = record { mask = mask; warm_all = false }
policy_of (precompute mask jobs) = record { mask = mask; warm_all = true }

module _ (fuel : ℕ) (h : Heap) (hw root : ℕ) where
  -- What a first call of the policy `q` leaves.
  record IsLaunched (q : Policy) (w : ForensicWarmer) : Type 0 where
    begun : w.is_started ≡ true
    kept : w.policy ≡ q
    allowed : All (IsAllowed w.policy h) w.targets
    sorted : length w.targets < 2 ^ 32 → IsSorted (node_rank h) w.targets
    manned : length w.targets < 2 ^ 32 → 0 < length w.targets → 0 < w.threads
    idle : length w.targets ≡ 0 → w.threads ≡ 0

  launch-IsLaunched :
      (p : Policy) (jobs : ℕ) (ts : List ℕ)
      → All (IsAllowed p h) ts
      → IsLaunched p (record {
        is_started = true;
        policy = p;
        targets = (launch h hw jobs ts).0;
        threads = (launch h hw jobs ts).1;
      })
  unfolding launch
  launch-IsLaunched p jobs [] a = record {
    begun = refl;
    kept = refl;
    allowed = tt;
    sorted = λ few. tt;
    manned = λ few some_left. absurd (omega arith);
    idle = λ e. refl;
  }
  launch-IsLaunched p jobs (t ∷ ts) a =
      let size = length-stable_sort (node_rank h) (t ∷ ts) in
      record {
        begun = refl;
        kept = refl;
        allowed = All-stable_sort (node_rank h) (IsAllowed p h) (t ∷ ts) a;
        sorted = λ few. (launch-IsSorted h hw jobs t ts (omega (arith, size))).0;
        manned = λ few some_left. (launch-IsSorted h hw jobs t ts (omega (arith, size))).2;
        idle = λ e. absurd (omega (arith, size));
      }

  launched_lem :
      (p : Policy) (jobs : ℕ) (w : ForensicWarmer)
      → collect_and_launch fuel h hw root jobs
          (record { is_started = true; policy = p; targets = []; threads = 0 })
        ≡ ok w
      → IsLaunched p w
  unfolding collect_and_launch
  launched_lem p jobs w e =
      let (found, got, rest) = >>=-eq-ok (collect fuel p h false root) _ e in
      subst (IsLaunched p) (ok-injective rest)
        (launch-IsLaunched p jobs found (collect-IsAllowed p h fuel false root found got))

  call-IsLaunched :
      (c : Call) (w : ForensicWarmer)
      → call fuel h hw root c new_warmer ≡ ok w
      → IsLaunched (policy_of c) w
  unfolding call start start_precompute
  call-IsLaunched (forensic mask jobs) w e = elim (Bool-cases (mask == 0)) [
    | inl nothing ↦
        subst (IsLaunched (policy_of (forensic mask jobs))) (ok-injective (rw nothing at e))
          (record {
            begun = refl;
            kept = refl;
            allowed = tt;
            sorted = λ few. tt;
            manned = λ few some_left. absurd (omega arith);
            idle = λ e. refl;
          })
    | inr wanted ↦ launched_lem (record { mask = mask; warm_all = false }) jobs w (rw wanted at e)
  ]
  call-IsLaunched (precompute mask jobs) w e =
      launched_lem (record { mask = mask; warm_all = true }) jobs w e

  -- A call of a started warmer changes nothing.
  call-started :
      (c : Call) (w : ForensicWarmer) → w.is_started ≡ true → call fuel h hw root c w ≡ ok w
  unfolding call start start_precompute
  call-started (forensic mask jobs) w e = if_true w.is_started _ _ e
  call-started (precompute mask jobs) w e = if_true w.is_started _ _ e

  calls-started :
      (cs : List Call) (w : ForensicWarmer) → w.is_started ≡ true → calls fuel h hw root cs w ≡ ok w
  unfolding calls
  calls-started [] w e = refl
  calls-started (c ∷ cs) w e = rw (call-started c w e) (calls-started cs w e)

-- What is to hold when all have left, of the shared state, for `n` targets.
record IsOver (n : ℕ) (s : Shared) : Type 0 where
  once : (i : ℕ) → times i s.warm_log ≡ one_if (ltb i n)
  noted : (report_summary s).notes ≡ summary s
  counted : s.warmed ≡ n

idle-IsOver : IsOver 0 (launched 0).shared
unfolding report_summary
idle-IsOver = record {
  once = λ i. (let late : ltb i 0 ≡ false = ground arith in rw late refl);
  noted = refl;
  counted = refl;
}

-- The threads of a pool that has some or has nothing to do.
pool-IsOver :
    (job : Job) (n : ℕ) {p : Pool}
    → Run job (launched n) p
    → sum is_working p.threads ≡ 0
    → (0 < job.targets → 0 < n)
    → (job.targets ≡ 0 → n ≡ 0)
    → IsOver job.targets p.shared
pool-IsOver job zero {p} run over some_thread none_left =
    let nothing : 0 ≡ job.targets = ground arith in
    subst (λ q. IsOver job.targets q.shared) (sym (Run-idle job run))
      (subst (λ t. IsOver t (launched 0).shared) nothing idle-IsOver)
pool-IsOver job (suc n) {p} run over some_thread none_left =
    let (once, counted, noted) = Run-once job (suc n) run (omega arith) over in
    let (sound, _) = Run-IsSound job (suc n) run (omega arith) in
    let reported = Run-IsReported job (suc n) run (omega arith) (sound.working ∙ over) in
    record {
      once = once;
      noted = ap (λ s. s.notes) (report_summary-same p.shared reported) ∙ noted;
      counted = counted;
    }

-- Whatever a new warmer is asked first and then, if that returns and there are fewer than 2 ^ 32
-- targets: however its threads run, once all have left, `join` leaves one summary with the final
-- counts, or none where nothing was warmed; the warmer has the mask and the mode of that first call,
-- whatever the later calls ask; every target is allowed by them, targets are in the order of their ranks, and each was warmed exactly once.
pub join-once :
    (fuel : ℕ) (h : Heap) (hw root : ℕ) (c : Call) (cs : List Call) (w : ForensicWarmer)
    → calls fuel h hw root (c ∷ cs) new_warmer ≡ ok w
    → length w.targets < 2 ^ 32
    → (outcome : ℕ → Option ℕ) {p : Pool} → Run (job_of w outcome) (launched w.threads) p
    → sum is_working p.threads ≡ 0
    → (w.policy ≡ policy_of c)
      × All (IsAllowed (policy_of c) h) w.targets
      × IsSorted (node_rank h) w.targets
      × ((i : ℕ) → times i p.shared.warm_log ≡ one_if (ltb i (length w.targets)))
      × ((join w p).shared.notes ≡ summary p.shared)
      × (p.shared.warmed ≡ length w.targets)
unfolding calls join
join-once fuel h hw root c cs w e few outcome {p} run over =
    let (w₁, first, rest) = >>=-eq-ok (call fuel h hw root c new_warmer) _ e in
    let started_by = call-IsLaunched fuel h hw root c w₁ first in
    let same : w₁ ≡ w =
      ok-injective (sym (calls-started fuel h hw root cs w₁ started_by.begun) ∙ rest) in
    let launch_of = subst (IsLaunched fuel h hw root (policy_of c)) same started_by in
    let joined : (join w p).shared ≡ report_summary p.shared =
      if_true w.is_started _ _ launch_of.begun in
    let last =
      pool-IsOver (job_of w outcome) w.threads run over (launch_of.manned few) launch_of.idle in
    (
      launch_of.kept,
      subst (λ q. All (IsAllowed q h) w.targets) launch_of.kept launch_of.allowed,
      launch_of.sorted few,
      last.once,
      ap (λ s. s.notes) joined ∙ last.noted,
      last.counted,
    )
