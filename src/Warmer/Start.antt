-- ===== src/Warmer/Start.antt =====
-- vfs/forensic_warmer.cpp: `start`, `start_precompute` and `join`, from the calls to the pool.
pub mod Once
use mem_nix_fs.Base.{
  ℕ, List, [], ◌∷◌, ◌++◌, Option, Bool, true, false, length, ◌==◌, if◌then◌else◌, Result, ok, ◌>>=◌,
}
use mem_nix_fs.Vfs.Tree.{Heap}
use mem_nix_fs.Warmer.Collect.{Policy, collect, launch}
use mem_nix_fs.Warmer.Pool.{Job, Shared, Pool, report_summary}

-- `started_`, `mask_` with `warm_all_`, `targets_`, and the number of `threads_` that were launched.
pub record ForensicWarmer : Type 0 where
  pub is_started : Bool
  pub policy : Policy
  pub targets : List ℕ
  pub threads : ℕ

-- The members' initial values.
abbrev pub new_warmer : ForensicWarmer
new_warmer = record {
  is_started = false;
  policy = record { mask = 0; warm_all = false };
  targets = [];
  threads = 0;
}

-- `collect` and `launch`; `hw` is hardware_concurrency().
unfoldable pub collect_and_launch : ℕ → Heap → ℕ → ℕ → ℕ → ForensicWarmer → Result ForensicWarmer
collect_and_launch fuel h hw root jobs w = do
  found ← collect fuel w.policy h false root
  let started = launch h hw jobs (w.targets ++ found)
  ok (record w { targets = started.0; threads = started.1 })

-- `start`
unfoldable pub start : ℕ → Heap → ℕ → ℕ → ℕ → ℕ → ForensicWarmer → Result ForensicWarmer
start fuel h hw root category_mask jobs w =
    let set = record w {
      is_started = true;
      policy = record { mask = category_mask; warm_all = w.policy.warm_all };
    } in
    let begun = collect_and_launch fuel h hw root jobs set in
    if w.is_started then ok w else (if category_mask == 0 then ok set else begun)

-- `start_precompute`
unfoldable pub start_precompute : ℕ → Heap → ℕ → ℕ → ℕ → ℕ → ForensicWarmer → Result ForensicWarmer
start_precompute fuel h hw root extra_mask jobs w =
    let set = record w {
      is_started = true;
      policy = record { mask = extra_mask; warm_all = true };
    } in
    let begun = collect_and_launch fuel h hw root jobs set in if w.is_started then ok w else begun

-- A call of one of the two, with its mask and its number of jobs.
pub data Call : Type 0 where
  forensic precompute : ℕ → ℕ → Call

unfoldable pub call : ℕ → Heap → ℕ → ℕ → Call → ForensicWarmer → Result ForensicWarmer
call fuel h hw root (forensic mask jobs) w = start fuel h hw root mask jobs w
call fuel h hw root (precompute mask jobs) w = start_precompute fuel h hw root mask jobs w

unfoldable pub calls : ℕ → Heap → ℕ → ℕ → List Call → ForensicWarmer → Result ForensicWarmer
calls fuel h hw root [] w = ok w
calls fuel h hw root (c ∷ cs) w = call fuel h hw root c w >>= λ w'. calls fuel h hw root cs w'

-- What the pool of a warmer works on, for what warming each target comes to.
abbrev pub job_of : ForensicWarmer → (ℕ → Option ℕ) → Job
job_of w outcome = record {
  targets = length w.targets;
  warm_all = w.policy.warm_all;
  outcome = outcome;
}

-- `join`, behind the wait for the threads.
unfoldable pub join : ForensicWarmer → Pool → Pool
join w p = record {
  shared = if w.is_started then report_summary p.shared else p.shared;
  threads = [];
}
