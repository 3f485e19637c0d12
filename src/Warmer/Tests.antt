-- ===== src/Warmer/Tests.antt =====
-- Runs of the warmer, and its theorems at concrete inputs.
use mem_nix_fs.Base.{
  ℕ, suc, ◌+◌, ◌*◌, ◌⊎◌, ◌<◌, ◌≤◌, ◌≡◌, refl, [], ◌∷◌, All, some, true, false, ltb, ◌==◌,
  if◌then◌else◌, arith, ok,
}
use mem_nix_fs.Vfs.Cost.{expensive, small, system_info}
use mem_nix_fs.Vfs.Tree.{Heap, Node, dir_node, lazy_file_node}
use mem_nix_fs.Warmer.Collect.{Policy, wants, collect, launch, stable_sort, insert_by, thread_count}
use mem_nix_fs.Warmer.Collect.Allowed.{IsAllowed, collect-IsAllowed}
use mem_nix_fs.Warmer.Collect.Order.{IsSorted, node_rank, launch-IsSorted}
use mem_nix_fs.Warmer.Pool.{
  Job, Shared, fetching, warming, sized, counting, leaving, gone, after_warm, after_size,
  worker_step, Pool, Step, step_of, Run, started, then_step, launched,
}
use mem_nix_fs.Warmer.Pool.Steps.{times, one_if, is_working, sum, summary}
use mem_nix_fs.Warmer.Pool.Once.{Run-once}
use mem_nix_fs.Warmer.Start.{
  ForensicWarmer, new_warmer, collect_and_launch, start, start_precompute, forensic, precompute,
  call, calls, join,
}
use mem_nix_fs.Warmer.Start.Once.{policy_of, join-once}
use mem_nix_fs.Warmer.Pool.Ends.{steps_made, Run-ends}

abbrev costly : Node
costly = record {
  name = 120 ∷ [];
  body = lazy_file_node (record {
    cost = record { compute = expensive; mem = small; category = system_info };
    content = record { producer = λ k. ok []; runs = 0; produced = []; loaded = false };
  });
}

-- A root with one file.
abbrev tree : Heap
tree = record {
  next = 2;
  node = λ i.
      if i == 0
      then record {
        name = [];
        body = dir_node (record { children = 1 ∷ []; names = (120 ∷ []) ∷ [] });
      }
      else costly;
}

abbrev policy : Policy
policy = record { mask = 2; warm_all = false }

tree_collected : collect 2 policy tree false 0 ≡ ok (1 ∷ [])
unfolding collect wants
tree_collected = refl

collect-IsAllowed_example : All (IsAllowed policy tree) (1 ∷ [])
collect-IsAllowed_example = collect-IsAllowed policy tree 2 false 0 (1 ∷ []) tree_collected

launch-IsSorted_example :
    IsSorted (node_rank tree) (launch tree 8 0 (0 ∷ 1 ∷ [])).0
    × ((i : ℕ) → times i (launch tree 8 0 (0 ∷ 1 ∷ [])).0 ≡ times i (0 ∷ 1 ∷ []))
    × (0 < (launch tree 8 0 (0 ∷ 1 ∷ [])).1)
    × ((launch tree 8 0 (0 ∷ 1 ∷ [])).1 ≤ 2)
launch-IsSorted_example = launch-IsSorted tree 8 0 0 (1 ∷ []) (omega arith)

-- One target and one worker, which fetches, warms, adds the size, counts, sees the end and leaves.
abbrev job : Job
job = record { targets = 1; warm_all = false; outcome = λ i. some 5 }

abbrev step_1 : Shared
step_1 = (worker_step job (launched 1).shared fetching).0

abbrev step_2 : Shared
step_2 = (worker_step job step_1 (warming 0)).0

abbrev step_3 : Shared
step_3 = (worker_step job step_2 (sized 5)).0

abbrev step_4 : Shared
step_4 = (worker_step job step_3 counting).0

abbrev step_5 : Shared
step_5 = (worker_step job step_4 fetching).0

abbrev step_6 : Shared
step_6 = (worker_step job step_5 leaving).0

abbrev at_end : Pool
at_end = record { shared = step_6; threads = gone ∷ [] }

warmed_run : Run job (launched 1) (record { shared = step_4; threads = fetching ∷ [] })
unfolding worker_step after_warm after_size
warmed_run =
    then_step
      (then_step
        (then_step (then_step started (step_of (launched 1).shared [] fetching []))
          (step_of step_1 [] (warming 0) []))
        (step_of step_2 [] (sized 5) []))
      (step_of step_3 [] counting [])

whole-Run : Run job (launched 1) at_end
unfolding worker_step
whole-Run =
    then_step (then_step warmed_run (step_of step_4 [] fetching [])) (step_of step_5 [] leaving [])

Run-once_example :
    ((i : ℕ) → times i at_end.shared.warm_log ≡ one_if (ltb i 1))
    × (at_end.shared.warmed ≡ 1)
    × (at_end.shared.notes ≡ summary at_end.shared)
Run-once_example = Run-once job 1 whole-Run (omega arith) refl

Run-ends_example :
    (steps_made whole-Run ≤ 5 * 1 + 2 * 1)
    × ((sum is_working at_end.threads ≡ 0)
        ⊎ ((q : Pool) × (s : Step job at_end q) × (steps_made (then_step whole-Run s)
              ≡ suc (steps_made whole-Run))))
Run-ends_example = Run-ends job 1 whole-Run

-- The tree's warmer, asked twice: the second call changes nothing.
abbrev warmer : ForensicWarmer
warmer = record { is_started = true; policy = policy; targets = 1 ∷ []; threads = 1 }

warmer_started : calls 2 tree 8 0 (forensic 2 1 ∷ precompute 3 4 ∷ []) new_warmer ≡ ok warmer
unfolding calls call start start_precompute collect_and_launch collect wants launch stable_sort
    insert_by thread_count
warmer_started = refl

-- No category is selected.
nothing_selected :
    calls 2 tree 8 0 (forensic 0 1 ∷ []) new_warmer ≡ ok (record new_warmer { is_started = true })
unfolding calls call start
nothing_selected = refl

join-once_example :
    (warmer.policy ≡ policy_of (forensic 2 1))
    × All (IsAllowed (policy_of (forensic 2 1)) tree) (1 ∷ [])
    × IsSorted (node_rank tree) (1 ∷ [])
    × ((i : ℕ) → times i at_end.shared.warm_log ≡ one_if (ltb i 1))
    × ((join warmer at_end).shared.notes ≡ summary at_end.shared)
    × (at_end.shared.warmed ≡ 1)
join-once_example =
    join-once 2 tree 8 0 (forensic 2 1) (precompute 3 4 ∷ []) warmer warmer_started (omega arith)
      (λ i. some 5) whole-Run refl
