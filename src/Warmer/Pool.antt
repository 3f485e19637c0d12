-- ===== src/Warmer/Pool.antt =====
-- vfs/forensic_warmer.cpp: `worker` and `report_summary`, run by several threads. The threads share
-- atomic counters; a run is a sequence of the atomic steps of the threads, in any order.
pub mod Steps
pub mod Kept
pub mod Once
pub mod Ends
pub mod Report
use mem_nix_fs.Base.{
  ℕ, zero, suc, ◌+◌, ◌-◌, ◌*◌, ◌%◌, List, [], ◌∷◌, ◌++◌, Option, none, some, Bool, true, false, not,
  ◌&&◌, ltb, leb, ◌==◌, if◌then◌else◌,
}
use mem_nix_fs.Base.Word.{u64_mod}

-- kWarnBytes
abbrev pub warn_bytes : ℕ
warn_bytes = 16 * 1024 * 1024

-- What the pool was started with: the number of `targets_`, `warm_all_`, and what warming target
-- `i` comes to: its size in a listing, or none where it throws.
pub record Job : Type 0 where
  pub targets : ℕ
  pub warm_all : Bool
  pub outcome : ℕ → Option ℕ

-- The line that `report_summary` logs: the counts of files, of bytes and of oversized files.
pub record Note : Type 0 where
  pub files : ℕ
  pub octets : ℕ
  pub over : ℕ

-- The atomic members, and what is done once: `warm_log` holds the targets in the order in which
-- they were warmed, `notes` the lines that were logged.
pub record Shared : Type 0 where
  pub next : ℕ
  pub warmed : ℕ
  pub oversized : ℕ
  pub total_bytes : ℕ
  pub remaining_workers : ℕ
  pub reported : Bool
  pub warm_log : List ℕ
  pub notes : List Note

-- Where a worker stands: before `next_.fetch_add`, with target `i` in hand, with the size of a target
-- that it has warmed, before the other two additions, behind the loop, or at its end.
pub data Pc : Type 0 where
  fetching : Pc
  warming : ℕ → Pc
  sized : ℕ → Pc
  oversizing : Pc
  counting : Pc
  leaving : Pc
  gone : Pc

-- `report_summary`
unfoldable pub report_summary : Shared → Shared
report_summary s =
    if s.reported
    then s
    else (if s.warmed == 0 then record s { reported = true } else record s {
      reported = true;
      notes =
          s.notes ++ (record { files = s.warmed; octets = s.total_bytes; over = s.oversized } ∷ []);
    })

-- Behind `n->warm()` and `n->size_hint()` for target `i`, which throw or come to a size.
unfoldable pub after_warm : Job → ℕ → Pc
after_warm job i = elim (job.outcome i) [ none ↦ counting | some sz ↦ sized sz ]

-- Behind `total_bytes_.fetch_add`.
unfoldable pub after_size : Job → ℕ → Pc
after_size job sz = if not job.warm_all && ltb warn_bytes sz then oversizing else counting

-- The step of a worker that stands at this place, and where it goes.
unfoldable pub worker_step : Job → Shared → Pc → Shared × Pc
worker_step job s fetching =
    (record s { next = suc s.next }, if leb job.targets s.next then leaving else warming s.next)
worker_step job s (warming i) = (record s { warm_log = i ∷ s.warm_log }, after_warm job i)
worker_step job s (sized sz) =
    (record s { total_bytes = (s.total_bytes + sz) % u64_mod }, after_size job sz)
worker_step job s oversizing = (record s { oversized = suc s.oversized }, counting)
worker_step job s counting = (record s { warmed = suc s.warmed }, fetching)
worker_step job s leaving =
    let s' = record s { remaining_workers = s.remaining_workers - 1 } in
    (if s.remaining_workers == 1 then report_summary s' else s', gone)
worker_step job s gone = (s, gone)

-- A pool of workers, and a step of one of them.
pub record Pool : Type 0 where
  pub shared : Shared
  pub threads : List Pc

pub data Step (job : Job) : Pool → Pool → Type 0 where
  step_of :
      (s : Shared) (before : List Pc) (pc : Pc) (after : List Pc)
      → Step job
          (record { shared = s; threads = before ++ (pc ∷ after) })
          (record {
            shared = (worker_step job s pc).0;
            threads = before ++ ((worker_step job s pc).1 ∷ after);
          })

pub data Run (job : Job) (start : Pool) : Pool → Type 0 where
  started : Run job start start
  then_step : {p q : Pool} → Run job start p → Step job p q → Run job start q

abbrev pub workers : ℕ → List Pc
workers zero = []
workers (suc n) = fetching ∷ workers n

-- The pool as `launch` starts it, with `n` workers.
abbrev pub launched : ℕ → Pool
launched n = record {
  shared = record {
    next = 0;
    warmed = 0;
    oversized = 0;
    total_bytes = 0;
    remaining_workers = n;
    reported = false;
    warm_log = [];
    notes = [];
  };
  threads = workers n;
}
