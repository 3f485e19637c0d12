-- ===== src/Warmer/Pool/Kept.antt =====
-- vfs/forensic_warmer.cpp: each step of a worker keeps what holds of the pool at every moment.
use mem_nix_fs.Base.{
  ℕ, suc, ◌+◌, ◌-◌, ◌<◌, ◌≤◌, ◌≡◌, refl, ap, sym, subst, ◌∙◌, [], ◌∷◌, ◌++◌, true, false, not, ◌&&◌,
  ltb, leb, ◌==◌, ==_iff, if◌then◌else◌, Bool-cases, Option-cases, inl, inr, arith, leb→le, leb→lt,
}
use mem_nix_fs.Warmer.Pool.{
  Job, Shared, Pc, fetching, warming, sized, oversizing, counting, leaving, gone, report_summary,
  warn_bytes, after_warm, after_size, worker_step, Pool, Step, step_of,
}
use mem_nix_fs.Warmer.Pool.Steps.{
  has, is_working, has_left, in_hand, to_count, summary, summary-nothing, summary-something,
  IsSound, Keeps, Keeps-IsSound,
}

module _ (job : Job) (s : Shared) where
  fetching-past :
      leb job.targets s.next ≡ true
      → worker_step job s fetching ≡ (record s { next = suc s.next }, leaving)
  unfolding worker_step
  fetching-past e = rw e

  fetching-more :
      leb job.targets s.next ≡ false
      → worker_step job s fetching ≡ (record s { next = suc s.next }, warming s.next)
  unfolding worker_step
  fetching-more e = rw e

  Keeps-leaving :
      job.targets ≤ s.next → Keeps job s fetching (record s { next = suc s.next }, leaving)
  Keeps-leaving past = record {
    once = λ i b. ground arith;
    never = λ i b. refl;
    handed = omega arith;
    counted = omega arith;
    working = λ w. refl;
    onward = omega arith;
    ended = inr (omega arith);
    quiet = λ l q. q;
    grows = omega arith;
    told = λ l t q w. absurd (omega arith);
  }

  Keeps-warming :
      s.next < job.targets → Keeps job s fetching (record s { next = suc s.next }, warming s.next)
  Keeps-warming more = record {
    once = λ i b. ground arith;
    never = λ i b. ground arith;
    handed = omega arith;
    counted = omega arith;
    working = λ w. refl;
    onward = omega arith;
    ended = inl (omega arith);
    quiet = λ l q. q;
    grows = omega arith;
    told = λ l t q w. absurd (omega arith);
  }

  fetching-Keeps : Keeps job s fetching (worker_step job s fetching)
  fetching-Keeps = elim (Bool-cases (leb job.targets s.next)) [
    | inl past ↦
        subst (Keeps job s fetching) (sym (fetching-past past)) (Keeps-leaving (leb→le _ _ past))
    | inr more ↦
        subst (Keeps job s fetching) (sym (fetching-more more)) (Keeps-warming (leb→lt _ _ more))
  ]

  Keeps-warmed :
      (j : ℕ) (pc : Pc)
      → ((i : ℕ) → has i pc ≡ 0)
      → in_hand pc ≡ 0
      → to_count pc ≡ 1
      → is_working pc ≡ 1
      → has_left pc ≡ 0
      → Keeps job s (warming j) (record s { warm_log = j ∷ s.warm_log }, pc)
  Keeps-warmed j pc lacks empty uncounted works stays = record {
    once = λ i b. omega (arith, lacks i);
    never = λ i b. omega (arith, lacks i);
    handed = omega (arith, empty);
    counted = omega (arith, uncounted);
    working = λ w. omega (arith, works);
    onward = omega arith;
    ended = inl (omega (arith, stays));
    quiet = λ l q. q;
    grows = omega arith;
    told = λ l t q w. absurd (omega arith);
  }

  warming-Keeps : (j : ℕ) → Keeps job s (warming j) (worker_step job s (warming j))
  unfolding worker_step after_warm
  warming-Keeps j = elim (Option-cases (job.outcome j)) [
    | inl failed ↦ rw (failed, after_warm) (Keeps-warmed j counting (λ i. refl) refl refl refl refl)
    | inr (sz, e) ↦ rw (e, after_warm) (Keeps-warmed j (sized sz) (λ i. refl) refl refl refl refl)
  ]

  -- A step that adds to a counter, of a worker that has no target in hand before or after.
  Keeps-added :
      (pc next : Pc) (s' : Shared)
      → ((i : ℕ) → has i pc ≡ 0) × (in_hand pc ≡ 0) × (is_working pc ≡ 1)
      → ((i : ℕ) → has i next ≡ 0)
        × (in_hand next ≡ 0)
        × (is_working next ≡ 1)
        × (has_left next ≡ 0)
      → (s'.next ≡ s.next)
        × (s'.remaining_workers ≡ s.remaining_workers)
        × (s'.reported ≡ s.reported)
        × (s'.warm_log ≡ s.warm_log)
        × (s'.notes ≡ s.notes)
      → s'.warmed + to_count next ≡ s.warmed + to_count pc
      → Keeps job s pc (s', next)
  Keeps-added pc next s' (lacks, empty, works) (lacks', empty', works', stays)
        (at, left, told, log, notes) counts =
      record {
        once = λ i b. rw (log, at) (omega (arith, lacks i, lacks' i));
        never = λ i b. rw log (omega (arith, lacks i, lacks' i));
        handed = rw (log, at) (omega (arith, empty, empty'));
        counted = rw log (omega (arith, counts));
        working = λ w. omega (arith, left, works, works');
        onward = omega (arith, at);
        ended = inl (omega (arith, stays));
        quiet = λ l q. (told ∙ q.0, notes ∙ q.1);
        grows = omega (arith, left);
        told = λ l t q w. absurd (omega (arith, left, works));
      }

  sized-Keeps : (sz : ℕ) → Keeps job s (sized sz) (worker_step job s (sized sz))
  unfolding worker_step after_size
  sized-Keeps sz = elim (Bool-cases (not job.warm_all && ltb warn_bytes sz)) [
    | inl over ↦ rw over (
        Keeps-added (sized sz) oversizing _ (λ i. refl, refl, refl) (λ i. refl, refl, refl, refl)
          (refl, refl, refl, refl, refl) refl)
    | inr small ↦ rw small (
        Keeps-added (sized sz) counting _ (λ i. refl, refl, refl) (λ i. refl, refl, refl, refl)
          (refl, refl, refl, refl, refl) refl)
  ]

  oversizing-Keeps : Keeps job s oversizing (worker_step job s oversizing)
  unfolding worker_step
  oversizing-Keeps =
      Keeps-added oversizing counting _ (λ i. refl, refl, refl) (λ i. refl, refl, refl, refl)
        (refl, refl, refl, refl, refl) refl

  counting-Keeps : Keeps job s counting (worker_step job s counting)
  unfolding worker_step
  counting-Keeps =
      Keeps-added counting fetching _ (λ i. refl, refl, refl) (λ i. refl, refl, refl, refl)
        (refl, refl, refl, refl, refl) (omega arith)

  -- What the report leaves of the counters `t`.
  Reports : Shared → Shared → Type 0
  Reports t u =
      (t.notes ≡ [] → u.notes ≡ summary u)
      × (u.warmed ≡ t.warmed)
      × (u.warm_log ≡ t.warm_log)
      × (u.next ≡ t.next)
      × (u.remaining_workers ≡ t.remaining_workers)

  report_summary-first :
      (t : Shared)
      → t.reported ≡ false
      → report_summary t ≡ (
          if t.warmed == 0 then record t { reported = true } else record t {
            reported = true;
            notes =
                t.notes
                ++ (record { files = t.warmed; octets = t.total_bytes; over = t.oversized } ∷ []);
          })
  unfolding report_summary
  report_summary-first t e = rw e

  report_summary-Reports : (t : Shared) → t.reported ≡ false → Reports t (report_summary t)
  unfolding Reports
  report_summary-Reports t e = elim (Bool-cases (t.warmed == 0)) [
    | inl nothing ↦
        subst (Reports t) (sym (rw nothing at (report_summary-first t e)))
          (λ n. n ∙ sym (summary-nothing t nothing), refl, refl, refl, refl)
    | inr something ↦ subst (Reports t) (sym (rw something at (report_summary-first t e))) (
      λ n.
          ap
            (λ l.
              l ++ (record { files = t.warmed; octets = t.total_bytes; over = t.oversized } ∷ []))
            n
          ∙ sym (summary-something t something),
      refl,
      refl,
      refl,
      refl,
    )
  ]

  leaving-last :
      s.remaining_workers ≡ 1
      → worker_step job s leaving ≡ (report_summary (record s { remaining_workers = 0 }), gone)
  unfolding worker_step
  leaving-last e = rw e

  leaving-other :
      (s.remaining_workers == 1) ≡ false
      → worker_step job s leaving ≡ (record s { remaining_workers = s.remaining_workers - 1 }, gone)
  unfolding worker_step
  leaving-other e = rw e

  Keeps-other :
      (s.remaining_workers == 1) ≡ false
      → Keeps job s leaving (record s { remaining_workers = s.remaining_workers - 1 }, gone)
  Keeps-other e = record {
    once = λ i b. refl;
    never = λ i b. refl;
    handed = omega arith;
    counted = omega arith;
    working = λ w. omega arith;
    onward = omega arith;
    ended = inl (omega arith);
    quiet = λ l q. q;
    grows = omega arith;
    told = λ l t q w. absurd (ground arith);
  }

  Keeps-last :
      s.remaining_workers ≡ 1
      → (u : Shared) → (s.reported ≡ false → s.notes ≡ [] → u.notes ≡ summary u)
      → u.warmed ≡ s.warmed
      → u.warm_log ≡ s.warm_log
      → u.next ≡ s.next
      → u.remaining_workers ≡ 0
      → Keeps job s leaving (u, gone)
  Keeps-last e u notes warmed log next left = record {
    once = λ i b. rw (log, next) refl;
    never = λ i b. rw log refl;
    handed = rw (log, next) refl;
    counted = rw (warmed, log) refl;
    working = λ w. omega (arith, left, e);
    onward = omega (arith, next);
    ended = inl (omega arith);
    quiet = λ l q. absurd (omega (arith, left));
    grows = omega (arith, left);
    told = λ l t q w. let (a, b) = q (omega (arith, e)) in notes a b;
  }

  report_summary-again : (t : Shared) → t.reported ≡ true → report_summary t ≡ t
  unfolding report_summary
  report_summary-again t e = rw e

  last-Keeps : s.remaining_workers ≡ 1 → Keeps job s leaving (worker_step job s leaving)
  unfolding Reports
  last-Keeps e =
      let t : Shared = record s { remaining_workers = 0 } in
      elim (Bool-cases s.reported) [
        | inl before ↦
            subst (Keeps job s leaving)
              (sym (leaving-last e ∙ ap (λ u. (u, gone)) (report_summary-again t before)))
              (Keeps-last e t (λ a b. let no : true ≡ false = sym before ∙ a in absurd (cc)) refl
                refl refl refl)
        | inr first ↦
            let (notes, warmed, log, next, left) = report_summary-Reports t first in
            subst (Keeps job s leaving) (sym (leaving-last e))
              (Keeps-last e (report_summary t) (λ a b. notes b) warmed log next left)
      ]

  leaving-Keeps : Keeps job s leaving (worker_step job s leaving)
  leaving-Keeps = elim (Bool-cases (s.remaining_workers == 1)) [
    | inl last ↦ last-Keeps ((==_iff _ _).0 last)
    | inr other ↦ subst (Keeps job s leaving) (sym (leaving-other other)) (Keeps-other other)
  ]

  gone-Keeps : Keeps job s gone (worker_step job s gone)
  unfolding worker_step
  gone-Keeps = record {
    once = λ i b. refl;
    never = λ i b. refl;
    handed = omega arith;
    counted = omega arith;
    working = λ w. refl;
    onward = omega arith;
    ended = inl (omega arith);
    quiet = λ l q. q;
    grows = omega arith;
    told = λ l t q w. t l;
  }

pub Step-IsSound : (job : Job) {p q : Pool} → Step job p q → IsSound job p → IsSound job q
Step-IsSound job (step_of s before fetching after) h =
    Keeps-IsSound job s before after fetching _ (fetching-Keeps job s) h
Step-IsSound job (step_of s before (warming j) after) h =
    Keeps-IsSound job s before after (warming j) _ (warming-Keeps job s j) h
Step-IsSound job (step_of s before (sized sz) after) h =
    Keeps-IsSound job s before after (sized sz) _ (sized-Keeps job s sz) h
Step-IsSound job (step_of s before oversizing after) h =
    Keeps-IsSound job s before after oversizing _ (oversizing-Keeps job s) h
Step-IsSound job (step_of s before counting after) h =
    Keeps-IsSound job s before after counting _ (counting-Keeps job s) h
Step-IsSound job (step_of s before leaving after) h =
    Keeps-IsSound job s before after leaving _ (leaving-Keeps job s) h
Step-IsSound job (step_of s before gone after) h =
    Keeps-IsSound job s before after gone _ (gone-Keeps job s) h
