-- ===== src/Warmer/Pool/Once.antt =====
-- vfs/forensic_warmer.cpp: when the last worker is gone, every target was warmed, once.
use mem_nix_fs.Base.{
  ℕ, zero, suc, ◌<◌, ◌≡◌, refl, ap, sym, ◌∙◌, List, [], ◌∷◌, length, length-append, true, false,
  ltb, arith, Bool-cases, inl, inr, ltb→lt, ltb→le,
}
use mem_nix_fs.Warmer.Pool.{
  Job, Pc, fetching, warming, sized, oversizing, counting, leaving, gone, Pool, Step, step_of, Run,
  started, then_step, workers, launched,
}
use mem_nix_fs.Warmer.Pool.Kept.{Step-IsSound}
use mem_nix_fs.Warmer.Pool.Steps.{
  times, one_if, has, is_working, has_left, in_hand, to_count, sum, summary, IsSound,
}

sum-workers :
    (n i : ℕ)
    → (sum (has i) (workers n) ≡ 0)
      × (sum in_hand (workers n) ≡ 0)
      × (sum is_working (workers n) ≡ n)
      × (sum has_left (workers n) ≡ 0)
      × (length (workers n) ≡ n)
      × (sum to_count (workers n) ≡ 0)
sum-workers zero i = (refl, refl, refl, refl, refl, refl)
sum-workers (suc n) i =
    let (a, b, c, d, e, f) = sum-workers n i in
    (
      omega (arith, a),
      omega (arith, b),
      omega (arith, c),
      omega (arith, d),
      ap suc e,
      omega (arith, f),
    )

launched-IsSound : (job : Job) (n : ℕ) → 0 < n → IsSound job (launched n)
launched-IsSound job n h =
    let (a, b, c, d, e, f) = sum-workers n 0 in
    record {
      once = λ i l.
          let none_yet : ltb i 0 ≡ false = ground arith in
          rw none_yet (omega (arith, (sum-workers n i).0));
      never = λ i l. omega (arith, (sum-workers n i).0);
      handed = omega (arith, b);
      counted = omega (arith, f);
      working = sym c;
      ended = λ l. absurd (omega (arith, d));
      quiet = λ l. (refl, refl);
      told = λ l. absurd (omega arith);
    }

-- A run keeps the number of threads.
pub Run-IsSound :
    (job : Job) (n : ℕ) {p : Pool}
    → Run job (launched n) p
    → 0 < n
    → IsSound job p × (length p.threads ≡ n)
Run-IsSound job n started h = (launched-IsSound job n h, (sum-workers n 0).4)
Run-IsSound job n (then_step r s) h =
    let (sound, size) = Run-IsSound job n r h in (Step-IsSound job s sound, Step-length s ∙ size)
  where
    Step-length : {p q : Pool} → Step job p q → length q.threads ≡ length p.threads
    Step-length (step_of s before pc after) =
        length-append before (_ ∷ after) ∙ sym (length-append before (pc ∷ after))

sum-gone :
    (ps : List Pc) (i : ℕ)
    → sum is_working ps ≡ 0
    → (sum (has i) ps ≡ 0)
      × (sum in_hand ps ≡ 0)
      × (sum has_left ps ≡ length ps)
      × (sum to_count ps ≡ 0)
sum-gone [] i h = (refl, refl, refl, refl)
sum-gone (fetching ∷ ps) i h = absurd (omega arith)
sum-gone (warming j ∷ ps) i h = absurd (omega arith)
sum-gone (sized sz ∷ ps) i h = absurd (omega arith)
sum-gone (oversizing ∷ ps) i h = absurd (omega arith)
sum-gone (counting ∷ ps) i h = absurd (omega arith)
sum-gone (leaving ∷ ps) i h = absurd (omega arith)
sum-gone (gone ∷ ps) i h =
    let (a, b, c, d) = sum-gone ps i (omega (arith, h)) in
    (omega (arith, a), omega (arith, b), omega (arith, c), omega (arith, d))

-- However the steps of one or more workers interleave: once all have left, every target was warmed
-- exactly once and nothing else was, all are counted, and a summary was logged once, by the last
-- worker, with the final counts; none was if there was nothing to warm.
pub Run-once :
    (job : Job) (n : ℕ) {p : Pool}
    → Run job (launched n) p
    → 0 < n
    → sum is_working p.threads ≡ 0
    → ((i : ℕ) → times i p.shared.warm_log ≡ one_if (ltb i job.targets))
      × (p.shared.warmed ≡ job.targets)
      × (p.shared.notes ≡ summary p.shared)
Run-once job n {p} r h over =
    let (sound, size) = Run-IsSound job n r h in
    let (none_has, in_hands, left, all_counted) = sum-gone p.threads 0 over in
    let past = sound.ended (omega (arith, left, size)) in
    (
      λ i. elim (Bool-cases (ltb i job.targets)) [
        | inl early ↦
            let handed_out : ltb i p.shared.next ≡ true = ground arith in
            let claim = rw handed_out at (sound.once i (ltb→lt _ _ early)) in
            rw early (omega (arith, claim, (sum-gone p.threads i over).0))
        | inr late ↦
            rw late (omega (arith, sound.never i (ltb→le _ _ late), (sum-gone p.threads i over).0))
      ],
      omega (arith, sound.counted, sound.handed, in_hands, past, all_counted),
      sound.told (sound.working ∙ over),
    )
