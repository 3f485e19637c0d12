-- ===== src/Formats/Kdump/Read.antt =====
-- formats/kdump_format.cpp: `KdumpPhysical::read` shows the ranges, as far as the file holds them.
use mem_nix_fs.Base.{
  ℕ, zero, suc, ◌+◌, ◌-◌, ◌≤◌, ◌<◌, ◌^◌, ◌≡◌, refl, ap, sym, subst, ◌∙◌, List, [], ◌∷◌, ◌++◌,
  append-nil, Option, none, some, true, false, min, arith, ltb, leb, ◌&&◌, if◌then◌else◌,
  Bool-cases, inl, inr, leb→le, leb→lt, ltb→lt, ltb→le, Result, ok,
}
use mem_nix_fs.Base.Word.{add64, sub64, u64_mod}
use mem_nix_fs.Base.Buffer.{zeros, write}
use mem_nix_fs.Io.{Serves, bytes, length-bytes}
use mem_nix_fs.Physical.{
  Image, Shows, IsHole, IsFilled, window, backed, backed-le, backed-add, hole, filled, fill_next,
  skip_next,
}
use mem_nix_fs.Formats.Kdump.{
  LoadRange, KdumpPhysical, upper_bound, Move, skip_to, step_on, read_from, no_front, next_pa,
  move_past, move_at, kdump_loop, kdump_read, kdump_layer,
}

-- The byte at an address: that of the range that covers it, if the file is not cut off before it.
abbrev pub kdump_image : ℕ → (ℕ → ℕ) → List LoadRange → Image
kdump_image size file [] a = none
kdump_image size file (r ∷ rs) a =
    if leb r.pa_start a && ltb a (r.pa_start + r.pa_size)
    then (if ltb (r.file_off + (a - r.pa_start)) size
        then some (file (r.file_off + (a - r.pa_start)))
        else none)
    else kdump_image size file rs a

-- The ranges follow one another from `lo` on; their addresses, in memory and in the file, are
-- below the last 64-bit one.
abbrev pub IsOrdered : ℕ → List LoadRange → Type 0
IsOrdered lo [] = Unit {0}
IsOrdered lo (r ∷ rs) =
    (lo ≤ r.pa_start)
    × (r.pa_start + r.pa_size < u64_mod)
    × (r.file_off + r.pa_size < u64_mod)
    × IsOrdered (r.pa_start + r.pa_size) rs

upper_bound-stop :
    (cur : ℕ) (prev : Option LoadRange) (r : LoadRange) (rs : List LoadRange)
    → ltb cur r.pa_start ≡ true
    → upper_bound cur prev (r ∷ rs) ≡ (prev, r ∷ rs)
unfolding upper_bound
upper_bound-stop cur prev r rs h = rw h

upper_bound-on :
    (cur : ℕ) (prev : Option LoadRange) (r : LoadRange) (rs : List LoadRange)
    → ltb cur r.pa_start ≡ false
    → upper_bound cur prev (r ∷ rs) ≡ upper_bound cur (some r) rs
unfolding upper_bound
upper_bound-on cur prev r rs h = rw h

module _ (size : ℕ) (file : ℕ → ℕ) where
  image-below :
      (lo : ℕ) (rs : List LoadRange)
      → IsOrdered lo rs
      → (a : ℕ) → a < lo
      → kdump_image size file rs a ≡ none
  image-below lo [] o a h = refl
  image-below lo (r ∷ rs) o a h = ground (arith, image-below (r.pa_start + r.pa_size) rs o.3 a)

  -- Where the first range is behind an address, so are all.
  image-before :
      (lo : ℕ) (r : LoadRange) (rs : List LoadRange)
      → IsOrdered lo (r ∷ rs)
      → (a : ℕ) → a < r.pa_start
      → kdump_image size file (r ∷ rs) a ≡ none
  image-before lo r rs o a h = ground (arith, image-below (r.pa_start + r.pa_size) rs o.3 a)

  image-behind :
      (r : LoadRange) (rs : List LoadRange) (a : ℕ)
      → r.pa_start + r.pa_size ≤ a
      → kdump_image size file (r ∷ rs) a ≡ kdump_image size file rs a
  image-behind r rs a h = ground arith

  image-inside :
      (r : LoadRange) (rs : List LoadRange) (a : ℕ)
      → r.pa_start ≤ a
      → a < r.pa_start + r.pa_size
      → kdump_image size file (r ∷ rs) a ≡ (
          if ltb (r.file_off + (a - r.pa_start)) size
          then some (file (r.file_off + (a - r.pa_start)))
          else none)
  image-inside r rs a h k = ground arith

  -- What a round is to do at `cur`.
  IsMove : List LoadRange → ℕ → Move → Type 0
  IsMove rs cur (skip_to a) =
      (cur < a) × (a < 2 ^ 64) × ((x : ℕ) → cur ≤ x → x < a → kdump_image size file rs x ≡ none)
  IsMove rs cur step_on = 2 ^ 64 - 1 ≤ cur
  IsMove rs cur no_front = rs ≡ []
  IsMove rs cur (read_from r) =
      (r.pa_start ≤ cur)
      × (cur < r.pa_start + r.pa_size)
      × (r.pa_start + r.pa_size < u64_mod)
      × (r.file_off + r.pa_size < u64_mod)
      × ((x : ℕ)
          → cur ≤ x
          → x < r.pa_start + r.pa_size
          → kdump_image size file rs x ≡ (
              if ltb (r.file_off + (x - r.pa_start)) size
              then some (file (r.file_off + (x - r.pa_start)))
              else none))

  image-next :
      (lo : ℕ) (rest : List LoadRange)
      → IsOrdered lo rest
      → (x : ℕ) → x < next_pa rest
      → kdump_image size file rest x ≡ none
  image-next lo [] o x h = refl
  image-next lo (r ∷ rs) o x h = image-before lo r rs o x h

  -- Where `r` is the last range that starts at `cur` or before.
  move_at-IsMove :
      (all : List LoadRange) (cur lo : ℕ) (r : LoadRange) (rest : List LoadRange)
      → IsOrdered lo (r ∷ rest)
      → r.pa_start ≤ cur
      → cur < next_pa rest
      → next_pa rest < 2 ^ 64
      → ((x : ℕ) → cur ≤ x → kdump_image size file all x ≡ kdump_image size file (r ∷ rest) x)
      → IsMove all cur (move_at cur (some r, rest))
  unfolding move_at move_past IsMove
  move_at-IsMove all cur lo r rest o h n b agree =
      let (after, fits, in_file, later) = o in
      let e : add64 r.pa_start r.pa_size ≡ r.pa_start + r.pa_size = omega arith in
      elim (Bool-cases (leb (r.pa_start + r.pa_size) cur)) [
        | inr here ↦
            rw (e, here)
              (
                h,
                leb→lt _ _ here,
                fits,
                in_file,
                λ x l u. agree x l ∙ image-inside r rest x (omega arith) u,
              )
        | inl past ↦
            let ahead : leb (next_pa rest) cur ≡ false = ground arith in
            let past' = leb→le _ _ past in
            rw (e, past, ahead)
              (
                n,
                b,
                λ x l u.
                    agree x l
                    ∙ (image-behind r rest x (omega arith)
                        ∙ image-next (r.pa_start + r.pa_size) rest later x u),
              )
      ]

  upper_bound-IsMove :
      (all : List LoadRange) (cur lo : ℕ) (r : LoadRange) (rest : List LoadRange)
      → IsOrdered lo (r ∷ rest)
      → r.pa_start ≤ cur
      → cur < 2 ^ 64 - 1
      → ((x : ℕ) → cur ≤ x → kdump_image size file all x ≡ kdump_image size file (r ∷ rest) x)
      → IsMove all cur (move_at cur (upper_bound cur (some r) rest))
  upper_bound-IsMove all cur lo r [] o h c agree =
      unfold upper_bound in move_at-IsMove all cur lo r [] o h c (omega arith) agree
  upper_bound-IsMove all cur lo r (s ∷ ss) o h c agree = elim (Bool-cases (ltb cur s.pa_start)) [
    | inl ahead ↦
        subst (λ m. IsMove all cur (move_at cur m)) (sym (upper_bound-stop cur (some r) s ss ahead))
          (move_at-IsMove all cur lo r (s ∷ ss) o h (ltb→lt _ _ ahead) (omega arith) agree)
    | inr reached ↦
        let reached' = ltb→le _ _ reached in
        subst (λ m. IsMove all cur (move_at cur m)) (sym (upper_bound-on cur (some r) s ss reached))
          (upper_bound-IsMove all cur (r.pa_start + r.pa_size) s ss o.3 reached' c
            (λ x l. agree x l ∙ image-behind r (s ∷ ss) x (omega arith)))
  ]

  -- At any address but the last, a round fits the image.
  first-IsMove :
      (r : LoadRange) (rest : List LoadRange) (cur : ℕ)
      → IsOrdered 0 (r ∷ rest)
      → cur < 2 ^ 64 - 1
      → IsMove (r ∷ rest) cur (move_at cur (upper_bound cur none (r ∷ rest)))
  first-IsMove r rest cur o c = elim (Bool-cases (ltb cur r.pa_start)) [
    | inl ahead ↦
        subst (λ m. IsMove (r ∷ rest) cur (move_at cur m))
          (sym (upper_bound-stop cur none r rest ahead))
          (unfold move_at IsMove in
            (ltb→lt _ _ ahead, omega arith, λ x l u. image-before 0 r rest o x u))
    | inr reached ↦
        subst (λ m. IsMove (r ∷ rest) cur (move_at cur m))
          (sym (upper_bound-on cur none r rest reached))
          (upper_bound-IsMove (r ∷ rest) cur 0 r rest o (ltb→le _ _ reached) c (λ x l. refl))
  ]

module _ (k : KdumpPhysical) (file : ℕ → ℕ) (serves : Serves k.src file) (pa : ℕ) where
  abbrev shown : Image
  shown = kdump_image k.src.size file k.ranges

  -- The loop with `a` bytes filled and `room` left, before and after a round.
  abbrev at_point : ℕ → ℕ → ℕ → Result (List ℕ × ℕ)
  at_point fuel a room =
      kdump_loop fuel k (pa + a) room a (window shown pa a ++ zeros room) (backed shown pa a)

  -- A round fills the buffer further.
  record Progress (a room : ℕ) : Type 0 where
    next : ℕ
    rest : ℕ
    all : a + room ≡ next + rest
    further : a < next
    runs : (fuel : ℕ) → at_point (suc fuel) a room ≡ at_point fuel next rest

  module _ (a m : ℕ) (low : pa + (a + suc m) < u64_mod) where
    skipping :
        (to : ℕ)
        → move_at (pa + a) (upper_bound (pa + a) none k.ranges) ≡ skip_to to
        → IsMove k.src.size file k.ranges (pa + a) (skip_to to)
        → Progress a (suc m)
    unfolding IsMove kdump_loop
    skipping to e (above, bound, empty) =
        let n = min (suc m) (to - (pa + a)) in
        let rest = suc m - n in
        let e₁ : sub64 to (pa + a) ≡ to - (pa + a) = omega arith in
        let e₂ : add64 (pa + a) n ≡ pa + (a + n) = omega arith in
        let e₃ : suc m ≡ n + rest = omega arith in
        let no_bytes : IsHole shown (pa + a) n = λ x l u. empty x l (omega arith) in
        let buffer =
          ap (λ t. window shown pa a ++ zeros t) e₃ ∙ skip_next shown pa a n rest no_bytes in
        let count : backed shown pa a ≡ backed shown pa (a + n) =
          omega (arith, backed-add shown pa a n, (hole shown (pa + a) n no_bytes).1) in
        record {
          next = a + n;
          rest = rest;
          all = omega arith;
          further = omega arith;
          runs = λ fuel. rw (e, kdump_loop, e₁, e₂, buffer, count);
        }

    reading :
        (r : LoadRange)
        → move_at (pa + a) (upper_bound (pa + a) none k.ranges) ≡ read_from r
        → IsMove k.src.size file k.ranges (pa + a) (read_from r)
        → Progress a (suc m)
    unfolding IsMove kdump_loop
    reading r e (from_start, to_end, fits, in_file, byte) =
        let small = serves.bounded in
        let off = pa + a - r.pa_start in
        let want = min (suc m) (r.pa_size - off) in
        let got = min want (k.src.size - (r.file_off + off)) in
        let rest = suc m - want in
        let gap = want - got in
        let e₁ : sub64 (pa + a) r.pa_start ≡ off = omega arith in
        let e₂ : sub64 r.pa_size off ≡ r.pa_size - off = omega arith in
        let e₃ : add64 r.file_off off ≡ r.file_off + off = omega arith in
        let e₄ : add64 (pa + a) want ≡ pa + (a + want) = omega arith in
        let e₅ : suc m ≡ got + (gap + rest) = omega arith in
        let e₆ : a + got + gap ≡ a + want = omega arith in
        let data_in : IsFilled shown file (pa + a) (r.file_off + off) got = λ x l.
          let at_x : r.file_off + (pa + a + x - r.pa_start) ≡ r.file_off + off + x = omega arith in
          let held : ltb (r.file_off + off + x) k.src.size ≡ true = ground arith in
          byte (pa + a + x) (omega arith) (omega arith) ∙ rw (at_x, held) in
        let cut_off : IsHole shown (pa + (a + got)) gap = λ x l u.
          let lost : ltb (r.file_off + (x - r.pa_start)) k.src.size ≡ false = ground arith in
          byte x (omega arith) (omega arith) ∙ rw lost in
        let (win, full) = filled shown file (pa + a) (r.file_off + off) got data_in in
        let stored =
          fill_next shown (bytes file (r.file_off + off) got) pa a got (gap + rest) (sym win) in
        let padded = skip_next shown pa (a + got) gap rest cut_off in
        let count : add64 (backed shown pa a) got ≡ backed shown pa (a + want) =
          let none_lost : backed shown (pa + (a + got)) gap ≡ 0 =
            (hole shown (pa + (a + got)) gap cut_off).1 in
          let parts = backed-add shown pa (a + got) gap in
          let parts' = backed-add shown pa a got in
          let whole : backed shown pa (a + want) ≡ backed shown pa a + got =
            ap (backed shown pa) (sym e₆) ∙ omega (arith, none_lost, parts, parts', full) in
          omega (arith, whole, backed-le shown pa (a + want)) in
        let put : write (window shown pa a ++ zeros (suc m)) a (bytes file (r.file_off + off) got)
            ≡ ok (window shown pa (a + want) ++ zeros rest) =
          ap (λ t. write (window shown pa a ++ zeros t) a (bytes file (r.file_off + off) got)) e₅
          ∙ (stored ∙ ap ok (padded ∙ ap (λ t. window shown pa t ++ zeros rest) e₆)) in
        record {
          next = a + want;
          rest = rest;
          all = omega arith;
          further = omega arith;
          runs = λ fuel. rw (
            e,
            kdump_loop,
            e₁,
            e₂,
            e₃,
            e₄,
            serves.reads (r.file_off + off) want,
            put,
            length-bytes,
            count,
          );
        }

  module _ (r : LoadRange) (rs : List LoadRange) (ranges : k.ranges ≡ r ∷ rs)
      (order : IsOrdered 0 k.ranges) where
    round :
        (a m : ℕ) (low : pa + (a + suc m) < u64_mod) (move : Move)
        → move_at (pa + a) (upper_bound (pa + a) none k.ranges) ≡ move
        → IsMove k.src.size file k.ranges (pa + a) move
        → Progress a (suc m)
    unfolding IsMove
    round a m low (skip_to to) e i = skipping a m low to e i
    round a m low (read_from s) e i = reading a m low s e i
    round a m low step_on e i = absurd (omega (arith, i))
    round a m low no_front e i = let no : [] ≡ r ∷ rs = sym i ∙ ranges in absurd (cc)

    progress : (a m : ℕ) → pa + (a + suc m) < u64_mod → Progress a (suc m)
    progress a m low = round a m low _ refl (
        subst
          (λ t. IsMove k.src.size file t (pa + a) (move_at (pa + a) (upper_bound (pa + a) none t)))
          (sym ranges)
          (first-IsMove k.src.size file r rs (pa + a) (subst (IsOrdered 0) ranges order)
            (omega arith)))

    kdump_loop_lem :
        (fuel a room : ℕ)
        → room ≤ fuel
        → pa + (a + room) < u64_mod
        → at_point fuel a room ≡ ok (window shown pa (a + room), backed shown pa (a + room))
    kdump_loop_lem fuel a zero h b =
        let e : a + 0 ≡ a = omega arith in unfold kdump_loop in rw (e, append-nil)
    kdump_loop_lem zero a (suc m) h b = absurd (omega arith)
    kdump_loop_lem (suc fuel) a (suc m) h b =
        let p = progress a m b in
        let all = p.all in
        let further = p.further in
        p.runs fuel
        ∙ (kdump_loop_lem fuel p.next p.rest (omega arith) (omega arith)
            ∙ ap (λ t. ok (window shown pa t, backed shown pa t)) (sym all))

-- `KdumpPhysical` shows its ranges, where there is one at least, they are ordered, and no address
-- of theirs reaches the last 64-bit one: a read stores every byte that a range has in the file and
-- zeros elsewhere, where the file is cut off too, and counts the former; it ends, and stores inside
-- its buffer only.
pub kdump_layer-Shows :
    (k : KdumpPhysical) (file : ℕ → ℕ) (r : LoadRange) (rs : List LoadRange)
    → Serves k.src file
    → k.ranges ≡ r ∷ rs
    → IsOrdered 0 k.ranges
    → Shows (kdump_layer k) (kdump_image k.src.size file k.ranges)
unfolding kdump_layer kdump_read
kdump_layer-Shows k file r rs serves ranges order = record {
  reads = λ pa len h.
      let e : pa + 0 ≡ pa = omega arith in
      let e₂ : 0 + len ≡ len = omega arith in
      rw (e, e₂) at
        (kdump_loop_lem k file serves pa r rs ranges order len 0 len (omega arith) (omega arith));
}
