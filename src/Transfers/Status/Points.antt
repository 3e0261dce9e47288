-- ===== src/Transfers/Status/Points.antt =====
-- How often a status is due.
use mathlib.Core.Path.{subst}
use peer_connect.Prelude.{
  ℕ, zero, suc, ◌+◌, ◌≤◌, ◌<◌, min, Bool, true, false, some, List, [], ◌∷◌, ◌≡◌, refl, sym, ap, ◌∙◌,
  inl, inr, arith, ltb, leb, if◌then◌else◌, length, Bool-cases, All,
}
use peer_connect.Prelude.Int.{ℤ, pos, ◌-ℤ◌, ◌+ℤ◌}
use peer_connect.Transfers.Status.{
  Status, update_status, should_yield, points_from, status_setup, with_points, without_points,
  counted, run_status,
}

abbrev last_point : ℕ → List ℕ → ℕ
last_point p [] = p
last_point p (q ∷ ps) = last_point q ps

-- the bar is set up, and the last point is the limit
record IsSetUp (limit p : ℕ) (ps : List ℕ) (s : Status) : Type 0 where
  bar : ℤ
  shown : s.progress_bar ≡ some bar
  next_point : s.next_point_suc ≡ suc p
  later : s.yield_iterator ≡ some ps
  ends_at : last_point p ps ≡ limit

-- The state after an update and the decision.
record Decided (limit n : ℕ) (ps : List ℕ) (s : Status) : Type 0 where
  updated : Status
  due : Bool
  after : Status
  next : ℕ
  rest : List ℕ
  update_ok : update_status n s ≡ some updated
  yield_ok : should_yield updated ≡ some (due, after)
  set : IsSetUp limit next rest after
  fewer : length rest + (if due then 1 else 0) ≡ length ps

module _ (limit : ℕ) where
  due-Decided :
      (n p : ℕ) (ps : List ℕ) (s : Status)
      → n ≤ limit
      → IsSetUp limit p ps s
      → p < n
      → Decided limit n ps s
  unfolding update_status should_yield
  due-Decided n p [] s h g l = absurd (omega (arith, g.ends_at))
  due-Decided n p (q ∷ ps) s h g l =
      let moved : leb (suc p) n ≡ true = ground arith in
      record {
        updated = record s {
          current_status = n;
          progress_bar = some (g.bar +ℤ (pos n -ℤ pos s.current_status));
        };
        due = true;
        after = record s {
          current_status = n;
          progress_bar = some (g.bar +ℤ (pos n -ℤ pos s.current_status));
          next_point_suc = suc q;
          yield_iterator = some ps;
        };
        next = q;
        rest = ps;
        update_ok = rw (g.shown, update_status) refl;
        yield_ok = rw (g.next_point, moved, g.later) refl;
        set = record {
          bar = g.bar +ℤ (pos n -ℤ pos s.current_status);
          shown = refl;
          next_point = refl;
          later = refl;
          ends_at = g.ends_at;
        };
        fewer = omega arith;
      }

  still-Decided :
      (n p : ℕ) (ps : List ℕ) (s : Status) → IsSetUp limit p ps s → n ≤ p → Decided limit n ps s
  unfolding update_status should_yield
  still-Decided n p ps s g l =
      let kept : leb (suc p) n ≡ false = ground arith in
      record {
        updated = record s {
          current_status = n;
          progress_bar = some (g.bar +ℤ (pos n -ℤ pos s.current_status));
        };
        due = false;
        after = record s {
          current_status = n;
          progress_bar = some (g.bar +ℤ (pos n -ℤ pos s.current_status));
        };
        next = p;
        rest = ps;
        update_ok = rw (g.shown, update_status) refl;
        yield_ok = rw (g.next_point, kept) refl;
        set = record {
          bar = g.bar +ℤ (pos n -ℤ pos s.current_status);
          shown = refl;
          next_point = g.next_point;
          later = g.later;
          ends_at = g.ends_at;
        };
        fewer = omega arith;
      }

  run-nil : (s : Status) → run_status [] s ≡ some (0, s)
  unfolding run_status
  run-nil s = refl

  run-step :
      (n : ℕ) (ns : List ℕ) (s u a : Status) (b : Bool)
      → update_status n s ≡ some u
      → should_yield u ≡ some (b, a)
      → run_status (n ∷ ns) s ≡ counted b (run_status ns a)
  unfolding run_status
  run-step n ns s u a b hu hy = rw (hu, run_status) (rw (hy, run_status) refl)

  decide :
      (n p : ℕ) (ps : List ℕ) (s : Status) → n ≤ limit → IsSetUp limit p ps s → Decided limit n ps s
  decide n p ps s h g = elim (Bool-cases (ltb p n)) [
    | inl over ↦ due-Decided n p ps s h g (ground (arith, over))
    | inr under ↦ still-Decided n p ps s g (ground (arith, under))
  ]

  abbrev Counts : List ℕ → List ℕ → Status → Type 0
  Counts ns ps s = (k : ℕ) × (s' : Status) × (run_status ns s ≡ some (k, s')) × (k ≤ length ps)

  count-due :
      (b : Bool) (r m k : ℕ) (s' : Status)
      → r + (if b then 1 else 0) ≡ m
      → k ≤ r
      → (k' : ℕ) × (t : Status) × (counted b (some (k, s')) ≡ some (k', t)) × (k' ≤ m)
  count-due true r m k s' e h = (suc k, s', refl, omega arith)
  count-due false r m k s' e h = (k, s', refl, omega arith)

  run_status-IsSetUp :
      (ns : List ℕ) (p : ℕ) (ps : List ℕ) (s : Status)
      → All (λ n. n ≤ limit) ns
      → IsSetUp limit p ps s
      → Counts ns ps s
  run_status-IsSetUp [] p ps s h g = (0, s, run-nil s, omega arith)
  run_status-IsSetUp (n ∷ ns) p ps s h g =
      let d = decide n p ps s h.0 g in
      let (k, s', ran, bound) = run_status-IsSetUp ns d.next d.rest d.after h.1 d.set in
      let (k', t, more, bound') = count-due d.due (length d.rest) (length ps) k s' d.fewer bound in
      (
        k',
        t,
        run-step n ns s d.updated d.after d.due d.update_ok d.yield_ok
            ∙ (ap (counted d.due) ran ∙ more),
        bound',
      )

last-points :
    (scaled : ℕ → ℕ) (limit i n p : ℕ)
    → last_point p (points_from scaled limit i (suc n)) ≡ min limit (scaled (i + n))
unfolding points_from
last-points scaled limit i zero p = ap (λ j. min limit (scaled j)) (omega arith)
last-points scaled limit i (suc n) p =
    last-points scaled limit (suc i) n (min limit (scaled i))
    ∙ ap (λ j. min limit (scaled j)) (omega arith)

length-points : (scaled : ℕ → ℕ) (limit i n : ℕ) → length (points_from scaled limit i n) ≡ n
unfolding points_from
length-points scaled limit i zero = refl
length-points scaled limit i (suc n) = ap suc (length-points scaled limit (suc i) n)

abbrev set_up : (ℕ → ℕ) → ℕ → ℕ → ℕ → Status → Status
set_up scaled initial limit m s = record s {
  progress_bar = some (pos initial);
  next_point_suc = suc (min limit (scaled 0));
  yield_iterator = some (points_from scaled limit 1 (suc m));
}

status_setup-set :
    (scaled : ℕ → ℕ) (initial limit m : ℕ) (s : Status)
    → s.yield_freq ≡ suc (suc m)
    → status_setup scaled initial limit s ≡ set_up scaled initial limit m s
unfolding status_setup points_from
status_setup-set scaled initial limit m s freq =
    subst
      (λ f.
        (if ltb f 2
          then without_points initial limit s
          else with_points initial (points_from scaled limit 0 f) s)
        ≡ set_up scaled initial limit m s)
      (sym freq) (let big : ltb (suc (suc m)) 2 ≡ false = ground arith in rw big refl)

reaches :
    (scaled : ℕ → ℕ) (limit m : ℕ) → limit ≤ scaled (suc m) → min limit (scaled (1 + m)) ≡ limit
reaches scaled limit m h = let same : 1 + m ≡ suc m = omega arith in rw same (omega arith)

-- After its setup with a frequency of two at least, the status of a transfer is due less often than
-- the frequency, and no decision fails, as long as the statuses stay within the limit and the last
-- point reaches it.
pub run_status_lem :
    (scaled : ℕ → ℕ) (initial limit m : ℕ) (ns : List ℕ) (s : Status)
    → s.yield_freq ≡ suc (suc m)
    → limit ≤ scaled (suc m)
    → All (λ n. n ≤ limit) ns
    → (k : ℕ) × (s' : Status) × (run_status ns (status_setup scaled initial limit s) ≡ some (k, s'))
      × (k < s.yield_freq)
run_status_lem scaled initial limit m ns s freq reached within =
    let (k, s', ran, bound) =
      run_status-IsSetUp limit ns (min limit (scaled 0)) (points_from scaled limit 1 (suc m))
        (set_up scaled initial limit m s) within
        (record {
          bar = pos initial;
          shown = refl;
          next_point = refl;
          later = refl;
          ends_at =
              last-points scaled limit 1 m (min limit (scaled 0)) ∙ reaches scaled limit m reached;
        }) in
    (
      k,
      s',
      ap (run_status ns) (status_setup-set scaled initial limit m s freq) ∙ ran,
      omega (arith, bound, freq, length-points scaled limit 1 (suc m)),
    )
