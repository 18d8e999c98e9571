-- ===== src/Optimizer/Schedule.antt =====
-- The stops of a plan: `simulate` of apps/api/src/services/optimizer.ts, its windows and its dates.
use real_time_logistics_plat.Common.{
  ℕ, Bool, true, false, not, ◌&&◌, Option, none, some, List, [], ◌∷◌, ◌≡◌, ◌⊎◌, refl, sym, ap,
  subst, inl, inr, ◌∙◌, Bool-cases, All, Memᴰ, map,
}
use real_time_logistics_plat.Geo.{JsNumber, IsOrdered, KeepsDates}
use real_time_logistics_plat.Optimizer.{Stop, ShiftEnd, Options}
use real_time_logistics_plat.Optimizer.Simulation.{
  PlannedStop, Progress, planned_at, parse_boundary, visit, visit_all, cons?, after_window, reach,
  arrive, leave, advance, is_late, exceeds_shift,
}

module _ (num : JsNumber) where
  -- The driver arrives before the stop's window opens.
  abbrev pub arrives_early : Option ℕ → num.Num → Bool
  arrives_early none at = false
  arrives_early (some t) at = num.ltb at (num.of_ℕ t)

  abbrev pub is_early : PlannedStop num → Bool
  is_early p = arrives_early p.stop.delivery_window_start p.arrival_at

  abbrev pub is_before : Option ℕ → num.Num → Bool
  is_before none at = false
  is_before (some t) at = num.ltb at (num.of_ℕ t)

  -- What a plan promises of one stop, by the arrival that it shows.
  pub record IsScheduled (options : Options num) (p : PlannedStop num) : Type 0 where
    pub opened : options.respect_time_windows && is_early p ≡ false
    pub late_marked : is_late num p.stop.promised_at p.arrival_at && not p.late_risk ≡ false
    pub marked_late : p.late_risk && is_before p.stop.promised_at p.arrival_at ≡ false

  -- The times of a route: the arrival and the departure at each stop, and the finish.
  abbrev pub times_from : Options num → Progress num → List Stop → List num.Num
  times_from options p [] = []
  times_from options p (s ∷ ss) =
      arrive num options p s
      ∷ leave num options p s
      ∷ times_from options (advance num options p s) ss

  -- Some time of the route is no date.
  abbrev pub HasNoDate : List num.Num → Type 0
  HasNoDate times = (a : num.Num) × Memᴰ a times × (num.date a ≡ none)

  -- A stop is planned, or one of its times is no date.
  planned_at-cases :
      (options : Options num) (p : Progress num) (s : Stop) (a l : Option num.Num)
      → ((q : PlannedStop num) × (planned_at num options p s a l ≡ some q)
          × (q.stop ≡ s)
          × (q.late_risk ≡ is_late num s.promised_at (arrive num options p s))
          × (a ≡ some q.arrival_at))
        ⊎ ((planned_at num options p s a l ≡ none) × ((a ≡ none) ⊎ (l ≡ none)))
  unfolding planned_at
  planned_at-cases options p s (some a) (some l) = inl (_, refl, refl, refl, refl)
  planned_at-cases options p s (some a) none = inr (refl, inr refl)
  planned_at-cases options p s none l = inr (refl, inl refl)

  -- All stops are planned, or some time is no date.
  abbrev pub IsVisited :
      Options num → Progress num → List Stop → Option (List (PlannedStop num)) → Type 0
  IsVisited options p ss none = HasNoDate (times_from options p ss)
  IsVisited options p ss (some qs) = (map (λ q. q.stop) qs ≡ ss) × All (IsScheduled options) qs

  module _ (laws : IsOrdered num) (dates : KeepsDates num) where
    after_window_opens :
        (window : Option ℕ) (cursor : num.Num)
        → arrives_early window (after_window num true window cursor) ≡ false
    after_window_opens none cursor = refl
    after_window_opens (some u) cursor = elim (Bool-cases (num.ltb cursor (num.of_ℕ u))) [
      | inl e ↦ rw e (laws.irrefl (num.of_ℕ u))
      | inr e ↦ rw e e
    ]

    date-early :
        (window : Option ℕ) (a t : num.Num)
        → num.date a ≡ some t
        → arrives_early window a ≡ false
        → arrives_early window t ≡ false
    date-early none a t e h = refl
    date-early (some n) a t e h = elim (Bool-cases (num.ltb t (num.of_ℕ n))) [
      | inl k ↦ absurd (cc (h, dates.before a t n e k))
      | inr k ↦ k
    ]

    date-late :
        (promise : Option ℕ) (a t : num.Num)
        → num.date a ≡ some t
        → is_late num promise t && not (is_late num promise a) ≡ false
    date-late none a t e = refl
    date-late (some n) a t e = elim (Bool-cases (num.ltb (num.of_ℕ n) t)) [
      | inl k ↦ rw (k, dates.after a t n e k) refl
      | inr k ↦ rw k refl
    ]

    late-date :
        (promise : Option ℕ) (a t : num.Num)
        → num.date a ≡ some t
        → is_late num promise a && is_before promise t ≡ false
    late-date none a t e = refl
    late-date (some n) a t e = elim (Bool-cases (num.ltb (num.of_ℕ n) a)) [
      | inr h ↦ rw h refl
      | inl h ↦ elim (Bool-cases (num.ltb t (num.of_ℕ n))) [
        | inr k ↦ rw (h, k) refl
        | inl k ↦
            let round_trip = laws.trans (num.of_ℕ n) a (num.of_ℕ n) h (dates.before a t n e k) in
            absurd (cc (round_trip, laws.irrefl (num.of_ℕ n)))
      ]
    ]

    opened_by :
        (respect : Bool) (window : Option ℕ) (cursor t : num.Num)
        → num.date (after_window num respect window cursor) ≡ some t
        → respect && arrives_early window t ≡ false
    opened_by false window cursor t e = refl
    opened_by true window cursor t e =
        date-early window (after_window num true window cursor) t e
          (after_window_opens window cursor)

    planned_at-IsScheduled :
        (options : Options num) (p : Progress num) (s : Stop) (q : PlannedStop num)
        → q.stop ≡ s
        → q.late_risk ≡ is_late num s.promised_at (arrive num options p s)
        → num.date (arrive num options p s) ≡ some q.arrival_at
        → IsScheduled options q
    planned_at-IsScheduled options p s q named marked at = record {
      opened = rw named (
          opened_by options.respect_time_windows s.delivery_window_start (reach num options p s)
            q.arrival_at at);
      late_marked =
          rw (named, marked) (date-late s.promised_at (arrive num options p s) q.arrival_at at);
      marked_late =
          rw (named, marked) (late-date s.promised_at (arrive num options p s) q.arrival_at at);
    }

    cons?-IsVisited :
        (options : Options num) (p : Progress num) (s : Stop) (ss : List Stop) (q : PlannedStop num)
        (rest : Option (List (PlannedStop num)))
        → q.stop ≡ s
        → IsScheduled options q
        → IsVisited options (advance num options p s) ss rest
        → IsVisited options p (s ∷ ss) (cons? num (some q) rest)
    unfolding cons?
    cons?-IsVisited options p s ss q none named h (a, there, e) =
        (a, Memᴰ.tail (Memᴰ.tail there), e)
    cons?-IsVisited options p s ss q (some qs) named h (stops, scheduled) =
        (ap (λ x. x ∷ map (λ q. q.stop) qs) named ∙ ap (λ xs. s ∷ xs) stops, (h, scheduled))

    pub visit_all-IsVisited :
        (options : Options num) (p : Progress num) (ss : List Stop)
        → IsVisited options p ss (visit_all num options p ss)
    unfolding visit_all visit cons?
    visit_all-IsVisited options p [] = (refl, tt)
    visit_all-IsVisited options p (s ∷ ss) =
        let arrival = arrive num options p s in
        let departure = leave num options p s in
        let rest = visit_all num options (advance num options p s) ss in
        let others = visit_all-IsVisited options (advance num options p s) ss in
        elim (planned_at-cases options p s (num.date arrival) (num.date departure)) [
          | inl (q, e, named, marked, at) ↦
              subst (λ x. IsVisited options p (s ∷ ss) (cons? num x rest)) (sym e)
                (cons?-IsVisited options p s ss q rest named
                  (planned_at-IsScheduled options p s q named marked at) others)
          | inr (e, inl no_date) ↦
              subst (λ x. IsVisited options p (s ∷ ss) (cons? num x rest)) (sym e)
                (arrival, Memᴰ.head refl, no_date)
          | inr (e, inr no_date) ↦
              subst (λ x. IsVisited options p (s ∷ ss) (cons? num x rest)) (sym e)
                (departure, Memᴰ.tail (Memᴰ.head refl), no_date)
        ]

    -- The finish is within the shift where its whole milliseconds are.
    pub date-exceeds_shift :
        (shift : Option ShiftEnd) (start : ℕ) (a t : num.Num)
        → num.date a ≡ some t
        → exceeds_shift num shift start a ≡ false
        → exceeds_shift num shift start t ≡ false
    date-exceeds_shift none start a t e h = refl
    date-exceeds_shift (some shift) start a t e h =
        elim (Bool-cases (num.ltb (num.of_ℕ (parse_boundary shift start)) t)) [
          | inl k ↦ absurd (cc (h, dates.after a t (parse_boundary shift start) e k))
          | inr k ↦ k
        ]
