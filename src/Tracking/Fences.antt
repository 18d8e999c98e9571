-- ===== src/Tracking/Fences.antt =====
-- The log of an order at its two fences: apps/api/src/services/geofence.ts.
use mathlib.Core.Bool.{false≢true}
use real_time_logistics_plat.Common.{
  ℕ, suc, ◌+◌, ◌≤◌, String, Bool, true, false, not, ◌&&◌, List, [], ◌∷◌, ◌++◌, ◌==◌, ◌≡◌, refl, ap,
  inl, inr, arith, any, if◌then◌else◌, Bool-cases,
}
use real_time_logistics_plat.Model.{User, Driver, Order, OrderEvent, Coordinate}
use real_time_logistics_plat.Geo.{JsNumber}
use real_time_logistics_plat.Store.{Context}
use real_time_logistics_plat.Tracking.{
  StopKind, at_pickup, at_dropoff, arrival_type, departure_type, arrival_message, departure_message,
  is_type, has_event, crossing, GeofenceTransition, recorded_events, is_enabled, is_inside,
  point_of, stop_transitions, geofence_transitions, tracked_order,
}

-- How many events of the type the log has.
abbrev pub count : String → List OrderEvent → ℕ
count t [] = 0
count t (e ∷ es) = (if is_type t e then 1 else 0) + count t es

count-append : (t : String) (es fs : List OrderEvent) → count t (es ++ fs) ≡ count t es + count t fs
count-append t [] fs = ground arith
count-append t (e ∷ es) fs = ground (arith, count-append t es fs)

has_event_none : (t : String) (es : List OrderEvent) → has_event t es ≡ false → count t es ≡ 0
unfolding has_event any
has_event_none t [] h = refl
has_event_none t (e ∷ es) h = elim (Bool-cases (is_type t e)) [
  | inl m ↦ cc (rw m at h)
  | inr m ↦ let rest = has_event_none t es (rw m at h) in rw m (omega arith)
]

has_event_some : (t : String) (es : List OrderEvent) → has_event t es ≡ true → 1 ≤ count t es
unfolding has_event any
has_event_some t [] h = absurd (false≢true h)
has_event_some t (e ∷ es) h = elim (Bool-cases (is_type t e)) [
  | inl m ↦ rw m (omega arith)
  | inr m ↦ let rest = has_event_some t es (rw m at h) in rw m (omega arith)
]

-- At each stop at most one arrival is recorded, and at most as many departures.
abbrev pub IsFenced : StopKind → List OrderEvent → Type 0
IsFenced kind es =
    (count (arrival_type kind) es ≤ 1)
    × (count (departure_type kind) es ≤ count (arrival_type kind) es)

abbrev pub IsFencedOrder : Order → Type 0
IsFencedOrder o = IsFenced at_pickup o.events × IsFenced at_dropoff o.events

-- How many transitions of the type there are.
abbrev tally : String → List GeofenceTransition → ℕ
tally t [] = 0
tally t (x ∷ xs) = (if x.type == t then 1 else 0) + tally t xs

tally-append :
    (t : String) (xs ys : List GeofenceTransition) → tally t (xs ++ ys) ≡ tally t xs + tally t ys
tally-append t [] ys = ground arith
tally-append t (x ∷ xs) ys = ground (arith, tally-append t xs ys)

count-recorded_events :
    (ctx : Context) (actor : User) (at k : ℕ) (t : String) (xs : List GeofenceTransition)
    → count t (recorded_events ctx actor at k xs) ≡ tally t xs
unfolding recorded_events
count-recorded_events ctx actor at k t [] = refl
count-recorded_events ctx actor at k t (x ∷ xs) =
    ap (λ n. (if x.type == t then 1 else 0) + n) (count-recorded_events ctx actor at (suc k) t xs)

-- The log stays fenced with these transitions added.
abbrev Allows : StopKind → List OrderEvent → List GeofenceTransition → Type 0
Allows kind es xs =
    (count (arrival_type kind) es + tally (arrival_type kind) xs ≤ 1)
    × (count (departure_type kind) es + tally (departure_type kind) xs
        ≤ count (arrival_type kind) es + tally (arrival_type kind) xs)

arrives :
    (kind : StopKind) (m : String)
    → (tally (arrival_type kind) (record { type = arrival_type kind; message = m } ∷ []) ≡ 1)
      × (tally (departure_type kind) (record { type = arrival_type kind; message = m } ∷ []) ≡ 0)
arrives at_pickup m = (refl, refl)
arrives at_dropoff m = (refl, refl)

departs :
    (kind : StopKind) (m : String)
    → (tally (arrival_type kind) (record { type = departure_type kind; message = m } ∷ []) ≡ 0)
      × (tally (departure_type kind) (record { type = departure_type kind; message = m } ∷ []) ≡ 1)
departs at_pickup m = (refl, refl)
departs at_dropoff m = (refl, refl)

crossing-Allows :
    (kind : StopKind) (inside : Bool) (es : List OrderEvent)
    → IsFenced kind es
    → Allows kind es (crossing kind inside es)
unfolding crossing
crossing-Allows kind true es h = elim (Bool-cases (has_event (arrival_type kind) es)) [
  | inl a ↦ rw (a, crossing) (omega (arith, h.0), omega (arith, h.1))
  | inr a ↦
      let unseen = has_event_none (arrival_type kind) es a in
      let (here, gone) = arrives kind (arrival_message kind) in
      rw (a, crossing) (omega (arith, h.0), omega (arith, h.1))
]
crossing-Allows kind false es h = elim (Bool-cases (has_event (arrival_type kind) es)) [
  | inr a ↦ rw (a, crossing) (omega (arith, h.0), omega (arith, h.1))
  | inl a ↦ elim (Bool-cases (has_event (departure_type kind) es)) [
    | inl d ↦ rw (a, d, crossing) (omega (arith, h.0), omega (arith, h.1))
    | inr d ↦
        let seen = has_event_some (arrival_type kind) es a in
        let unseen = has_event_none (departure_type kind) es d in
        let (here, gone) = departs kind (departure_message kind) in
        rw (a, d, crossing) (omega (arith, h.0), omega (arith, h.1))
  ]
]

recorded-IsFenced :
    (ctx : Context) (actor : User) (at : ℕ) (kind : StopKind) (es : List OrderEvent)
    (xs : List GeofenceTransition)
    → Allows kind es xs
    → IsFenced kind (es ++ recorded_events ctx actor at 0 xs)
recorded-IsFenced ctx actor at kind es xs (p, q) =
    let fs = recorded_events ctx actor at 0 xs in
    let sum_1 = count-append (arrival_type kind) es fs in
    let sum_2 = count-append (departure_type kind) es fs in
    let same_1 = count-recorded_events ctx actor at 0 (arrival_type kind) xs in
    let same_2 = count-recorded_events ctx actor at 0 (departure_type kind) xs in
    (omega arith, omega arith)

abbrev other : StopKind → StopKind
other at_pickup = at_dropoff
other at_dropoff = at_pickup

-- The transitions at one stop are not counted at the other.
crossing-other :
    (kind : StopKind) (inside : Bool) (es : List OrderEvent)
    → (tally (arrival_type (other kind)) (crossing kind inside es) ≡ 0)
      × (tally (departure_type (other kind)) (crossing kind inside es) ≡ 0)
unfolding crossing
crossing-other kind inside es =
    elim (Bool-cases (inside && not (has_event (arrival_type kind) es))) [
      | inl a ↦ rw (a, crossing) (arrival_other kind)
      | inr a ↦
          elim (Bool-cases (
            not inside
            && (has_event (arrival_type kind) es && not (has_event (departure_type kind) es)))) [
              | inl d ↦ rw (a, d, crossing) (departure_other kind)
              | inr d ↦ rw (a, d, crossing) (refl, refl)
            ]
    ]
  where
    arrival_other :
        (k : StopKind)
        → (tally
              (arrival_type (other k))
              (record { type = arrival_type k; message = arrival_message k } ∷ [])
            ≡ 0)
          × (tally
                (departure_type (other k))
                (record { type = arrival_type k; message = arrival_message k } ∷ [])
              ≡ 0)
    arrival_other at_pickup = (refl, refl)
    arrival_other at_dropoff = (refl, refl)

    departure_other :
        (k : StopKind)
        → (tally
              (arrival_type (other k))
              (record { type = departure_type k; message = departure_message k } ∷ [])
            ≡ 0)
          × (tally
                (departure_type (other k))
                (record { type = departure_type k; message = departure_message k } ∷ [])
              ≡ 0)
    departure_other at_pickup = (refl, refl)
    departure_other at_dropoff = (refl, refl)

module _ (num : JsNumber) (o : Order) (location : Coordinate) (radius : ℕ) where
  stop_transitions-Allows :
      (kind : StopKind)
      → IsFenced kind o.events
      → Allows kind o.events (stop_transitions num kind o location radius)
  unfolding stop_transitions
  stop_transitions-Allows kind h = elim (Bool-cases (is_enabled kind o.status)) [
    | inl e ↦
        rw (e, stop_transitions)
          (crossing-Allows kind (is_inside num location (point_of kind o) radius) o.events h)
    | inr e ↦ rw (e, stop_transitions) (omega (arith, h.0), omega (arith, h.1))
  ]

  stop_transitions-other :
      (kind : StopKind)
      → (tally (arrival_type (other kind)) (stop_transitions num kind o location radius) ≡ 0)
        × (tally (departure_type (other kind)) (stop_transitions num kind o location radius) ≡ 0)
  unfolding stop_transitions
  stop_transitions-other kind = elim (Bool-cases (is_enabled kind o.status)) [
    | inl e ↦
        rw (e, stop_transitions)
          (crossing-other kind (is_inside num location (point_of kind o) radius) o.events)
    | inr e ↦ rw (e, stop_transitions) (refl, refl)
  ]

  geofence_transitions-Allows :
      IsFencedOrder o
      → Allows at_pickup o.events (geofence_transitions num o location radius)
        × Allows at_dropoff o.events (geofence_transitions num o location radius)
  unfolding geofence_transitions
  geofence_transitions-Allows h =
      let at_first = stop_transitions num at_pickup o location radius in
      let at_last = stop_transitions num at_dropoff o location radius in
      let (p, q) = stop_transitions-Allows at_pickup h.0 in
      let (r, s) = stop_transitions-Allows at_dropoff h.1 in
      let (a, b) = stop_transitions-other at_pickup in
      let (c, d) = stop_transitions-other at_dropoff in
      let sum_1 = tally-append (arrival_type at_pickup) at_first at_last in
      let sum_2 = tally-append (departure_type at_pickup) at_first at_last in
      let sum_3 = tally-append (arrival_type at_dropoff) at_first at_last in
      let sum_4 = tally-append (departure_type at_dropoff) at_first at_last in
      ((omega arith, omega arith), (omega arith, omega arith))

  -- The order with the events of a new position of its driver is fenced if it was.
  pub tracked_order-IsFencedOrder :
      (ctx : Context) (actor : User) (d : Driver)
      → IsFencedOrder o
      → IsFencedOrder (tracked_order num ctx actor d (geofence_transitions num o location radius) o)
  unfolding tracked_order
  tracked_order-IsFencedOrder ctx actor d h =
      let (p, q) = geofence_transitions-Allows h in
      (
        recorded-IsFenced ctx actor d.last_seen_at at_pickup o.events _ p,
        recorded-IsFenced ctx actor d.last_seen_at at_dropoff o.events _ q,
      )
