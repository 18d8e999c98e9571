-- ===== src/Orders/Choice.antt =====
-- The driver that POST /api/orders/:id/assign picks is a driver of the store.
use real_time_logistics_plat.Common.{
  String, Bool, Option, none, some, List, [], ◌∷◌, ◌≡◌, ap, ◌⊎◌, inl, inr, arith, if◌then◌else◌,
  find, filter, Bool-cases,
}
use real_time_logistics_plat.Model.{Order, Driver, Coordinate}
use real_time_logistics_plat.Geo.{JsNumber}
use real_time_logistics_plat.Store.{World, has_id}
use real_time_logistics_plat.Orders.Dispatch.{
  nearer, insert_near, sort_near, choose, first, is_eligible,
}

-- The element stands in the list.
abbrev pub Has : {A : Type 0} → A → List A → Type 0
Has x [] = ⊥
Has x (y ∷ ys) = (x ≡ y) ⊎ Has x ys

pub find-Has : {A : Type 0} (p : A → Bool) (xs : List A) (x : A) → find p xs ≡ some x → Has x xs
unfolding find
find-Has p [] x e = cc
find-Has p (y ∷ ys) x e = elim (Bool-cases (p y)) [
  | inl h ↦ inl (cc (e, ap (λ b. if b then some y else find p ys) h))
  | inr h ↦ inr (find-Has p ys x (rw (h, find) at e))
]

pub filter-Has : {A : Type 0} (p : A → Bool) (xs : List A) (x : A) → Has x (filter p xs) → Has x xs
unfolding filter
filter-Has p [] x h = h
filter-Has p (y ∷ ys) x h = elim (Bool-cases (p y)) [
  | inl e ↦ elim (rw (e, filter) at h) [ inl same ↦ inl same | inr m ↦ inr (filter-Has p ys x m) ]
  | inr e ↦ inr (filter-Has p ys x (rw (e, filter) at h))
]

module _ (num : JsNumber) (to : Coordinate) where
  insert_near-Has :
      (d x : Driver) (ds : List Driver) → Has x (insert_near num to d ds) → Has x (d ∷ ds)
  unfolding insert_near
  insert_near-Has d x [] h = h
  insert_near-Has d x (e ∷ ds) h = elim (Bool-cases (nearer num to e d)) [
    | inl b ↦ elim (rw (b, insert_near) at h) [
      | inl same ↦ inr (inl same)
      | inr m ↦ elim (insert_near-Has d x ds m) [ inl same ↦ inl same | inr n ↦ inr (inr n) ]
    ]
    | inr b ↦ rw (b, insert_near) at h
  ]

  sort_near-Has : (x : Driver) (ds : List Driver) → Has x (sort_near num to ds) → Has x ds
  unfolding sort_near
  sort_near-Has x [] h = h
  sort_near-Has x (d ∷ ds) h = elim (insert_near-Has d x (sort_near num to ds) h) [
    | inl same ↦ inl same
    | inr m ↦ inr (sort_near-Has x ds m)
  ]

first-Has : (ds : List Driver) (d : Driver) → first ds ≡ some d → Has d ds
first-Has [] d e = cc
first-Has (x ∷ ds) d e = inl (ground arith)

-- The driver that is chosen is one of the store's.
pub choose-Has :
    (num : JsNumber) (tenant : String) (asked : Option String) (o : Order) (w : World) (d : Driver)
    → choose num tenant asked o w ≡ some d
    → Has d w.drivers
unfolding choose
choose-Has num tenant none o w d e = filter-Has (is_eligible tenant o w) w.drivers d (
    sort_near-Has num o.pickup.coordinate d (filter (is_eligible tenant o w) w.drivers)
      (first-Has _ d e))
choose-Has num tenant (some id) o w d e =
    filter-Has (is_eligible tenant o w) w.drivers d
      (find-Has (has_id id) (filter (is_eligible tenant o w) w.drivers) d e)
