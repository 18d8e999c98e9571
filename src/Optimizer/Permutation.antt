-- ===== src/Optimizer/Permutation.antt =====
-- Every stop is planned once: the passes of apps/api/src/services/optimizer.ts only rearrange.
use mathlib.Core.List.{Permᴰ}
use mathlib.Core.List.Permᴰ
use real_time_logistics_plat.Common.{
  ℕ, zero, suc, ◌+◌, ◌-◌, ◌<◌, ◌≤◌, Bool, some, List, [], ◌∷◌, ◌++◌, ◌≡◌, refl, sym, ap, ◌∙◌, subst,
  inl, inr, arith, length, Bool-cases, any,
}
use real_time_logistics_plat.Model.{Coordinate}
use real_time_logistics_plat.Geo.{JsNumber, haversine_km}
use real_time_logistics_plat.Optimizer.Passes.{two_opt_lem}
use real_time_logistics_plat.Optimizer.Simulation.{arrange}
use real_time_logistics_plat.Optimizer.{
  Stop, Options, take, drop, splice, reversed, best_index, score, nearest_neighbor, is_shorter,
  try_reversal, two_opt, travel_ms, is_timed,
}

module _ {ℓ} {A : Type ℓ} where
  -- Within range a splice takes one element out and keeps the others.
  splice-some :
      (i : ℕ) (xs : List A)
      → i < length xs
      → (x : A) × (rest : List A) × (splice i xs ≡ some (x, rest))
        × Permᴰ (x ∷ rest) xs
        × (suc (length rest) ≡ length xs)
  unfolding splice
  splice-some i [] h = absurd (omega arith)
  splice-some zero (x ∷ xs) h = (x, xs, refl, Permᴰ.refl (x ∷ xs), refl)
  splice-some (suc i) (x ∷ xs) h =
      let (y, rest, e, p, n) = splice-some i xs (omega arith) in
      (
        y,
        x ∷ rest,
        rw (e, splice) refl,
        Permᴰ.trans (Permᴰ.swap refl refl) (Permᴰ.cons refl p),
        ap suc n,
      )

  take-drop : (i : ℕ) (xs : List A) → take i xs ++ drop i xs ≡ xs
  unfolding take drop
  take-drop zero xs = refl
  take-drop (suc i) [] = refl
  take-drop (suc i) (x ∷ xs) = ap (λ r. x ∷ r) (take-drop i xs)

  drop_nil : (k : ℕ) → drop {A = A} k [] ≡ []
  unfolding drop
  drop_nil zero = refl
  drop_nil (suc k) = refl

  drop-drop : (i k n : ℕ) (xs : List A) → i + k ≡ n → drop k (drop i xs) ≡ drop n xs
  unfolding drop
  drop-drop zero k n xs h = let e : k ≡ n = omega arith in ap (λ m. drop m xs) e
  drop-drop (suc i) k zero xs h = absurd (omega arith)
  drop-drop (suc i) k (suc n) [] h = drop_nil k
  drop-drop (suc i) k (suc n) (x ∷ xs) h = drop-drop i k n xs (omega arith)

  reversed-Perm : (i j : ℕ) (xs : List A) → i ≤ j → Permᴰ (reversed i j xs) xs
  unfolding reversed
  reversed-Perm i j xs h =
      let tail : drop (suc j) xs ≡ drop (suc j - i) (drop i xs) =
        sym (drop-drop i (suc j - i) (suc j) xs (omega arith)) in
      Permᴰ.trans
        (Permᴰ.append_left (take i xs)
          (Permᴰ.append_right (drop (suc j) xs) (Permᴰ.reverse (take (suc j - i) (drop i xs)))))
        (subst (λ ys. Permᴰ (take i xs ++ (take (suc j - i) (drop i xs) ++ drop (suc j) xs)) ys)
          (ap (λ t. take i xs ++ (take (suc j - i) (drop i xs) ++ t)) tail
            ∙ ap (λ t. take i xs ++ t) (take-drop (suc j - i) (drop i xs))
            ∙ take-drop i xs)
          (Permᴰ.refl _))

module _ (num : JsNumber) where
  open num use {Num, add}

  -- The candidate that is picked is one of those that were looked at.
  best_index_bounded :
      (f : Stop → Num) (i best n : ℕ) (least : Num) (ss : List Stop)
      → best < n
      → i + length ss ≤ n
      → best_index num f i best least ss < n
  unfolding best_index
  best_index_bounded f i best n least [] h k = h
  best_index_bounded f i best n least (s ∷ ss) h k = elim (Bool-cases (num.ltb (f s) least)) [
    | inl e ↦
        rw (e, best_index) (best_index_bounded f (suc i) i n (f s) ss (omega arith) (omega arith))
    | inr e ↦ rw (e, best_index) (best_index_bounded f (suc i) best n least ss h (omega arith))
  ]

  -- A loop for each stop takes each of them once.
  nearest_neighbor_total :
      (options : Options num) (n : ℕ) (elapsed : Num) (current : Coordinate) (ss : List Stop)
      → length ss ≡ n
      → (route : List Stop) × (nearest_neighbor num options n elapsed current ss ≡ some route)
        × Permᴰ route ss
  unfolding nearest_neighbor
  nearest_neighbor_total options zero elapsed current [] h = ([], refl, Permᴰ.nil)
  nearest_neighbor_total options zero elapsed current (s ∷ ss) h = absurd (omega arith)
  nearest_neighbor_total options (suc n) elapsed current ss h =
      let f = score num options elapsed current in
      let (next, rest, e, p, m) =
        splice-some (best_index num f 0 0 num.infinity ss) ss
          (best_index_bounded f 0 0 (length ss) num.infinity ss (omega arith) (omega arith)) in
      let later =
        nearest_neighbor_total options n
          (add elapsed (
            add (travel_ms num options (haversine_km num current next.coordinate))
              (num.mul options.service_minutes (num.of_ℕ 60000))))
          next.coordinate rest (omega arith) in
      (
        next ∷ later.0,
        rw (e, later.1, nearest_neighbor) refl,
        Permᴰ.trans (Permᴰ.cons refl later.2) p,
      )

  module _ (start : Coordinate) (return_to_depot : Bool) where
    try_reversal-Perm :
        (i j : ℕ) (state : List Stop × Bool)
        → i ≤ j
        → Permᴰ (try_reversal num start return_to_depot i j state).0 state.0
    unfolding try_reversal
    try_reversal-Perm i j (route, improved) h =
        elim (Bool-cases (is_shorter num start return_to_depot (reversed i j route) route)) [
          | inl e ↦ rw (e, try_reversal) (reversed-Perm i j route h)
          | inr e ↦ rw (e, try_reversal) (Permᴰ.refl route)
        ]

    two_opt-Perm :
        (n : ℕ) (route : List Stop) → Permᴰ (two_opt num start return_to_depot n route) route
    two_opt-Perm =
        two_opt_lem num start return_to_depot Permᴰ Permᴰ.refl (λ a b c p q. Permᴰ.trans p q)
          try_reversal-Perm

  -- The planner orders all the stops, each of them once, whatever the numbers are.
  pub arrange-Perm :
      (options : Options num) (start : Coordinate) (ss : List Stop)
      → (route : List Stop) × (arrange num options start ss ≡ some route) × Permᴰ route ss
  unfolding arrange
  arrange-Perm options start ss =
      let (route, e, p) =
        nearest_neighbor_total options (length ss) (num.of_ℕ options.start_at) start ss refl in
      elim (Bool-cases (any is_timed route)) [
        | inl t ↦ (route, rw (e, t, arrange) refl, p)
        | inr t ↦ (
          two_opt num start options.return_to_depot 50 route,
          rw (e, t, arrange) refl,
          Permᴰ.trans (two_opt-Perm start options.return_to_depot 50 route) p,
        )
      ]
