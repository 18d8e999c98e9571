-- ===== src/Idempotency/Order.antt =====
-- The order of the promise chain: a request goes on only after all that asked before it have
-- released the lock.
use real_time_logistics_plat.Common.{
  ℕ, suc, ◌≤◌, ◌<◌, Bool, true, false, Option, none, some, ◌≡◌, ◌⊎◌, refl, sym, ap, subst, arith,
  eqb, ltb, ltb→lt, ◌≢◌, Bool-cases, Option-cases, some_inj, inl, inr, ◌∙◌,
}
use real_time_logistics_plat.Idempotency.{
  Gate, Phase, absent, waiting, checking, running, left, finished, is_released,
  acquire_idempotency_lock, release, tail_without, enter, replay_second, start, answer, answer_late,
  initial, update, remember_idempotency_result,
}
use real_time_logistics_plat.Idempotency.Steps.{
  Resolved, in_turn, Step, tick, replay_first, acquire, proceed, hit, miss, respond, Disturbance,
  close, respond_late, finish, AnyStep, Reach, begin, later,
}

abbrev pub has_entered : Phase → Bool
has_entered absent = false
has_entered waiting = false
has_entered _ = true

pub eqb-eq : (i k : ℕ) → eqb i k ≡ true → i ≡ k
eqb-eq i k h = ground arith

pub eqb-ne : (i k : ℕ) → eqb i k ≡ false → i ≢ k
eqb-ne i k h e = ground arith

pub update-elim :
    {A : Type 0} (P : A → Type 0) (f : ℕ → A) (k : ℕ) (v : A) (i : ℕ)
    → (i ≡ k → P v)
    → (i ≢ k → P (f i))
    → P (update f k v i)
update-elim P f k v i new old = elim (Bool-cases (eqb i k)) [
  | inl e ↦ rw e (new (eqb-eq i k e))
  | inr e ↦ rw e (old (eqb-ne i k e))
]

pub update_self : {A : Type 0} (f : ℕ → A) (k : ℕ) (v : A) → update f k v k ≡ v
update_self f k v = update-elim (λ q. q ≡ v) f k v k (λ _. refl) (λ ne. absurd (ne refl))

pub update_ne : {A : Type 0} (f : ℕ → A) (k : ℕ) (v : A) (i : ℕ) → i ≢ k → update f k v i ≡ f i
update_ne f k v i ne = update-elim (λ q. q ≡ f i) f k v i (λ e. absurd (ne e)) (λ _. refl)

-- All requests before the k-th have released the lock.
abbrev pub Before : (ℕ → Phase) → ℕ → Type 0
Before phase k = (i : ℕ) → i < k → is_released (phase i) ≡ true

pub record IsOrdered (next : ℕ) (tail : Option ℕ) (previous : ℕ → Option ℕ) (phase : ℕ → Phase)
    : Type 0 where
  pub newest : (j : ℕ) → tail ≡ some j → suc j ≡ next
  pub free : tail ≡ none → Before phase next
  pub linked : (k j : ℕ) → k < next → previous k ≡ some j → suc j ≡ k
  pub alone : (k : ℕ) → k < next → previous k ≡ none → Before phase k
  pub entered : (k : ℕ) → has_entered (phase k) ≡ true → Before phase k
  pub unknown : (k : ℕ) → next ≤ k → phase k ≡ absent
  pub joined : (k : ℕ) → k < next → phase k ≢ absent

abbrev pub InOrder : Gate → Type 0
InOrder g = IsOrdered g.next g.tail g.previous g.phase

released-has_entered : (p : Phase) → is_released p ≡ true → has_entered p ≡ true
released-has_entered left h = refl
released-has_entered finished h = refl
released-has_entered absent h = cc
released-has_entered waiting h = cc
released-has_entered checking h = cc
released-has_entered running h = cc

not_absent : (p : Phase) → p ≡ absent → has_entered p ≡ true → ⊥
not_absent p e h = cc

pub waiting-known : (p : Phase) → p ≡ waiting → p ≡ absent → ⊥
waiting-known p e h = cc

pub update-Before :
    (phase : ℕ → Phase) (k n : ℕ) (p : Phase)
    → (is_released (phase k) ≡ true → is_released p ≡ true)
    → Before phase n
    → Before (update phase k p) n
update-Before phase k n p keeps h i lt =
    update-elim (λ q. is_released q ≡ true) phase k p i (λ e. keeps (h k (subst (λ j. j < n) e lt)))
      (λ _. h i lt)

module _ (next : ℕ) (tail : Option ℕ) (previous : ℕ → Option ℕ) (phase : ℕ → Phase)
    (o : IsOrdered next tail previous phase) where
  pub known : (k : ℕ) → phase k ≢ absent → k < next
  known k h = elim (Bool-cases (ltb k next)) [
    | inl lt ↦ ltb→lt k next lt
    | inr ge ↦ absurd (h (o.unknown k (ground arith)))
  ]

  -- A request moves on, or stays where it is.
  pub IsOrdered-update :
      (k : ℕ) (p : Phase)
      → k < next
      → p ≢ absent
      → Before phase k
      → (is_released (phase k) ≡ true → is_released p ≡ true)
      → IsOrdered next tail previous (update phase k p)
  IsOrdered-update k p lt present before keeps = record {
    newest = o.newest;
    free = λ e. update-Before phase k next p keeps (o.free e);
    linked = o.linked;
    alone = λ j lt' e. update-Before phase k j p keeps (o.alone j lt' e);
    entered = λ j h. update-Before phase k j p keeps (
        update-elim (λ q. has_entered q ≡ true → Before phase j) phase k p j
          (λ e _. subst (Before phase) (sym e) before) (λ _. o.entered j) h);
    unknown = λ j le.
        update-elim (λ q. q ≡ absent) phase k p j (λ e. absurd (omega arith)) (λ _. o.unknown j le);
    joined =
        λ j lt'. update-elim (λ q. q ≢ absent) phase k p j (λ _. present) (λ _. o.joined j lt');
  }

  tail-some : (k j : ℕ) → tail_without tail k ≡ some j → tail ≡ some j
  unfolding tail_without
  tail-some k j h = ground arith

  tail-none : (k : ℕ) → tail_without tail k ≡ none → (tail ≡ none) ⊎ (tail ≡ some k)
  unfolding tail_without
  tail-none k h = ground arith

  released_all :
      (k : ℕ) (p : Phase)
      → Before phase k
      → is_released p ≡ true
      → (tail ≡ none) ⊎ (tail ≡ some k)
      → Before (update phase k p) next
  released_all k p before done (inl e) i lt =
      update-Before phase k next p (λ _. done) (o.free e) i lt
  released_all k p before done (inr e) i lt =
      update-elim (λ q. is_released q ≡ true) phase k p i (λ _. done)
        (λ ne. before i (omega (arith, o.newest k e)))

  -- A request releases the lock.
  pub IsOrdered-release :
      (k : ℕ) (p : Phase)
      → k < next
      → Before phase k
      → is_released p ≡ true
      → IsOrdered next (tail_without tail k) previous (update phase k p)
  IsOrdered-release k p lt before done =
      let moved = IsOrdered-update k p lt (λ e. cc) before (λ _. done) in
      record {
        newest = λ j e. o.newest j (tail-some k j e);
        free = λ e. released_all k p before done (tail-none k e);
        linked = moved.linked;
        alone = moved.alone;
        entered = moved.entered;
        unknown = moved.unknown;
        joined = moved.joined;
      }

  keeps_unknown : is_released (phase next) ≡ true → is_released waiting ≡ true
  keeps_unknown h =
      absurd (
        not_absent (phase next) (o.unknown next (omega arith))
          (released-has_entered (phase next) h))

  waits : (j : ℕ) → Before phase j → Before (update phase next waiting) j
  waits j = update-Before phase next j waiting keeps_unknown

  -- A new request asks for the lock.
  pub IsOrdered-acquire :
      IsOrdered (suc next) (some next) (update previous next tail) (update phase next waiting)
  IsOrdered-acquire = record {
    newest = λ j e. ap suc (sym (some_inj next j e));
    free = λ e. cc;
    linked = λ k j lt.
        update-elim (λ q. q ≡ some j → suc j ≡ k) previous next tail k
          (λ e tail_is. o.newest j tail_is ∙ sym e) (λ ne. o.linked k j (omega arith));
    alone = λ k lt e. waits k (
        update-elim (λ q. q ≡ none → Before phase k) previous next tail k
          (λ same none_is. subst (Before phase) (sym same) (o.free none_is))
          (λ ne. o.alone k (omega arith)) e);
    entered = λ k h. waits k (
        update-elim (λ q. has_entered q ≡ true → Before phase k) phase next waiting k
          (λ same absurd_is. cc) (λ ne. o.entered k) h);
    unknown = λ k le.
        update-elim (λ q. q ≡ absent) phase next waiting k (λ e. absurd (omega arith))
          (λ ne. o.unknown k (omega arith));
    joined = λ k lt.
        update-elim (λ q. q ≢ absent) phase next waiting k (λ _ e. cc)
          (λ ne. o.joined k (omega arith));
  }

released-Resolved : (g : Gate) (j : ℕ) → Resolved g (some j) → is_released (g.phase j) ≡ true
released-Resolved g j (in_turn _ h r) = h

-- What a request waits for is resolved only when all before it have released the lock.
Resolved-Before :
    (g : Gate) (k : ℕ) → InOrder g → k < g.next → Resolved g (g.previous k) → Before g.phase k
Resolved-Before g k o lt r i below = elim (Option-cases (g.previous k)) [
  | inl e ↦ o.alone k lt e i below
  | inr (j, e) ↦
      let done = released-Resolved g j (subst (Resolved g) e r) in
      let joined = o.linked k j lt e in
      elim (Bool-cases (eqb i j)) [
        | inl same ↦ subst (λ m. is_released (g.phase m) ≡ true) (sym (eqb-eq i j same)) done
        | inr other ↦
            o.entered j (released-has_entered (g.phase j) done) i (ground (arith, eqb-ne i j other))
      ]
]

holder-Before :
    (g : Gate) (k : ℕ) (p : Phase)
    → InOrder g
    → g.phase k ≡ p
    → has_entered p ≡ true
    → (k < g.next) × Before g.phase k
holder-Before g k p o e h =
    let entered : has_entered (g.phase k) ≡ true = rw e h in
    (
      known g.next g.tail g.previous g.phase o k (λ a. not_absent (g.phase k) a entered),
      o.entered k entered,
    )

pub Step-InOrder : {g h : Gate} → Step g h → InOrder g → InOrder h
unfolding acquire_idempotency_lock enter replay_second start answer release
    remember_idempotency_result
Step-InOrder (tick n) o = o
Step-InOrder (replay_first r e) o = o
Step-InOrder {g} acquire o = IsOrdered-acquire g.next g.tail g.previous g.phase o
Step-InOrder {g} (proceed k e r) o =
    let lt = known g.next g.tail g.previous g.phase o k (waiting-known (g.phase k) e) in
    IsOrdered-update g.next g.tail g.previous g.phase o k checking lt (λ a. cc)
      (Resolved-Before g k o lt r) (λ d. absurd (cc (rw e at d)))
Step-InOrder {g} (hit k r e found) o =
    let (lt, before) = holder-Before g k checking o e refl in
    IsOrdered-release g.next g.tail g.previous g.phase o k finished lt before refl
Step-InOrder {g} (miss k e none_found) o =
    let (lt, before) = holder-Before g k checking o e refl in
    IsOrdered-update g.next g.tail g.previous g.phase o k running lt (λ a. cc) before (λ d. cc)
Step-InOrder {g} (respond k r e) o =
    let (lt, before) = holder-Before g k running o e refl in
    IsOrdered-release g.next g.tail g.previous g.phase o k finished lt before refl

pub Disturbance-InOrder : {g h : Gate} → Disturbance g h → InOrder g → InOrder h
unfolding answer_late release remember_idempotency_result
Disturbance-InOrder {g} (close k e) o =
    let (lt, before) = holder-Before g k running o e refl in
    IsOrdered-release g.next g.tail g.previous g.phase o k left lt before refl
Disturbance-InOrder {g} (respond_late k r e) o =
    let (lt, before) = holder-Before g k left o e refl in
    IsOrdered-update g.next g.tail g.previous g.phase o k finished lt (λ a. cc) before (λ d. refl)
Disturbance-InOrder {g} (finish k e) o =
    let (lt, before) = holder-Before g k running o e refl in
    IsOrdered-release g.next g.tail g.previous g.phase o k finished lt before refl

initial-InOrder : InOrder initial
initial-InOrder = record {
  newest = λ j e. cc;
  free = λ e i lt. absurd (omega arith);
  linked = λ k j lt. absurd (omega arith);
  alone = λ k lt. absurd (omega arith);
  entered = λ k h. cc;
  unknown = λ k le. refl;
  joined = λ k lt. absurd (omega arith);
}

pub Reach-InOrder : {g : Gate} → Reach AnyStep g → InOrder g
Reach-InOrder begin = initial-InOrder
Reach-InOrder (later r (inl st)) = Step-InOrder st (Reach-InOrder r)
Reach-InOrder (later r (inr d)) = Disturbance-InOrder d (Reach-InOrder r)
