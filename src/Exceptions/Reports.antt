-- ===== src/Exceptions/Reports.antt =====
-- What a report of an exception becomes, and a list of them.
use real_time_logistics_plat.Common.{
  String, none, List, [], ◌∷◌, ◌≡◌, ◌≢◌, refl, All, Pointwise, Pointwise-refl,
}
use real_time_logistics_plat.Store.{Context}
use real_time_logistics_plat.Exceptions.{
  DeliveryException, ExceptionStatus, opened, resolved, resolve,
}

-- Open with no resolution, or resolved with one and its time.
abbrev pub HasResolution : ExceptionStatus → DeliveryException → Type 0
HasResolution opened e = (e.resolution ≡ none) × (e.resolved_at ≡ none)
HasResolution resolved e = (e.resolution ≢ none) × (e.resolved_at ≢ none)

abbrev pub IsConsistent : DeliveryException → Type 0
IsConsistent e = HasResolution e.status e

-- The same report, which stays resolved.
pub record IsLaterReport (e f : DeliveryException) : Type 0 where
  pub id : f.id ≡ e.id
  pub organization_id : f.organization_id ≡ e.organization_id
  pub order_id : f.order_id ≡ e.order_id
  pub type : f.type ≡ e.type
  pub description : f.description ≡ e.description
  pub created_by : f.created_by ≡ e.created_by
  pub created_at : f.created_at ≡ e.created_at
  pub status : e.status ≡ resolved → f.status ≡ resolved

pub IsLaterReport-refl : (e : DeliveryException) → IsLaterReport e e
IsLaterReport-refl e = record {
  id = refl;
  organization_id = refl;
  order_id = refl;
  type = refl;
  description = refl;
  created_by = refl;
  created_at = refl;
  status = λ h. h;
}

IsLaterReport-trans :
    (e f g : DeliveryException) → IsLaterReport e f → IsLaterReport f g → IsLaterReport e g
IsLaterReport-trans e f g a b = record {
  id = cc (a.id, b.id);
  organization_id = cc (a.organization_id, b.organization_id);
  order_id = cc (a.order_id, b.order_id);
  type = cc (a.type, b.type);
  description = cc (a.description, b.description);
  created_by = cc (a.created_by, b.created_by);
  created_at = cc (a.created_at, b.created_at);
  status = λ h. b.status (a.status h);
}

pub resolve-IsLaterReport :
    (ctx : Context) (resolution : String) (e : DeliveryException)
    → IsLaterReport e (resolve ctx resolution e)
unfolding resolve
resolve-IsLaterReport ctx resolution e = record {
  id = refl;
  organization_id = refl;
  order_id = refl;
  type = refl;
  description = refl;
  created_by = refl;
  created_at = refl;
  status = λ h. refl;
}

-- The reports stand behind the new ones, in their sequence.
pub data IsBehind (old : List DeliveryException) : List DeliveryException → Type 0 where
  level : (es : List DeliveryException) → Pointwise IsLaterReport old es → IsBehind old es
  behind :
      (e : DeliveryException) (es : List DeliveryException)
      → IsBehind old es
      → IsBehind old (e ∷ es)

-- One request puts a consistent report in front, or leaves each in its place.
pub data Moves (old : List DeliveryException) : List DeliveryException → Type 0 where
  added : (e : DeliveryException) → IsConsistent e → Moves old (e ∷ old)
  edited :
      (es : List DeliveryException)
      → Pointwise IsLaterReport old es
      → (All IsConsistent old → All IsConsistent es)
      → Moves old es

pub Moves-refl : (es : List DeliveryException) → Moves es es
Moves-refl es = edited es (Pointwise-refl IsLaterReport IsLaterReport-refl es) (λ a. a)

Pointwise-IsLaterReport-trans :
    (xs ys zs : List DeliveryException)
    → Pointwise IsLaterReport xs ys
    → Pointwise IsLaterReport ys zs
    → Pointwise IsLaterReport xs zs
Pointwise-IsLaterReport-trans [] [] [] a b = tt
Pointwise-IsLaterReport-trans [] [] (z ∷ zs) a b = b
Pointwise-IsLaterReport-trans [] (y ∷ ys) zs a b = absurd a
Pointwise-IsLaterReport-trans (x ∷ xs) [] zs a b = absurd a
Pointwise-IsLaterReport-trans (x ∷ xs) (y ∷ ys) [] a b = b
Pointwise-IsLaterReport-trans (x ∷ xs) (y ∷ ys) (z ∷ zs) a b =
    (IsLaterReport-trans x y z a.0 b.0, Pointwise-IsLaterReport-trans xs ys zs a.1 b.1)

IsBehind-edited :
    (old es fs : List DeliveryException)
    → IsBehind old es
    → Pointwise IsLaterReport es fs
    → IsBehind old fs
IsBehind-edited old es fs (level _ p) q = level fs (Pointwise-IsLaterReport-trans old es fs p q)
IsBehind-edited old _ [] (behind e es b) q = absurd q
IsBehind-edited old _ (f ∷ fs) (behind e es b) q = behind f fs (IsBehind-edited old es fs b q.1)

pub IsBehind-Moves :
    (old es fs : List DeliveryException) → IsBehind old es → Moves es fs → IsBehind old fs
IsBehind-Moves old es _ b (added e c) = behind e es b
IsBehind-Moves old es fs b (edited _ p c) = IsBehind-edited old es fs b p

pub All-Moves :
    (es fs : List DeliveryException) → All IsConsistent es → Moves es fs → All IsConsistent fs
All-Moves es _ a (added e c) = (c, a)
All-Moves es fs a (edited _ p c) = c a
