-- ===== src/Exceptions/Kept.antt =====
-- The exceptions over sequences of requests.
use real_time_logistics_plat.Common.{
  ℕ, String, Option, none, some, List, [], ◌∷◌, ◌≡◌, refl, All, find, modify_first, subst, sym, not,
  ◌&&◌, modify_first-All, Pointwise-refl, modify_first-Pointwise, if-elim,
}
use real_time_logistics_plat.Model.{User, Order, is_driver}
use real_time_logistics_plat.Store.{Context, get_order, set_order}
use real_time_logistics_plat.Api.{is_staff, is_operator, is_assignee}
use real_time_logistics_plat.Exceptions.{
  DeliveryException, ExceptionInput, ExceptionResponse, Desk, new_exception, reported_order,
  refused, finish, report, report_found, report_parsed, post_exception, resolve_found,
  resolve_parsed, is_exception, resolve, patch_resolve, ExceptionCall, posts, resolves,
  handle_exception, handle_exceptions,
}
use real_time_logistics_plat.Exceptions.Reports.{
  IsConsistent, IsLaterReport, IsLaterReport-refl, resolve-IsLaterReport, IsBehind, level, Moves,
  added, edited, Moves-refl, IsBehind-Moves, All-Moves,
}

finish-delivery_exceptions :
    (ctx : Context) (actor : User) (action : String) (code : ℕ) (e : DeliveryException) (s : Desk)
    → (finish ctx actor action code e s).0.delivery_exceptions ≡ s.delivery_exceptions
unfolding finish
finish-delivery_exceptions ctx actor action code e s =
    if-elim (λ (p : Desk × ExceptionResponse). p.0.delivery_exceptions ≡ s.delivery_exceptions)
      ctx.persisted _ _ (λ _. refl) (λ _. refl)

-- The reports after a request.
abbrev Left : Desk → Desk × ExceptionResponse → Type 0
Left s p = Moves s.delivery_exceptions p.0.delivery_exceptions

new_exception-IsConsistent :
    (ctx : Context) (actor : User) (o : Order) (b : ExceptionInput)
    → IsConsistent (new_exception ctx actor o b)
unfolding new_exception
new_exception-IsConsistent ctx actor o b = (refl, refl)

resolve-IsConsistent :
    (ctx : Context) (resolution : String) (e : DeliveryException)
    → IsConsistent (resolve ctx resolution e)
unfolding resolve
resolve-IsConsistent ctx resolution e = (λ h. cc h, λ h. cc h)

report-Moves :
    (ctx : Context) (actor : User) (id : String) (o : Order) (b : ExceptionInput) (s : Desk)
    → Left s (report ctx actor id o b s)
unfolding report
report-Moves ctx actor id o b s =
    let item = new_exception ctx actor o b in
    let changed : Desk = record {
      world = set_order id actor.organization_id (reported_order ctx actor b o) s.world;
      delivery_exceptions = item ∷ s.delivery_exceptions;
    } in
    subst (Moves s.delivery_exceptions)
      (sym (finish-delivery_exceptions ctx actor "exception.created" 201 item changed))
      (added item (new_exception-IsConsistent ctx actor o b))

report_parsed-Moves :
    (ctx : Context) (actor : User) (id : String) (body : Option ExceptionInput) (s : Desk)
    → Left s (report_parsed ctx actor id body s)
unfolding report_parsed report_found
report_parsed-Moves ctx actor id none s = Moves-refl s.delivery_exceptions
report_parsed-Moves ctx actor id (some b) s =
    elim (get_order id actor.organization_id s.world)
      as (λ found. Left s (report_found ctx actor id b found s)) [
        | none ↦ Moves-refl s.delivery_exceptions
        | some o ↦
            if-elim (Left s) (is_driver actor.role && not (is_assignee actor o s.world))
              (s, refused 403 "Not your assignment") (report ctx actor id o b s)
              (λ _. Moves-refl s.delivery_exceptions) (λ _. report-Moves ctx actor id o b s)
      ]

resolve_parsed-Moves :
    (ctx : Context) (actor : User) (id : String) (body : Option String) (s : Desk)
    → Left s (resolve_parsed ctx actor id body s)
unfolding resolve_parsed resolve_found
resolve_parsed-Moves ctx actor id none s = Moves-refl s.delivery_exceptions
resolve_parsed-Moves ctx actor id (some resolution) s =
    let p = is_exception id actor.organization_id in
    let es = s.delivery_exceptions in
    let changed : Desk = record s {
      delivery_exceptions = modify_first p (resolve ctx resolution) es;
    } in
    elim (find p es) as (λ found. Left s (resolve_found ctx actor id resolution found s)) [
      | none ↦ Moves-refl es
      | some e ↦
          subst (Moves es)
            (sym (
              finish-delivery_exceptions ctx actor "exception.resolved" 200
                (resolve ctx resolution e) changed))
            (edited (modify_first p (resolve ctx resolution) es)
              (modify_first-Pointwise IsLaterReport IsLaterReport-refl p (resolve ctx resolution) es
                (λ x _. resolve-IsLaterReport ctx resolution x))
              (λ a.
                modify_first-All p IsConsistent (resolve ctx resolution) es a
                  (λ x _ _. resolve-IsConsistent ctx resolution x)))
    ]

handle_exception-Moves :
    (c : ExceptionCall) (s : Desk)
    → Moves s.delivery_exceptions (handle_exception c s).delivery_exceptions
unfolding handle_exception post_exception patch_resolve
handle_exception-Moves (posts ctx actor id body) s =
    if-elim (Left s) (is_staff actor.role) (report_parsed ctx actor id body s)
      (s, refused 403 "Insufficient permissions") (λ _. report_parsed-Moves ctx actor id body s)
      (λ _. Moves-refl s.delivery_exceptions)
handle_exception-Moves (resolves ctx actor id body) s =
    if-elim (Left s) (is_operator actor.role) (resolve_parsed ctx actor id body s)
      (s, refused 403 "Insufficient permissions") (λ _. resolve_parsed-Moves ctx actor id body s)
      (λ _. Moves-refl s.delivery_exceptions)

handled :
    (cs : List ExceptionCall) (old : List DeliveryException) (s : Desk)
    → IsBehind old s.delivery_exceptions
    → All IsConsistent s.delivery_exceptions
    → IsBehind old (handle_exceptions cs s).delivery_exceptions
      × All IsConsistent (handle_exceptions cs s).delivery_exceptions
unfolding handle_exceptions
handled [] old s b a = (b, a)
handled (c ∷ cs) old s b a =
    let next = (handle_exception c s).delivery_exceptions in
    let moves = handle_exception-Moves c s in
    handled cs old (handle_exception c s) (IsBehind-Moves old s.delivery_exceptions next b moves)
      (All-Moves s.delivery_exceptions next a moves)

-- Over any sequence of reports and resolutions, whatever the database answers: every exception
-- that stands stays, behind the new ones and in its sequence, with what was reported, and is
-- resolved for good once it is. An open one has no resolution and a resolved one has it with its
-- time, where that is so at the start.
pub handle_exceptions-IsBehind :
    (cs : List ExceptionCall) (s : Desk)
    → All IsConsistent s.delivery_exceptions
    → IsBehind s.delivery_exceptions (handle_exceptions cs s).delivery_exceptions
      × All IsConsistent (handle_exceptions cs s).delivery_exceptions
handle_exceptions-IsBehind cs s a =
    let es = s.delivery_exceptions in
    handled cs es s (level es (Pointwise-refl IsLaterReport IsLaterReport-refl es)) a
