-- ===== src/Api.antt =====
-- What the request handlers of apps/api/src/app.ts share: access, settings, audit, notifications,
-- and the writing back of snapshots. A handler takes the request's context, its user and its
-- validated body (`none` where the schema refuses it), and returns the new state and the response.
use real_time_logistics_plat.Common.{
  ℕ, String, concat, Bool, true, false, not, ◌&&◌, ◌||◌, Option, none, some, List, [], ◌∷◌, ◌==◌,
  find, if◌then◌else◌, same_text?,
}
use real_time_logistics_plat.Model.{
  User, Role, admin, dispatcher, driver, customer, is_customer, Driver, Order, OrganizationSettings,
  email, NotificationStatus, simulated,
}
use real_time_logistics_plat.Store.{World, Context, get_order, profile_of, spaced}

-- The order that the handler answers with is the stored one, before `etaFor` adds its estimate.
pub data Response : Type 0 where
  accepted : ℕ → Order → Response
  refused : ℕ → String → Response

abbrev pub internal_error : Response
internal_error = refused 500 "Internal server error"

abbrev pub invalid_body : Response
invalid_body = refused 400 "Validation failed"

-- `permit("admin", "dispatcher")`, and so on.
abbrev pub is_operator : Role → Bool
is_operator admin = true
is_operator dispatcher = true
is_operator _ = false

abbrev pub is_staff : Role → Bool
is_staff customer = false
is_staff _ = true

abbrev pub is_payer : Role → Bool
is_payer driver = false
is_payer _ = true

unfoldable pub permit : Bool → World → World × Response → World × Response
permit allowed w handled = if allowed then handled else (w, refused 403 "Insufficient permissions")

unfoldable pub can_access_order : Context → User → Order → Bool
can_access_order ctx user o =
    not (is_customer user.role)
    || ctx.lower o.customer_email == ctx.lower user.email
    || (user.id == "u_customer" && o.organization_id == "org_demo" && o.id == "ord_1002")

-- `order.assignedDriverId !== d?.id`, negated, where `d` is the user's driver profile.
abbrev pub profile_id : Option Driver → Option String
profile_id none = none
profile_id (some d) = some d.id

unfoldable pub is_assignee : User → Order → World → Bool
unfolding profile_of same_text?
is_assignee user o w = same_text? o.assigned_driver_id (profile_id (profile_of user w))

unfoldable pub lookup_settings :
    String → List (String × OrganizationSettings) → Option OrganizationSettings
lookup_settings tenant [] = none
lookup_settings tenant ((k, s) ∷ rest) = if k == tenant then some s else lookup_settings tenant rest

abbrev default_settings : String → OrganizationSettings → OrganizationSettings
default_settings tenant base = record base {
  organization_id = tenant;
  name = if tenant == "org_demo" then base.name else "New organization";
}

-- Reading the settings of a tenant that has none stores the defaults.
unfoldable pub settings_for : String → World → World × OrganizationSettings
unfolding lookup_settings
settings_for tenant w = elim (lookup_settings tenant w.organization_settings_by_tenant) [
  | some s ↦ (w, s)
  | none ↦
      let created = default_settings tenant w.organization_settings in
      (
        record w {
          organization_settings_by_tenant = (tenant, created) ∷ w.organization_settings_by_tenant;
        },
        created,
      )
]

unfoldable pub audit : Context → User → String → String → String → World → World
audit ctx user action resource_type resource_id w = record w {
  audit_records =
      record {
        id = ctx.uuid 1;
        organization_id = user.organization_id;
        actor_id = some user.id;
        action = action;
        resource_type = resource_type;
        resource_id = resource_id;
        created_at = ctx.now;
      }
      ∷ w.audit_records;
}

abbrev user_id? : Option User → Option String
user_id? none = none
user_id? (some u) = some u.id

abbrev mail_status : Option NotificationStatus → NotificationStatus
mail_status none = NotificationStatus.failed
mail_status (some s) = s

abbrev pub customer_of : Context → Order → World → Option User
customer_of ctx o w =
    find
      (λ u.
        u.organization_id == o.organization_id && ctx.lower u.email == ctx.lower o.customer_email)
      w.users

-- `notifySafely`: the record is added whatever the adapter did.
unfoldable pub notify_safely : Context → Order → String → World → World
unfolding settings_for spaced
notify_safely ctx o template w =
    let (w', settings) = settings_for o.organization_id w in
    record w' {
      notification_records =
          record {
            id = ctx.uuid 2;
            organization_id = o.organization_id;
            user_id = user_id? (customer_of ctx o w);
            order_id = some o.id;
            channel = email;
            title = concat "Delivery " o.tracking_code;
            message = spaced template;
            status = if settings.notifications_enabled then mail_status ctx.mailed else simulated;
            read_at = none;
            created_at = ctx.now;
          }
          ∷ w'.notification_records;
    }

-- `if (!order) return res.status(404)...`.
unfoldable pub with_order : User → String → World → (Order → World × Response) → World × Response
with_order actor id w k = elim (get_order id actor.organization_id w) [
  | none ↦ (w, refused 404 "Order not found")
  | some o ↦ k o
]

-- The end of a handler whose order is stored: the audit insert, then the notification.
unfoldable pub finish : Context → User → String → ℕ → Order → String → World → World × Response
unfolding audit notify_safely
finish ctx actor action code o template w =
    let w1 = audit ctx actor action "order" o.id w in
    let w2 = notify_safely ctx o template w1 in
    if ctx.audited
    then if ctx.recorded then (w2, accepted code o) else (w2, internal_error)
    else (w1, internal_error)

-- The end of a handler that audits and notifies nobody; `etaFor` reads the settings.
unfoldable pub finish_quietly : Context → User → String → Order → World → World × Response
unfolding audit settings_for
finish_quietly ctx actor action o w =
    let w1 = audit ctx actor action "order" o.id w in
    if ctx.audited
    then ((settings_for o.organization_id w1).0, accepted 200 o)
    else (w1, internal_error)
