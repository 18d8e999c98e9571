-- ===== src/Tests/Exceptions.antt =====
-- The theorem on exceptions, at one that is resolved while another is reported.
use real_time_logistics_plat.Common.{
  true, none, some, List, [], ◌∷◌, ◌≡◌, refl, All, length, find, modify_first,
}
use real_time_logistics_plat.Exceptions.{
  opened, address_issue, delay, Desk, ExceptionInput, ExceptionCall, posts, resolves,
  handle_exceptions,
}
use real_time_logistics_plat.Exceptions.Reports.{IsConsistent, IsBehind}
use real_time_logistics_plat.Exceptions.Kept.{handle_exceptions-IsBehind}
use real_time_logistics_plat.Tests.Data.{clerk, request, world}

abbrev desk : Desk
desk = record {
  world = world;
  delivery_exceptions =
      record {
        id = "x1";
        organization_id = "t1";
        order_id = "o1";
        type = address_issue;
        description = "No such house";
        status = opened;
        created_by = "u1";
        created_at = 3;
        resolved_at = none;
        resolution = none;
      }
      ∷ [];
}

abbrev late : ExceptionInput
late = record { type = delay; description = "Traffic" }

abbrev calls : List ExceptionCall
calls =
    posts (request true) clerk "o1" (some late)
    ∷ resolves (request true) clerk "x1" (some "Called the customer")
    ∷ posts (request true) clerk "o7" (some late)
    ∷ []

handle_exceptions-IsBehind_example :
    IsBehind desk.delivery_exceptions (handle_exceptions calls desk).delivery_exceptions
    × All IsConsistent (handle_exceptions calls desk).delivery_exceptions
handle_exceptions-IsBehind_example = handle_exceptions-IsBehind calls desk ((refl, refl), tt)

-- The order o7 does not exist.
two_reports : length (handle_exceptions calls desk).delivery_exceptions ≡ 2
unfolding handle_exceptions find modify_first
two_reports = refl
