-- ===== src/Access/Roles.antt =====
-- apps/api/src/security.ts: the management groups of an identity, and the guard of the routes.
use isms_portal.Base.{String, Bool, true, false, not, ◌&&◌, List, if◌then◌else◌, includes}

-- `Permission` of authorization.service.ts.
pub data Permission : Type 0 where
  show_menu read search preview download upload edit publish archive : Permission

-- `isAdminIdentity`
unfoldable pub is_admin_identity : List String → Bool
is_admin_identity groups = includes groups "ISMS-LOCAL-ADMINS"

-- `isModeratorIdentity`
unfoldable pub is_moderator_identity : List String → Bool
is_moderator_identity groups = includes groups "ISMS-MODERATOR-MANAGE"

abbrev right_of_moderator : Permission → List String → Bool
right_of_moderator publish groups = includes groups "ISMS-MODERATOR-PUBLISH"
right_of_moderator archive groups = includes groups "ISMS-MODERATOR-ARCHIVE"
right_of_moderator _ groups = true

-- `moderatorCan`
unfoldable pub moderator_can : List String → Permission → Bool
moderator_can groups permission =
    if is_admin_identity groups
    then true
    else if not (is_moderator_identity groups)
    then false
    else right_of_moderator permission groups

-- `AdminGuard.canActivate`: the metadata of the route are its two arguments, and `false` stands
-- for the `ForbiddenException`.
unfoldable pub can_activate : Bool → Bool → List String → Bool
can_activate required approver_required groups =
    if required && not (is_admin_identity groups)
    then false
    else if approver_required
        && not (is_admin_identity groups)
        && not (is_moderator_identity groups)
    then false
    else true
