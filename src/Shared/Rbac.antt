-- ===== src/Shared/Rbac.antt =====
-- packages/shared/src/middleware/rbac.ts: roles, their hierarchy, and the checks made before a
-- handler runs. A check throws (`some` error) or lets the request pass. A role that is the name of a
-- property of JavaScript's object prototype is not modelled.
pub mod Roles
use mathlib.Core.List.{foldl}
use zk_dpp_royalty_protocol.Common.{
  String, Bool, true, false, not, Option, none, some, List, [], ◌∷◌, ◌++◌, ◌==◌, any, all, includes,
  if◌then◌else◌,
}
use zk_dpp_royalty_protocol.Predicates.{◌⧺◌}
use zk_dpp_royalty_protocol.Shared.Errors.{
  ZkDppError, authorization_failed, insufficient_role, access_denied, resource_forbidden,
}

pub record AuthUser : Type 0 where
  pub id : String
  pub email : Option String
  pub username : Option String
  pub roles : List String

pub data DppViewType : Type 0 where
  public legit_interest authority : DppViewType

abbrev pub dpp_view_roles : DppViewType → List String
dpp_view_roles public = []
dpp_view_roles legit_interest = "auditor" ∷ "authority" ∷ "brand" ∷ []
dpp_view_roles authority = "authority" ∷ []

-- `RoleHierarchy[role] || []`
unfoldable pub inherited : String → List String
inherited role = if role == "authority" then "auditor" ∷ "brand" ∷ [] else []

-- `set.add(role)`
unfoldable pub add_role : List String → String → List String
add_role roles role = if includes roles role then roles else roles ++ role ∷ []

unfoldable pub add_inherited : List String → String → List String
add_inherited roles role = foldl add_role roles (inherited role)

unfoldable pub get_effective_roles : List String → List String
get_effective_roles user_roles = foldl add_inherited (foldl add_role [] user_roles) user_roles

-- Of an optional user and the required roles.
unfoldable pub has_any_role : Option AuthUser → List String → Bool
has_any_role user [] = true
has_any_role none (r ∷ rs) = false
has_any_role (some user) (r ∷ rs) =
    any (λ role. includes (get_effective_roles user.roles) role) (r ∷ rs)

unfoldable pub has_all_roles : Option AuthUser → List String → Bool
has_all_roles user [] = true
has_all_roles none (r ∷ rs) = false
has_all_roles (some user) (r ∷ rs) =
    all (λ role. includes (get_effective_roles user.roles) role) (r ∷ rs)

-- `roles.join(separator)`
abbrev pub join : String → List String → String
join separator [] = ""
join separator (r ∷ []) = r
join separator (r ∷ s ∷ rs) = r ⧺ separator ⧺ join separator (s ∷ rs)

unfoldable pub require_any_role : List String → Option AuthUser → Option ZkDppError
require_any_role roles user =
    if not (has_any_role user roles)
    then some (record {
      code = insufficient_role;
      message = "Insufficient permissions. Required roles: " ⧺ join " or " roles;
    })
    else none

unfoldable pub require_all_roles : List String → Option AuthUser → Option ZkDppError
require_all_roles roles user =
    if not (has_all_roles user roles)
    then some (record {
      code = insufficient_role;
      message = "Insufficient permissions. Required roles: " ⧺ join " and " roles;
    })
    else none

abbrev pub view_type_text : DppViewType → String
view_type_text public = "PUBLIC"
view_type_text legit_interest = "LEGIT_INTEREST"
view_type_text authority = "AUTHORITY"

abbrev check_view_roles : DppViewType → Option AuthUser → Option ZkDppError
check_view_roles view none =
    some (record { code = authorization_failed; message = "Authentication required for this view" })
check_view_roles view (some user) =
    if not (has_any_role (some user) (dpp_view_roles view))
    then some (record {
      code = access_denied;
      message =
          "Access denied to "
          ⧺ view_type_text view
          ⧺ " view. Required roles: "
          ⧺ join " or " (dpp_view_roles view);
    })
    else none

unfoldable pub require_dpp_view_access : DppViewType → Option AuthUser → Option ZkDppError
require_dpp_view_access public user = none
require_dpp_view_access legit_interest user = check_view_roles legit_interest user
require_dpp_view_access authority user = check_view_roles authority user

unfoldable pub check_resource_ownership : Option AuthUser → String → Bool
check_resource_ownership none owner = false
check_resource_ownership (some user) owner =
    if includes user.roles "authority" then true else user.id == owner

-- The owner of the resource of the request is an argument.
unfoldable pub require_resource_ownership : String → Option AuthUser → Option ZkDppError
require_resource_ownership owner user =
    if not (check_resource_ownership user owner)
    then some (record {
      code = resource_forbidden;
      message = "You do not have permission to access this resource";
    })
    else none
