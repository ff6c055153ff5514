-- ===== src/Security/Permissions/Tests.antt =====
-- The permissions of a small list of role names.
use model_lib.Base.{String, ◌≡◌, refl, true, List, [], ◌∷◌}
use model_lib.Security.Permissions.{
  runtime_override, contains, permissions_for_roles, role_permission_matrix,
}
use model_lib.Security.Permissions.Holders.{
  contains-permissions_for_roles, unknown-permissions_for_roles, meets, holders,
}

abbrev names : List String
names = "DISPATCHER" ∷ "driver" ∷ "SUPERVISOR" ∷ []

contains-permissions_for_roles_example :
    contains (permissions_for_roles names).0 runtime_override
    ≡ meets (holders runtime_override) names
contains-permissions_for_roles_example = contains-permissions_for_roles names runtime_override

unknown-permissions_for_roles_example : (permissions_for_roles names).1 ≡ "driver" ∷ []
unknown-permissions_for_roles_example = unknown-permissions_for_roles names

supervisor_may_override : contains (permissions_for_roles names).0 runtime_override ≡ true
unfolding permissions_for_roles contains role_permission_matrix
supervisor_may_override = refl
