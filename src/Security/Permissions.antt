-- ===== src/Security/Permissions.antt =====
-- backend/app/security/permissions.py: roles, permissions and the matrix between them. An enum
-- member is compared by its value, as a `StrEnum` is; a frozen set is a list read by membership.
pub mod Holders
mod Tests
use model_lib.Base.{
  String, Bool, false, ◌||◌, Option, none, some, List, [], ◌∷◌, ◌++◌, if◌then◌else◌,
}
use model_lib.Base.Eq.{◌==◌, string_eq}

pub data Role : Type 0 where
  employee dispatcher supervisor operator auditor admin : Role

pub data Permission : Type 0 where
  dispatch_read dispatch_create dispatch_review orders_read anomalies_read : Permission
  anomalies_report agents_read memory_read memory_mutate runtime_read : Permission
  runtime_override audit_read monitor_read system_admin : Permission

pub value : Permission → String
value dispatch_read = "dispatch:read"
value dispatch_create = "dispatch:create"
value dispatch_review = "dispatch:review"
value orders_read = "orders:read"
value anomalies_read = "anomalies:read"
value anomalies_report = "anomalies:report"
value agents_read = "agents:read"
value memory_read = "memory:read"
value memory_mutate = "memory:mutate"
value runtime_read = "runtime:read"
value runtime_override = "runtime:override"
value audit_read = "audit:read"
value monitor_read = "monitor:read"
value system_admin = "system:admin"

pub contains : List Permission → Permission → Bool
unfolding value
contains [] p = false
contains (q ∷ qs) p = value q == value p || contains qs p

all_permissions : List Permission
all_permissions =
    dispatch_read ∷ dispatch_create ∷ dispatch_review ∷ orders_read ∷ anomalies_read
    ∷ anomalies_report ∷ agents_read ∷ memory_read ∷ memory_mutate ∷ runtime_read ∷ runtime_override
    ∷ audit_read ∷ monitor_read ∷ system_admin ∷ []

dispatcher_permissions : List Permission
dispatcher_permissions =
    dispatch_read ∷ dispatch_create ∷ orders_read ∷ anomalies_read ∷ agents_read ∷ memory_read ∷ []

-- `_matrix`
pub role_permission_matrix : Role → List Permission
unfolding all_permissions dispatcher_permissions
role_permission_matrix employee = dispatch_read ∷ anomalies_report ∷ []
role_permission_matrix dispatcher = dispatcher_permissions
role_permission_matrix supervisor =
    dispatcher_permissions
    ++ dispatch_review ∷ memory_mutate ∷ runtime_read ∷ runtime_override ∷ audit_read ∷ monitor_read
      ∷ []
role_permission_matrix operator = agents_read ∷ runtime_read ∷ audit_read ∷ monitor_read ∷ []
role_permission_matrix auditor = memory_read ∷ runtime_read ∷ audit_read ∷ monitor_read ∷ []
role_permission_matrix admin = all_permissions

-- `Role(value)`; `none` is the `ValueError`.
pub parse_role : String → Option Role
parse_role s =
    if s == "EMPLOYEE"
    then some employee
    else if s == "DISPATCHER"
    then some dispatcher
    else if s == "SUPERVISOR"
    then some supervisor
    else if s == "OPERATOR"
    then some operator
    else if s == "AUDITOR"
    then some auditor
    else if s == "ADMIN"
    then some admin
    else none

-- One round of the loop.
collect : Option Role → String → List Permission × List String → List Permission × List String
unfolding role_permission_matrix
collect (some role) v (permissions, unknown) = (permissions ++ role_permission_matrix role, unknown)
collect none v (permissions, unknown) = (permissions, unknown ++ v ∷ [])

collect_all : List Permission × List String → List String → List Permission × List String
unfolding collect parse_role
collect_all acc [] = acc
collect_all acc (v ∷ vs) = collect_all (collect (parse_role v) v acc) vs

pub permissions_for_roles : List String → List Permission × List String
unfolding collect_all
permissions_for_roles values = collect_all ([], []) values
