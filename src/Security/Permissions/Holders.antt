-- ===== src/Security/Permissions/Holders.antt =====
-- The permission matrix read the other way: which roles hold a permission.
use mathlib.Core.List.{append-nil, append_assoc}
use mathlib.Core.Path.{subst}
use model_lib.Base.{
  String, ◌≡◌, refl, sym, ◌∙◌, Bool, true, false, ◌||◌, Option, none, some, List, [], ◌∷◌, ◌++◌,
  arith, inl, inr, Bool-cases, if◌then◌else◌,
}
use model_lib.Base.Eq.{◌==◌, string_eq}
use model_lib.Security.Permissions.{
  Role, Permission, dispatch_read, dispatch_create, dispatch_review, orders_read, anomalies_read,
  anomalies_report, agents_read, memory_read, memory_mutate, runtime_read, runtime_override,
  audit_read, monitor_read, system_admin, contains, role_permission_matrix, parse_role, collect,
  collect_all, permissions_for_roles,
}

-- The names of the roles that hold a permission, in the order of the enumeration.
pub holders : Permission → List String
holders dispatch_read = "EMPLOYEE" ∷ "DISPATCHER" ∷ "SUPERVISOR" ∷ "ADMIN" ∷ []
holders dispatch_create = "DISPATCHER" ∷ "SUPERVISOR" ∷ "ADMIN" ∷ []
holders dispatch_review = "SUPERVISOR" ∷ "ADMIN" ∷ []
holders orders_read = "DISPATCHER" ∷ "SUPERVISOR" ∷ "ADMIN" ∷ []
holders anomalies_read = "DISPATCHER" ∷ "SUPERVISOR" ∷ "ADMIN" ∷ []
holders anomalies_report = "EMPLOYEE" ∷ "ADMIN" ∷ []
holders agents_read = "DISPATCHER" ∷ "SUPERVISOR" ∷ "OPERATOR" ∷ "ADMIN" ∷ []
holders memory_read = "DISPATCHER" ∷ "SUPERVISOR" ∷ "AUDITOR" ∷ "ADMIN" ∷ []
holders memory_mutate = "SUPERVISOR" ∷ "ADMIN" ∷ []
holders runtime_read = "SUPERVISOR" ∷ "OPERATOR" ∷ "AUDITOR" ∷ "ADMIN" ∷ []
holders runtime_override = "SUPERVISOR" ∷ "ADMIN" ∷ []
holders audit_read = "SUPERVISOR" ∷ "OPERATOR" ∷ "AUDITOR" ∷ "ADMIN" ∷ []
holders monitor_read = "SUPERVISOR" ∷ "OPERATOR" ∷ "AUDITOR" ∷ "ADMIN" ∷ []
holders system_admin = "ADMIN" ∷ []

abbrev pub role_names : List String
role_names = "EMPLOYEE" ∷ "DISPATCHER" ∷ "SUPERVISOR" ∷ "OPERATOR" ∷ "AUDITOR" ∷ "ADMIN" ∷ []

abbrev pub is_in : List String → String → Bool
is_in [] v = false
is_in (n ∷ ns) v = v == n || is_in ns v

-- Some name of the list stands among the names.
abbrev pub meets : List String → List String → Bool
meets names [] = false
meets names (v ∷ vs) = is_in names v || meets names vs

-- The entries that are no role's name, in order.
abbrev pub strangers : List String → List String
strangers [] = []
strangers (v ∷ vs) = if is_in role_names v then strangers vs else v ∷ strangers vs

grants : Permission → Option Role → Bool
grants p none = false
grants p (some role) = contains (role_permission_matrix role) p

abbrev Agrees : String → Type 0
Agrees v = (p : Permission) → grants p (parse_role v) ≡ is_in (holders p) v

known-Agrees :
    (p : Permission)
    → (grants p (parse_role "EMPLOYEE") ≡ is_in (holders p) "EMPLOYEE")
      × (grants p (parse_role "DISPATCHER") ≡ is_in (holders p) "DISPATCHER")
      × (grants p (parse_role "SUPERVISOR") ≡ is_in (holders p) "SUPERVISOR")
      × (grants p (parse_role "OPERATOR") ≡ is_in (holders p) "OPERATOR")
      × (grants p (parse_role "AUDITOR") ≡ is_in (holders p) "AUDITOR")
      × (grants p (parse_role "ADMIN") ≡ is_in (holders p) "ADMIN")
unfolding grants parse_role holders contains role_permission_matrix
known-Agrees dispatch_read = (refl, refl, refl, refl, refl, refl)
known-Agrees _ = (refl, refl, refl, refl, refl, refl)

transfer : (P : String → Type 0) (v n : String) → (v == n) ≡ true → P n → P v
transfer P v n e h = subst P (sym ((string_eq.same_iff v n).0 e)) h

-- To prove of every text: of the six names, and of a text that is none of them.
by_role :
    (P : String → Type 0) (v : String)
    → P "EMPLOYEE"
    → P "DISPATCHER"
    → P "SUPERVISOR"
    → P "OPERATOR"
    → P "AUDITOR"
    → P "ADMIN"
    → (is_in role_names v ≡ false → P v)
    → P v
by_role P v a b c d e f other = elim (Bool-cases (v == "EMPLOYEE")) [
  | inl h ↦ transfer P v "EMPLOYEE" h a
  | inr h₁ ↦ elim (Bool-cases (v == "DISPATCHER")) [
    | inl h ↦ transfer P v "DISPATCHER" h b
    | inr h₂ ↦ elim (Bool-cases (v == "SUPERVISOR")) [
      | inl h ↦ transfer P v "SUPERVISOR" h c
      | inr h₃ ↦ elim (Bool-cases (v == "OPERATOR")) [
        | inl h ↦ transfer P v "OPERATOR" h d
        | inr h₄ ↦ elim (Bool-cases (v == "AUDITOR")) [
          | inl h ↦ transfer P v "AUDITOR" h e
          | inr h₅ ↦ elim (Bool-cases (v == "ADMIN")) [
            | inl h ↦ transfer P v "ADMIN" h f
            | inr h₆ ↦ other (rw (h₁, h₂, h₃, h₄, h₅, h₆))
          ]
        ]
      ]
    ]
  ]
]

stranger-Agrees : (v : String) → is_in role_names v ≡ false → Agrees v
unfolding grants parse_role holders
stranger-Agrees v h dispatch_read = ground arith
stranger-Agrees v h _ = ground arith

parse_role-Agrees : (v : String) → Agrees v
parse_role-Agrees v =
    by_role Agrees v (λ p. (known-Agrees p).0) (λ p. (known-Agrees p).1) (λ p. (known-Agrees p).2)
      (λ p. (known-Agrees p).3) (λ p. (known-Agrees p).4) (λ p. (known-Agrees p).5)
      (stranger-Agrees v)

contains-append :
    (qs rs : List Permission) (p : Permission)
    → contains (qs ++ rs) p ≡ (contains qs p || contains rs p)
unfolding contains
contains-append [] rs p = refl
contains-append (q ∷ qs) rs p = ground (arith, contains-append qs rs p)

contains-collect :
    (r : Option Role) (v : String) (acc : List Permission × List String) (p : Permission)
    → contains (collect r v acc).0 p ≡ (contains acc.0 p || grants p r)
unfolding collect grants
contains-collect none v (qs, us) p = ground arith
contains-collect (some role) v (qs, us) p = contains-append qs (role_permission_matrix role) p

contains-collect_all :
    (acc : List Permission × List String) (vs : List String) (p : Permission)
    → contains (collect_all acc vs).0 p ≡ (contains acc.0 p || meets (holders p) vs)
unfolding collect_all
contains-collect_all acc [] p = ground arith
contains-collect_all acc (v ∷ vs) p = ground (
  arith,
  contains-collect_all (collect (parse_role v) v acc) vs p,
  contains-collect (parse_role v) v acc p,
  parse_role-Agrees v p,
)

-- The permissions given for a list of role names hold a permission exactly when the list names one
-- of the roles that the inverted matrix lists for it; names of no role give nothing.
pub contains-permissions_for_roles :
    (values : List String) (p : Permission)
    → contains (permissions_for_roles values).0 p ≡ meets (holders p) values
unfolding permissions_for_roles contains
contains-permissions_for_roles values p = contains-collect_all ([], []) values p

unknown-collect :
    (v : String) (acc : List Permission × List String)
    → (collect (parse_role v) v acc).1 ≡ (if is_in role_names v then acc.1 else acc.1 ++ v ∷ [])
unfolding collect parse_role
unknown-collect v (qs, us) = ground arith

unknown-collect_all :
    (acc : List Permission × List String) (vs : List String)
    → (collect_all acc vs).1 ≡ acc.1 ++ strangers vs
unfolding collect_all
unknown-collect_all acc [] = sym (append-nil acc.1)
unknown-collect_all acc (v ∷ vs) = elim (Bool-cases (is_in role_names v)) [
  | inl e ↦
      unknown-collect_all (collect (parse_role v) v acc) vs ∙ ground (arith, unknown-collect v acc)
  | inr e ↦
      unknown-collect_all (collect (parse_role v) v acc) vs
      ∙ ground (arith, unknown-collect v acc, append_assoc acc.1 (v ∷ []) (strangers vs))
]

-- The second result is the list of the entries that are no role's name, in their order.
pub unknown-permissions_for_roles :
    (values : List String) → (permissions_for_roles values).1 ≡ strangers values
unfolding permissions_for_roles
unknown-permissions_for_roles values = unknown-collect_all ([], []) values
