-- ===== src/Hosted/Policy.antt =====
-- src/iwiki_mcp/postgres/policy.py: the policy of one tenant and domain, one field at a time. The
-- string and integer values of a field are typed by the field.
pub mod Strictness
pub mod Resolution
pub mod Overrides
mod Examples
use iwiki_mcp.Prelude.{
  ◌^◌, ℕ, zero, suc, ◌+◌, ◌-◌, ◌*◌, ◌/◌, ◌%◌, ◌≤◌, ◌<◌, min, max, ◌≡◌, refl, sym, ap, ◌∙◌, ◌≢◌, ◌↔◌,
  ◌⊎◌, inl, inr, Bool, true, false, not, ◌&&◌, ◌||◌, Option, none, some, List, [], ◌∷◌, ◌++◌, map,
  arith, ltb, leb, ◌==◌, if◌then◌else◌, leb→le, le→leb, ==_iff, Bool-cases, Option-cases, Eq,
  nat_eq, length, take, drop, get_elem?, length-append, length-take, take_of_length-le,
  take-append-drop, All, select, any, contains, list_beq, list_eq,
}
use iwiki_mcp.Text.{Text, codes}

pub data Mode : Type 0 where
  disabled : Mode
  optional : Mode
  strict : Mode

unfoldable pub mode_rank : Mode → ℕ
mode_rank disabled = 0
mode_rank optional = 1
mode_rank strict = 2

-- `POLICY_FIELDS`, in its order.
pub data PolicyField : Type 0 where
  specification_mode : PolicyField
  max_snapshot_age_seconds : PolicyField
  require_session_binding : PolicyField

abbrev pub policy_fields : List PolicyField
policy_fields = specification_mode ∷ max_snapshot_age_seconds ∷ require_session_binding ∷ []

abbrev pub Value : PolicyField → Type 0
Value specification_mode = Mode
Value max_snapshot_age_seconds = ℕ
Value require_session_binding = Bool

abbrev pub project_tier : PolicyField → Bool
project_tier specification_mode = true
project_tier max_snapshot_age_seconds = true
project_tier require_session_binding = false

-- Zero disables the age limit, and so it is the weakest age.
unfoldable pub age_at_least_as_strict : ℕ → ℕ → Bool
age_at_least_as_strict candidate floor =
    if candidate == 0 then floor == 0 else floor == 0 || leb candidate floor

unfoldable pub at_least_as_strict : (field : PolicyField) → Value field → Value field → Bool
unfolding mode_rank age_at_least_as_strict
at_least_as_strict specification_mode candidate floor = leb (mode_rank floor) (mode_rank candidate)
at_least_as_strict max_snapshot_age_seconds candidate floor = age_at_least_as_strict candidate floor
at_least_as_strict require_session_binding candidate floor = candidate || not floor

unfoldable pub built_in : (field : PolicyField) → Value field
built_in specification_mode = optional
built_in max_snapshot_age_seconds = 86400
built_in require_session_binding = false

-- The values of a mapping from field names; a missing one is `none`.
abbrev pub Declared : Type 0
Declared = (field : PolicyField) → Option (Value field)

pub record Override : Type 0 where
  pub iwiki_id : Text
  pub domain : Option Text
  pub values : Declared

pub record HostedSpecificationsConfig : Type 0 where
  pub allow_project_mode : Bool
  pub default_mode : Mode
  pub overrides : List Override

pub record HostedCodeGraphConfig : Type 0 where
  pub max_snapshot_age_seconds : ℕ
  pub require_session_binding : Bool

-- The two variables of the loop of `_override_value`: the tenant-wide and the exact override.
pub record Matches : Type 0 where
  pub exact : Option Override
  pub tenant : Option Override

unfoldable pub same_domain : Option Text → Text → Bool
same_domain none own = false
same_domain (some domain) own = list_beq own domain

unfoldable pub match_override : Text → Option Text → Override → Matches → Matches
unfolding same_domain
match_override iwiki_id domain o m =
    if not (list_beq o.iwiki_id iwiki_id) then m else elim o.domain [
      | none ↦ record m { tenant = some o }
      | some own ↦ if same_domain domain own then record m { exact = some o } else m
    ]

unfoldable pub match_overrides : Text → Option Text → List Override → Matches → Matches
unfolding match_override
match_overrides iwiki_id domain [] m = m
match_overrides iwiki_id domain (o ∷ os) m =
    match_overrides iwiki_id domain os (match_override iwiki_id domain o m)

module _ {A : Type 0} where
  abbrev pub or_else : Option A → Option A → Option A
  or_else none b = b
  or_else (some a) b = some a

abbrev pub value_in : (field : PolicyField) → Option Override → Option (Value field)
value_in field none = none
value_in field (some o) = o.values field

unfoldable pub override_value :
    Option HostedSpecificationsConfig
    → Text
    → Option Text
    → (field : PolicyField) → Option (Value field)
unfolding match_overrides
override_value none iwiki_id domain field = none
override_value (some specifications) iwiki_id domain field =
    let m =
      match_overrides iwiki_id domain specifications.overrides
        (record { exact = none; tenant = none }) in
    or_else (value_in field m.exact) (value_in field m.tenant)

pub data Source : Type 0 where
  hosted_override : Source
  project : Source
  hosted_default_source : Source
  built_in_default : Source

unfoldable pub hosted_default :
    (field : PolicyField)
    → Option HostedSpecificationsConfig
    → Option HostedCodeGraphConfig
    → Value field × Source
unfolding built_in
hosted_default specification_mode (some s) g = (s.default_mode, hosted_default_source)
hosted_default max_snapshot_age_seconds s (some g) =
    (g.max_snapshot_age_seconds, hosted_default_source)
hosted_default require_session_binding s (some g) =
    (g.require_session_binding, hosted_default_source)
hosted_default field s g = (built_in field, built_in_default)

-- What one round of the loop of `resolve_policy` decides.
pub record Resolved (field : PolicyField) : Type 0 where
  pub value : Value field
  pub source : Source
  pub suppressed : Bool

unfoldable pub settle :
    (field : PolicyField) → Bool → Value field × Source → Option (Value field) → Resolved field
settle field allow_project (default, source) none = record {
  value = default;
  source = source;
  suppressed = false;
}
settle field allow_project (default, source) (some declared) =
    if allow_project && at_least_as_strict field declared default
    then record { value = declared; source = project; suppressed = false }
    else record { value = default; source = source; suppressed = true }

abbrev pub allows_project : Option HostedSpecificationsConfig → Bool
allows_project none = true
allows_project (some s) = s.allow_project_mode

abbrev pub declared_by : Option Declared → (field : PolicyField) → Option (Value field)
declared_by none field = none
declared_by (some p) field = if project_tier field then p field else none

module _ (specifications : Option HostedSpecificationsConfig)
    (code_graph : Option HostedCodeGraphConfig) (iwiki_id : Text) (domain : Option Text) where
  abbrev pub or_settled :
      (field : PolicyField) → Option Declared → Option (Value field) → Resolved field
  or_settled field project_policy (some override) = record {
    value = override;
    source = hosted_override;
    suppressed = false;
  }
  or_settled field project_policy none =
      settle field (allows_project specifications) (hosted_default field specifications code_graph)
        (declared_by project_policy field)

  unfoldable pub resolve_field : Option Declared → (field : PolicyField) → Resolved field
  unfolding override_value settle hosted_default
  resolve_field project_policy field =
      or_settled field project_policy (override_value specifications iwiki_id domain field)

-- `ResolvedPolicy`, whose mappings have every field.
pub record ResolvedPolicy : Type 0 where
  pub values : (field : PolicyField) → Value field
  pub sources : PolicyField → Source
  pub suppressed : List PolicyField

unfoldable pub resolve_policy :
    Option HostedSpecificationsConfig
    → Option HostedCodeGraphConfig
    → Text
    → Option Text
    → Option Declared
    → ResolvedPolicy
unfolding resolve_field
resolve_policy specifications code_graph iwiki_id domain project_policy =
    let at = resolve_field specifications code_graph iwiki_id domain project_policy in
    record {
      values = λ field. (at field).value;
      sources = λ field. (at field).source;
      suppressed = select (λ field. (at field).suppressed) policy_fields;
    }
