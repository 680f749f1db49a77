-- ===== src/Hosted/Policy/Examples.antt =====
-- One hosted server with a tenant-wide and an exact override, and a project that declares a policy.
use iwiki_mcp.Prelude.{◌≡◌, refl, ◌⊎◌, true, false, none, some, [], ◌∷◌, nat_eq, list_eq}
use iwiki_mcp.Text.{Text, codes}
use iwiki_mcp.Hosted.Policy.{
  disabled, optional, strict, PolicyField, specification_mode, max_snapshot_age_seconds,
  require_session_binding, Value, Declared, Override, HostedSpecificationsConfig,
  HostedCodeGraphConfig, at_least_as_strict, resolve_policy, override_value, project,
  hosted_override,
}
use iwiki_mcp.Hosted.Policy.Strictness.{at_least_as_strict_trans}
use iwiki_mcp.Hosted.Policy.Resolution.{
  resolve_policy_tightens, resolve_policy_reports, resolve_policy_overridden, Listed,
}
use iwiki_mcp.Hosted.Policy.Overrides.{override_value_exact}

abbrev tenant : Text
tenant = codes "team"

abbrev docs : Text
docs = codes "docs"

abbrev strict_alone : Declared
strict_alone specification_mode = some strict
strict_alone max_snapshot_age_seconds = none
strict_alone require_session_binding = none

abbrev one_minute : Declared
one_minute specification_mode = none
one_minute max_snapshot_age_seconds = some 60
one_minute require_session_binding = none

abbrev wide : Override
wide = record { iwiki_id = tenant; domain = none; values = strict_alone }

abbrev exact_docs : Override
exact_docs = record { iwiki_id = tenant; domain = some docs; values = one_minute }

abbrev specifications : HostedSpecificationsConfig
specifications = record {
  allow_project_mode = true;
  default_mode = optional;
  overrides = exact_docs ∷ wide ∷ [];
}

abbrev code_graph : HostedCodeGraphConfig
code_graph = record { max_snapshot_age_seconds = 3600; require_session_binding = false }

abbrev weak_project : Declared
weak_project specification_mode = some disabled
weak_project max_snapshot_age_seconds = some 0
weak_project require_session_binding = some true

abbrev resolved_field_of : Text → Text → (field : PolicyField) → Value field
resolved_field_of owner domain field =
    (resolve_policy (some specifications) (some code_graph) owner (some domain)
        (some weak_project)).values
      field

overridden_mode : resolved_field_of tenant docs specification_mode ≡ strict
unfolding resolve_policy
overridden_mode = refl

overridden_age : resolved_field_of tenant docs max_snapshot_age_seconds ≡ 60
unfolding resolve_policy
overridden_age = refl

hosted_age : resolved_field_of (codes "other") docs max_snapshot_age_seconds ≡ 3600
unfolding resolve_policy at_least_as_strict
hosted_age = refl

test_at_least_as_strict : at_least_as_strict max_snapshot_age_seconds 60 0 ≡ true
unfolding at_least_as_strict
test_at_least_as_strict = at_least_as_strict_trans max_snapshot_age_seconds 60 3600 0 refl refl

resolve_policy_tightens_example :
    at_least_as_strict max_snapshot_age_seconds
      ((resolve_policy
          (some specifications)
          (some code_graph)
          (codes "other")
          (some docs)
          (some weak_project)).values
        max_snapshot_age_seconds)
      ((resolve_policy
          (some specifications)
          (some code_graph)
          (codes "other")
          (some docs)
          none).values
        max_snapshot_age_seconds)
    ≡ true
resolve_policy_tightens_example =
    resolve_policy_tightens (some specifications) (some code_graph) (codes "other") (some docs)
      (some weak_project) max_snapshot_age_seconds

resolve_policy_reports_example :
    let r =
      resolve_policy
        (some specifications)
        (some code_graph)
        (codes "other")
        (some docs)
        (some weak_project) in
    ((r.values max_snapshot_age_seconds ≡ 0) × (r.sources max_snapshot_age_seconds ≡ project))
    ⊎ ((r.values max_snapshot_age_seconds
          ≡ (resolve_policy
                (some specifications)
                (some code_graph)
                (codes "other")
                (some docs)
                none).values
              max_snapshot_age_seconds)
        × Listed max_snapshot_age_seconds r.suppressed)
unfolding override_value
resolve_policy_reports_example =
    resolve_policy_reports (some specifications) (some code_graph) (codes "other") (some docs)
      weak_project max_snapshot_age_seconds 0 refl refl refl

resolve_policy_overridden_example :
    let r =
      resolve_policy
        (some specifications)
        (some code_graph)
        tenant
        (some docs)
        (some weak_project) in
    (r.values max_snapshot_age_seconds ≡ 60)
    × (r.sources max_snapshot_age_seconds ≡ hosted_override)
unfolding override_value
resolve_policy_overridden_example =
    resolve_policy_overridden (some specifications) (some code_graph) tenant (some docs)
      (some weak_project) max_snapshot_age_seconds 60 refl

override_value_exact_example :
    override_value (some specifications) tenant (some docs) max_snapshot_age_seconds ≡ some 60
override_value_exact_example =
    override_value_exact tenant docs specifications [] (wide ∷ []) exact_docs
      max_snapshot_age_seconds 60 refl refl (refl, tt) refl
