-- ===== src/Hosted/Policy/Resolution.antt =====
-- What a bound project can and cannot change of the resolved policy.
use iwiki_mcp.Prelude.{
  ◌≡◌, refl, sym, ap, ◌∙◌, ◌⊎◌, inl, inr, Bool, true, ◌&&◌, Option, none, some, List, [], ◌∷◌,
  arith, Bool-cases, nat_eq, select, list_eq,
}
use iwiki_mcp.Text.{Text}
use iwiki_mcp.Hosted.Policy.{
  PolicyField, specification_mode, max_snapshot_age_seconds, require_session_binding, policy_fields,
  project_tier, Value, at_least_as_strict, Declared, HostedSpecificationsConfig,
  HostedCodeGraphConfig, Source, hosted_override, project, hosted_default, Resolved, settle,
  allows_project, declared_by, resolve_field, resolve_policy, or_settled, override_value,
}
use iwiki_mcp.Hosted.Policy.Strictness.{at_least_as_strict_refl}

abbrev pub Listed : PolicyField → List PolicyField → Type 0
Listed field [] = ⊥
Listed field (x ∷ xs) = (x ≡ field) ⊎ Listed field xs

module _ (specifications : Option HostedSpecificationsConfig)
    (code_graph : Option HostedCodeGraphConfig) (iwiki_id : Text) (domain : Option Text) where
  -- The policy of the hosted server alone.
  abbrev unbound : (field : PolicyField) → Value field
  unbound = (resolve_policy specifications code_graph iwiki_id domain none).values

  settle_tightens :
      (field : PolicyField) (allow : Bool) (default : Value field × Source)
      (declared : Option (Value field))
      → at_least_as_strict field (settle field allow default declared).value default.0 ≡ true
  unfolding settle
  settle_tightens field allow (default, source) none = at_least_as_strict_refl field default
  settle_tightens field allow (default, source) (some declared) =
      elim (Bool-cases (allow && at_least_as_strict field declared default)) [
        | inl e ↦ rw e (both allow (at_least_as_strict field declared default) e)
        | inr e ↦ rw e (at_least_as_strict_refl field default)
      ]
    where
      both : (a b : Bool) → (a && b) ≡ true → b ≡ true
      both a b h = ground arith

  or_settled_tightens :
      (field : PolicyField) (pp : Option Declared) (override : Option (Value field))
      → at_least_as_strict field
          (or_settled specifications code_graph iwiki_id domain field pp override).value
          (or_settled specifications code_graph iwiki_id domain field none override).value
        ≡ true
  unfolding settle
  or_settled_tightens field pp (some override) = at_least_as_strict_refl field override
  or_settled_tightens field pp none =
      settle_tightens field (allows_project specifications)
        (hosted_default field specifications code_graph) (declared_by pp field)

  -- A project can only tighten: with whatever project policy, each resolved field is at least as
  -- strict as the hosted server alone would have it.
  pub resolve_policy_tightens :
      (project_policy : Option Declared) (field : PolicyField)
      → at_least_as_strict field
          ((resolve_policy specifications code_graph iwiki_id domain project_policy).values field)
          (unbound field)
        ≡ true
  unfolding resolve_policy
  resolve_policy_tightens project_policy field =
      or_settled_tightens field project_policy (override_value specifications iwiki_id domain field)

  -- A declared value is taken, or suppressed.
  settle_reports :
      (field : PolicyField) (allow : Bool) (default : Value field × Source) (declared : Value field)
      → let r = settle field allow default (some declared) in
        ((r.value ≡ declared) × (r.source ≡ project))
        ⊎ ((r.value ≡ default.0) × (r.suppressed ≡ true))
  unfolding settle
  settle_reports field allow (default, source) declared =
      elim (Bool-cases (allow && at_least_as_strict field declared default)) [
        | inl e ↦ inl (rw e, rw e)
        | inr e ↦ inr (rw e, rw e)
      ]

  Listed-suppressed :
      (suppressed : PolicyField → Bool) (field : PolicyField)
      → suppressed field ≡ true
      → Listed field (select suppressed policy_fields)
  Listed-suppressed suppressed specification_mode h = ground arith
  Listed-suppressed suppressed max_snapshot_age_seconds h = ground arith
  Listed-suppressed suppressed require_session_binding h = ground arith

  module _ (policy : Declared) (field : PolicyField) (declared : Value field)
      (tier : project_tier field ≡ true) (says : policy field ≡ some declared)
      (free : override_value specifications iwiki_id domain field ≡ none) where
    resolve_field_declared :
        resolve_field specifications code_graph iwiki_id domain (some policy) field
        ≡ settle field
            (allows_project specifications)
            (hosted_default field specifications code_graph)
            (some declared)
    unfolding resolve_field
    resolve_field_declared = rw (free, tier, says)

    -- A declaration of a project, of a field that projects may declare, is never dropped in
    -- silence: where no override decides, either it
    -- is the resolved value, with the project as its source, or the field is reported as suppressed
    -- and has the hosted value.
    pub resolve_policy_reports :
        let r = resolve_policy specifications code_graph iwiki_id domain (some policy) in
        ((r.values field ≡ declared) × (r.sources field ≡ project))
        ⊎ ((r.values field ≡ unbound field) × Listed field r.suppressed)
    unfolding resolve_policy
    resolve_policy_reports =
        elim (settle_reports field (allows_project specifications) default declared) [
          | inl h ↦ inl (
            ap (λ (r : Resolved field). r.value) resolve_field_declared ∙ h.0,
            ap (λ (r : Resolved field). r.source) resolve_field_declared ∙ h.1,
          )
          | inr h ↦ inr (
            ap (λ (r : Resolved field). r.value) resolve_field_declared ∙ (h.0 ∙ sym alone),
            Listed-suppressed
                (λ f.
                  (resolve_field specifications code_graph iwiki_id domain (some policy)
                    f).suppressed)
                field (ap (λ (r : Resolved field). r.suppressed) resolve_field_declared ∙ h.1),
          )
        ]
      where
        default : Value field × Source
        default = hosted_default field specifications code_graph

        alone : unbound field ≡ default.0
        alone =
            ap
              (λ (o : Option (Value field)).
                (or_settled specifications code_graph iwiki_id domain field none o).value)
              free

  -- An override decides alone: the resolved value is its value, whatever the project declares.
  pub resolve_policy_overridden :
      (policy : Option Declared) (field : PolicyField) (set : Value field)
      → override_value specifications iwiki_id domain field ≡ some set
      → let r = resolve_policy specifications code_graph iwiki_id domain policy in
        (r.values field ≡ set) × (r.sources field ≡ hosted_override)
  unfolding resolve_policy
  resolve_policy_overridden policy field set h = rw h (refl, refl)
