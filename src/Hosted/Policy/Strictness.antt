-- ===== src/Hosted/Policy/Strictness.antt =====
-- The comparison of every field is a linear order by strictness.
use iwiki_mcp.Prelude.{◌≡◌, ◌⊎◌, true, arith, nat_eq, list_eq}
use iwiki_mcp.Hosted.Policy.{
  PolicyField, specification_mode, max_snapshot_age_seconds, require_session_binding, Value,
  at_least_as_strict,
}

pub at_least_as_strict_refl :
    (field : PolicyField) (a : Value field) → at_least_as_strict field a a ≡ true
unfolding at_least_as_strict
at_least_as_strict_refl specification_mode a = ground arith
at_least_as_strict_refl max_snapshot_age_seconds a = ground arith
at_least_as_strict_refl require_session_binding a = ground arith

-- A policy that is at least as strict as a second one is at least as strict as all that the second
-- one is, for every field, the age limit with its weakest value zero included.
pub at_least_as_strict_trans :
    (field : PolicyField) (a b c : Value field)
    → at_least_as_strict field a b ≡ true
    → at_least_as_strict field b c ≡ true
    → at_least_as_strict field a c ≡ true
unfolding at_least_as_strict
at_least_as_strict_trans specification_mode a b c h k = ground arith
at_least_as_strict_trans max_snapshot_age_seconds a b c h k = ground arith
at_least_as_strict_trans require_session_binding a b c h k = ground arith

at_least_as_strict_antisymm :
    (field : PolicyField) (a b : Value field)
    → at_least_as_strict field a b ≡ true
    → at_least_as_strict field b a ≡ true
    → a ≡ b
unfolding at_least_as_strict
at_least_as_strict_antisymm specification_mode a b h k = ground arith
at_least_as_strict_antisymm max_snapshot_age_seconds a b h k = ground arith
at_least_as_strict_antisymm require_session_binding a b h k = ground arith

pub at_least_as_strict_total :
    (field : PolicyField) (a b : Value field)
    → (at_least_as_strict field a b ≡ true) ⊎ (at_least_as_strict field b a ≡ true)
unfolding at_least_as_strict
at_least_as_strict_total specification_mode a b = ground arith
at_least_as_strict_total max_snapshot_age_seconds a b = ground arith
at_least_as_strict_total require_session_binding a b = ground arith
