-- ===== src/Hosted/Policy/Overrides.antt =====
-- The overrides that decide for a tenant and a domain: an exact pair before the tenant-wide one.
use iwiki_mcp.Prelude.{
  ◌≡◌, refl, sym, ap, ◌∙◌, inl, inr, Bool, true, false, ◌&&◌, Option, none, some, List, [], ◌∷◌,
  ◌++◌, arith, Bool-cases, Option-cases, nat_eq, All, list_beq, list_eq,
}
use iwiki_mcp.Text.{Text}
use iwiki_mcp.Hosted.Policy.{
  PolicyField, Value, Override, HostedSpecificationsConfig, override_value, Matches, match_override,
  match_overrides, same_domain,
}

module _ (iwiki_id domain : Text) where
  abbrev names_domain : Option Text → Bool
  names_domain none = false
  names_domain (some own) = list_beq own domain

  -- The override names exactly this tenant and this domain.
  abbrev pub is_exact : Override → Bool
  is_exact o = list_beq o.iwiki_id iwiki_id && names_domain o.domain

  contradiction : {A : Type 0} {b : Bool} → b ≡ true → b ≡ false → A
  contradiction h k = ground arith

  match_other :
      (o : Override) (m : Matches)
      → is_exact o ≡ false
      → (match_override iwiki_id (some domain) o m).exact ≡ m.exact
  unfolding match_override same_domain
  match_other o m h = elim (Bool-cases (list_beq o.iwiki_id iwiki_id)) [
    | inr e ↦ rw e refl
    | inl e ↦ elim (Option-cases o.domain) [
      | inl none_e ↦ rw (e, none_e) refl
      | inr (own, own_e) ↦
          let same : is_exact o ≡ list_beq own domain = rw (e, own_e) refl in
          rw (e, own_e, sym same ∙ h) refl
    ]
  ]

  match_exact :
      (o : Override) (m : Matches)
      → is_exact o ≡ true
      → (match_override iwiki_id (some domain) o m).exact ≡ some o
  unfolding match_override same_domain
  match_exact o m h = elim (Bool-cases (list_beq o.iwiki_id iwiki_id)) [
    | inr e ↦ contradiction h (rw e refl)
    | inl e ↦ elim (Option-cases o.domain) [
      | inl none_e ↦ contradiction h (rw (e, none_e) refl)
      | inr (own, own_e) ↦
          let same : is_exact o ≡ list_beq own domain = rw (e, own_e) refl in
          rw (e, own_e, sym same ∙ h) (λ i. some (record o { domain = own_e i }))
    ]
  ]

  match_others :
      (os : List Override) (m : Matches)
      → All (λ o. is_exact o ≡ false) os
      → (match_overrides iwiki_id (some domain) os m).exact ≡ m.exact
  unfolding match_overrides
  match_others [] m h = refl
  match_others (o ∷ os) m h =
      match_others os (match_override iwiki_id (some domain) o m) h.1 ∙ match_other o m h.0

  match_overrides-append :
      (os ps : List Override) (m : Matches)
      → match_overrides iwiki_id (some domain) (os ++ ps) m
        ≡ match_overrides iwiki_id (some domain) ps (match_overrides iwiki_id (some domain) os m)
  unfolding match_overrides
  match_overrides-append [] ps m = refl
  match_overrides-append (o ∷ os) ps m =
      match_overrides-append os ps (match_override iwiki_id (some domain) o m)

  -- The last override that names the tenant and the domain decides every value that it sets,
  -- wherever it stands in the list and whatever the tenant-wide overrides set.
  pub override_value_exact :
      (s : HostedSpecificationsConfig) (before after : List Override) (o : Override)
      (field : PolicyField) (set : Value field)
      → s.overrides ≡ before ++ (o ∷ after)
      → is_exact o ≡ true
      → All (λ p. is_exact p ≡ false) after
      → o.values field ≡ some set
      → override_value (some s) iwiki_id (some domain) field ≡ some set
  unfolding override_value match_overrides
  override_value_exact s before after o field set e exact others sets =
      let start : Matches = record { exact = none; tenant = none } in
      let first = match_overrides iwiki_id (some domain) before start in
      let found : (match_overrides iwiki_id (some domain) (before ++ (o ∷ after)) start).exact
          ≡ some o =
        ap (λ (m : Matches). m.exact) (match_overrides-append before (o ∷ after) start)
        ∙ (match_others after (match_override iwiki_id (some domain) o first) others
            ∙ match_exact o first exact) in
      rw (e, found, sets)
