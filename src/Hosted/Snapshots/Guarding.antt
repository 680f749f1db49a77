-- ===== src/Hosted/Snapshots/Guarding.antt =====
-- postgres/codegraph.py: what passing the guard of a session says.
use iwiki_mcp.Prelude.{
  ℕ, ◌<◌, ◌≡◌, refl, Bool, true, false, not, Option, none, some, arith, leb, if◌then◌else◌, nat_eq,
  list_beq, list_eq,
}
use iwiki_mcp.Hosted.Snapshots.Tables.{SessionRow, is_staging, unauthorized, session_expired}
use iwiki_mcp.Hosted.Snapshots.Sessions.{Settings, guard}
use iwiki_mcp.Hosted.Snapshots.Keeping.{Ends}

pub guard_tests :
    (owner staging expired : Bool)
    → (if not owner
        then some unauthorized
        else if not staging
        then none
        else if expired
        then some session_expired
        else none)
      ≡ none
    → staging ≡ true
    → (owner ≡ true) × (expired ≡ false)
guard_tests true true true e h = absurd (ground arith)
guard_tests true true false e h = (refl, refl)
guard_tests true false expired e h = absurd (ground arith)
guard_tests false staging expired e h = absurd (ground arith)

pub owner_test :
    (owner staging expired : Bool)
    → (if not owner
        then some unauthorized
        else if not staging
        then none
        else if expired
        then some session_expired
        else none)
      ≡ none
    → owner ≡ true
owner_test true staging expired e = refl
owner_test false staging expired e = absurd (ground arith)

pub terminal_test :
    (owner staging expired : Bool)
    → owner ≡ true
    → staging ≡ false
    → (if not owner
        then some unauthorized
        else if not staging
        then none
        else if expired
        then some session_expired
        else none)
      ≡ none
terminal_test true true expired h k = absurd (ground arith)
terminal_test true false expired h k = refl
terminal_test false staging expired h k = absurd (ground arith)

pub Ends-test :
    {A : Type 0} (P : A → Type 0) (b : Bool) (x y : Option A)
    → (b ≡ true → Ends P x)
    → (b ≡ false → Ends P y)
    → Ends P (if b then x else y)
Ends-test P true x y h k = h refl
Ends-test P false x y h k = k refl

pub not-false : (b : Bool) → not b ≡ false → b ≡ true
not-false true h = refl
not-false false h = absurd (ground arith)

pub not_leb : (a b : ℕ) → leb a b ≡ false → b < a
not_leb a b h = ground arith

pub guard_owner :
    (c : Settings) (row : SessionRow) (now : ℕ)
    → guard c (some row) now ≡ none
    → list_beq row.owner_id c.owner_id ≡ true
unfolding guard
guard_owner c row now e =
    owner_test (list_beq row.owner_id c.owner_id) (is_staging row.state)
      (leb row.lease_expires_at now) e

pub guard_passed :
    (c : Settings) (row : SessionRow) (now : ℕ)
    → guard c (some row) now ≡ none
    → is_staging row.state ≡ true
    → (list_beq row.owner_id c.owner_id ≡ true) × (leb row.lease_expires_at now ≡ false)
unfolding guard
guard_passed c row now e staging =
    guard_tests (list_beq row.owner_id c.owner_id) (is_staging row.state)
      (leb row.lease_expires_at now) e staging
