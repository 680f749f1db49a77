-- ===== src/Telegram/Commands/Confirm.antt =====
-- What confirming and rejecting a change do to it.
use iwiki_mcp.Prelude.{
  ℕ, ◌≡◌, refl, true, false, ◌||◌, Option, none, some, arith, ltb, ◌==◌, if◌then◌else◌, nat_eq,
  contains, list_beq, list_eq, list_beq_iff,
}
use iwiki_mcp.Exec.{done, Exec, pure, ◌>>◌}
use iwiki_mcp.Exec.Keeps.{Keeps, Keeps-pure, Keeps-raise, Keeps-if, Keeps-bind, Keeps-catch}
use iwiki_mcp.Text.{Text, codes}
use iwiki_mcp.Telegram.Services.{
  Failure, remote_error, inference_error, key_error, os_error, Field, value, absent, other,
  Services,
}
use iwiki_mcp.Telegram.Session.{
  PageTarget, Change, create, update, PendingWrite, Bot, call, report, remove, allowed, invalid,
  Consumed, pending, refused, consume_pending,
}
use iwiki_mcp.Telegram.Retrieval.{say, replied}
use iwiki_mcp.Telegram.Changes.{
  reject_write, confirm_write, confirmed, rejected, save, save_at, save_section, save_failed,
}
use iwiki_mcp.Telegram.Commands.{rejection, confirmation, handle}

module _ (v : Services) where
  open v use {W}

  -- The state after a change is taken out and the clock is read.
  abbrev pub taken : Text → Bot W → Bot W
  taken token b = record b {
    pending_writes = remove token b.pending_writes;
    world = (v.clock b.world).1;
  }

  abbrev pub taken_change : PendingWrite → Bot W → Consumed
  taken_change p b =
      if ltb p.expires_at (v.clock b.world).0
      then refused (codes "Confirmation expired.")
      else pending p

  module _ (telegram_id : ℕ) (token : Text) (b : Bot W) (p : PendingWrite)
      (ok : contains b.allowed_telegram_ids telegram_id ≡ true)
      (waits : b.pending_writes token ≡ some p) (own : p.telegram_id ≡ telegram_id) where
    consume_pending_own :
        consume_pending v telegram_id token b ≡ (done (taken_change p b), taken token b)
    unfolding consume_pending
    consume_pending_own =
        let same : (p.telegram_id == telegram_id) ≡ true = ground arith in
        rw (waits, same) (ground arith)

    -- The author's confirmation takes the change out, and saves it unless it has expired.
    pub confirm_own :
        confirm_write v telegram_id token b ≡ confirmed v (taken_change p b) (taken token b)
    unfolding confirm_write allowed
    confirm_own = rw (ok, consume_pending_own)

  -- The change is gone, and the author is still allowed.
  abbrev pub IsSpent : ℕ → Text → Bot W → Type 0
  IsSpent telegram_id token b =
      (b.pending_writes token ≡ none) × (contains b.allowed_telegram_ids telegram_id ≡ true)

  module _ (telegram_id : ℕ) (token : Text) where
    call-IsSpent :
        {A : Type 0} (m : Exec W Failure A) → Keeps (IsSpent telegram_id token) (call v m)
    call-IsSpent m = record { at = λ b h. h }

    save_section-IsSpent :
        (t : PageTarget) (heading new_body : Text) (r : Field ℕ) (h : Field Text)
        → Keeps (IsSpent telegram_id token) (save_section v t heading new_body r h)
    save_section-IsSpent t heading new_body (value r) (value h) =
        Keeps-bind _ (call v (v.update_section t.domain t.slug heading new_body r h)) _
          (call-IsSpent (v.update_section t.domain t.slug heading new_body r h))
          (λ _. Keeps-pure _ _)
    save_section-IsSpent t heading new_body (value r) absent = Keeps-pure _ _
    save_section-IsSpent t heading new_body (value r) other = Keeps-pure _ _
    save_section-IsSpent t heading new_body absent h = Keeps-pure _ _
    save_section-IsSpent t heading new_body other h = Keeps-pure _ _

    save-IsSpent : (c : Change) → Keeps (IsSpent telegram_id token) (save v c)
    unfolding save
    save-IsSpent (create domain slug markdown) =
        Keeps-bind _ (call v (v.write_page domain slug markdown)) _
          (call-IsSpent (v.write_page domain slug markdown)) (λ _. Keeps-pure _ _)
    save-IsSpent (update t new_body) = at_heading t.heading
      where
        at_heading :
            (heading : Option Text)
            → Keeps (IsSpent telegram_id token) (save_at v t heading new_body)
        at_heading none = Keeps-pure _ _
        at_heading (some heading) =
            Keeps-bind _ (call v (v.read_page t.domain t.slug (some heading))) _
              (call-IsSpent (v.read_page t.domain t.slug (some heading)))
              (λ page. save_section-IsSpent t heading new_body page.revision page.section_hash)

    save_failed-IsSpent : (e : Failure) → Keeps (IsSpent telegram_id token) (save_failed v e)
    save_failed-IsSpent (remote_error code true) = Keeps-raise _ _
    save_failed-IsSpent (remote_error code false) =
        Keeps-if _ (list_beq code (codes "conflict") || list_beq code (codes "section_conflict")) _
          _ (Keeps-pure _ _) (Keeps-pure _ _)
    save_failed-IsSpent (inference_error code r) = Keeps-raise _ _
    save_failed-IsSpent key_error = Keeps-raise _ _
    save_failed-IsSpent os_error = Keeps-raise _ _

    confirmed-IsSpent : (c : Consumed) → Keeps (IsSpent telegram_id token) (confirmed v c)
    confirmed-IsSpent (refused text) = Keeps-pure _ _
    confirmed-IsSpent (pending p) =
        Keeps-catch _ (report v (codes "Saving page") >> save v p.change) (save_failed v)
          (Keeps-bind _ (report v (codes "Saving page")) _ (record { at = λ b h. h })
            (λ _. save-IsSpent p.change))
          save_failed-IsSpent

    rejected-IsSpent : (c : Consumed) → Keeps (IsSpent telegram_id token) (rejected v c)
    rejected-IsSpent (refused text) = Keeps-pure _ _
    rejected-IsSpent (pending p) = Keeps-pure _ _

    -- Both commands on the token are refused as invalid, and leave the state.
    abbrev pub Refuses : Bot W → Type 0
    Refuses b =
        (handle v telegram_id (confirmation token) b ≡ (done (replied (say invalid)), b))
        × (handle v telegram_id (rejection token) b ≡ (done (replied (say invalid)), b))

    IsSpent-Refuses : (b : Bot W) → IsSpent telegram_id token b → Refuses b
    unfolding handle allowed consume_pending
    IsSpent-Refuses b h = (rw (h.1, h.0), rw (h.1, h.0))

    module _ (b : Bot W) (p : PendingWrite)
        (ok : contains b.allowed_telegram_ids telegram_id ≡ true)
        (waits : b.pending_writes token ≡ some p) (own : p.telegram_id ≡ telegram_id) where
      taken-IsSpent : IsSpent telegram_id token (taken token b)
      taken-IsSpent = (rw ((list_beq_iff token token).1 refl), ok)

      confirm-IsSpent : IsSpent telegram_id token (handle v telegram_id (confirmation token) b).1
      unfolding handle confirm_write allowed
      confirm-IsSpent =
          rw (ok, consume_pending_own telegram_id token b p ok waits own)
            ((Keeps-bind _ (confirmed v (taken_change p b)) (λ reply. pure (replied reply))
                (confirmed-IsSpent (taken_change p b)) (λ _. Keeps-pure _ _)).at
              _ taken-IsSpent)

      reject-IsSpent : IsSpent telegram_id token (handle v telegram_id (rejection token) b).1
      unfolding handle reject_write allowed
      reject-IsSpent =
          rw (ok, consume_pending_own telegram_id token b p ok waits own)
            ((Keeps-bind _ (rejected v (taken_change p b)) (λ reply. pure (replied reply))
                (rejected-IsSpent (taken_change p b)) (λ _. Keeps-pure _ _)).at
              _ taken-IsSpent)

      -- A change is confirmed or rejected at most once: after either command of its author, who is
      -- allowed, and whatever came of it, each of the two commands on its token is refused as
      -- invalid and changes nothing.
      pub handle_spent :
          Refuses (handle v telegram_id (confirmation token) b).1
          × Refuses (handle v telegram_id (rejection token) b).1
      handle_spent = (IsSpent-Refuses _ confirm-IsSpent, IsSpent-Refuses _ reject-IsSpent)
