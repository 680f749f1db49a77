-- ===== src/Telegram/Commands/Preview.antt =====
-- What a preview promises.
use iwiki_mcp.Prelude.{
  ℕ, ◌+◌, ◌≡◌, refl, ap, ◌∙◌, inl, inr, true, ◌||◌, some, ltb, ◌==◌, if◌then◌else◌, Bool-cases,
  nat_eq, length, contains, list_eq, list_beq_iff,
}
use mathlib.Core.Path.{subst, fun_ext}
use iwiki_mcp.Exec.{Outcome, done, pure, ◌>>=◌, ◌>>◌, catch}
use iwiki_mcp.Exec.Keeps.{Ends, Yields, Yields-pure, Yields-if, Yields-bind}
use iwiki_mcp.Text.{Text, codes}
use iwiki_mcp.Telegram.Services.{Failure, Field, value, absent, other, Services}
use iwiki_mcp.Telegram.Session.{
  Change, create, update, PendingWrite, BotReply, Bot, Act, store_preview, WritePreview, call,
  report,
}
use iwiki_mcp.Telegram.Retrieval.{say, failing, Answer, replied, preview, list_domains}
use iwiki_mcp.Telegram.Conversation.{
  Admitted, go, stop, select_domain, answer_question, answer_voice,
}
use iwiki_mcp.Telegram.Changes.{
  reject_write, confirm_write, propose_create, propose_update, preview_of, create_in, update_in,
  draft_page, draft_section, write_domain, target_at, save, save_section, save_failed, confirmed,
}
use iwiki_mcp.Telegram.Commands.Confirm.{taken, taken_change, confirm_own}
use iwiki_mcp.Telegram.Commands.{
  Command, domains, domain, question, voice, creation, revision, rejection, confirmation, handle,
}

-- Where a previewed text is to be written: in a new page, or in a section of a page.
pub data Place : Type 0 where
  new_page : Text → Text → Place
  section : Text → Text → Text → Place

module _ (v : Services) where
  open v use {W}

  abbrev pub saved : BotReply
  saved = say (codes "Page change saved.")

  -- The section is replaced under the revision and the hash that it has now, if it has them.
  abbrev pub write_section : Text → Text → Text → Text → Field ℕ → Field Text → Act v BotReply
  write_section d slug heading text (value r) (value section_hash) = do
    call v (v.update_section d slug heading text r section_hash)
    pure saved
  write_section d slug heading text _ _ = pure (failing (codes "Page section is unavailable."))

  -- Writing a text at its place, with the calls of the wiki that this takes.
  abbrev pub write : Place → Text → Act v BotReply
  write (new_page d slug) text = do call v (v.write_page d slug text); pure saved
  write (section d slug heading) text = do
    page ← call v (v.read_page d slug (some heading))
    write_section d slug heading text page.revision page.section_hash

  save_section-write :
      (d slug heading text : Text) (r : Field ℕ) (h : Field Text)
      → save_section v (target_at v d slug heading) heading text r h
        ≡ write_section d slug heading text r h
  save_section-write d slug heading text (value r) (value h) = refl
  save_section-write d slug heading text (value r) absent = refl
  save_section-write d slug heading text (value r) other = refl
  save_section-write d slug heading text absent h = refl
  save_section-write d slug heading text other h = refl

  save-create : (d slug text : Text) → save v (create d slug text) ≡ write (new_page d slug) text
  unfolding save
  save-create d slug text = refl

  save-update :
      (d slug heading text : Text)
      → save v (update (target_at v d slug heading) text) ≡ write (section d slug heading) text
  unfolding save
  save-update d slug heading text =
      ap (λ k. call v (v.read_page d slug (some heading)) >>= k)
        (fun_ext λ page. save_section-write d slug heading text page.revision page.section_hash)

  -- Confirming a text that waits for a place until a time: it is taken out and, if the time is not
  -- over, it is written there.
  abbrev pub confirming : Text → ℕ → Place → Text → Bot W → Outcome Failure BotReply × Bot W
  confirming token expires_at place text b =
      if ltb expires_at (v.clock b.world).0
      then (done (say (codes "Confirmation expired.")), taken v token b)
      else catch (do report v (codes "Saving page"); write place text) (save_failed v)
          (taken v token b)

module _ (v : Services) (telegram_id : ℕ) where
  open v use {W}

  -- A previewed change is pending under its token, for the sender alone, and saving it is writing
  -- the shown text at a place.
  abbrev pub IsAwaited : Answer → Bot W → Type 0
  IsAwaited (replied reply) b = Unit
  IsAwaited (preview shown) b =
      (p : PendingWrite) × (b.pending_writes shown.token ≡ some p)
      × (p.telegram_id ≡ telegram_id)
      × ((place : Place) × (save v p.change ≡ write v place shown.text))

  preview_of-IsAwaited :
      (change : Text → Change) (drafted : Admitted Text) (place : Place)
      → ((markdown : Text) → save v (change markdown) ≡ write v place markdown)
      → Yields IsAwaited (preview_of v telegram_id change drafted)
  unfolding store_preview
  preview_of-IsAwaited change (stop reply) place h = Yields-pure _ _ (λ _. tt)
  preview_of-IsAwaited change (go markdown) place h = record {
    at = λ s.
        let (token, w) = v.token_urlsafe s.world in
        let waiting : PendingWrite = record {
          token = token;
          telegram_id = telegram_id;
          change = change markdown;
          expires_at = (v.clock w).0 + s.confirmation_ttl_seconds;
        } in
        (waiting, rw ((list_beq_iff token token).1 refl), refl, (place, h markdown));
  }

  create_in-IsAwaited :
      (slug request : Text) (d : Admitted Text)
      → Yields IsAwaited (create_in v telegram_id slug request d)
  create_in-IsAwaited slug request (stop reply) = Yields-pure _ _ (λ _. tt)
  create_in-IsAwaited slug request (go d) =
      Yields-bind _ (draft_page v d request) (preview_of v telegram_id (create d slug)) (λ drafted.
        preview_of-IsAwaited (create d slug) drafted (new_page d slug) (save-create v d slug))

  update_in-IsAwaited :
      (slug heading request : Text) (d : Admitted Text)
      → Yields IsAwaited (update_in v telegram_id slug heading request d)
  update_in-IsAwaited slug heading request (stop reply) = Yields-pure _ _ (λ _. tt)
  update_in-IsAwaited slug heading request (go d) =
      Yields-if _ (length slug == 0 || length heading == 0) _ _ (Yields-pure _ _ (λ _. tt)) (
        Yields-bind _ (draft_section v d slug heading request)
          (preview_of v telegram_id (update (target_at v d slug heading)))
          (λ drafted.
            preview_of-IsAwaited (update (target_at v d slug heading)) drafted
              (section d slug heading) (save-update v d slug heading)))

  replying-IsAwaited : (m : Act v BotReply) → Yields IsAwaited (do reply ← m; pure (replied reply))
  replying-IsAwaited m =
      Yields-bind _ m (λ reply. pure (replied reply)) (λ reply. Yields-pure _ _ (λ _. tt))

  handle-IsAwaited : (c : Command) → Yields IsAwaited (handle v telegram_id c)
  unfolding handle propose_create propose_update
  handle-IsAwaited (creation slug request) =
      Yields-bind _ (write_domain v telegram_id) (create_in v telegram_id slug request)
        (create_in-IsAwaited slug request)
  handle-IsAwaited (revision slug heading request) =
      Yields-bind _ (write_domain v telegram_id) (update_in v telegram_id slug heading request)
        (update_in-IsAwaited slug heading request)
  handle-IsAwaited domains = replying-IsAwaited (list_domains v telegram_id)
  handle-IsAwaited (domain d) = replying-IsAwaited (select_domain v telegram_id d)
  handle-IsAwaited (question q) = replying-IsAwaited (answer_question v telegram_id q)
  handle-IsAwaited (voice audio) = replying-IsAwaited (answer_voice v telegram_id audio)
  handle-IsAwaited (rejection token) = replying-IsAwaited (reject_write v telegram_id token)
  handle-IsAwaited (confirmation token) = replying-IsAwaited (confirm_write v telegram_id token)

  confirmed-write :
      (p : PendingWrite) (place : Place) (token text : Text) (b : Bot W)
      → save v p.change ≡ write v place text
      → confirmed v (taken_change v p b) (taken v token b)
        ≡ confirming v token p.expires_at place text b
  confirmed-write p place token text b e =
      elim (Bool-cases (ltb p.expires_at (v.clock b.world).0)) [
        | inl late ↦ rw (late) refl
        | inr live ↦ rw (live) (
            ap (λ m. catch (report v (codes "Saving page") >> m) (save_failed v) (taken v token b))
              e)
      ]

  -- Whatever the command and the state, a preview that is shown stands for a pending change of
  -- the sender under the shown token. In a later state in which the same change waits there and the
  -- sender is allowed, the sender's confirmation takes it out; then, after its time, it says that
  -- the change has expired, and before that it runs the writing of the shown text, and of no other,
  -- in a new page or in a section, where a failure is answered as `confirm_write` does.
  pub handle_previews :
      (c : Command) (b after later : Bot W) (shown : WritePreview)
      → handle v telegram_id c b ≡ (done (preview shown), after)
      → later.pending_writes shown.token ≡ after.pending_writes shown.token
      → contains later.allowed_telegram_ids telegram_id ≡ true
      → (p : PendingWrite) × (after.pending_writes shown.token ≡ some p)
        × (p.telegram_id ≡ telegram_id)
        × ((place : Place) × (confirm_write v telegram_id shown.token later
              ≡ confirming v shown.token p.expires_at place shown.text later))
  handle_previews c b after later shown e waits ok =
      let (p, found, own, (place, saves)) = subst (Ends IsAwaited) e ((handle-IsAwaited c).at b) in
      (
        p,
        found,
        own,
        (
          place,
          confirm_own v telegram_id shown.token later p ok (waits ∙ found) own
              ∙ confirmed-write p place shown.token shown.text later saves,
        ),
      )
