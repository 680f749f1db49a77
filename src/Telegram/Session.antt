-- ===== src/Telegram/Session.antt =====
-- The state and the replies of `ConversationService` (conversation.py, models.py, access.py): what
-- is selected, what waits, and the operations that touch these alone.
use iwiki_mcp.Prelude.{
  ℕ, ◌+◌, Bool, not, Option, none, some, List, ltb, ◌==◌, if◌then◌else◌, Eq, nat_eq, contains,
  list_eq,
}
use iwiki_mcp.Exec.{Outcome, done, Exec, pure, gets, modify, ◌>>=◌, ◌>>◌}
use iwiki_mcp.Text.{Text, codes}
use iwiki_mcp.Telegram.Services.{Failure, Services}

pub record PageTarget : Type 0 where
  pub domain : Text
  pub slug : Text
  pub heading : Option Text

-- `PendingWrite.action` with the payload that belongs to it.
pub data Change : Type 0 where
  create : Text → Text → Text → Change
  update : PageTarget → Text → Change

pub record PendingWrite : Type 0 where
  pub token : Text
  pub telegram_id : ℕ
  pub change : Change
  pub expires_at : ℕ

pub record WritePreview : Type 0 where
  pub token : Text
  pub text : Text

pub record BotReply : Type 0 where
  pub text : Text
  pub buttons : List (Text × Text)
  pub failed : Bool

-- A dictionary, as the function of its look-ups.
abbrev pub Dict : Type 0 → Type 0 → Type 0
Dict K V = K → Option V

module _ {K V : Type 0} ⦃e : Eq K⦄ where
  abbrev pub put : K → V → Dict K V → Dict K V
  put k v m j = if e.beq k j then some v else m j

  abbrev pub remove : K → Dict K V → Dict K V
  remove k m j = if e.beq k j then none else m j

abbrev pub keep_if : {K V : Type 0} → (V → Bool) → Dict K V → Dict K V
keep_if live m j = elim (m j) [ none ↦ none | some v ↦ if live v then some v else none ]

pub record Bot (W : Type 0) : Type 0 where
  pub allowed_telegram_ids : List ℕ
  pub confirmation_ttl_seconds : ℕ
  pub selected_domains : Dict ℕ Text
  pub pending_writes : Dict Text PendingWrite
  pub pending_questions : Dict ℕ (Text × ℕ)
  pub world : W

-- What `_consume_pending` returns: the change, or the text that refuses it.
pub data Consumed : Type 0 where
  pending : PendingWrite → Consumed
  refused : Text → Consumed

abbrev pub invalid : Text
invalid = codes "Confirmation is invalid."

module _ (v : Services) where
  open v use {W}

  abbrev pub Act : Type 0 → Type 0
  Act = Exec (Bot W) Failure

  abbrev pub carry : {A : Type 0} → Bot W → Outcome Failure A × W → Outcome Failure A × Bot W
  carry b (r, w) = (r, record b { world = w })

  -- A call of a service changes the world alone.
  abbrev pub call : {A : Type 0} → Exec W Failure A → Act A
  call m b = carry b (m b.world)

  abbrev pub now : Act ℕ
  now b = let (t, w) = v.clock b.world in (done t, record b { world = w })

  abbrev pub report : Text → Act (Unit {0})
  report stage = modify (λ b. record b { world = v.report stage b.world })

  unfoldable pub allowed : ℕ → Act Bool
  allowed telegram_id = gets (λ b. contains b.allowed_telegram_ids telegram_id)

  unfoldable pub expire_at : ℕ → Bot W → Bot W
  expire_at time b = record b {
    pending_writes = keep_if (λ p. ltb time p.expires_at) b.pending_writes;
    pending_questions = keep_if (λ (q : Text × ℕ). ltb time q.1) b.pending_questions;
  }

  unfoldable pub expire_state : Act (Unit {0})
  unfolding expire_at
  expire_state = do time ← now; modify (expire_at time)

  unfoldable pub selected_domain : ℕ → Act (Option Text)
  unfolding expire_state
  selected_domain telegram_id = do expire_state; gets (λ b. b.selected_domains telegram_id)

  unfoldable pub select : ℕ → Text → Act (Unit {0})
  select telegram_id domain =
      modify (λ b. record b { selected_domains = put telegram_id domain b.selected_domains })

  -- `self._pending_questions.pop(telegram_id, None)`
  unfoldable pub take_question : ℕ → Act (Option (Text × ℕ))
  take_question telegram_id b = (
    done (b.pending_questions telegram_id),
    record b { pending_questions = remove telegram_id b.pending_questions },
  )

  unfoldable pub keep_question : ℕ → Text → Act (Unit {0})
  keep_question telegram_id question = do
    time ← now
    modify (λ b. record b {
      pending_questions =
          put telegram_id (question, time + b.confirmation_ttl_seconds) b.pending_questions;
    })

  unfoldable pub store_preview : ℕ → Change → Text → Act WritePreview
  store_preview telegram_id change text = do
    token ← λ b. let (t, w) = v.token_urlsafe b.world in (done t, record b { world = w })
    time ← now
    modify (λ b. record b {
      pending_writes =
          put token
            (record {
              token = token;
              telegram_id = telegram_id;
              change = change;
              expires_at = time + b.confirmation_ttl_seconds;
            })
            b.pending_writes;
    })
    pure (record { token = token; text = text })

  unfoldable pub consume : ℕ → Text → Option PendingWrite → Act Consumed
  consume telegram_id token none = pure (refused invalid)
  consume telegram_id token (some p) =
      if not (p.telegram_id == telegram_id) then pure (refused invalid) else do
        modify (λ b. record b { pending_writes = remove token b.pending_writes })
        time ← now
        if ltb p.expires_at time
            then pure (refused (codes "Confirmation expired."))
            else pure (pending p)

  unfoldable pub consume_pending : ℕ → Text → Act Consumed
  unfolding consume
  consume_pending telegram_id token b = consume telegram_id token (b.pending_writes token) b
