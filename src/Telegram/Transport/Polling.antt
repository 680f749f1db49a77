-- ===== src/Telegram/Transport/Polling.antt =====
-- telegram_bot/transport.py: `_dispatch_updates` and the offset that `poll_forever` remembers. The
-- handling of one update is an argument: whether its exception comes out, and the world after it.
use iwiki_mcp.Prelude.{
  ℕ, ◌+◌, ◌≤◌, ◌≡◌, refl, sym, ap, ◌∙◌, inl, inr, ◌++◌, Bool-cases, Bool, true, false, Option, none,
  some, List, [], ◌∷◌, arith, if◌then◌else◌, nat_eq, list_eq,
}
use iwiki_mcp.Telegram.Transport.Routing.{Body}

pub record Update : Type 0 where
  pub update_id : Option ℕ
  pub body : Body

pub record Poll (W : Type 0) : Type 0 where
  pub poll_offset : Option ℕ
  pub world : W

abbrev pub next_offset : Option ℕ → Option ℕ → Option ℕ
next_offset none offset = offset
next_offset (some update_id) offset = some (update_id + 1)

module _ {W : Type 0} (handle : Body → W → Bool × W) where
  -- Whether an exception comes out, and the offset that is remembered by then. An element that is no
  -- mapping is none.
  unfoldable pub dispatch_updates : List (Option Update) → Poll W → Bool × Poll W
  dispatch_updates [] p = (false, p)
  dispatch_updates (none ∷ updates) p = dispatch_updates updates p
  dispatch_updates (some u ∷ updates) p =
      let r = handle u.body p.world in
      let rest =
        dispatch_updates updates
          (record { poll_offset = next_offset u.update_id p.poll_offset; world = r.1 }) in
      if r.0 then (true, record p { world = r.1 }) else rest

  -- A round of `poll_forever`: without updates for a failed request, after which it waits.
  abbrev pub poll_round : Option (List (Option Update)) → Poll W → Bool × Poll W
  poll_round none p = (false, p)
  poll_round (some updates) p = dispatch_updates updates p

-- The updates come in the order of their numbers, from a first one on.
abbrev pub Identified : (ℕ → Type 0) → Option ℕ → Type 0
Identified P none = Unit
Identified P (some id) = P id

abbrev pub following : ℕ → Option ℕ → ℕ
following first none = first
following first (some id) = id + 1

unfoldable pub Ascending : ℕ → List (Option Update) → Type 0
Ascending first [] = Unit
Ascending first (none ∷ updates) = Ascending first updates
Ascending first (some u ∷ updates) =
    Identified (λ id. first ≤ id) u.update_id × Ascending (following first u.update_id) updates

-- The next request asks for this update.
abbrev pub AskedFor : Option ℕ → Option ℕ → Type 0
AskedFor none id = Unit
AskedFor (some offset) id = Identified (λ i. offset ≤ i) id

abbrev pub UpTo : ℕ → Option ℕ → Type 0
UpTo first none = Unit
UpTo first (some offset) = offset ≤ first

-- A batch that ends with the exception of one of its updates: the updates before it are handled,
-- its own handling raises, those after it are not handled, and the offset asks for it again.
pub record Raised {W : Type 0} (handle : Body → W → Bool × W) (updates : List (Option Update))
    (p : Poll W) : Type 0 where
  pub earlier : List (Option Update)
  pub update : Update
  pub later : List (Option Update)
  pub split : updates ≡ earlier ++ some update ∷ later
  pub reached : Poll W
  pub handled : dispatch_updates handle earlier p ≡ (false, reached)
  pub raises : (handle update.body reached.world).0 ≡ true
  pub stopped :
      dispatch_updates handle updates p
      ≡ (true, record reached { world = (handle update.body reached.world).1 })
  pub asked : AskedFor reached.poll_offset update.update_id

asked_for :
    (first : ℕ) (offset id : Option ℕ)
    → UpTo first offset
    → Identified (λ i. first ≤ i) id
    → AskedFor offset id
asked_for first none id low h = tt
asked_for first (some offset) none low h = tt
asked_for first (some offset) (some id) low h = omega (arith, low, h)

UpTo-next :
    (first : ℕ) (id offset : Option ℕ)
    → UpTo first offset
    → UpTo (following first id) (next_offset id offset)
UpTo-next first none offset low = low
UpTo-next first (some id) offset low = omega arith

module _ {W : Type 0} (handle : Body → W → Bool × W) where
  abbrev after_update : Update → Poll W → Poll W
  after_update u p = record {
    poll_offset = next_offset u.update_id p.poll_offset;
    world = (handle u.body p.world).1;
  }

  dispatch_updates_raised :
      (u : Update) (updates : List (Option Update)) (p : Poll W)
      → (handle u.body p.world).0 ≡ true
      → dispatch_updates handle (some u ∷ updates) p
        ≡ (true, record p { world = (handle u.body p.world).1 })
  unfolding dispatch_updates
  dispatch_updates_raised u updates p e = rw (e) refl

  dispatch_updates_passed :
      (u : Update) (updates : List (Option Update)) (p : Poll W)
      → (handle u.body p.world).0 ≡ false
      → dispatch_updates handle (some u ∷ updates) p
        ≡ dispatch_updates handle updates (after_update u p)
  unfolding dispatch_updates
  dispatch_updates_passed u updates p e = rw (e) refl

  Raised-skipped :
      (updates : List (Option Update)) (p : Poll W)
      → Raised handle updates p
      → Raised handle (none ∷ updates) p
  unfolding dispatch_updates
  Raised-skipped updates p r = record {
    earlier = none ∷ r.earlier;
    update = r.update;
    later = r.later;
    split = ap (λ l. none ∷ l) r.split;
    reached = r.reached;
    handled = r.handled;
    raises = r.raises;
    stopped = r.stopped;
    asked = r.asked;
  }

  Raised-here :
      (u : Update) (updates : List (Option Update)) (p : Poll W)
      → AskedFor p.poll_offset u.update_id
      → (handle u.body p.world).0 ≡ true
      → Raised handle (some u ∷ updates) p
  unfolding dispatch_updates
  Raised-here u updates p asked e = record {
    earlier = [];
    update = u;
    later = updates;
    split = refl;
    reached = p;
    handled = refl;
    raises = e;
    stopped = dispatch_updates_raised u updates p e;
    asked = asked;
  }

  Raised-passed :
      (u : Update) (updates : List (Option Update)) (p : Poll W)
      → (handle u.body p.world).0 ≡ false
      → Raised handle updates (after_update u p)
      → Raised handle (some u ∷ updates) p
  Raised-passed u updates p e r = record {
    earlier = some u ∷ r.earlier;
    update = r.update;
    later = r.later;
    split = ap (λ l. some u ∷ l) r.split;
    reached = r.reached;
    handled = dispatch_updates_passed u r.earlier p e ∙ r.handled;
    raises = r.raises;
    stopped = dispatch_updates_passed u updates p e ∙ r.stopped;
    asked = r.asked;
  }

  -- When an exception comes out of a batch in the order of the updates' numbers, none below the
  -- remembered offset, it is the exception of one of its updates: the updates before it are handled
  -- without one, those after it are not handled, and the offset is as the updates before it leave
  -- it. That is at most the number of the update, if it has one, so that the next request asks for
  -- it again.
  pub dispatch_updates_replays :
      (first : ℕ) (updates : List (Option Update)) (p : Poll W)
      → Ascending first updates
      → UpTo first p.poll_offset
      → (dispatch_updates handle updates p).0 ≡ true
      → Raised handle updates p
  unfolding dispatch_updates Ascending
  dispatch_updates_replays first [] p h low e = absurd (ground arith)
  dispatch_updates_replays first (none ∷ updates) p h low e =
      Raised-skipped updates p (dispatch_updates_replays first updates p h low e)
  dispatch_updates_replays first (some u ∷ updates) p h low e =
      elim (Bool-cases (handle u.body p.world).0) [
        | inl raises ↦
            Raised-here u updates p (asked_for first p.poll_offset u.update_id low h.0) raises
        | inr passes ↦ Raised-passed u updates p passes (
            dispatch_updates_replays (following first u.update_id) updates (after_update u p) h.1
              (UpTo-next first u.update_id p.poll_offset low)
              (sym (ap (λ r. r.0) (dispatch_updates_passed u updates p passes)) ∙ e))
      ]
