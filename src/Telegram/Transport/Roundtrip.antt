-- ===== src/Telegram/Transport/Roundtrip.antt =====
-- telegram_bot/transport.py: the commands that the help describes reach the conversation with their
-- parts, and a sender who is not allowed reaches nothing.
use mathlib.Core.Option.{some-injective}
use iwiki_mcp.Prelude.{
  ℕ, ◌≡◌, refl, ap, ◌∙◌, ◌⊎◌, inl, inr, Bool, true, false, not, ◌||◌, Option, none, some, List, [],
  ◌∷◌, ◌++◌, arith, ◌==◌, if◌then◌else◌, nat_eq, contains, list_eq,
}
use iwiki_mcp.Text.{Text, codes, strip, strip_left, is_space}
use iwiki_mcp.Telegram.Transport.Spaces.{
  strip_right, strip-append, strip-strip_left, strip-strip_right, contains-strip_left,
}
use iwiki_mcp.Telegram.Commands.{creation, revision}
use iwiki_mcp.Telegram.Retrieval.{denied}
use iwiki_mcp.Telegram.Transport.Routing.{
  ask, Body, callback_query, message, other, Handling, ignored, sends, identity, split_once,
  after_prefix, is_empty_text, stripped_parts, split_command, immediate_reply, update_route,
  create_route, section_route, dispatch_text, handle_update, handle_message, handle_callback,
  if_allowed,
}

==-refl : (c : ℕ) → (c == c) ≡ true
==-refl c = ground arith

split_once_next :
    (c d : ℕ) (found : Bool) → ((c == d) || found) ≡ false → ((d == c) ≡ false) × (found ≡ false)
split_once_next c d found h = ground arith

split_once-append :
    (c : ℕ) (a b : Text) → contains a c ≡ false → split_once c (a ++ c ∷ b) ≡ some (a, b)
unfolding split_once
split_once-append c [] b absent = rw (==-refl c) refl
split_once-append c (d ∷ a) b absent =
    let (first, rest) = split_once_next c d (contains a c) absent in
    rw (split_once-append c a b rest, first) refl

after_prefix-append : (prefix text : Text) → after_prefix prefix (prefix ++ text) ≡ some text
unfolding after_prefix
after_prefix-append [] text = refl
after_prefix-append (c ∷ prefix) text = rw (==-refl c) (after_prefix-append prefix text)

stripped_parts_filled :
    (a b : Text)
    → is_empty_text (strip a) ≡ false
    → is_empty_text (strip b) ≡ false
    → stripped_parts (some (a, b)) ≡ some (strip a, strip b)
stripped_parts_filled a b fa fb = rw (fa, fb) refl

split_command_parts :
    (first second : Text)
    → contains first 58 ≡ false
    → is_empty_text (strip first) ≡ false
    → is_empty_text (strip second) ≡ false
    → split_command (first ++ 58 ∷ second) ≡ some (strip first, strip second)
unfolding split_command
split_command_parts first second absent fa fb =
    ap stripped_parts (split_once-append 58 first second absent)
    ∙ stripped_parts_filled first second fa fb

-- `/create <slug>: <request>`, with whatever spaces around the slug and the request, reaches the
-- conversation as a creation with both stripped, if neither is blank and the slug has no colon.
pub dispatch_text-create :
    (slug request : Text)
    → contains slug 58 ≡ false
    → is_empty_text (strip slug) ≡ false
    → is_empty_text (strip request) ≡ false
    → dispatch_text (codes "/create " ++ (slug ++ 58 ∷ request))
      ≡ ask (creation (strip slug) (strip request))
unfolding dispatch_text immediate_reply after_prefix
dispatch_text-create slug request absent fs fr =
    ap create_route (split_command_parts slug request absent fs fr)

abbrev pub sender_of : Body → Option ℕ
sender_of (callback_query c) = c.sender
sender_of (message m) = m.sender
sender_of other = none

denied_handling :
    (allowed : List ℕ) (sender chat : Option ℕ) (telegram_id : ℕ) (handling : ℕ → ℕ → Handling)
    → contains allowed telegram_id ≡ false
    → sender ≡ some telegram_id
    → (if_allowed allowed (identity sender chat) handling ≡ ignored)
      ⊎ ((chat_id : ℕ) × (if_allowed allowed (identity sender chat) handling
            ≡ sends chat_id denied))
denied_handling allowed none chat telegram_id handling unlisted e = inl refl
denied_handling allowed (some id) none telegram_id handling unlisted e = inl refl
denied_handling allowed (some id) (some chat_id) telegram_id handling unlisted e = inr (
  chat_id,
  ap (λ b. if not b then sends chat_id denied else handling id chat_id)
      (ap (contains allowed) (some-injective id telegram_id e) ∙ unlisted),
)

contains-append :
    (a b : Text) (c : ℕ) → contains a c ≡ false → contains b c ≡ false → contains (a ++ b) c ≡ false
contains-append [] b c h k = k
contains-append (d ∷ a) b c h k = ground (arith, contains-append a b c)

target_written :
    (slug heading : Text)
    → contains slug 58 ≡ false
    → contains heading 58 ≡ false
    → contains (slug ++ 35 ∷ heading) 58 ≡ false
target_written slug heading h k = contains-append slug (35 ∷ heading) 58 h k

not_empty : (a b : Text) (c : ℕ) → is_empty_text (a ++ c ∷ b) ≡ false
not_empty [] b c = refl
not_empty (d ∷ a) b c = refl

hash_no_space : is_space 35 ≡ false
unfolding is_space
hash_no_space = refl

target_stripped :
    (slug heading : Text)
    → strip (slug ++ 35 ∷ heading) ≡ strip_left slug ++ 35 ∷ strip_right heading
target_stripped slug heading = strip-append slug heading 35 hash_no_space

update_route_parts :
    (slug heading request : Text)
    → contains slug 35 ≡ false
    → is_empty_text (strip slug) ≡ false
    → is_empty_text (strip heading) ≡ false
    → update_route (some (strip_left slug ++ 35 ∷ strip_right heading, request))
      ≡ ask (revision (strip slug) (strip heading) request)
unfolding update_route
update_route_parts slug heading request absent fs fh =
    let s = strip-strip_left slug in
    let h = strip-strip_right heading in
    ap (λ o. section_route request (stripped_parts o))
      (split_once-append 35 (strip_left slug) (strip_right heading)
        (contains-strip_left slug 35 absent))
    ∙ (ap (section_route request) (
          stripped_parts_filled (strip_left slug) (strip_right heading) (ap is_empty_text s ∙ fs)
            (ap is_empty_text h ∙ fh))
        ∙ ap (λ (p : Text × Text). ask (revision p.0 p.1 request)) (λ i. (s i, h i)))

-- `/update <slug>#<heading>: <request>`, with whatever spaces around the slug, the heading and the
-- request, reaches the conversation as a revision of that section with all three stripped, if none
-- of them is blank, the slug has neither a hash sign nor a colon, and the heading has no colon.
pub dispatch_text-update :
    (slug heading request : Text)
    → contains slug 35 ≡ false
    → contains slug 58 ≡ false
    → contains heading 58 ≡ false
    → is_empty_text (strip slug) ≡ false
    → is_empty_text (strip heading) ≡ false
    → is_empty_text (strip request) ≡ false
    → dispatch_text (codes "/update " ++ ((slug ++ 35 ∷ heading) ++ 58 ∷ request))
      ≡ ask (revision (strip slug) (strip heading) (strip request))
unfolding dispatch_text immediate_reply after_prefix
dispatch_text-update slug heading request hash colon colons fs fh fr =
    let target = target_stripped slug heading in
    ap update_route (
      split_command_parts (slug ++ 35 ∷ heading) request (target_written slug heading colon colons)
        (ap is_empty_text target ∙ not_empty (strip_left slug) (strip_right heading) 35) fr
      ∙ ap (λ t. some (t, strip request)) target)
    ∙ update_route_parts slug heading (strip request) hash fs fh

-- A sender who is not on the allowlist reaches neither the conversation nor a service: every update
-- of theirs, whatever it holds, is ignored or gets the refusal.
pub handle_update-denied :
    (allowed : List ℕ) (body : Body) (telegram_id : ℕ)
    → contains allowed telegram_id ≡ false
    → sender_of body ≡ some telegram_id
    → (handle_update allowed body ≡ ignored)
      ⊎ ((chat_id : ℕ) × (handle_update allowed body ≡ sends chat_id denied))
unfolding handle_update handle_message handle_callback
handle_update-denied allowed (message m) telegram_id unlisted e =
    denied_handling allowed m.sender m.chat telegram_id _ unlisted e
handle_update-denied allowed (callback_query c) telegram_id unlisted e =
    denied_handling allowed c.sender c.chat telegram_id _ unlisted e
handle_update-denied allowed other telegram_id unlisted e = inl refl
