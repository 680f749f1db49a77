-- ===== src/Exec/Keeps.antt =====
-- Postconditions of coroutines, and invariants of their state, with a rule for each way to build one.
use mathlib.Core.Path.{subst}
use iwiki_mcp.Prelude.{◌≡◌, refl, ap, ◌∙◌, Bool, true, false, if◌then◌else◌, nat_eq, list_eq}
use iwiki_mcp.Exec.{
  Outcome, done, raised, Exec, pure, raise, gets, modify, follow, recover, ◌>>=◌, catch,
}

module _ {S E : Type 0} where
  -- `m` raises, or returns a value with `P`, from whatever state.
  pub record Returns {A : Type 0} (P : A → Type 0) (m : Exec S E A) : Type 0 where
    pub at : (s : S) (a : A) → (m s).0 ≡ done a → P a

  abbrev pub Ends : {A : Type 0} → (A → S → Type 0) → Outcome E A × S → Type 0
  Ends Q (done a, t) = Q a t
  Ends Q (raised e, t) = Unit

  -- `m` raises, or returns a value in a state for which `Q` holds.
  pub record Yields {A : Type 0} (Q : A → S → Type 0) (m : Exec S E A) : Type 0 where
    pub at : (s : S) → Ends Q (m s)

  -- `m` leaves a state with `P`, whether it returns or raises.
  pub record Keeps {A : Type 0} (Inv : S → Type 0) (m : Exec S E A) : Type 0 where
    pub at : (before : S) → Inv before → Inv (m before).1

module _ {S E A : Type 0} where
  pub Returns-pure : (P : A → Type 0) (a : A) → P a → Returns {S = S} {E = E} P (pure a)
  Returns-pure P a h = record { at = λ s b e. subst P (cc) h }

  pub Returns-raise : (P : A → Type 0) (e : E) → Returns {S = S} P (raise e)
  Returns-raise P e = record { at = λ s b h. cc }

  pub Returns-any : (m : Exec S E A) → Returns (λ _. Unit {0}) m
  Returns-any m = record { at = λ s a e. tt }

  pub Returns-weaken :
      (P Q : A → Type 0) (m : Exec S E A) → Returns P m → ((a : A) → P a → Q a) → Returns Q m
  Returns-weaken P Q m h weaker = record { at = λ s a e. weaker a (h.at s a e) }

  pub Returns-if :
      (P : A → Type 0) (b : Bool) (m n : Exec S E A)
      → (b ≡ true → Returns P m)
      → (b ≡ false → Returns P n)
      → Returns P (if b then m else n)
  Returns-if P true m n hm hn = hm refl
  Returns-if P false m n hm hn = hn refl

  pub Returns-catch :
      (P : A → Type 0) (m : Exec S E A) (handler : E → Exec S E A)
      → Returns P m
      → ((e : E) → Returns P (handler e))
      → Returns P (catch m handler)
  Returns-catch P m handler hm hh = record { at = λ s b h. on s (m s) refl b h }
    where
      on :
          (s : S) (x : Outcome E A × S)
          → m s ≡ x
          → (b : A) → (recover x.0 handler x.1).0 ≡ done b
          → P b
      on s (done a, t) e b h = hm.at s b (ap (λ y. y.0) e ∙ h)
      on s (raised x, t) e b h = (hh x).at t b h

  pub Yields-pure : (Q : A → S → Type 0) (a : A) → ((s : S) → Q a s) → Yields {E = E} Q (pure a)
  Yields-pure Q a h = record { at = h }

  pub Yields-if :
      (Q : A → S → Type 0) (b : Bool) (m n : Exec S E A)
      → Yields Q m
      → Yields Q n
      → Yields Q (if b then m else n)
  Yields-if Q true m n hm hn = hm
  Yields-if Q false m n hm hn = hn

  pub Keeps-pure : (P : S → Type 0) (a : A) → Keeps {E = E} P (pure a)
  Keeps-pure P a = record { at = λ s h. h }

  pub Keeps-raise : (P : S → Type 0) (e : E) → Keeps {A = A} P (raise e)
  Keeps-raise P e = record { at = λ s h. h }

  pub Keeps-gets : (P : S → Type 0) (f : S → A) → Keeps {E = E} P (gets f)
  Keeps-gets P f = record { at = λ s h. h }

  pub Keeps-if :
      (P : S → Type 0) (b : Bool) (m n : Exec S E A)
      → Keeps P m
      → Keeps P n
      → Keeps P (if b then m else n)
  Keeps-if P true m n km kn = km
  Keeps-if P false m n km kn = kn

  pub Keeps-catch :
      (P : S → Type 0) (m : Exec S E A) (handler : E → Exec S E A)
      → Keeps P m
      → ((e : E) → Keeps P (handler e))
      → Keeps P (catch m handler)
  Keeps-catch P m handler km kh = record { at = λ s h. on (m s) (km.at s h) }
    where
      on : (x : Outcome E A × S) → P x.1 → P (recover x.0 handler x.1).1
      on (done a, t) h = h
      on (raised e, t) h = (kh e).at t h

module _ {S E : Type 0} where
  pub Keeps-modify :
      (P : S → Type 0) (f : S → S) → ((s : S) → P s → P (f s)) → Keeps {E = E} P (modify f)
  Keeps-modify P f h = record { at = h }

module _ {S E A B : Type 0} where
  pub Returns-bind :
      (P : A → Type 0) (Q : B → Type 0) (m : Exec S E A) (f : A → Exec S E B)
      → Returns P m
      → ((a : A) → P a → Returns Q (f a))
      → Returns Q (m >>= f)
  Returns-bind P Q m f hm hf = record { at = λ s b h. on s (m s) refl b h }
    where
      on : (s : S) (x : Outcome E A × S) → m s ≡ x → (b : B) → (follow x.0 f x.1).0 ≡ done b → Q b
      on s (done a, t) e b h = (hf a (hm.at s a (ap (λ y. y.0) e))).at t b h
      on s (raised x, t) e b h = cc

  pub Yields-bind :
      (Q : B → S → Type 0) (m : Exec S E A) (f : A → Exec S E B)
      → ((a : A) → Yields Q (f a))
      → Yields Q (m >>= f)
  Yields-bind Q m f hf = record { at = λ s. on (m s) }
    where
      on : (x : Outcome E A × S) → Ends Q (follow x.0 f x.1)
      on (done a, u) = (hf a).at u
      on (raised x, u) = tt

  pub Keeps-bind :
      (P : S → Type 0) (m : Exec S E A) (f : A → Exec S E B)
      → Keeps P m
      → ((a : A) → Keeps P (f a))
      → Keeps P (m >>= f)
  Keeps-bind P m f km kf = record { at = λ s h. on (m s) (km.at s h) }
    where
      on : (x : Outcome E A × S) → P x.1 → P (follow x.0 f x.1).1
      on (done a, t) h = (kf a).at t h
      on (raised e, t) h = h
