-- ===== src/Exec.antt =====
-- Coroutines that may raise, over a state that a raise does not take back.
pub mod Keeps
use iwiki_mcp.Prelude.{
  ◌^◌, ℕ, zero, suc, ◌+◌, ◌-◌, ◌*◌, ◌/◌, ◌%◌, ◌≤◌, ◌<◌, min, max, ◌≡◌, refl, sym, ap, ◌∙◌, ◌≢◌, ◌↔◌,
  ◌⊎◌, inl, inr, Bool, true, false, not, ◌&&◌, ◌||◌, Option, none, some, List, [], ◌∷◌, ◌++◌, map,
  arith, ltb, leb, ◌==◌, if◌then◌else◌, leb→le, le→leb, ==_iff, Bool-cases, Option-cases, Eq,
  nat_eq, length, take, drop, get_elem?, length-append, length-take, take_of_length-le,
  take-append-drop, All, select, any, contains, list_beq, list_eq,
}

pub data Outcome (E A : Type 0) : Type 0 where
  done : A → Outcome E A
  raised : E → Outcome E A

abbrev pub Exec : Type 0 → Type 0 → Type 0 → Type 0
Exec S E A = S → Outcome E A × S

module _ {S E : Type 0} where
  abbrev pub pure : {A : Type 0} → A → Exec S E A
  pure a s = (done a, s)

  abbrev pub raise : {A : Type 0} → E → Exec S E A
  raise e s = (raised e, s)

  abbrev pub gets : {A : Type 0} → (S → A) → Exec S E A
  gets f s = (done (f s), s)

  abbrev pub modify : (S → S) → Exec S E (Unit {0})
  modify f s = (done tt, f s)

  abbrev pub follow : {A B : Type 0} → Outcome E A → (A → Exec S E B) → Exec S E B
  follow (done a) f s = f a s
  follow (raised e) f s = (raised e, s)

  infixl 10 ◌>>=◌ ◌>>◌
  abbrev pub ◌>>=◌ : {A B : Type 0} → Exec S E A → (A → Exec S E B) → Exec S E B
  ◌>>=◌ m f s = let (r, t) = m s in follow r f t

  abbrev pub ◌>>◌ : {B : Type 0} → Exec S E (Unit {0}) → Exec S E B → Exec S E B
  m >> n = m >>= λ _. n

  abbrev pub recover : {A : Type 0} → Outcome E A → (E → Exec S E A) → Exec S E A
  recover (done a) handler s = (done a, s)
  recover (raised e) handler s = handler e s

  -- `try: m except ...: handler`; the handler raises again what it does not handle.
  abbrev pub catch : {A : Type 0} → Exec S E A → (E → Exec S E A) → Exec S E A
  catch m handler s = let (r, t) = m s in recover r handler t
