-- ===== src/Common/Exec.antt =====
-- Methods that change an object and may raise. What was written before a raise stays written.
use mathlib.Core.Path.{◌≡◌, refl}

pub data Result (E A : Type 0) : Type 0 where
  ok : A → Result E A
  err : E → Result E A

abbrev pub Exec : Type 0 → Type 0 → Type 0 → Type 0
Exec S E A = S → Result E A × S

module _ {S E : Type 0} where
  abbrev pub pure : {A : Type 0} → A → Exec S E A
  pure a s = (ok a, s)

  abbrev pub raise : {A : Type 0} → E → Exec S E A
  raise e s = (err e, s)

  abbrev pub and_then : {A B : Type 0} → Result E A → (A → Exec S E B) → Exec S E B
  and_then (ok a) f s = f a s
  and_then (err e) f s = (err e, s)

  infixl 5 ◌>>=◌ ◌>>◌
  abbrev pub ◌>>=◌ : {A B : Type 0} → Exec S E A → (A → Exec S E B) → Exec S E B
  ◌>>=◌ m f s = let (r, s') = m s in and_then r f s'

  abbrev pub ◌>>◌ : {A B : Type 0} → Exec S E A → Exec S E B → Exec S E B
  m >> n = m >>= λ _. n

  abbrev pub or_else : {A : Type 0} → Result E A → (E → Exec S E A) → Exec S E A
  or_else (ok a) f s = (ok a, s)
  or_else (err e) f s = f e s

  -- try: m, except e: f(e)
  abbrev pub catch : {A : Type 0} → Exec S E A → (E → Exec S E A) → Exec S E A
  catch m f s = let (r, s') = m s in or_else r f s'

  -- What holds of the state so far, and after whatever comes next.
  pub and_then_keeps :
      {A B : Type 0} (P : S → Type 0) (r : Result E A) (f : A → Exec S E B) (s : S)
      → P s
      → ((a : A) → P (f a s).1)
      → P (and_then r f s).1
  and_then_keeps P (ok a) f s h k = k a
  and_then_keeps P (err e) f s h k = h

  -- What holds of the result and of the state, by cases of what came before.
  pub and_then_rule :
      {A B : Type 0} (Q : Result E B → S → Type 0) (r : Result E A) (f : A → Exec S E B) (s : S)
      → ((a : A) → r ≡ ok a → Q (f a s).0 (f a s).1)
      → ((e : E) → r ≡ err e → Q (err e) s)
      → Q (and_then r f s).0 (and_then r f s).1
  and_then_rule Q (ok a) f s h k = h a refl
  and_then_rule Q (err e) f s h k = k e refl

  pub or_else_rule :
      {A : Type 0} (Q : Result E A → S → Type 0) (r : Result E A) (f : E → Exec S E A) (s : S)
      → ((a : A) → r ≡ ok a → Q (ok a) s)
      → ((e : E) → r ≡ err e → Q (f e s).0 (f e s).1)
      → Q (or_else r f s).0 (or_else r f s).1
  or_else_rule Q (ok a) f s h k = h a refl
  or_else_rule Q (err e) f s h k = k e refl
