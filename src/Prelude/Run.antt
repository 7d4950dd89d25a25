-- ===== src/Prelude/Run.antt =====
-- Commands over a state: kernel code as state passing with its ways of not returning.
use mathlib.Core.Path.{◌≡◌, ap}
use mathlib.Core.Bool.{Bool, true, false}

-- `ok` is a return; `fault` a dereference of NULL or of memory that holds no such object, or a
-- stop in KeBugCheck; `blocked` a thread that went to sleep; `out_of_fuel` a loop cut short.
pub data Run (S A : Type 0) : Type 0 where
  ok : A → S → Run S A
  fault : Run S A
  blocked : S → Run S A
  out_of_fuel : Run S A

abbrev pub Cmd : Type 0 → Type 0 → Type 0
Cmd S A = S → Run S A

module _ {S : Type 0} where
  abbrev pub pure : {A : Type 0} → A → Cmd S A
  pure a s = ok a s

  abbrev pub and_then : {A B : Type 0} → Run S A → (A → Cmd S B) → Run S B
  and_then (ok a s) k = k a s
  and_then fault k = fault
  and_then (blocked s) k = blocked s
  and_then out_of_fuel k = out_of_fuel

  infixl 5 ◌>>=◌ ◌>>◌
  abbrev pub ◌>>=◌ : {A B : Type 0} → Cmd S A → (A → Cmd S B) → Cmd S B
  m >>= k = λ s. and_then (m s) k

  abbrev pub ◌>>◌ : {A B : Type 0} → Cmd S A → Cmd S B → Cmd S B
  m >> n = m >>= λ _. n

  abbrev pub get : {A : Type 0} → (S → A) → Cmd S A
  get f s = ok (f s) s

  abbrev pub modify : (S → S) → Cmd S (Unit {0})
  modify f s = ok tt (f s)

  abbrev pub when : Bool → Cmd S (Unit {0}) → Cmd S (Unit {0})
  when true m s = m s
  when false m s = ok tt s

  -- One step of a command whose first part is known.
  pub step :
      {A B : Type 0} {r : Run S A} {x : A} {s : S} (k : A → Cmd S B)
      → r ≡ ok x s
      → and_then r k ≡ k x s
  step k e = ap (λ t. and_then t k) e

  pub step_fault : {A B : Type 0} {r : Run S A} (k : A → Cmd S B) → r ≡ fault → and_then r k ≡ fault
  step_fault k e = ap (λ t. and_then t k) e
