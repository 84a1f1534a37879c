-- ===== src/Process.antt =====
-- Code that calls the operating system: it passes a state along, and may end the process or fault.
use c_client.Prelude.{◌≡◌, refl}

-- What a call does: it returns, or it ends the process by `exit`, or it accesses memory out of bounds.
pub data Outcome {ℓ} (A : Type ℓ) : Type ℓ where
  ok : A → Outcome A
  exits : Outcome A
  fault : Outcome A

module _ {S A B : Type 0} where
  abbrev pub and_then : Outcome (A × S) → (A → S → Outcome (B × S)) → Outcome (B × S)
  and_then (ok (a, s)) f = f a s
  and_then exits f = exits
  and_then fault f = fault

  infixl 5 ◌>>=◌ ◌>>◌
  abbrev pub ◌>>=◌ : (S → Outcome (A × S)) → (A → S → Outcome (B × S)) → S → Outcome (B × S)
  ◌>>=◌ m f s = and_then (m s) f

  abbrev pub ◌>>◌ : (S → Outcome (A × S)) → (S → Outcome (B × S)) → S → Outcome (B × S)
  ◌>>◌ m k s = and_then (m s) (λ _. k)

abbrev pub pure : {S A : Type 0} → A → S → Outcome (A × S)
pure a s = ok (a, s)

abbrev pub exit : {S A : Type 0} → S → Outcome (A × S)
exit s = exits

pub and_then-ok : {S A : Type 0} (o : Outcome (A × S)) → and_then o (λ a s. ok (a, s)) ≡ o
and_then-ok (ok (a, s)) = refl
and_then-ok exits = refl
and_then-ok fault = refl

-- The call returns, with a value and a state that have the property.
pub data Ends {S A : Type 0} (P : A × S → Type 0) : Outcome (A × S) → Type 0 where
  ends : {a : A} {s : S} → P (a, s) → Ends P (ok (a, s))

module _ {S A : Type 0} {P : A × S → Type 0} where
  pub Ends-value : {o : Outcome (A × S)} → Ends P o → (a : A) × (s : S) × (o ≡ ok (a, s)) × P (a, s)
  Ends-value (ends {a} {s} p) = (a, s, refl, p)

  pub Ends-of_eq : {o : Outcome (A × S)} {a : A} {s : S} → o ≡ ok (a, s) → P (a, s) → Ends P o
  Ends-of_eq e p = rw e (ends p)

  pub Ends-bind :
      {B : Type 0} {Q : B × S → Type 0} {o : Outcome (A × S)} {f : A → S → Outcome (B × S)}
      → Ends P o
      → ((a : A) (s : S) → P (a, s) → Ends Q (f a s))
      → Ends Q (and_then o f)
  Ends-bind (ends {a} {s} p) h = h a s p

  pub Ends-mono :
      {Q : A × S → Type 0} {o : Outcome (A × S)}
      → Ends P o
      → ((a : A) (s : S) → P (a, s) → Q (a, s))
      → Ends Q o
  Ends-mono (ends {a} {s} p) weaken = ends (weaken a s p)
