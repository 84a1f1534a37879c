-- ===== src/Prelude/Faults.antt =====
-- Code that may fault (an access out of bounds): `none` is the fault. Total correctness of such
-- code, and the counted loop with its invariant rule.
use Prim.Native.Nat.{ℕ, zero, suc, ◌+◌, ◌<◌, ◌≤◌}
use mathlib.Core.Path.{◌≡◌, refl, ap, sym, subst, ◌∙◌}
use mathlib.Core.Logic.{◌≢◌}
use mathlib.Core.List.{List, [], ◌∷◌, ◌++◌, append_assoc}
use mathlib.Core.Option.{Option, none, some, some-injective}
use native.Mathlib.Omega.{arith}
use c_client.Prelude.Tests.{ltb, lt→ltb, if◌then◌else◌}
use c_client.Prelude.Lists.{
  length, length-append, set-append, replicate, get_elem?, set, get_elem?-set_self,
  get_elem?-set_ne, length-set,
}

infixl 5 ◌>>=◌ ◌>>◌
abbrev pub ◌>>=◌ {ℓ κ} : {A : Type ℓ} {B : Type κ} → Option A → (A → Option B) → Option B
none >>= f = none
some a >>= f = f a

abbrev pub ◌>>◌ {ℓ κ} : {A : Type ℓ} {B : Type κ} → Option A → Option B → Option B
m >> k = m >>= λ _. k

-- The code does not fault, and its result satisfies `P`.
pub data Returns {ℓ κ} {A : Type ℓ} (P : A → Type κ) : Option A → Type (ℓ ⊔ κ) where
  returns : {a : A} → P a → Returns P (some a)

module _ {ℓ κ} {A : Type ℓ} {P : A → Type κ} where
  pub Returns-value : {o : Option A} → Returns P o → (a : A) × (o ≡ some a) × P a
  Returns-value (returns {a} p) = (a, refl, p)

  pub Returns-some : {a : A} → Returns P (some a) → P a
  Returns-some {a} ret = let (b, e, p) = Returns-value ret in subst P (sym (some-injective a b e)) p

  pub Returns-of_eq : {o : Option A} {a : A} → o ≡ some a → P a → Returns P o
  Returns-of_eq {o} {a} e p = rw e (returns p)

  pub Returns-bind {μ ν} :
      {B : Type μ} {Q : B → Type ν} {o : Option A} {k : A → Option B}
      → Returns P o
      → ((a : A) → P a → Returns Q (k a))
      → Returns Q (o >>= k)
  Returns-bind (returns p) next = next _ p

  pub Returns-mono {ν} :
      {Q : A → Type ν} {o : Option A} → Returns P o → ((a : A) → P a → Q a) → Returns Q o
  Returns-mono (returns p) weaken = returns (weaken _ p)

-- `xs[i] = v`, a fault out of bounds.
unfoldable pub store {ℓ} : {A : Type ℓ} → List A → ℕ → A → Option (List A)
store xs i v = if ltb i (length xs) then some (set xs i v) else none

-- What a write in bounds leaves.
pub record Stored {ℓ} {A : Type ℓ} (xs : List A) (i : ℕ) (v : A) (ys : List A) : Type ℓ where
  pub size : length ys ≡ length xs
  pub here : get_elem? ys i ≡ some v
  pub elsewhere : (j : ℕ) → i ≢ j → get_elem? ys j ≡ get_elem? xs j

pub store-Stored {ℓ} :
    {A : Type ℓ} (xs : List A) (i : ℕ) (v : A)
    → i < length xs
    → Returns (Stored xs i v) (store xs i v)
unfolding store
store-Stored xs i v h = rw (lt→ltb _ _ h) (
    returns (record {
      size = length-set xs i v;
      here = get_elem?-set_self xs i v h;
      elsewhere = λ j ne. get_elem?-set_ne xs i j v ne;
    }))

-- for (k = i; k < i + n; k++) body: recursion on the count of rounds left. The callers' counters
-- are of a type that holds every value up to the bound.
pub for_range {ℓ} : {S : Type ℓ} → ℕ → ℕ → (ℕ → S → Option S) → S → Option S
for_range zero i body s = some s
for_range (suc n) i body s = body i s >>= for_range n (i + 1) body

pub for_range-zero {ℓ} :
    {S : Type ℓ} (i : ℕ) (body : ℕ → S → Option S) (s : S) → for_range 0 i body s ≡ some s
unfolding for_range
for_range-zero i body s = refl

-- The invariant rule: `P k` holds before round `k`.
pub for_range-inv {ℓ κ} :
    {S : Type ℓ} (P : ℕ → S → Type κ) (body : ℕ → S → Option S) (n i j : ℕ)
    → i + n ≡ j
    → ((k : ℕ) (s : S) → i ≤ k → k < j → P k s → Returns (P (k + 1)) (body k s))
    → (s : S) → P i s
    → Returns (P j) (for_range n i body s)
unfolding for_range
for_range-inv P body zero i j e keep s p = let e' : i ≡ j = omega arith in rw (← e') (returns p)
for_range-inv P body (suc n) i j e keep s p =
    Returns-bind (keep i s (omega arith) (omega arith) p)
      (for_range-inv P body n (i + 1) j (omega arith) λ k s' l u q. keep k s' (omega arith) u q)

-- Two nested counted loops, `for (x = i; x < i + n; x++) for (y = 0; y < m; y++) body`.
pub for_grid {ℓ} : {S : Type ℓ} → ℕ → ℕ → ℕ → (ℕ → ℕ → S → Option S) → S → Option S
for_grid n i m body s = for_range n i (λ x. for_range m 0 (body x)) s

-- The invariant rule: `P x y` holds before the round of column `x` and row `y`.
pub for_grid-inv {ℓ κ} :
    {S : Type ℓ} (P : ℕ → ℕ → S → Type κ) (body : ℕ → ℕ → S → Option S) (n i m j : ℕ)
    → i + n ≡ j
    → ((x y : ℕ) (s : S) → i ≤ x → x < j → y < m → P x y s → Returns (P x (y + 1)) (body x y s))
    → ((x : ℕ) (s : S) → P x m s → P (x + 1) 0 s)
    → (s : S) → P i 0 s
    → Returns (P j 0) (for_grid n i m body s)
unfolding for_grid
for_grid-inv P body n i m j e keep wrap s p =
    for_range-inv (λ x s. P x 0 s) (λ x. for_range m 0 (body x)) n i j e
      (λ x s l u q.
        Returns-mono
          (for_range-inv (P x) (body x) m 0 m (omega arith) (λ y t _ v r. keep x y t l u v r) s q)
          (λ t r. wrap x t r))
      s p

-- Writes the value to `n` elements from index `i` on.
unfoldable pub fill {ℓ} : {A : Type ℓ} → A → ℕ → ℕ → List A → Option (List A)
unfolding store
fill v zero i xs = some xs
fill v (suc n) i xs = store xs i v >>= λ ys. fill v n (i + 1) ys

module _ {ℓ} {A : Type ℓ} where
  store-append :
      (done rest : List A) (a b : A) (i : ℕ)
      → i ≡ length done
      → store (done ++ (a ∷ rest)) i b ≡ some (done ++ (b ∷ rest))
  unfolding store
  store-append done rest a b i e =
      let size = length-append done (a ∷ rest) in
      rw (
        e,
        lt→ltb (length done) (length (done ++ (a ∷ rest))) (omega (arith, size)),
        set-append done rest a b,
      )

  fill-append :
      (v : A) (done rest : List A) (i : ℕ)
      → i ≡ length done
      → fill v (length rest) i (done ++ rest) ≡ some (done ++ replicate (length rest) v)
  unfolding fill
  fill-append v done [] i e = refl
  fill-append v done (a ∷ rest) i e =
      let size = length-append done (v ∷ []) in
      rw (store-append done rest a v i e, ← append_assoc done (v ∷ []) rest)
        (fill-append v (done ++ (v ∷ [])) rest (i + 1) (omega (arith, size))
          ∙ ap some (append_assoc done (v ∷ []) _))

  -- Filling a whole array.
  pub fill_lem :
      (v : A) (n : ℕ) (xs : List A) → length xs ≡ n → fill v n 0 xs ≡ some (replicate n v)
  fill_lem v n xs size = rw (← size) (fill-append v [] xs 0 refl)
