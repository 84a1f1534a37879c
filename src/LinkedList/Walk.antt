-- ===== src/LinkedList/Walk.antt =====
-- What the functions of src/utils/list.c that only read make of a list.
use mathlib.Core.Path.{subst}
use native.Mathlib.Decide.{dec_lt}
use c_client.Prelude.{
  false, ℕ, ◌<◌, ◌≤◌, ◌≡◌, refl, sym, ap, none, some, [], ◌∷◌, ◌++◌, arith, lt→ltb, le→ltb, ◌==◌,
  length, length-append, get_elem?, get_elem?-none,
}
use c_client.Prelude.Int.{pos}
use c_client.LinkedList.{
  Ptr, null, Heap, Handle, walk, list_get_elem, list_get, enum_loop, list_enum, enum_values,
}
use c_client.LinkedList.Chain.{
  Cells, first, Chain, values, length-values, Chain-right, Split-at, get_elem?-values, load_lem,
}
use c_client.LinkedList.Links.{IsList}

module _ {V : Type 0} (h : Heap V) where
  -- The address of the element at an index in range.
  walk-append :
      (b : Ptr) (xs ys : Cells V) (stop : Ptr)
      → Chain h.cell b (xs ++ ys) stop
      → walk (length xs) (first (xs ++ ys) stop) h ≡ some (first ys stop)
  unfolding walk
  walk-append b [] ys stop chain = refl
  walk-append b ((p, v) ∷ xs) ys stop (ne, at, out, chain) =
      rw (load_lem h p ne at) (walk-append p xs ys stop chain)

  pub list_get_elem-append :
      (self : Handle) (xs : Cells V) (p : Ptr) (v : V) (ys : Cells V)
      → IsList h self (xs ++ ((p, v) ∷ ys))
      → list_get_elem self (pos (length xs)) h ≡ some p
  unfolding list_get_elem
  list_get_elem-append self xs p v ys is =
      let inside : length xs < self.len = omega (arith, is.len, length-append xs ((p, v) ∷ ys)) in
      rw (lt→ltb (length xs) self.len inside, is.head)
        (walk-append null xs ((p, v) ∷ ys) null is.chain)

  -- Behind the end there is no element, and NULL is returned.
  pub list_get_elem-beyond :
      (self : Handle) (xs : Cells V) (idx : ℕ)
      → IsList h self xs
      → length xs ≤ idx
      → list_get_elem self (pos idx) h ≡ some null
  unfolding list_get_elem
  list_get_elem-beyond self xs idx is beyond =
      let outside : self.len ≤ idx = omega (arith, is.len) in rw (le→ltb idx self.len outside)

  enum_loop_lem {ℓ} :
      {O : Type ℓ} (call : V → O → O) (obj : O) (b : Ptr) (xs : Cells V) (stop : Ptr)
      → Chain h.cell b xs stop
      → enum_loop (length xs) (first xs stop) call obj h ≡ some (enum_values (values xs) call obj)
  unfolding enum_loop enum_values
  enum_loop_lem call obj b [] stop chain = refl
  enum_loop_lem call obj b ((p, v) ∷ xs) stop (ne, at, out, chain) =
      rw (load_lem h p ne at) (enum_loop_lem call (call v obj) p xs stop chain)

  -- A list whose length is an int: `list_enum` calls `call` on the values from the first to the last,
  -- and does not fault.
  pub list_enum_lem {ℓ} :
      {O : Type ℓ} (self : Handle) (xs : Cells V) (call : V → O → O) (obj : O)
      → IsList h self xs
      → length xs < 2147483648
      → list_enum self call obj h ≡ some (enum_values (values xs) call obj)
  unfolding list_enum
  list_enum_lem self xs call obj is fits =
      rw (is.len, is.head, lt→ltb (length xs) 2147483648 fits)
        (enum_loop_lem call obj null xs null is.chain)

  -- On a well-formed list and an index that is not negative `list_get` does not fault, and returns the
  -- value there, or NULL behind the end.
  pub list_get_lem :
      (self : Handle) (xs : Cells V) (idx : ℕ)
      → IsList h self xs
      → list_get self (pos idx) h ≡ some (get_elem? (values xs) idx)
  unfolding list_get
  list_get_lem self xs idx is = elim (dec_lt idx (length xs)) [
    | no beyond ↦
        let outside : length xs ≤ idx = omega arith in
        let none_there : get_elem? (values xs) idx ≡ none =
          get_elem?-none (values xs) idx (omega (arith, length-values xs)) in
        rw (list_get_elem-beyond self xs idx is outside, none_there)
    | yes inside ↦
        let s = Split-at xs idx inside in
        let is' = subst (λ cells. IsList h self cells) s.cells is in
        let (ne, at, out, chain) =
          Chain-right h.cell null s.front ((s.addr, s.value) ∷ s.back) null is'.chain in
        let not_null : (s.addr == null) ≡ false = ground (arith, ne) in
        let there = list_get_elem-append self s.front s.addr s.value s.back is' in
        rw (s.cells, ← s.place, there, not_null, at)
          (ap some (sym (get_elem?-values s.front s.addr s.value s.back)))
  ]
