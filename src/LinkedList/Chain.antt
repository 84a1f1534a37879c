-- ===== src/LinkedList/Chain.antt =====
-- Chains of elements in a heap, by the addresses and values of their elements.
use c_client.Prelude.{
  ℕ, zero, suc, ◌<◌, get_elem?, ◌≡◌, refl, ◌≢◌, sym, ap, ◌∙◌, Option, some, List, [], ◌∷◌, ◌++◌,
  arith, length,
}
use c_client.LinkedList.{Ptr, null, Elem, elem_at, Heap, write, load}

abbrev pub Cells : Type 0 → Type 0
Cells V = List (Ptr × V)

abbrev pub Memory : Type 0 → Type 0
Memory V = Ptr → Option (Elem V)

module _ {V : Type 0} where
  abbrev pub first : Cells V → Ptr → Ptr
  first [] stop = stop
  first ((p, v) ∷ xs) stop = p

  abbrev pub last : Ptr → Cells V → Ptr
  last before [] = before
  last before ((p, v) ∷ xs) = last p xs

  abbrev pub values : Cells V → List V
  values [] = []
  values ((p, v) ∷ xs) = v ∷ values xs

  infix 40 ◌∉◌
  abbrev pub ◌∉◌ : Ptr → Cells V → Type 0
  a ∉ [] = Unit {0}
  a ∉ ((p, v) ∷ xs) = (a ≢ p) × (a ∉ xs)

  -- The elements `xs` stand in the memory, at different addresses, and are linked both ways: the
  -- first has `before` for its `prev`, the last one has `stop` for its `next`.
  abbrev pub Chain : Memory V → Ptr → Cells V → Ptr → Type 0
  Chain m before [] stop = Unit {0}
  Chain m before ((p, v) ∷ xs) stop =
      (p ≢ null) × (m p ≡ some (elem_at before (first xs stop) v)) × (p ∉ xs) × Chain m p xs stop

  -- No address of `xs` is one of `ys`.
  abbrev pub Apart : Cells V → Cells V → Type 0
  Apart [] ys = Unit {0}
  Apart ((p, v) ∷ xs) ys = (p ∉ ys) × Apart xs ys

  pub Apart-one : (a : Ptr) (v : V) (xs : Cells V) → a ∉ xs → Apart xs ((a, v) ∷ [])
  Apart-one a v [] out = tt
  Apart-one a v ((p, w) ∷ xs) (ne, out) = ((λ e. ne (sym e), tt), Apart-one a v xs out)

  pub length-values : (xs : Cells V) → length (values xs) ≡ length xs
  length-values [] = refl
  length-values ((p, v) ∷ xs) = ap suc (length-values xs)

  pub write_self : (h : Heap V) (p : Ptr) (c : Option (Elem V)) → (write h p c).cell p ≡ c
  unfolding write
  write_self h p c = ground arith

  pub write_ne :
      (h : Heap V) (p a : Ptr) (c : Option (Elem V)) → a ≢ p → (write h p c).cell a ≡ h.cell a
  unfolding write
  write_ne h p a c ne = ground arith

  pub write-freed : (h : Heap V) (p : Ptr) (c : Option (Elem V)) → (write h p c).freed ≡ h.freed
  unfolding write
  write-freed h p c = refl

  pub load_lem :
      (h : Heap V) (p : Ptr) {e : Elem V} → p ≢ null → h.cell p ≡ some e → load h p ≡ some e
  unfolding load
  load_lem h p ne at = ground arith

  pub not-mem-append : (a : Ptr) (xs ys : Cells V) → a ∉ xs → a ∉ ys → a ∉ (xs ++ ys)
  not-mem-append a [] ys out out' = out'
  not-mem-append a ((p, v) ∷ xs) ys (ne, out) out' = (ne, not-mem-append a xs ys out out')

  pub not-mem-left : (a : Ptr) (xs ys : Cells V) → a ∉ (xs ++ ys) → a ∉ xs
  not-mem-left a [] ys out = tt
  not-mem-left a ((p, v) ∷ xs) ys (ne, out) = (ne, not-mem-left a xs ys out)

  pub not-mem-right : (a : Ptr) (xs ys : Cells V) → a ∉ (xs ++ ys) → a ∉ ys
  not-mem-right a [] ys out = out
  not-mem-right a ((p, v) ∷ xs) ys (ne, out) = not-mem-right a xs ys out

  pub first-append :
      (xs ys : Cells V) (stop : Ptr) → first (xs ++ ys) stop ≡ first xs (first ys stop)
  first-append [] ys stop = refl
  first-append ((p, v) ∷ xs) ys stop = refl

  pub last-append : (b : Ptr) (xs ys : Cells V) → last b (xs ++ ys) ≡ last (last b xs) ys
  last-append b [] ys = refl
  last-append b ((p, v) ∷ xs) ys = last-append p xs ys

  module _ (m : Memory V) where
    pub Chain-append :
        (b : Ptr) (xs ys : Cells V) (stop : Ptr)
        → Chain m b xs (first ys stop)
        → Chain m (last b xs) ys stop
        → Apart xs ys
        → Chain m b (xs ++ ys) stop
    Chain-append b [] ys stop here rest apart = rest
    Chain-append b ((p, v) ∷ xs) ys stop (ne, at, out, here) rest (out', apart) = (
      ne,
      rw (first-append xs ys stop) at,
      not-mem-append p xs ys out out',
      Chain-append p xs ys stop here rest apart,
    )

    pub Chain-left :
        (b : Ptr) (xs ys : Cells V) (stop : Ptr)
        → Chain m b (xs ++ ys) stop
        → Chain m b xs (first ys stop)
    Chain-left b [] ys stop chain = tt
    Chain-left b ((p, v) ∷ xs) ys stop (ne, at, out, chain) = (
      ne,
      rw (← first-append xs ys stop) at,
      not-mem-left p xs ys out,
      Chain-left p xs ys stop chain,
    )

    pub Chain-right :
        (b : Ptr) (xs ys : Cells V) (stop : Ptr)
        → Chain m b (xs ++ ys) stop
        → Chain m (last b xs) ys stop
    Chain-right b [] ys stop chain = chain
    Chain-right b ((p, v) ∷ xs) ys stop (ne, at, out, chain) = Chain-right p xs ys stop chain

    pub Chain-Apart :
        (b : Ptr) (xs ys : Cells V) (stop : Ptr) → Chain m b (xs ++ ys) stop → Apart xs ys
    Chain-Apart b [] ys stop chain = tt
    Chain-Apart b ((p, v) ∷ xs) ys stop (ne, at, out, chain) =
        (not-mem-right p xs ys out, Chain-Apart p xs ys stop chain)

    -- A memory that is the same at the elements holds the chain too.
    pub Chain-frame :
        (m' : Memory V) (b : Ptr) (xs : Cells V) (stop a : Ptr)
        → ((p : Ptr) → p ≢ a → m' p ≡ m p)
        → a ∉ xs
        → Chain m b xs stop
        → Chain m' b xs stop
    Chain-frame m' b [] stop a same out chain = tt
    Chain-frame m' b ((p, v) ∷ xs) stop a same (out, outs) (ne, at, distinct, chain) =
        (ne, same p (λ e. out (sym e)) ∙ at, distinct, Chain-frame m' p xs stop a same outs chain)

  -- The element at an index, with what is in front of it and behind it.
  pub record Split (xs : Cells V) (idx : ℕ) : Type 0 where
    pub front : Cells V
    pub addr : Ptr
    pub value : V
    pub back : Cells V
    pub cells : xs ≡ front ++ ((addr, value) ∷ back)
    pub place : length front ≡ idx

  pub Split-at : (xs : Cells V) (idx : ℕ) → idx < length xs → Split xs idx
  Split-at [] idx small = elim small [ ]
  Split-at ((p, v) ∷ xs) zero small = record {
    front = [];
    addr = p;
    value = v;
    back = xs;
    cells = refl;
    place = refl;
  }
  Split-at ((p, v) ∷ xs) (suc idx) small =
      let rest = Split-at xs idx (omega arith) in
      record {
        front = (p, v) ∷ rest.front;
        addr = rest.addr;
        value = rest.value;
        back = rest.back;
        cells = ap (λ t. (p, v) ∷ t) rest.cells;
        place = ap suc rest.place;
      }

  pub get_elem?-values :
      (xs : Cells V) (p : Ptr) (v : V) (ys : Cells V)
      → get_elem? (values (xs ++ ((p, v) ∷ ys))) (length xs) ≡ some v
  get_elem?-values [] p v ys = refl
  get_elem?-values ((q, w) ∷ xs) p v ys = get_elem?-values xs p v ys
