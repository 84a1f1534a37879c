-- ===== src/LinkedList/Links.antt =====
-- Writes to the fields of an element, and the chains that they leave.
use c_client.Prelude.{
  Bool-cases, inl, inr, append-nil, ◌<◌, ◌≡◌, ◌≢◌, sym, ◌∙◌, none, some, [], ◌∷◌, ◌++◌, arith,
  if◌then◌else◌, length,
}
use c_client.LinkedList.{
  Ptr, null, Elem, elem_at, Heap, Handle, write, set_next, set_prev, free, free_value,
}
use c_client.LinkedList.Chain.{Cells, Memory, first, last, ◌∉◌, Chain, Chain-frame, load_lem}

module _ {V : Type 0} (h : Heap V) (p : Ptr) (e : Elem V) (ne : p ≢ null)
    (at : h.cell p ≡ some e) where
  pub set_next_lem : (q : Ptr) → set_next p q h ≡ some (write h p (some (elem_at e.prev q e.value)))
  unfolding set_next
  set_next_lem q = rw (load_lem h p ne at)

  pub set_prev_lem : (q : Ptr) → set_prev p q h ≡ some (write h p (some (elem_at q e.next e.value)))
  unfolding set_prev
  set_prev_lem q = rw (load_lem h p ne at)

  pub free_lem : free p h ≡ some (write h p none)
  unfolding free
  free_lem = rw (load_lem h p ne at)

pub free_value-cell :
    {V : Type 0} (self : Handle) (v : V) (h : Heap V) → (free_value self v h).cell ≡ h.cell
unfolding free_value
free_value-cell self v h = ground arith

pub free_value-freed :
    {V : Type 0} (self : Handle) (v : V) (h : Heap V)
    → (free_value self v h).freed ≡ h.freed ++ (if self.has_free then v ∷ [] else [])
unfolding free_value
free_value-freed self v h = elim (Bool-cases self.has_free) [
  | inl yes_free ↦ rw yes_free
  | inr no_free ↦ rw (no_free, append-nil)
]

module _ {V : Type 0} where
  pub last_ne : (a p : Ptr) (v : V) (xs : Cells V) → a ∉ ((p, v) ∷ xs) → a ≢ last p xs
  last_ne a p v [] (ne, out) = ne
  last_ne a p v ((q, w) ∷ xs) (ne, out) = last_ne a q w xs out

  -- The last element of a chain, and the chain with another `next` there, in a memory that is the
  -- same elsewhere, but for an address `x` outside of the chain.
  pub record Tail (m : Memory V) (b p : Ptr) (v : V) (xs : Cells V) (stop : Ptr) : Type 0 where
    pub before : Ptr
    pub value : V
    pub at : m (last p xs) ≡ some (elem_at before stop value)
    pub ne_null : last p xs ≢ null
    pub relinked :
        (m' : Memory V) (q x : Ptr)
        → x ∉ ((p, v) ∷ xs)
        → m' (last p xs) ≡ some (elem_at before q value)
        → ((a : Ptr) → a ≢ last p xs → a ≢ x → m' a ≡ m a)
        → Chain m' b ((p, v) ∷ xs) q

  pub Chain-Tail :
      (m : Memory V) (b p : Ptr) (v : V) (xs : Cells V) (stop : Ptr)
      → Chain m b ((p, v) ∷ xs) stop
      → Tail m b p v xs stop
  Chain-Tail m b p v [] stop (ne, at, out, rest) = record {
    before = b;
    value = v;
    at = at;
    ne_null = ne;
    relinked = λ m' q x out' at' same. (ne, at', tt, tt);
  }
  Chain-Tail m b p v ((r, w) ∷ xs) stop (ne, at, out, rest) =
      let tail = Chain-Tail m p r w xs stop rest in
      record {
        before = tail.before;
        value = tail.value;
        at = tail.at;
        ne_null = tail.ne_null;
        relinked = λ m' q x out' at' same. (
          ne,
          same p (last_ne p r w xs out) (λ e. out'.0 (sym e)) ∙ at,
          out,
          tail.relinked m' q x out'.1 at' same,
        );
      }

  -- Another `prev` at the first element.
  pub Chain-relink_first :
      (m m' : Memory V) (b b' p : Ptr) (v : V) (xs : Cells V) (stop : Ptr)
      → Chain m b ((p, v) ∷ xs) stop
      → m' p ≡ some (elem_at b' (first xs stop) v)
      → ((a : Ptr) → a ≢ p → m' a ≡ m a)
      → Chain m' b' ((p, v) ∷ xs) stop
  Chain-relink_first m m' b b' p v xs stop (ne, at, out, rest) at' same =
      (ne, at', out, Chain-frame m m' p xs stop p same out rest)

-- The list that a handle stands for.
pub record IsList {V : Type 0} (h : Heap V) (self : Handle) (xs : Cells V) : Type 0 where
  pub head : self.head ≡ first xs null
  pub tail : self.tail ≡ last null xs
  pub len : self.len ≡ length xs
  pub len_fits : length xs < 4294967296
  pub chain : Chain h.cell null xs null
