-- ===== src/LinkedList/Unlink.antt =====
-- The two halves of `list_remove_elem` that unlink an element.
use c_client.Prelude.{
  ◌≡◌, refl, ◌≢◌, sym, ◌∙◌, false, some, [], ◌∷◌, ◌++◌, arith, ◌==◌, Returns, returns,
}
use c_client.LinkedList.{Ptr, null, elem_at, Heap, Handle, write, unlink_prev, unlink_next}
use c_client.LinkedList.Chain.{
  Cells, Memory, first, last, ◌∉◌, Chain, Chain-left, Chain-right, Chain-Apart, write_self,
  write_ne, write-freed, load_lem, Apart, last-append,
}
use c_client.LinkedList.Links.{Chain-Tail, Chain-relink_first, set_next_lem, set_prev_lem}

module _ {V : Type 0} where
  Chain-null : (m : Memory V) (b : Ptr) (xs : Cells V) (stop : Ptr) → Chain m b xs stop → null ∉ xs
  Chain-null m b [] stop chain = tt
  Chain-null m b ((p, v) ∷ xs) stop (ne, at, out, chain) =
      (λ e. ne (sym e), Chain-null m p xs stop chain)

  Apart-last : (a : Ptr) (xs ys : Cells V) → a ∉ ys → Apart xs ys → last a xs ∉ ys
  Apart-last a [] ys out apart = out
  Apart-last a ((p, v) ∷ xs) ys out (out', apart) = Apart-last p xs ys out' apart

  Apart-first : (a : Ptr) (xs ys : Cells V) → a ∉ xs → Apart xs ys → first ys a ∉ xs
  Apart-first a [] ys out apart = tt
  Apart-first a ((p, v) ∷ xs) [] (ne, out) (out', apart) = (ne, Apart-first a xs [] out apart)
  Apart-first a ((p, v) ∷ xs) ((q, w) ∷ ys) (ne, out) ((ne', out'), apart) =
      (λ e. ne' (sym e), Apart-first a xs ((q, w) ∷ ys) out apart)

  Apart-cons :
      (xs : Cells V) (p : Ptr) (v : V) (ys : Cells V)
      → Apart xs ((p, v) ∷ ys)
      → (p ∉ xs) × Apart xs ys
  Apart-cons [] p v ys apart = (tt, tt)
  Apart-cons ((q, w) ∷ xs) p v ys ((ne, out), apart) =
      let (out', rest) = Apart-cons xs p v ys apart in ((λ e. ne (sym e), out'), (out, rest))

  pub last_apart : (p b : Ptr) (xs : Cells V) → b ≢ p → p ∉ xs → last b xs ≢ p
  last_apart p b [] ne out = ne
  last_apart p b ((q, w) ∷ xs) ne (ne', out) = last_apart p q xs (λ e. ne' (sym e)) out

  pub first_apart : (p b : Ptr) (xs : Cells V) → b ≢ p → p ∉ xs → first xs b ≢ p
  first_apart p b [] ne out = ne
  first_apart p b ((q, w) ∷ xs) ne (ne', out) = λ e. ne' (sym e)

  -- An element of a chain, between those in front of it and those behind it.
  pub record Between (m : Memory V) (front : Cells V) (p : Ptr) (v : V) (back : Cells V)
      : Type 0 where
    pub left : Chain m null front p
    pub ne_null : p ≢ null
    pub at : m p ≡ some (elem_at (last null front) (first back null) v)
    pub right : Chain m p back null
    pub out_front : p ∉ front
    pub out_back : p ∉ back
    pub apart : Apart front back
    pub last_out : last null front ∉ back
    pub first_out : first back null ∉ front
    pub last_ne : last null front ≢ p
    pub first_ne : first back null ≢ p

  pub Chain-Between :
      (m : Memory V) (front : Cells V) (p : Ptr) (v : V) (back : Cells V)
      → Chain m null (front ++ ((p, v) ∷ back)) null
      → Between m front p v back
  Chain-Between m front p v back chain =
      let left = Chain-left m null front ((p, v) ∷ back) null chain in
      let (ne, at, out, right) = Chain-right m null front ((p, v) ∷ back) null chain in
      let (out', apart) =
        Apart-cons front p v back (Chain-Apart m null front ((p, v) ∷ back) null chain) in
      record {
        left = left;
        ne_null = ne;
        at = at;
        right = right;
        out_front = out';
        out_back = out;
        apart = apart;
        last_out = Apart-last null front back (Chain-null m p back null right) apart;
        first_out = Apart-first null front back (Chain-null m null front p left) apart;
        last_ne = last_apart p null front (λ e. ne (sym e)) out';
        first_ne = first_apart p null back (λ e. ne (sym e)) out;
      }

module _ {V : Type 0} (h : Heap V) (self : Handle) (front : Cells V) (p : Ptr) (v : V)
    (back : Cells V) where
  -- The elements in front lead past the one at `p`.
  pub record Skipped (result : Handle × Heap V) : Type 0 where
    pub head : result.0.head ≡ first (front ++ back) null
    pub tail : result.0.tail ≡ self.tail
    pub len : result.0.len ≡ self.len
    pub has_free : result.0.has_free ≡ self.has_free
    pub freed : result.1.freed ≡ h.freed
    pub chain : Chain result.1.cell null front (first back null)
    pub same : (a : Ptr) → a ≢ last null front → result.1.cell a ≡ h.cell a

pub unlink_prev-Skipped :
    {V : Type 0} (h : Heap V) (self : Handle) (front : Cells V) (p : Ptr) (v : V) (back : Cells V)
    → self.head ≡ first (front ++ ((p, v) ∷ back)) null
    → Between h.cell front p v back
    → Returns (Skipped h self front p v back) (unlink_prev p self h)
unfolding unlink_prev
unlink_prev-Skipped h self [] p v back head b = rw (load_lem h p b.ne_null b.at) (
    returns (record {
      head = refl;
      tail = refl;
      len = refl;
      has_free = refl;
      freed = refl;
      chain = tt;
      same = λ a other. refl;
    }))
unlink_prev-Skipped h self ((q, w) ∷ front) p v back head b =
    let end = Chain-Tail h.cell null q w front p b.left in
    let not_null : (last q front == null) ≡ false = ground (arith, end.ne_null) in
    let e = elem_at end.before p end.value in
    rw
      (
        load_lem h p b.ne_null b.at,
        not_null,
        set_next_lem h (last q front) e end.ne_null end.at (first back null),
      )
      (returns (record {
        head = head;
        tail = refl;
        len = refl;
        has_free = refl;
        freed = write-freed h (last q front) _;
        chain =
            end.relinked
              (write h (last q front) (some (elem_at end.before (first back null) end.value))).cell
              (first back null) p b.out_front (write_self h (last q front) _)
              (λ a other out. write_ne h (last q front) a _ other);
        same = λ a other. write_ne h (last q front) a _ other;
      }))

module _ {V : Type 0} (h : Heap V) (self : Handle) (front : Cells V) (p : Ptr) (v : V)
    (back : Cells V) where
  -- The elements behind lead back past the one at `p`.
  pub record Closed (result : Handle × Heap V) : Type 0 where
    pub head : result.0.head ≡ self.head
    pub tail : result.0.tail ≡ last null (front ++ back)
    pub len : result.0.len ≡ self.len
    pub has_free : result.0.has_free ≡ self.has_free
    pub freed : result.1.freed ≡ h.freed
    pub chain : Chain result.1.cell (last null front) back null
    pub same : (a : Ptr) → a ≢ first back null → result.1.cell a ≡ h.cell a

pub unlink_next-Closed :
    {V : Type 0} (h : Heap V) (self : Handle) (front : Cells V) (p : Ptr) (v : V) (back : Cells V)
    → self.tail ≡ last null (front ++ ((p, v) ∷ back))
    → p ≢ null
    → h.cell p ≡ some (elem_at (last null front) (first back null) v)
    → Chain h.cell p back null
    → Returns (Closed h self front p v back) (unlink_next p self h)
unfolding unlink_next
unlink_next-Closed h self front p v [] tail ne at chain = rw (load_lem h p ne at) (
    returns (record {
      head = refl;
      tail = sym (last-append null front []);
      len = refl;
      has_free = refl;
      freed = refl;
      chain = tt;
      same = λ a other. refl;
    }))
unlink_next-Closed h self front p v ((q, w) ∷ back) tail ne at chain =
    let not_null : (q == null) ≡ false = ground (arith, chain.0) in
    rw (load_lem h p ne at, not_null, set_prev_lem h q _ chain.0 chain.1 (last null front))
      (returns (record {
        head = refl;
        tail =
            tail
            ∙ last-append null front ((p, v) ∷ (q, w) ∷ back)
            ∙ sym (last-append null front ((q, w) ∷ back));
        len = refl;
        has_free = refl;
        freed = write-freed h q _;
        chain =
            Chain-relink_first h.cell
              (write h q (some (elem_at (last null front) (first back null) w))).cell p
              (last null front) q w back null chain (write_self h q _)
              (λ a other. write_ne h q a _ other);
        same = λ a other. write_ne h q a _ other;
      }))
