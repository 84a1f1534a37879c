-- ===== src/LinkedList/Remove.antt =====
-- What `list_remove` does.
use c_client.Prelude.{
  ℕ, ◌+◌, ◌-◌, ◌≤◌, ◌≡◌, refl, ◌≢◌, sym, ap, ◌∙◌, none, some, [], ◌∷◌, ◌++◌, arith, if◌then◌else◌,
  length, length-append, ◌>>=◌, Returns, returns, Returns-bind,
}
use c_client.Prelude.Int.{pos}
use c_client.LinkedList.{
  Ptr, null, elem_at, Heap, Handle, write, load, free, free_value, unlink_prev, list_remove_elem,
  list_remove, uint32,
}
use c_client.LinkedList.Chain.{
  Cells, first, last, ◌∉◌, Chain, Chain-frame, Chain-append, write_self, write_ne, write-freed,
  load_lem,
}
use c_client.LinkedList.Links.{IsList, free_lem, free_value-cell, free_value-freed}
use c_client.LinkedList.Walk.{list_get_elem-append, list_get_elem-beyond}
use c_client.LinkedList.Unlink.{
  Between, Chain-Between, unlink_prev-Skipped, unlink_next-Closed, last_apart, first_apart,
}

module _ {V : Type 0} (h : Heap V) (self : Handle) (front : Cells V) (p : Ptr) (v : V)
    (back : Cells V) where
  -- The list is without the element, whose memory is free, and whose value was handed to `v_free`,
  -- if there is one. The rest of the heap is as before.
  pub record Removed (result : ℕ × (Handle × Heap V)) : Type 0 where
    pub code : result.0 ≡ 0
    pub is_list : IsList result.1.1 result.1.0 (front ++ back)
    pub has_free : result.1.0.has_free ≡ self.has_free
    pub gone : result.1.1.cell p ≡ none
    pub freed : result.1.1.freed ≡ h.freed ++ (if self.has_free then v ∷ [] else [])
    pub elsewhere :
        (a : Ptr) → a ≢ p → a ∉ front → a ∉ back → a ≢ null → result.1.1.cell a ≡ h.cell a

  -- After the element is unlinked.
  record Unlinked (l : Handle) (g : Heap V) : Type 0 where
    head : l.head ≡ first (front ++ back) null
    tail : l.tail ≡ last null (front ++ back)
    len : l.len ≡ self.len
    has_free : l.has_free ≡ self.has_free
    freed : g.freed ≡ h.freed
    left : Chain g.cell null front (first back null)
    right : Chain g.cell (last null front) back null
    at : g.cell p ≡ some (elem_at (last null front) (first back null) v)
    same : (a : Ptr) → a ≢ last null front → a ≢ first back null → g.cell a ≡ h.cell a

  module _ (is : IsList h self (front ++ ((p, v) ∷ back))) (b : Between h.cell front p v back)
      (l : Handle) (g : Heap V) (u : Unlinked l g) where
    released : Heap V
    released = write (free_value self v g) p none

    released_ne : (a : Ptr) → a ≢ p → released.cell a ≡ g.cell a
    unfolding released
    released_ne a other =
        write_ne (free_value self v g) p a none other ∙ ap (λ m. m a) (free_value-cell self v g)

    len_removed : uint32 (l.len + 4294967296 - 1) ≡ length (front ++ back)
    len_removed = omega (
      arith,
      u.len,
      is.len,
      is.len_fits,
      length-append front ((p, v) ∷ back),
      length-append front back,
    )

    released-Removed : Removed (0, (record l { len = uint32 (l.len + 4294967296 - 1) }, released))
    unfolding released
    released-Removed = record {
      code = refl;
      is_list = record {
        head = u.head;
        tail = u.tail;
        len = len_removed;
        len_fits =
            omega
              (arith, is.len_fits, length-append front ((p, v) ∷ back), length-append front back);
        chain =
            Chain-append _ null front back null
              (Chain-frame g.cell _ null front (first back null) p released_ne b.out_front u.left)
              (Chain-frame g.cell _ (last null front) back null p released_ne b.out_back u.right)
              b.apart;
      };
      has_free = u.has_free;
      gone = write_self (free_value self v g) p none;
      freed =
          write-freed (free_value self v g) p none
          ∙ free_value-freed self v g
          ∙ ap (λ t. t ++ (if self.has_free then v ∷ [] else [])) u.freed;
      elsewhere = λ a other out out' real.
          released_ne a other
          ∙ u.same a (λ e. last_apart a null front (λ z. real (sym z)) out (sym e))
              (λ e. first_apart a null back (λ z. real (sym z)) out' (sym e));
    }

    finish : Returns Removed (
        load g p >>= λ e. free p (free_value self e.value g) >>= λ h3.
        some (0, (record l { len = uint32 (l.len + 4294967296 - 1) }, h3)))
    unfolding released
    finish =
        let at : (free_value self v g).cell p
            ≡ some (elem_at (last null front) (first back null) v) =
          ap (λ m. m p) (free_value-cell self v g) ∙ u.at in
        rw (load_lem g p b.ne_null u.at, free_lem (free_value self v g) p _ b.ne_null at)
          (returns released-Removed)

  list_remove_elem-Removed :
      IsList h self (front ++ ((p, v) ∷ back)) → Returns Removed (list_remove_elem self p h)
  unfolding list_remove_elem
  list_remove_elem-Removed is =
      let b = Chain-Between h.cell front p v back is.chain in
      Returns-bind (unlink_prev-Skipped h self front p v back is.head b) λ (l1, h1) s.
        let still : h1.cell p ≡ some (elem_at (last null front) (first back null) v) =
          s.same p (λ e. b.last_ne (sym e)) ∙ b.at in
        let right =
          Chain-frame h.cell h1.cell p back null (last null front) s.same b.last_out b.right in
        Returns-bind
          (unlink_next-Closed h1 l1 front p v back (s.tail ∙ is.tail) b.ne_null still right)
          λ (l2, h2) c. finish is b l2 h2 (record {
            head = c.head ∙ s.head;
            tail = c.tail;
            len = c.len ∙ s.len;
            has_free = c.has_free ∙ s.has_free;
            freed = c.freed ∙ s.freed;
            left =
                Chain-frame h1.cell h2.cell null front (first back null) (first back null) c.same
                  b.first_out s.chain;
            right = c.chain;
            at = c.same p (λ e. b.first_ne (sym e)) ∙ still;
            same = λ a other other'. c.same a other' ∙ s.same a other;
          })

  -- On a well-formed list and the index of an element `list_remove` does not fault, returns
  -- EC_LIST_OK, leaves the well-formed list of the others, frees the element, hands its value to
  -- `v_free` when the list has one, and changes nothing elsewhere.
  pub list_remove-Removed :
      IsList h self (front ++ ((p, v) ∷ back))
      → Returns Removed (list_remove self (pos (length front)) h)
  unfolding list_remove
  list_remove-Removed is =
      rw (list_get_elem-append h self front p v back is) (list_remove_elem-Removed is)

-- On a well-formed list and an index behind its end `list_remove` reads through NULL.
pub list_remove-fault :
    {V : Type 0} (h : Heap V) (self : Handle) (xs : Cells V) (idx : ℕ)
    → IsList h self xs
    → length xs ≤ idx
    → list_remove self (pos idx) h ≡ none
unfolding list_remove unlink_prev load
list_remove-fault h self xs idx is beyond = rw (list_get_elem-beyond h self xs idx is beyond)
