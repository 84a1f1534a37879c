-- ===== src/LinkedList/Add.antt =====
-- What `list_add` does.
use c_client.Prelude.{
  true, false, ℕ, ◌+◌, ◌<◌, ◌≡◌, refl, ◌≢◌, sym, ap, ◌∙◌, some, [], ◌∷◌, ◌++◌, arith, ◌==◌, length,
  length-append, Returns, returns,
}
use c_client.LinkedList.{
  Ptr, null, elem_at, Heap, Handle, write, list_elem_new, add_first, add_last, list_add, uint32,
}
use c_client.LinkedList.Chain.{
  Cells, last, ◌∉◌, Chain-append, write_self, write_ne, Apart-one, last-append,
}
use c_client.LinkedList.Links.{IsList, Chain-Tail, set_next_lem, set_prev_lem, last_ne}

module _ {V : Type 0} (h : Heap V) (self : Handle) (xs : Cells V) (fresh : Ptr) (v : V) where
  -- The list has the value behind the others, at the fresh address, and the rest of the heap is as
  -- before.
  pub record Added (result : ℕ × (Handle × Heap V)) : Type 0 where
    pub code : result.0 ≡ 0
    pub is_list : IsList result.1.1 result.1.0 (xs ++ ((fresh, v) ∷ []))
    pub has_free : result.1.0.has_free ≡ self.has_free
    pub freed : result.1.1.freed ≡ h.freed
    pub elsewhere : (a : Ptr) → a ≢ fresh → a ∉ xs → result.1.1.cell a ≡ h.cell a

module _ {V : Type 0} (h : Heap V) (self : Handle) (fresh : Ptr) (v : V) (ne : fresh ≢ null) where
  -- A write at the fresh address.
  put : Ptr → Heap V → Heap V
  put prev g = write g fresh (some (elem_at prev null v))

  new_elem : list_elem_new fresh v h ≡ (fresh, put null h)
  unfolding list_elem_new put
  new_elem = ground arith

  put-cell : (prev : Ptr) (g : Heap V) → (put prev g).cell fresh ≡ some (elem_at prev null v)
  unfolding put
  put-cell prev g = write_self g fresh _

  put_ne : (prev a : Ptr) (g : Heap V) → a ≢ fresh → (put prev g).cell a ≡ g.cell a
  unfolding put
  put_ne prev a g other = write_ne g fresh a _ other

  add_first_lem :
      add_first fresh v self h
      ≡ some (
        0,
        (
          record self { head = fresh; tail = fresh; len = uint32 (self.len + 1) },
          put null (put null (put null h)),
        ),
      )
  unfolding add_first write put
  add_first_lem = rw (
    new_elem,
    set_next_lem (put null h) fresh _ ne (put-cell null h) null,
    set_prev_lem (put null (put null h)) fresh _ ne (put-cell null (put null h)) null,
  )

  module _ (pr : Ptr) (w : V) (tail_ne : self.tail ≢ null) (other : self.tail ≢ fresh)
      (at : h.cell self.tail ≡ some (elem_at pr null w)) where
    placed : Heap V
    placed = put self.tail (put self.tail (put null h))

    linked : Heap V
    unfolding placed
    linked = write placed self.tail (some (elem_at pr fresh w))

    placed-cell : placed.cell self.tail ≡ some (elem_at pr null w)
    unfolding placed
    placed-cell =
        put_ne self.tail self.tail _ other
        ∙ put_ne self.tail self.tail _ other
        ∙ put_ne null self.tail h other
        ∙ at

    add_last_lem :
        add_last fresh v self h
        ≡ some (0, (record self { tail = fresh; len = uint32 (self.len + 1) }, linked))
    unfolding add_last linked write put
    add_last_lem = rw (
      new_elem,
      set_prev_lem (put null h) fresh _ ne (put-cell null h) self.tail,
      set_next_lem (put self.tail (put null h)) fresh _ ne (put-cell self.tail (put null h)) null,
      set_next_lem placed self.tail _ tail_ne placed-cell fresh,
    )

    linked_self : linked.cell self.tail ≡ some (elem_at pr fresh w)
    unfolding linked
    linked_self = write_self placed self.tail _

    linked_ne : (a : Ptr) → a ≢ self.tail → linked.cell a ≡ placed.cell a
    unfolding linked
    linked_ne a other' = write_ne placed self.tail a _ other'

    placed_ne : (a : Ptr) → a ≢ fresh → placed.cell a ≡ h.cell a
    unfolding placed
    placed_ne a other' =
        put_ne self.tail a _ other' ∙ put_ne self.tail a _ other' ∙ put_ne null a h other'

    linked_fresh : linked.cell fresh ≡ some (elem_at self.tail null v)
    unfolding placed
    linked_fresh = linked_ne fresh (λ e. other (sym e)) ∙ put-cell self.tail _

    linked-freed : linked.freed ≡ h.freed
    unfolding linked placed put write
    linked-freed = refl

module _ {V : Type 0} (h : Heap V) (self : Handle) (fresh : Ptr) (v : V) where
  len_added : (n : ℕ) → self.len ≡ n → n + 1 < 4294967296 → uint32 (self.len + 1) ≡ n + 1
  len_added n e small = omega arith

  put-freed :
      (ne : fresh ≢ null) (a b : Ptr) (g : Heap V)
      → (put h self fresh v ne a (put h self fresh v ne b (put h self fresh v ne null g))).freed
        ≡ g.freed
  unfolding put write
  put-freed ne a b g = refl

  add_first-Added :
      IsList h self [] → fresh ≢ null → Returns (Added h self [] fresh v) (add_first fresh v self h)
  add_first-Added is ne = rw (add_first_lem h self fresh v ne) (
      returns (record {
        code = refl;
        is_list = record {
          head = refl;
          tail = refl;
          len = len_added 0 is.len (omega arith);
          len_fits = omega arith;
          chain = (ne, put-cell h self fresh v ne null _, tt, tt);
        };
        has_free = refl;
        freed = put-freed ne null null h;
        elsewhere = λ a other out.
            put_ne h self fresh v ne null a _ other
            ∙ put_ne h self fresh v ne null a _ other
            ∙ put_ne h self fresh v ne null a h other;
      }))

  add_last-Added :
      (p : Ptr) (w : V) (xs : Cells V)
      → IsList h self ((p, w) ∷ xs)
      → fresh ≢ null
      → fresh ∉ ((p, w) ∷ xs)
      → length ((p, w) ∷ xs) + 1 < 4294967296
      → Returns (Added h self ((p, w) ∷ xs) fresh v) (add_last fresh v self h)
  add_last-Added p w xs is ne out small =
      let end = Chain-Tail h.cell null p w xs null is.chain in
      let tail_ne : self.tail ≢ null = λ e. end.ne_null (sym is.tail ∙ e) in
      let other : self.tail ≢ fresh = λ e. last_ne fresh p w xs out (sym e ∙ is.tail) in
      let at : h.cell self.tail ≡ some (elem_at end.before null end.value) = rw is.tail end.at in
      let after = linked h self fresh v ne end.before end.value tail_ne other at in
      let same = λ (a : Ptr) (not_tail : a ≢ last p xs) (not_fresh : a ≢ fresh).
        linked_ne h self fresh v ne end.before end.value tail_ne other at a
          (λ e. not_tail (e ∙ is.tail))
        ∙ placed_ne h self fresh v ne end.before end.value tail_ne other at a not_fresh in
      let here =
        end.relinked after.cell fresh fresh out
          (ap after.cell (sym is.tail)
            ∙ linked_self h self fresh v ne end.before end.value tail_ne other at)
          same in
      rw (add_last_lem h self fresh v ne end.before end.value tail_ne other at) (
        returns (record {
          code = refl;
          is_list = record {
            head = is.head;
            tail = sym (last-append null ((p, w) ∷ xs) ((fresh, v) ∷ []));
            len =
                len_added (length ((p, w) ∷ xs)) is.len small
                ∙ sym (length-append ((p, w) ∷ xs) ((fresh, v) ∷ []));
            len_fits = omega (arith, length-append ((p, w) ∷ xs) ((fresh, v) ∷ []));
            chain =
                Chain-append after.cell null ((p, w) ∷ xs) ((fresh, v) ∷ []) null here
                  (
                    ne,
                    rw (← is.tail)
                        (linked_fresh h self fresh v ne end.before end.value tail_ne other at),
                    tt,
                    tt,
                  )
                  (Apart-one fresh v ((p, w) ∷ xs) out);
          };
          has_free = refl;
          freed = linked-freed h self fresh v ne end.before end.value tail_ne other at;
          elsewhere = λ a not_fresh not_in. same a (last_ne a p w xs not_in) not_fresh;
        }))

  -- On a well-formed list of fewer than 2^32 - 1 elements, with memory at an address that is not NULL
  -- and that no element has, `list_add` of a value does not fault, returns EC_LIST_OK, leaves the
  -- well-formed list with the value at its end, and changes nothing elsewhere.
  pub list_add-Added :
      (xs : Cells V)
      → IsList h self xs
      → fresh ≢ null
      → fresh ∉ xs
      → length xs + 1 < 4294967296
      → Returns (Added h self xs fresh v) (list_add fresh (some v) self h)
  unfolding list_add
  list_add-Added [] is ne out small =
      let empty : (self.len == 0) ≡ true = ground (arith, is.len) in
      rw empty (add_first-Added is ne)
  list_add-Added ((p, w) ∷ xs) is ne out small =
      let some_elems : (self.len == 0) ≡ false = ground (arith, is.len) in
      rw some_elems (add_last-Added p w xs is ne out small)
