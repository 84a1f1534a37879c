-- ===== src/LinkedList/Delete.antt =====
-- What `list_delete` does.
use c_client.Prelude.{
  ◌≡◌, refl, ◌≢◌, sym, ap, ◌∙◌, none, List, [], ◌∷◌, ◌++◌, append-nil, append_assoc, if◌then◌else◌,
  length, Returns, returns, Returns-mono, Bool-cases, inl, inr,
}
use c_client.LinkedList.{Ptr, null, Heap, Handle, write, free_value, delete_loop, list_delete}
use c_client.LinkedList.Chain.{
  Cells, first, ◌∉◌, Chain, Chain-frame, values, write_self, write_ne, write-freed, load_lem,
}
use c_client.LinkedList.Links.{IsList, free_lem, free_value-cell, free_value-freed}

-- No element of `xs` is there any more.
abbrev pub Gone : {V : Type 0} → Heap V → Cells V → Type 0
Gone h [] = Unit {0}
Gone h ((p, v) ∷ xs) = (h.cell p ≡ none) × Gone h xs

module _ {V : Type 0} (self : Handle) (h : Heap V) (xs : Cells V) where
  -- All elements are freed, and no other memory. `v_free`, if there is one, was called on their
  -- values in the order of the list.
  pub record Deleted (h' : Heap V) : Type 0 where
    pub gone : Gone h' xs
    pub freed : h'.freed ≡ h.freed ++ (if self.has_free then values xs else [])
    pub elsewhere : (a : Ptr) → a ∉ xs → h'.cell a ≡ h.cell a

module _ {V : Type 0} (self : Handle) where
  dropped : Heap V → Ptr → V → Heap V
  dropped h p v = write (free_value self v h) p none

  dropped_ne : (h : Heap V) (p a : Ptr) (v : V) → a ≢ p → (dropped h p v).cell a ≡ h.cell a
  unfolding dropped
  dropped_ne h p a v other =
      write_ne (free_value self v h) p a none other ∙ ap (λ m. m a) (free_value-cell self v h)

  values-freed :
      (old : List V) (v : V) (vs : List V)
      → (old ++ (if self.has_free then v ∷ [] else [])) ++ (if self.has_free then vs else [])
        ≡ old ++ (if self.has_free then v ∷ vs else [])
  values-freed old v vs = elim (Bool-cases self.has_free) [
    | inl frees ↦ rw (frees, append_assoc)
    | inr keeps ↦ rw (keeps, append-nil, append-nil)
  ]

  nothing-freed : (old : List V) → old ++ (if self.has_free then [] else []) ≡ old
  nothing-freed old = elim (Bool-cases self.has_free) [
    | inl frees ↦ rw (frees, append-nil)
    | inr keeps ↦ rw (keeps, append-nil)
  ]

  Deleted-cons :
      (h : Heap V) (p : Ptr) (v : V) (xs : Cells V)
      → p ∉ xs
      → (h' : Heap V) → Deleted self (dropped h p v) xs h'
      → Deleted self h ((p, v) ∷ xs) h'
  unfolding dropped
  Deleted-cons h p v xs out h' d = record {
    gone = (d.elsewhere p out ∙ write_self (free_value self v h) p none, d.gone);
    freed =
        d.freed
        ∙ ap (λ t. t ++ (if self.has_free then values xs else []))
            (write-freed (free_value self v h) p none ∙ free_value-freed self v h)
        ∙ values-freed h.freed v (values xs);
    elsewhere = λ a (ne, outs). d.elsewhere a outs ∙ dropped_ne h p a v ne;
  }

  delete_loop-Deleted :
      (h : Heap V) (b : Ptr) (xs : Cells V) (stop : Ptr)
      → Chain h.cell b xs stop
      → Returns (Deleted self h xs) (delete_loop (length xs) self (first xs stop) h)
  unfolding delete_loop dropped
  delete_loop-Deleted h b [] stop chain =
      returns (record { gone = tt; freed = sym (nothing-freed h.freed); elsewhere = λ a out. refl })
  delete_loop-Deleted h b ((p, v) ∷ xs) stop (ne, at, out, chain) =
      let at' = ap (λ m. m p) (free_value-cell self v h) ∙ at in
      let rest =
        Chain-frame h.cell (dropped h p v).cell p xs stop p (λ a other. dropped_ne h p a v other)
          out chain in
      rw (load_lem h p ne at, free_lem (free_value self v h) p _ ne at')
        (Returns-mono (delete_loop-Deleted (dropped h p v) p xs stop rest)
          (Deleted-cons h p v xs out))

  -- On a well-formed list `list_delete` ends without a fault, frees every element and nothing else,
  -- and hands the values from the first to the last to `v_free` when the list has one.
  pub list_delete-Deleted :
      (h : Heap V) (xs : Cells V)
      → IsList h self xs
      → Returns (Deleted self h xs) (list_delete self h)
  unfolding list_delete
  list_delete-Deleted h xs is = simp (is.len, is.head) (delete_loop-Deleted h null xs null is.chain)
