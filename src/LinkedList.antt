-- ===== src/LinkedList.antt =====
-- src/utils/list.c: the doubly linked list, on a heap of its elements.
pub mod Chain
pub mod Links
pub mod Walk
pub mod Add
pub mod Unlink
pub mod Remove
pub mod Delete
mod Tests
use c_client.Prelude.{
  ℕ, zero, suc, ◌+◌, ◌-◌, ◌%◌, ◌^◌, Bool, true, false, Option, none, some, List, [], ◌∷◌, ◌++◌, ltb,
  ◌==◌, if◌then◌else◌, ◌>>=◌,
}
use c_client.Prelude.Int.{ℤ, pos, negsuc}

-- An address; 0 is NULL.
abbrev pub Ptr : Type 0
Ptr = ℕ

abbrev pub null : Ptr
null = 0

-- `list_elem_t`. An `any_t` that is not NULL is a `V`.
pub record Elem (V : Type 0) : Type 0 where
  pub prev : Ptr
  pub next : Ptr
  pub value : V

abbrev pub elem_at : {V : Type 0} → Ptr → Ptr → V → Elem V
elem_at p n v = record { prev = p; next = n; value = v }

-- The elements at their addresses, and the values that `v_free` was called on.
pub record Heap (V : Type 0) : Type 0 where
  pub cell : Ptr → Option (Elem V)
  pub freed : List V

-- `list_t`; `has_free` says whether `v_free` is not NULL.
pub record Handle : Type 0 where
  pub head : Ptr
  pub tail : Ptr
  pub len : ℕ
  pub has_free : Bool

abbrev pub ec_list_ok : ℕ
ec_list_ok = 0

abbrev pub ec_list_null : ℕ
ec_list_null = 1

abbrev pub uint32 : ℕ → ℕ
uint32 n = n % 2 ^ 32

module _ {V : Type 0} where
  unfoldable pub write : Heap V → Ptr → Option (Elem V) → Heap V
  write h p c = record h { cell = λ a. if a == p then c else h.cell a }

  -- `*p`, a fault at NULL and where no element is.
  unfoldable pub load : Heap V → Ptr → Option (Elem V)
  load h p = if p == null then none else h.cell p

  -- p->next = q
  pub set_next : Ptr → Ptr → Heap V → Option (Heap V)
  unfolding load
  set_next p q h = load h p >>= λ e. some (write h p (some (elem_at e.prev q e.value)))

  -- p->prev = q
  pub set_prev : Ptr → Ptr → Heap V → Option (Heap V)
  unfolding load
  set_prev p q h = load h p >>= λ e. some (write h p (some (elem_at q e.next e.value)))

  -- free (p)
  pub free : Ptr → Heap V → Option (Heap V)
  unfolding load
  free p h = load h p >>= λ e. some (write h p none)

  -- if (self->v_free) self->v_free (value)
  pub free_value : Handle → V → Heap V → Heap V
  free_value self v h = if self.has_free then record h { freed = h.freed ++ (v ∷ []) } else h

  -- `fresh` is what malloc returns.
  pub list_elem_new : Ptr → V → Heap V → Ptr × Heap V
  list_elem_new fresh value h =
      if fresh == null then (null, h) else (fresh, write h fresh (some (elem_at null null value)))

  -- The first branch of `list_add`.
  pub add_first : Ptr → V → Handle → Heap V → Option (ℕ × (Handle × Heap V))
  unfolding list_elem_new set_next set_prev
  add_first fresh value self h =
      let (elem, h1) = list_elem_new fresh value h in
      set_next elem null h1 >>= λ h2. set_prev elem null h2 >>= λ h3.
      some (ec_list_ok, (record self { head = elem; tail = elem; len = uint32 (self.len + 1) }, h3))

  pub add_last : Ptr → V → Handle → Heap V → Option (ℕ × (Handle × Heap V))
  unfolding list_elem_new set_next set_prev
  add_last fresh value self h =
      let (elem, h1) = list_elem_new fresh value h in
      set_prev elem self.tail h1 >>= λ h2. set_next elem null h2 >>= λ h3.
      set_next self.tail elem h3 >>= λ h4.
      some (ec_list_ok, (record self { tail = elem; len = uint32 (self.len + 1) }, h4))

  pub list_add : Ptr → Option V → Handle → Heap V → Option (ℕ × (Handle × Heap V))
  unfolding add_first add_last
  list_add fresh none self h = some (ec_list_null, (self, h))
  list_add fresh (some value) self h =
      if self.len == 0 then add_first fresh value self h else add_last fresh value self h

  -- The loop of `list_get_elem`.
  pub walk : ℕ → Ptr → Heap V → Option Ptr
  walk zero curr h = some curr
  walk (suc idx) curr h = load h curr >>= λ e. walk idx e.next h

  -- A failed assert is a fault too.
  pub list_get_elem : Handle → ℤ → Heap V → Option Ptr
  unfolding walk
  list_get_elem self (negsuc idx) h = none
  list_get_elem self (pos idx) h = if ltb idx self.len then walk idx self.head h else some null

  -- The inner `none` is the NULL that is returned.
  pub list_get : Handle → ℤ → Heap V → Option (Option V)
  unfolding list_get_elem load
  list_get self idx h = list_get_elem self idx h >>= λ curr.
      if curr == null then some none else (load h curr >>= λ e. some (some e.value))

  -- The two conditional assignments of `list_remove_elem`.
  pub unlink_prev : Ptr → Handle → Heap V → Option (Handle × Heap V)
  unlink_prev elem self h = load h elem >>= λ e.
      if e.prev == null
      then some (record self { head = e.next }, h)
      else (set_next e.prev e.next h >>= λ h'. some (self, h'))

  pub unlink_next : Ptr → Handle → Heap V → Option (Handle × Heap V)
  unlink_next elem self h = load h elem >>= λ e.
      if e.next == null
      then some (record self { tail = e.prev }, h)
      else (set_prev e.next e.prev h >>= λ h'. some (self, h'))

  -- `--self->len` wraps at 0.
  pub list_remove_elem : Handle → Ptr → Heap V → Option (ℕ × (Handle × Heap V))
  unfolding unlink_prev unlink_next
  list_remove_elem self elem h = unlink_prev elem self h >>= λ (l1, h1).
      unlink_next elem l1 h1 >>= λ (l2, h2). load h2 elem >>= λ e.
      free elem (free_value self e.value h2) >>= λ h3.
      some (ec_list_ok, (record l2 { len = uint32 (l2.len + 2 ^ 32 - 1) }, h3))

  pub list_remove : Handle → ℤ → Heap V → Option (ℕ × (Handle × Heap V))
  unfolding list_remove_elem
  list_remove self idx h = list_get_elem self idx h >>= λ elem. list_remove_elem self elem h

  -- The loop of `list_delete`, with the rounds left.
  pub delete_loop : ℕ → Handle → Ptr → Heap V → Option (Heap V)
  delete_loop zero self curr h = some h
  delete_loop (suc len) self curr h = load h curr >>= λ e.
      free curr (free_value self e.value h) >>= λ h'. delete_loop len self e.next h'

  -- What is left of the elements; the handle is freed too.
  pub list_delete : Handle → Heap V → Option (Heap V)
  unfolding delete_loop
  list_delete self h = delete_loop self.len self self.head h

  -- The loop of `list_enum`.
  pub enum_loop {ℓ} : {O : Type ℓ} → ℕ → Ptr → (V → O → O) → O → Heap V → Option O
  unfolding load
  enum_loop zero curr call obj h = some obj
  enum_loop (suc idx) curr call obj h =
      load h curr >>= λ e. enum_loop idx e.next call (call e.value obj) h

  -- `int idx = self->len`: from a length that is no int the loop would count down for ever.
  pub list_enum {ℓ} : {O : Type ℓ} → Handle → (V → O → O) → O → Heap V → Option O
  unfolding enum_loop
  list_enum self call obj h =
      if ltb self.len (2 ^ 31) then enum_loop self.len self.head call obj h else none

-- list_new (v_free), when malloc gives the memory.
pub list_new : Bool → Handle
list_new has_free = record { head = null; tail = null; len = 0; has_free = has_free }

-- What `list_enum` computes on a list of these values.
unfoldable pub enum_values {ℓ κ} : {A : Type ℓ} {O : Type κ} → List A → (A → O → O) → O → O
enum_values [] call obj = obj
enum_values (v ∷ vs) call obj = enum_values vs call (call v obj)
