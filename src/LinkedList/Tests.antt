-- ===== src/LinkedList/Tests.antt =====
-- The theorems on src/utils/list.c on a list of three numbers.
use c_client.Prelude.{
  ℕ, ◌+◌, ◌≡◌, refl, true, Option, none, some, [], ◌∷◌, arith, ◌==◌, if◌then◌else◌, get_elem?,
  Returns,
}
use c_client.Prelude.Int.{pos}
use c_client.LinkedList.{
  Ptr, Elem, elem_at, Heap, Handle, list_add, list_get, list_remove, list_delete, list_enum,
  enum_values,
}
use c_client.LinkedList.Chain.{Cells, values}
use c_client.LinkedList.Links.{IsList}
use c_client.LinkedList.Walk.{list_get_lem, list_enum_lem}
use c_client.LinkedList.Add.{Added, list_add-Added}
use c_client.LinkedList.Remove.{Removed, list_remove-Removed}
use c_client.LinkedList.Delete.{Deleted, list_delete-Deleted}

abbrev three : Cells ℕ
three = (8, 10) ∷ (24, 20) ∷ (16, 30) ∷ []

abbrev memory_of_three : Ptr → Option (Elem ℕ)
memory_of_three a =
    if a == 8
    then some (elem_at 0 24 10)
    else if a == 24
    then some (elem_at 8 16 20)
    else if a == 16
    then some (elem_at 24 0 30)
    else none

abbrev heap_of_three : Heap ℕ
heap_of_three = record { cell = memory_of_three; freed = [] }

abbrev handle_of_three : Handle
handle_of_three = record { head = 8; tail = 16; len = 3; has_free = true }

three-IsList : IsList heap_of_three handle_of_three three
three-IsList = record {
  head = refl;
  tail = refl;
  len = refl;
  len_fits = omega arith;
  chain = (
    omega arith,
    refl,
    (omega arith, (omega arith, tt)),
    (omega arith, refl, (omega arith, tt), (omega arith, refl, tt, tt)),
  );
}

list_add_example :
    Returns
      (Added heap_of_three handle_of_three three 40 50)
      (list_add 40 (some 50) handle_of_three heap_of_three)
list_add_example =
    list_add-Added heap_of_three handle_of_three 40 50 three three-IsList (omega arith)
      (omega arith, (omega arith, (omega arith, tt))) (omega arith)

list_get_example :
    list_get handle_of_three (pos 2) heap_of_three ≡ some (get_elem? (values three) 2)
list_get_example = list_get_lem heap_of_three handle_of_three three 2 three-IsList

list_enum_example :
    list_enum handle_of_three ◌+◌ 0 heap_of_three ≡ some (enum_values (values three) ◌+◌ 0)
list_enum_example =
    list_enum_lem heap_of_three handle_of_three three ◌+◌ 0 three-IsList (omega arith)

list_remove_example :
    Returns
      (Removed heap_of_three handle_of_three ((8, 10) ∷ []) 24 20 ((16, 30) ∷ []))
      (list_remove handle_of_three (pos 1) heap_of_three)
list_remove_example =
    list_remove-Removed heap_of_three handle_of_three ((8, 10) ∷ []) 24 20 ((16, 30) ∷ [])
      three-IsList

list_delete_example :
    Returns
      (Deleted handle_of_three heap_of_three three)
      (list_delete handle_of_three heap_of_three)
list_delete_example = list_delete-Deleted handle_of_three heap_of_three three three-IsList
