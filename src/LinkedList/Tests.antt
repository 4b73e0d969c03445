-- ===== src/LinkedList/Tests.antt =====
-- Runs of list.c on a list of two nodes, at the addresses 10 and 20.
use psar_dsm.Prelude.{ℕ, ◌≡◌, refl, true, none, some, List, [], ◌∷◌, arith, ◌==◌, ok, fault, Ends}
use psar_dsm.LinkedList.{
  node, Heap, write, load, Handle, list_add, unlink, remove_loop, list_remove, list_destroy,
}
use psar_dsm.LinkedList.Add.{IsList, Added, list_add-Added}
use psar_dsm.LinkedList.Remove.{erase, Removed, list_remove-Removed}
use psar_dsm.LinkedList.Queue.{
  Queue, remove, Represents, list_add-Represents, list_remove-Represents,
}
use psar_dsm.LinkedList.Sweep.{Destroyed, list_destroy-Destroyed}
use psar_dsm.LinkedList.Dangling.{list_add-list_remove}

abbrev heap : Heap ℕ
heap = write (write (λ _. none) 10 (some (node 1 20))) 20 (some (node 2 0))

abbrev two : Handle ℕ
two = record { count = 2; head = 10; tail = 20; equals_fn = λ a b. a == b }

abbrev cells : List (ℕ × ℕ)
cells = (10, 1) ∷ (20, 2) ∷ []

two-IsList : IsList heap two cells
unfolding write
two-IsList = record {
  chain = ((omega arith), refl, refl, ((omega arith), refl, refl, tt));
  starts = refl;
  counts = refl;
}

abbrev view : Queue ℕ
view = record { items = 1 ∷ 2 ∷ []; tail_ok = true }

two-Represents : Represents heap two view
two-Represents = record { cells = cells; is_list = two-IsList; holds = refl; has_tail = λ e. refl }

list_add-Added_example : Ends (Added heap two cells 30 3) (list_add 30 two 3 heap)
unfolding write
list_add-Added_example = list_add-Added heap two cells 30 3 two-IsList refl (omega arith) refl

list_remove-Removed_example :
    Ends (Removed heap two cells (erase (λ a b. a == b) 2 cells)) (list_remove two 2 heap)
list_remove-Removed_example = list_remove-Removed 2 heap two cells two-IsList

list_destroy-Destroyed_example : Ends (Destroyed heap two cells) (list_destroy two heap)
list_destroy-Destroyed_example = list_destroy-Destroyed heap two cells two-IsList

list_add-Represents_example :
    Ends
      (λ r. Represents r.1 r.0 (record { items = 1 ∷ 2 ∷ 3 ∷ []; tail_ok = true }))
      (list_add 30 two 3 heap)
unfolding write
list_add-Represents_example =
    list_add-Represents heap two view (record { items = 1 ∷ 2 ∷ 3 ∷ []; tail_ok = true }) 30 3
      two-Represents refl (omega arith) refl

list_remove-Represents_example :
    Ends (λ r. Represents r.1 r.0 (remove (λ a b. a == b) 2 view)) (list_remove two 2 heap)
list_remove-Represents_example = list_remove-Represents heap two view 2 two-Represents

-- The handle and the heap after the last node, that of 2, was removed.
abbrev cut : Handle ℕ × Heap ℕ
cut = (record two { count = 1 }, write (write heap 20 none) 10 (some (node 1 0)))

list_add-list_remove_example : list_add 30 cut.0 3 cut.1 ≡ fault
unfolding list_remove remove_loop unlink load write
list_add-list_remove_example =
    list_add-list_remove 2 heap two cells cut two-IsList refl refl refl 30 3 (omega arith)

cut_by_list_remove : list_remove two 2 heap ≡ ok cut
unfolding list_remove remove_loop unlink load write
cut_by_list_remove = refl
