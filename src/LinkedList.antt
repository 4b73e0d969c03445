-- ===== src/LinkedList.antt =====
-- list.c and list.h: a singly linked list with a cached length and a tail pointer.
-- The heap maps an address to the node that stands there; 0 is NULL. A node's data block is
-- copied on insertion and freed with the node, so it is kept as the node's content. No caller
-- passes a freeFn, so that field of list_t and the two calls behind its test are left out.
-- The address that malloc returns for a new node is an argument (0 if malloc fails).
pub mod Chain
pub mod Add
pub mod Remove
pub mod Queue
pub mod Sweep
pub mod Dangling
mod Tests
use psar_dsm.Prelude.{
  ℕ, zero, suc, ◌+◌, ◌-◌, Bool, true, false, Option, none, some, ◌==◌, if◌then◌else◌, Run, ok,
  fault, out_of_fuel, ◌>>=◌,
}

-- listNode_t
pub record Node (A : Type 0) : Type 0 where
  pub content : A
  pub next : ℕ

abbrev pub Heap : Type 0 → Type 0
Heap A = ℕ → Option (Node A)

module _ {A : Type 0} where
  abbrev pub node : A → ℕ → Node A
  node x q = record { content = x; next = q }

  -- Puts a node at an address, or gives the address back.
  unfoldable pub write : Heap A → ℕ → Option (Node A) → ℕ → Option (Node A)
  write h p c a = if a == p then c else h a

  -- `*p`: undefined at NULL and at an address that holds no live node.
  unfoldable pub load : Heap A → ℕ → Run (Node A)
  load h p = if p == 0 then fault else elim (h p) [ none ↦ fault | some n ↦ ok n ]

-- list_t
pub record Handle (A : Type 0) : Type 0 where
  pub count : ℕ
  pub head : ℕ
  pub tail : ℕ
  pub equals_fn : A → A → Bool

module _ {A : Type 0} where
  unfoldable pub list_init : (A → A → Bool) → Handle A
  list_init eq = record { count = 0; head = 0; tail = 0; equals_fn = eq }

  unfoldable pub list_add : ℕ → Handle A → A → Heap A → Run (Handle A × Heap A)
  list_add fresh l x h =
      if fresh == 0
      then fault
      else if l.count == 0
      then ok (
        record l { head = fresh; tail = fresh; count = l.count + 1 },
        write h fresh (some (node x 0)),
      )
      else (do
        t ← load (write h fresh (some (node x 0))) l.tail
        ok (
          record l { tail = fresh; count = l.count + 1 },
          write (write h fresh (some (node x 0))) l.tail (some (record t { next = fresh })),
        ))

  -- Frees the node at `cur` and links the one before it, or the head, to `next`.
  unfoldable pub unlink : Handle A → (prev cur next : ℕ) → Heap A → Run (Handle A × Heap A)
  unlink l prev cur next h =
      if prev == 0
      then ok (record l { head = next; count = l.count - 1 }, write h cur none)
      else (do
        p ← load (write h cur none) prev
        ok (
          record l { count = l.count - 1 },
          write (write h cur none) prev (some (record p { next = next })),
        ))

  -- The `while (currNode)` of list_remove, on fuel.
  unfoldable pub remove_loop : ℕ → Handle A → (prev cur : ℕ) → A → Heap A → Run (Handle A × Heap A)
  remove_loop zero l prev cur x h = out_of_fuel
  remove_loop (suc k) l prev cur x h = if cur == 0 then ok (l, h) else (do
    n ← load h cur
    let rest = remove_loop k l cur n.next x h
    if l.equals_fn n.content x then unlink l prev cur n.next h else rest)

  unfoldable pub list_remove : Handle A → A → Heap A → Run (Handle A × Heap A)
  list_remove l x h = remove_loop (l.count + 1) l 0 l.head x h

  unfoldable pub contains_loop : ℕ → (A → A → Bool) → ℕ → A → Heap A → Run Bool
  contains_loop zero eq cur x h = out_of_fuel
  contains_loop (suc k) eq cur x h = if cur == 0 then ok false else (do
    n ← load h cur
    let rest = contains_loop k eq n.next x h
    if eq n.content x then ok true else rest)

  unfoldable pub list_contains : Handle A → A → Heap A → Run Bool
  list_contains l x h = contains_loop (l.count + 1) l.equals_fn l.head x h

  -- The `while (l->head != NULL)` of list_destroy, on fuel.
  unfoldable pub destroy_loop : ℕ → Handle A → Heap A → Run (Handle A × Heap A)
  destroy_loop zero l h = out_of_fuel
  destroy_loop (suc k) l h = if l.head == 0 then ok (record l { tail = 0 }, h) else (do
    n ← load h l.head
    destroy_loop k (record l { head = n.next; count = l.count - 1 }) (write h l.head none))

  unfoldable pub list_destroy : Handle A → Heap A → Run (Handle A × Heap A)
  list_destroy l h = destroy_loop (l.count + 1) l h
