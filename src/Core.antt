-- ===== src/Core.antt =====
-- dsm_core.c: one page, seen from the thread that works on it. The handlers of the listener take
-- the record of the page and the trace of events, newest first.
pub mod Queues
pub mod Serve
pub mod Shape
pub mod Termination
use psar_dsm.Prelude.{
  ℕ, zero, suc, ◌+◌, ◌<◌, Bool, true, false, ◌&&◌, not, Option, none, some, List, [], ◌∷◌, ◌==◌,
  ltb, if◌then◌else◌, Run, ok, exit, fault, out_of_fuel, ◌>>=◌,
}
use psar_dsm.LinkedList.Queue.{Queue, size, add, remove}
use psar_dsm.Memory.{
  Request, Directory, Page, prot_none, prot_read, may_read, may_write, request_equals,
}
use psar_dsm.Message.{Message, givepage, invalidate, Event, Surroundings, dsm_send_msg}

-- giveup_localpage: `mprotect` of the page's range is the write to `mapped`.
unfoldable pub giveup_localpage : Page → ℕ → Page
giveup_localpage p new_owner = record p {
  uptodate = false;
  protection = prot_none;
  write_owner = new_owner;
  mapped = prot_none;
}

-- How a round of the loop of process_list_requests ends: by `continue` or the loop's end, with
-- the directory changed, or by `return`, with the page changed.
pub data Turn : Type 0 where
  again : Directory → List Event → Turn
  returns : Page → List Event → Turn

module _ (env : Surroundings) where
  -- The page's memory is read into the message, which faults without the right to read it.
  unfoldable pub satisfy_request : Page → Request → List Event → Run (Bool × List Event)
  satisfy_request p req t =
      if may_read p.mapped
      then dsm_send_msg env req.sockfd (givepage p.page_id req.rights p.bytes) t
      else fault

  -- The message goes to each reader in turn; a status of -1 is only logged.
  unfoldable pub invalidate_readers : (page_id : ℕ) → List ℕ → List Event → Run (List Event)
  invalidate_readers page_id [] t = ok t
  invalidate_readers page_id (fd ∷ fds) t =
      dsm_send_msg env fd (invalidate page_id) t >>= λ (_, t'). invalidate_readers page_id fds t'

  -- The case of a reader. `reqlist->next` is read after list_remove has freed the node.
  unfoldable pub serve_reader : Page → Directory → Request → List Event → Run Turn
  serve_reader p d req t = do
    (_, t') ← satisfy_request p req t
    readers ← add d.current_readers_queue req.sockfd
    if env.keeps_freed
        then ok (
            again
              (record d {
                requests_queue = remove request_equals req d.requests_queue;
                current_readers_queue = readers;
              })
              t')
        else fault

  -- The case of a writer. Where neither test holds, the round changes nothing.
  unfoldable pub serve_writer : Page → Directory → Request → List Event → Run Turn
  serve_writer p d req t =
      if not d.invalidate_sent && ltb 0 (size d.current_readers_queue)
      then (do
        t' ← invalidate_readers p.page_id d.current_readers_queue.items t
        ok (again (record d { invalidate_sent = true }) t'))
      else if size d.current_readers_queue == 0
      then (do
        (_, t') ← satisfy_request p req t
        ok (
            returns
              (record (giveup_localpage p req.sockfd) {
                directory = some (record d {
                  invalidate_sent = false;
                  requests_queue = remove request_equals req d.requests_queue;
                });
              })
              t'))
      else ok (again d t)

  unfoldable pub serve : Page → Directory → Request → List Event → Run Turn
  serve p d req t =
      if req.rights == prot_read
      then serve_reader p d req t
      else if may_write req.rights
      then serve_writer p d req t
      else exit

  -- The `while (reqlist != NULL)` of process_list_requests, on fuel. The cursor stands at the
  -- head of the queue in every round: it moves on only when the node that it stands at is removed.
  unfoldable pub requests_loop : ℕ → Page → Directory → List Event → Run (Page × List Event)
  requests_loop zero p d t = out_of_fuel
  requests_loop (suc k) p d t = elim d.requests_queue.items [
    | [] ↦ ok (record p { directory = some d }, t)
    | req ∷ _ ↦ serve p d req t >>= λ turn. elim turn [
      | again d' t' ↦ requests_loop k p d' t'
      | returns p' t' ↦ ok (p', t')
    ]
  ]

  -- `fuel` bounds the rounds of the loop. A slave's queue is NULL.
  unfoldable pub process_list_requests : ℕ → Page → List Event → Run (Page × List Event)
  process_list_requests fuel p t = elim p.directory [
    | none ↦ fault
    | some d ↦ if p.uptodate then requests_loop fuel p d t else ok (p, t)
  ]
