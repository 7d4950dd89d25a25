-- ===== src/Message/Receive.antt =====
-- IpcReceive of kernel/ipc/message.c.
use sgos.Prelude.{ℕ, suc, ◌≡◌, ◌≢◌, Bool, true, false, some, [], ◌∷◌, refl, arith}
use sgos.Prelude.Int.{pos}
use sgos.Prelude.Run.{ok}
use sgos.Dll.{Ptr, null, node}
use sgos.Dll.Links.{Cells}
use sgos.Queue.Search.{find}
use sgos.Queue.{Queue, pop_back, search_queue, remove_element}
use sgos.Scheduler.{Thread}
use sgos.Semaphore.{Ipc, with_value, lock, unlock}
use sgos.Message.{
  Message, Mailbox, choose, hand_over, receive_from, with_command, from_source, err_timeout,
  timed_out, has_source, stops, search_source,
}

-- The owner's mailbox with its semaphore taken.
abbrev pub taken : Mailbox → Mailbox
taken s = record s { ipc = with_value s.ipc 0 }

pub choose_any :
    (s : Mailbox) (msg : Message) (fuel k : ℕ) (q : Queue)
    → msg.command ≡ 0
    → pop_back s.queue ≡ ok k q
    → choose null msg fuel s ≡ ok (null, k) (record s { queue = q })
unfolding choose
choose_any s msg fuel k q e p = ground arith

pub choose_command :
    (s : Mailbox) (msg : Message) (fuel k : ℕ) (nod : Ptr)
    → msg.command ≢ 0
    → search_queue (with_command s msg) fuel s.queue ≡ ok (nod, k) s.queue
    → choose null msg fuel s ≡ ok (nod, k) s
unfolding choose
choose_command s msg fuel k nod e p = ground arith

pub choose_source :
    (s : Mailbox) (src : Ptr) (msg : Message) (fuel k : ℕ) (nod : Ptr)
    → src ≢ null
    → msg.command ≡ 0
    → search_queue (stops s (from_source s msg)) fuel s.queue ≡ ok (nod, k) s.queue
    → has_source s k ≡ true
    → choose src msg fuel s ≡ ok (nod, k) s
unfolding choose search_source
choose_source s src msg fuel k nod nn e p h = ground arith

-- All messages of a queue have a source that is a thread.
abbrev pub Sourced : Mailbox → Cells ℕ → Type 0
Sourced s [] = Unit {0}
Sourced s ((p, k) ∷ us) = (has_source s k ≡ true) × Sourced s us

-- A search that reads the sources then finds what its test says.
pub find-stops :
    (s : Mailbox) (hit : ℕ → Bool) (us : Cells ℕ)
    → Sourced s us
    → find (stops s hit) us ≡ find hit us
unfolding find
find-stops s hit [] h = refl
find-stops s hit ((p, k) ∷ us) h = ground (arith, find-stops s hit us h.1)

pub hit_run :
    (r : ℕ) (now : ℕ → ℕ) (src : Ptr) (msg : Message) (keep : Bool) (timeout start fuel : ℕ)
    (wait fresh : Ptr) (s s2 : Mailbox) (nod : Ptr) (k : ℕ)
    → lock wait s.ipc ≡ ok tt (with_value s.ipc 0)
    → choose src msg fuel (taken s) ≡ ok (nod, k) s2
    → k ≢ null
    → receive_from (suc r) now src msg keep timeout start fuel wait fresh s
      ≡ hand_over src keep nod k fresh s2
unfolding receive_from
hit_run r now src msg keep timeout start fuel wait fresh s s2 nod k l c nn = ground arith

pub late_run :
    (r : ℕ) (now : ℕ → ℕ) (src : Ptr) (msg : Message) (keep : Bool) (timeout start fuel : ℕ)
    (wait fresh : Ptr) (s s2 : Mailbox) (nod : Ptr)
    → lock wait s.ipc ≡ ok tt (with_value s.ipc 0)
    → choose src msg fuel (taken s) ≡ ok (nod, null) s2
    → timeout ≢ 0
    → timed_out timeout start (now r) ≡ true
    → receive_from (suc r) now src msg keep timeout start fuel wait fresh s
      ≡ ok (err_timeout, msg) s2
unfolding receive_from
late_run r now src msg keep timeout start fuel wait fresh s s2 nod l c nz late = ground arith

pub hand_over_erase :
    (s : Mailbox) (nod : Ptr) (k : ℕ) (fresh : Ptr) (t : Ipc) (b n : Ptr) (v : Thread)
    → unlock s.ipc ≡ ok tt t
    → t.scheduler.threads (s.messages k).source ≡ some (node b v n)
    → (s.messages k).source ≢ null
    → hand_over null false nod k fresh s
      ≡ ok
          (pos 1, record (s.messages k).user_message { thread_id = v.thread_id })
          (record s { ipc = t; freed = k ∷ s.freed })
unfolding hand_over
hand_over_erase s nod k fresh t b n v u h nn = ground arith

pub hand_over_remove :
    (s : Mailbox) (src nod : Ptr) (k : ℕ) (fresh : Ptr) (t : Ipc) (q : Queue) (b n : Ptr)
    (v : Thread)
    → src ≢ null
    → unlock s.ipc ≡ ok tt t
    → remove_element nod s.queue ≡ ok tt q
    → t.scheduler.threads (s.messages k).source ≡ some (node b v n)
    → (s.messages k).source ≢ null
    → hand_over src false nod k fresh s
      ≡ ok
          (pos 1, record (s.messages k).user_message { thread_id = v.thread_id })
          (record s { ipc = t; queue = q; freed = k ∷ s.freed })
unfolding hand_over
hand_over_remove s src nod k fresh t q b n v sn u e h nn = ground arith
