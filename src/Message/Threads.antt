-- ===== src/Message/Threads.antt =====
-- kernel/ipc/message.c on the mailboxes of all threads: a call works on the mailbox of the thread
-- that it names, and IpcReceive on that of the current thread. A thread's semaphore and message
-- queue are fields of its KThread; here they are kept by its address.
use sgos.Prelude.{ℕ, ◌≡◌, refl, ap, ◌∙◌, true, List, ◌==◌, if◌then◌else◌, arith}
use sgos.Prelude.Int.{ℤ}
use sgos.Prelude.Run.{ok, fault, blocked, out_of_fuel, Cmd}
use sgos.Dll.{Ptr}
use sgos.Queue.{Queue}
use sgos.Scheduler.{Scheduler}
use sgos.Semaphore.{Semaphore}
use sgos.Message.{Message, KMessage, Mailbox, call, receive}

pub record Mailboxes : Type 0 where
  pub scheduler : Scheduler
  pub semaphores : Ptr → Semaphore
  pub queues : Ptr → Queue
  pub messages : ℕ → KMessage
  pub freed : List ℕ

abbrev pub mailbox_of : Ptr → Mailboxes → Mailbox
mailbox_of p s = record {
  ipc = record { semaphore = s.semaphores p; scheduler = s.scheduler };
  queue = s.queues p;
  messages = s.messages;
  freed = s.freed;
}

abbrev pub set_mailbox : Ptr → Mailbox → Mailboxes → Mailboxes
set_mailbox p m s = record {
  scheduler = m.ipc.scheduler;
  semaphores = λ q. if q == p then m.ipc.semaphore else s.semaphores q;
  queues = λ q. if q == p then m.queue else s.queues q;
  messages = m.messages;
  freed = m.freed;
}

abbrev pub on_mailbox : {A : Type 0} → Ptr → Cmd Mailbox A → Cmd Mailboxes A
on_mailbox p m s = elim (m (mailbox_of p s)) [
  | ok a t ↦ ok a (set_mailbox p t s)
  | fault ↦ fault
  | blocked t ↦ blocked (set_mailbox p t s)
  | out_of_fuel ↦ out_of_fuel
]

-- IpcCall of the thread `dest`.
pub call_thread : Ptr → Message → ℕ → Ptr → ℕ → Ptr → Cmd Mailboxes ℤ
call_thread dest msg timeout wait k nod = on_mailbox dest (call dest msg timeout wait k nod)

-- IpcReceive, from `thr_cur = TmGetCurrentThread()` on.
pub receive_current :
    ℕ → (ℕ → ℕ) → Ptr → Message → ℕ → ℕ → ℕ → Ptr → Ptr → Cmd Mailboxes (ℤ × Message)
receive_current rounds now src msg flag timeout fuel wait fresh s =
    on_mailbox s.scheduler.running (receive rounds now src msg flag timeout fuel wait fresh) s

-- What was put back is what is there.
pub mailbox_of-set_mailbox :
    (p : Ptr) (m : Mailbox) (s : Mailboxes) → mailbox_of p (set_mailbox p m s) ≡ m
mailbox_of-set_mailbox p m s = let e : (p == p) ≡ true = ground arith in rw (e) refl

pub call_thread_run :
    (dest : Ptr) (msg : Message) (timeout : ℕ) (wait : Ptr) (k : ℕ) (nod : Ptr) (s : Mailboxes)
    (t : Mailbox)
    → call dest msg timeout wait k nod (mailbox_of dest s) ≡ blocked t
    → call_thread dest msg timeout wait k nod s ≡ blocked (set_mailbox dest t s)
unfolding call_thread
call_thread_run dest msg timeout wait k nod s t e = rw (e, on_mailbox)

on_mailbox_ok :
    {A : Type 0} (p : Ptr) (m : Cmd Mailbox A) (s : Mailboxes) (a : A) (t : Mailbox)
    → m (mailbox_of p s) ≡ ok a t
    → on_mailbox p m s ≡ ok a (set_mailbox p t s)
on_mailbox_ok p m s a t e = rw (e, on_mailbox)

pub receive_current_run :
    (rounds : ℕ) (now : ℕ → ℕ) (src : Ptr) (msg : Message) (flag timeout fuel : ℕ)
    (wait fresh p : Ptr) (s : Mailboxes) (a : ℤ × Message) (t : Mailbox)
    → s.scheduler.running ≡ p
    → receive rounds now src msg flag timeout fuel wait fresh (mailbox_of p s) ≡ ok a t
    → receive_current rounds now src msg flag timeout fuel wait fresh s ≡ ok a (set_mailbox p t s)
unfolding receive_current
receive_current_run rounds now src msg flag timeout fuel wait fresh p s a t r e =
    let m = receive rounds now src msg flag timeout fuel wait fresh in
    ap (λ q. on_mailbox q m s) r ∙ on_mailbox_ok p m s a t e
