-- ===== src/Message/Tests.antt =====
-- Runs of kernel/ipc/message.c on the mailbox of thread 7, which sleeps at 70.
use sgos.Prelude.{ℕ, ◌≡◌, refl, true, false, none, some, [], ◌∷◌, arith, ◌==◌, if◌then◌else◌}
use sgos.Prelude.Int.{pos}
use sgos.Prelude.Run.{ok, blocked}
use sgos.Dll.{node, Heap, Ptr}
use sgos.Queue.{Queue}
use sgos.Queue.Shape.{IsQueue}
use sgos.Queue.Search.{find}
use sgos.Scheduler.{ts_ready, ts_sleep}
use sgos.Scheduler.Chains.{IsScheduler, replaced}
use sgos.Scheduler.Demo.{thread, demo, demo_chains, demo-IsScheduler}
use sgos.Scheduler.Threads.{infinite}
use sgos.Semaphore.{with_value}
use sgos.Semaphore.Free.{IsIdle}
use sgos.Message.{Message, Mailbox, send, receive, with_command, from_source, err_timeout}
use sgos.Message.Deliver.{send_delivers}
use sgos.Message.Receive.{Sourced}
use sgos.Message.Threads.{Mailboxes, mailbox_of, call_thread, receive_current}
use sgos.Message.Roundtrip.{receive-call}
use sgos.Message.Outcomes.{
  From, Taken, receive_oldest, receive-from_source, receive_by_command_dangles, receive_times_out,
}

abbrev queue_at : Ptr → Heap ℕ → ℕ → Queue
queue_at p h n = record {
  front = p;
  back = p;
  cur_num = pos n;
  max_num = pos 100;
  use_sem = false;
  semaphore = 0;
  has_del = true;
  erased = [];
  cells = h;
}

abbrev note : ℕ → ℕ → Message
note tid cmd = record {
  thread_id = tid;
  time = 0;
  command = cmd;
  arguments = [];
  code = pos 0;
  large = [];
}

-- Every message is from thread 1 and has the command 5.
abbrev mailbox : Queue → Mailbox
mailbox q = record {
  ipc = record {
    semaphore = record { wait_queue = queue_at 0 (λ p. none) 0; value = 1 };
    scheduler = demo 10;
  };
  queue = q;
  messages = λ k. record { user_message = note 7 5; destination = 70; source = 10 };
  freed = [];
}

abbrev one : Queue
one = queue_at 8 (λ p. if p == 8 then some (node 0 500 0) else none) 1

abbrev empty : Queue
empty = queue_at 0 (λ p. none) 0

empty-IsQueue : IsQueue 0 empty []
empty-IsQueue = record {
  linked = record { links = tt; back_first = refl; front_last = refl };
  count = refl;
  unlocked = ground arith;
}

one-IsQueue : IsQueue 0 one ((8, 500) ∷ [])
one-IsQueue = record {
  linked = record { links = ground arith; back_first = refl; front_last = refl };
  count = refl;
  unlocked = ground arith;
}

IsIdle-at : (q : Queue) → IsIdle 0 (mailbox q).ipc 1
IsIdle-at q = record { empty = empty-IsQueue; at = refl }

From-one : From (mailbox one) 500 (thread 1 ts_ready 5)
From-one = record { prev = 0; next = 20; at = refl; not_null = omega arith }

one-Sourced : Sourced (mailbox one) ((8, 500) ∷ [])
one-Sourced = (refl, tt)

source_hit : find (from_source (mailbox one) (note 1 0)) ((8, 500) ∷ []) ≡ (8, 500)
unfolding find
source_hit = refl

command_hit : find (with_command (mailbox one) (note 0 5)) ((8, 500) ∷ []) ≡ (8, 500)
unfolding find
command_hit = refl

send_delivers_example :
    (s' : Mailbox) × (send 70 (note 7 6) 9 501 11 (mailbox one) ≡ ok (pos 0) s')
    × IsQueue 0 s'.queue ((8, 500) ∷ (11, 501) ∷ [])
    × ((j : ℕ)
        → s'.messages j ≡ (
            if j == 501
            then record { user_message = note 7 6; destination = 70; source = 10 }
            else (mailbox one).messages j))
    × IsIdle 1 s'.ipc 1
    × IsScheduler s'.ipc.scheduler (
        replaced demo_chains ts_sleep [] ts_ready
          ((70, thread 7 ts_ready 0) ∷ demo_chains ts_ready))
    × (s'.ipc.scheduler.running ≡ 10)
send_delivers_example =
    send_delivers (mailbox one) demo_chains 70 (thread 7 ts_sleep 0) [] [] 0 0 100 ((8, 500) ∷ [])
      (note 7 6) 9 501 11 (IsIdle-at one) (demo-IsScheduler 10) refl one-IsQueue refl (omega arith)
      (omega arith) refl (omega arith)

receive_oldest_example :
    (s' : Mailbox) × (receive 2 (λ i. 0) 0 (note 0 0) 0 1000 4 9 0 (mailbox one)
      ≡ ok (pos 1, note 1 5) s')
    × IsQueue 0 s'.queue []
    × Taken 0 (mailbox one) s' 500
receive_oldest_example =
    receive_oldest (mailbox one) 0 0 1 (λ i. 0) (note 0 0) 0 1000 4 9 0 (IsIdle-at one) 8 500 []
      (thread 1 ts_ready 5) one-IsQueue refl refl (omega arith) From-one

receive-from_source_example :
    (s' : Mailbox) × (receive 2 (λ i. 0) 10 (note 1 0) 0 1000 4 9 0 (mailbox one)
      ≡ ok (pos 1, note 1 5) s')
    × IsQueue 0 s'.queue []
    × Taken 0 (mailbox one) s' 500
receive-from_source_example =
    receive-from_source (mailbox one) 0 0 1 (λ i. 0) (note 1 0) 0 1000 4 9 0 (IsIdle-at one) 10 8
      500 [] [] (thread 1 ts_ready 5) one-IsQueue (omega arith) one-Sourced source_hit (omega arith)
      refl refl (omega arith) From-one

receive_by_command_dangles_example :
    (s' : Mailbox) × (receive 2 (λ i. 0) 0 (note 0 5) 0 1000 4 9 0 (mailbox one)
      ≡ ok (pos 1, note 1 5) s')
    × (s'.queue ≡ one)
    × Taken 0 (mailbox one) s' 500
receive_by_command_dangles_example =
    receive_by_command_dangles (mailbox one) 0 0 1 (λ i. 0) (note 0 5) 0 1000 4 9 0 (IsIdle-at one)
      8 500 ((8, 500) ∷ []) (thread 1 ts_ready 5) one-IsQueue (omega arith) command_hit
      (omega arith) refl (omega arith) From-one

-- The clock shows 100 at first and 1101 in the round.
receive_times_out_example :
    (s' : Mailbox) × (receive 2
        (λ i. if i == 2 then 100 else 1101)
        0
        (note 0 0)
        0
        1000
        4
        9
        0
        (mailbox empty)
      ≡ ok (err_timeout, note 0 0) s')
    × IsQueue 1 s'.queue []
    × (s'.ipc ≡ with_value (mailbox empty).ipc 0)
receive_times_out_example =
    receive_times_out (mailbox empty) 0 0 1 (λ i. if i == 2 then 100 else 1101) (note 0 0) 0 1000 4
      9 0 (IsIdle-at empty) empty-IsQueue refl (omega arith) refl

-- Every thread has an empty mailbox, and thread 1 at 10 runs.
abbrev mailboxes : Mailboxes
mailboxes = record {
  scheduler = demo 10;
  semaphores = λ p. record { wait_queue = queue_at 0 (λ q. none) 0; value = 1 };
  queues = λ p. empty;
  messages = λ k. record { user_message = note 7 5; destination = 70; source = 10 };
  freed = [];
}

receive-call_example :
    (s1 s2 : Mailboxes) × (call_thread 70 (note 7 6) infinite 9 501 11 mailboxes ≡ blocked s1)
    × (s1.scheduler.running ≡ 70)
    × (receive_current 2 (λ i. 0) 0 (note 0 0) 0 1000 4 9 0 s1 ≡ ok (pos 1, note 1 6) s2)
    × IsQueue 0 (mailbox_of 70 s2).queue []
    × Taken 1 (mailbox_of 70 s1) (mailbox_of 70 s2) 501
receive-call_example =
    receive-call mailboxes demo_chains 70 (thread 7 ts_sleep 0) [] [] 0 0 100 (note 7 6) 9 501 11
      (IsIdle-at empty) (demo-IsScheduler 10) refl empty-IsQueue refl (omega arith) (omega arith)
      (omega arith) 10 (thread 1 ts_ready 5) [] ((20, thread 2 ts_ready 5) ∷ []) refl refl refl 1
      (λ i. 0) (note 0 0) 0 1000 4 9 0 refl refl
