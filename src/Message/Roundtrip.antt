-- ===== src/Message/Roundtrip.antt =====
-- A message of kernel/ipc/message.c from IpcCall to IpcReceive.
use sgos.Prelude.{
  ℕ, suc, ◌+◌, ◌<◌, ◌≡◌, ◌≢◌, refl, sym, ap, subst, ◌∙◌, false, [], ◌∷◌, ◌++◌, arith,
}
use sgos.Prelude.Int.{pos}
use sgos.Prelude.Run.{ok, blocked}
use sgos.Dll.{Ptr, null}
use sgos.Dll.Links.{Cells, first}
use sgos.Queue.Shape.{IsQueue}
use sgos.Scheduler.{ts_ready, ts_sleep, Thread, Scheduler}
use sgos.Scheduler.Chains.{Chains, IsScheduler, replaced}
use sgos.Scheduler.Change.{in_cell, in_not_null}
use sgos.Scheduler.Threads.{sleep_thread, infinite}
use sgos.Scheduler.Threads.Sleep.{sleep_thread_switches}
use sgos.Semaphore.Free.{IsIdle}
use sgos.Message.{Message, Mailbox, send, call, keeps}
use sgos.Message.Deliver.{send_delivers}
use sgos.Message.Outcomes.{From, Taken, receive_oldest}
use sgos.Message.Threads.{
  Mailboxes, mailbox_of, set_mailbox, call_thread, receive_current, mailbox_of-set_mailbox,
  call_thread_run, receive_current_run,
}

-- What the receiver gets: the message as it was sent, with the sender in place of the receiver.
abbrev pub from_sender : Message → Thread → Message
from_sender msg w = record msg { thread_id = w.thread_id }

-- IpcCall without end: once the message is sent, the current thread sleeps.
call_run :
    (s t : Mailbox) (u : Scheduler) (dest : Ptr) (msg : Message) (wait : Ptr) (k : ℕ) (nod : Ptr)
    → send dest msg wait k nod s ≡ ok (pos 0) t
    → sleep_thread t.ipc.scheduler.running infinite t.ipc.scheduler ≡ blocked u
    → call dest msg infinite wait k nod s
      ≡ blocked (record t { ipc = record t.ipc { scheduler = u } })
unfolding call
call_run s t u dest msg wait k nod e d = ground arith

module _ (s : Mailboxes) (xs : Chains) (p : Ptr) (v : Thread) (ys zs : Cells Thread) (dw d m : ℕ)
    (msg : Message) (wait : Ptr) (k : ℕ) (nod : Ptr) (idle : IsIdle dw (mailbox_of p s).ipc 1)
    (is : IsScheduler s.scheduler xs) (e : xs ts_sleep ≡ ys ++ (p, v) ∷ zs)
    (isq : IsQueue d (s.queues p) []) (max : (s.queues p).max_num ≡ pos m) (room : 0 < m + d)
    (nn : nod ≢ null) (kn : k ≢ null) (sender : Ptr) (w : Thread) (us ws : Cells Thread)
    (cur : xs ts_ready ≡ us ++ (sender, w) ∷ ws) (runs : s.scheduler.running ≡ sender)
    (calm : w.is_interrupted ≡ false) where
  abbrev awake : Thread
  awake = record v { state = ts_ready }

  -- The chains once the message is sent.
  abbrev sent : Chains
  sent = replaced xs ts_sleep (ys ++ zs) ts_ready ((p, awake) ∷ xs ts_ready)

  abbrev asleep : Thread
  asleep = record w { state = ts_sleep }

  -- IpcCall has sent the message, and `s1` is the state in which the receiver runs.
  record Called : Type 0 where
    pub s1 : Mailboxes
    pub run : call_thread p msg infinite wait k nod s ≡ blocked s1
    pub receiver : s1.scheduler.running ≡ p
    pub queue : IsQueue d (mailbox_of p s1).queue ((nod, k) ∷ [])
    pub free_again : IsIdle (suc dw) (mailbox_of p s1).ipc 1
    pub user_message : (s1.messages k).user_message ≡ msg
    pub from : From (mailbox_of p s1) k asleep

  called : Called
  called =
      let b = mailbox_of p s in
      let (t, send_run, isq1, stored, idle1, is1, same) =
        send_delivers b xs p v ys zs dw d m [] msg wait k nod idle is e isq max room nn refl kn in
      let at : sent ts_ready ≡ ((p, awake) ∷ us) ++ (sender, w) ∷ ws = ap ((p, awake) ∷◌) cur in
      let (u, sleep_run, switched) =
        sleep_thread_switches t.ipc.scheduler sent sender w ((p, awake) ∷ us) ws is1 at p awake
          (us ++ ws) refl (same ∙ runs) calm in
      let here : t.messages k ≡ record { user_message = msg; destination = p; source = sender } =
        stored k ∙ ground (arith, runs) in
      let box : Mailbox = record t { ipc = record t.ipc { scheduler = u } } in
      let cell = in_cell u _ ts_sleep sender asleep [] (sent ts_sleep) switched.2 refl refl in
      let real = in_not_null u _ ts_sleep sender asleep [] (sent ts_sleep) switched.2 refl refl in
      let put_back = mailbox_of-set_mailbox p box s in
      record {
        s1 = set_mailbox p box s;
        run = call_thread_run p msg infinite wait k nod s box (
            call_run b t u p msg wait k nod send_run
              (ap (λ c. sleep_thread c infinite t.ipc.scheduler) (same ∙ runs) ∙ sleep_run));
        receiver = switched.0;
        queue = subst (λ c. IsQueue d c.queue ((nod, k) ∷ [])) (sym put_back) isq1;
        free_again =
            subst (λ c. IsIdle (suc dw) c.ipc 1) (sym put_back)
              (record { empty = idle1.empty; at = idle1.at });
        user_message = ap (λ z. z.user_message) here;
        from = record {
          prev = null;
          next = first (sent ts_sleep) null;
          at = ap (λ z. u.threads z.source) here ∙ cell;
          not_null = subst (λ z. z.source ≢ null) (sym here) real;
        };
      }

  -- The current thread, outside interrupts, calls without end (IpcCall) a thread that sleeps, whose
  -- queue is empty, whose semaphore is free and that has memory and room for the message: then the
  -- called thread runs, and IpcReceive of any message by it, without MSG_KEEP, returns 1 with the
  -- message as it was sent and the caller's identifier in it. Its queue is empty again, its
  -- semaphore is free, and the memory of the message is given back.
  pub receive-call :
      (r : ℕ) (now : ℕ → ℕ) (any : Message) (flag timeout fuel : ℕ) (wait' fresh : Ptr)
      → any.command ≡ 0
      → keeps flag ≡ false
      → (s1 s2 : Mailboxes) × (call_thread p msg infinite wait k nod s ≡ blocked s1)
        × (s1.scheduler.running ≡ p)
        × (receive_current (suc r) now null any flag timeout fuel wait' fresh s1
            ≡ ok (pos 1, from_sender msg w) s2)
        × IsQueue d (mailbox_of p s2).queue []
        × Taken (suc dw) (mailbox_of p s1) (mailbox_of p s2) k
  receive-call r now any flag timeout fuel wait' fresh c kp =
      let x = called in
      let box = mailbox_of p x.s1 in
      let (t, run, isq', taken) =
        receive_oldest box (suc dw) d r now any flag timeout fuel wait' fresh x.free_again nod k []
          asleep x.queue c kp kn x.from in
      let back = sym (mailbox_of-set_mailbox p t x.s1) in
      (
        x.s1,
        set_mailbox p t x.s1,
        x.run,
        x.receiver,
        receive_current_run (suc r) now null any flag timeout fuel wait' fresh p x.s1 _ t x.receiver
              run
            ∙ ap (λ z. ok (pos 1, from_sender z w) (set_mailbox p t x.s1)) x.user_message,
        subst (λ b. IsQueue d b.queue []) back isq',
        subst (λ b. Taken (suc dw) box b k) back taken,
      )
