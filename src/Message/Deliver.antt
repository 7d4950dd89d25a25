-- ===== src/Message/Deliver.antt =====
-- IpcSend of kernel/ipc/message.c: a message reaches the queue of a thread that sleeps.
use sgos.Prelude.{
  ℕ, suc, ◌+◌, ◌<◌, ◌≡◌, ◌≢◌, refl, ap, ◌∙◌, false, [], ◌∷◌, ◌++◌, arith, length, ◌==◌,
  if◌then◌else◌,
}
use sgos.Prelude.Int.{pos}
use sgos.Prelude.Run.{ok}
use sgos.Dll.{Ptr, null, node}
use sgos.Dll.Links.{Cells, has, first, last}
use sgos.Queue.{Queue, push_front}
use sgos.Queue.Shape.{IsQueue}
use sgos.Queue.Push.{push_front-snoc}
use sgos.Scheduler.{ts_ready, ts_sleep, same, Thread, Scheduler, read}
use sgos.Scheduler.Chains.{Chains, IsScheduler, replaced}
use sgos.Scheduler.Change.{in_not_null, in_state, read_in}
use sgos.Scheduler.Threads.{wakeup_thread}
use sgos.Scheduler.Threads.Effects.{wakeup_thread_moves}
use sgos.Semaphore.{Ipc, with_value, lock, unlock}
use sgos.Semaphore.Free.{lock_free, unlock_free, IsIdle}
use sgos.Message.{Message, KMessage, Mailbox, set_message, deliver, send}

-- The state with the message stored.
abbrev stored : Mailbox → Ptr → Message → ℕ → ℕ → KMessage
stored s dest msg k =
    set_message s.messages k
      (record { user_message = msg; destination = dest; source = s.ipc.scheduler.running })

deliver_run :
    (s : Mailbox) (dest : Ptr) (msg : Message) (k : ℕ) (nod : Ptr) (q : Queue) (t : Ipc)
    (u : Scheduler)
    → push_front k nod s.queue ≡ ok (pos 0) q
    → unlock s.ipc ≡ ok tt t
    → wakeup_thread dest t.scheduler ≡ ok (pos 0) u
    → deliver dest msg k nod s
      ≡ ok
          (pos 0)
          (record s { ipc = record t { scheduler = u }; queue = q; messages = stored s dest msg k })
unfolding deliver
deliver_run s dest msg k nod q t u p e w = ground arith

send_run :
    (s : Mailbox) (dest : Ptr) (msg : Message) (wait : Ptr) (k : ℕ) (nod : Ptr) (t : Ipc)
    (b n : Ptr) (v : Thread)
    → dest ≢ null
    → k ≢ null
    → lock wait s.ipc ≡ ok tt t
    → read dest t.scheduler ≡ ok (node b v n) t.scheduler
    → v.state ≡ ts_sleep
    → send dest msg wait k nod s ≡ deliver dest msg k nod (record s { ipc = t })
unfolding send
send_run s dest msg wait k nod t b n v nn kn l r e = ground arith

module _ (s : Mailbox) (xs : Chains) (p : Ptr) (v : Thread) (ys zs : Cells Thread) (dw d m : ℕ)
    (us : Cells ℕ) (msg : Message) (wait : Ptr) (k : ℕ) (nod : Ptr) (idle : IsIdle dw s.ipc 1)
    (is : IsScheduler s.ipc.scheduler xs) (e : xs ts_sleep ≡ ys ++ (p, v) ∷ zs)
    (isq : IsQueue d s.queue us) (max : s.queue.max_num ≡ pos m) (room : length us < m + d)
    (nn : nod ≢ null) (out : has nod us ≡ false) (kn : k ≢ null) where
  -- IpcSend to a thread that sleeps, while its semaphore is free, nobody waits for that and there
  -- is memory and room: the call returns 0, the message is the newest entry of the thread's queue
  -- with the current thread as its source, the semaphore is free again, and the thread moves from
  -- the sleeping chain to the head of the ready chain, while the current thread goes on.
  pub send_delivers :
      (s' : Mailbox) × (send p msg wait k nod s ≡ ok (pos 0) s')
      × IsQueue d s'.queue (us ++ (nod, k) ∷ [])
      × ((j : ℕ)
          → s'.messages j ≡ (
              if j == k
              then record { user_message = msg; destination = p; source = s.ipc.scheduler.running }
              else s.messages j))
      × IsIdle (suc dw) s'.ipc 1
      × IsScheduler s'.ipc.scheduler (
          replaced xs ts_sleep
            (ys ++ zs)
            ts_ready
            ((p, record v { state = ts_ready }) ∷ xs ts_ready))
      × (s'.ipc.scheduler.running ≡ s.ipc.scheduler.running)
  send_delivers =
      let locked = with_value s.ipc 0 in
      let (q, pe, isq') = push_front-snoc d m s.queue us k nod isq max room nn out in
      let (t, ue, idle', same) = unlock_free dw locked (record { empty = idle.empty; at = refl }) in
      let (u, we, isu, r, _) =
        wakeup_thread_moves s.ipc.scheduler xs ts_sleep p v ys zs is refl e refl in
      let s1 : Mailbox = record s { ipc = locked } in
      (
        record s { ipc = record t { scheduler = u }; queue = q; messages = stored s p msg k },
        send_run s p msg wait k nod locked (last ys null) (first zs null) v
              (in_not_null s.ipc.scheduler xs ts_sleep p v ys zs is refl e) kn
              (lock_free s.ipc wait idle.at)
              (read_in s.ipc.scheduler xs ts_sleep p v ys zs is refl e)
              (in_state s.ipc.scheduler xs ts_sleep p v ys zs is refl e)
            ∙ deliver_run s1 p msg k nod q t u pe ue (ap (wakeup_thread p) same ∙ we),
        isq',
        λ j. refl,
        record { empty = idle'.empty; at = idle'.at },
        isu,
        r,
      )
