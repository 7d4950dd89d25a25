-- ===== src/Message/Outcomes.antt =====
-- What IpcReceive of kernel/ipc/message.c gives, and what it leaves behind.
use sgos.Prelude.{
  ℕ, suc, ◌<◌, ◌≡◌, ◌≢◌, refl, ap, ◌∙◌, true, false, some, [], ◌∷◌, ◌++◌, length, arith,
}
use sgos.Prelude.Int.{pos}
use sgos.Prelude.Run.{ok}
use sgos.Dll.{Ptr, null, node}
use sgos.Dll.Links.{Cells}
use sgos.Queue.Shape.{IsQueue}
use sgos.Queue.Pop.{pop_back-cons, pop_back-nil}
use sgos.Queue.Search.{find, search_queue-find, remove_element-append}
use sgos.Scheduler.{Thread}
use sgos.Semaphore.{with_value}
use sgos.Semaphore.Free.{lock_free, unlock_free, IsIdle}
use sgos.Message.{
  Message, Mailbox, receive, with_command, from_source, err_timeout, timed_out, keeps, has_source,
  stops,
}
use sgos.Message.Receive.{
  Sourced, find-stops, taken, choose_any, choose_command, choose_source, hit_run, late_run,
  hand_over_erase, hand_over_remove,
}

-- The message `k`, from a thread that is there, with the identifier of that thread.
pub record From (s : Mailbox) (k : ℕ) (v : Thread) : Type 0 where
  pub prev : Ptr
  pub next : Ptr
  pub at : s.ipc.scheduler.threads (s.messages k).source ≡ some (node prev v next)
  pub not_null : (s.messages k).source ≢ null

From-source : (s : Mailbox) (k : ℕ) (v : Thread) → From s k v → has_source s k ≡ true
From-source s k v f = rw f.at (ground (arith, f.not_null))

abbrev pub message_of : Mailbox → ℕ → Thread → Message
message_of s k v = record (s.messages k).user_message { thread_id = v.thread_id }

-- The message `k` was given back, and nothing but it and the queue is changed in the end.
pub record Taken (dw : ℕ) (s s' : Mailbox) (k : ℕ) : Type 0 where
  pub freed : s'.freed ≡ k ∷ s.freed
  pub idle : IsIdle (suc dw) s'.ipc 1
  pub scheduler : s'.ipc.scheduler ≡ s.ipc.scheduler
  pub messages : s'.messages ≡ s.messages

module _ (s : Mailbox) (dw d r : ℕ) (now : ℕ → ℕ) (msg : Message) (flag timeout fuel : ℕ)
    (wait fresh : Ptr) (idle : IsIdle dw s.ipc 1) where
  -- IpcReceive of any message without MSG_KEEP, in a queue that is not empty: it returns 1 with the
  -- oldest message and its sender's identifier, the entry leaves the queue, and the semaphore is
  -- free again.
  pub receive_oldest :
      (nod : Ptr) (k : ℕ) (us : Cells ℕ) (v : Thread)
      → IsQueue d s.queue ((nod, k) ∷ us)
      → msg.command ≡ 0
      → keeps flag ≡ false
      → k ≢ null
      → From s k v
      → (s' : Mailbox) × (receive (suc r) now null msg flag timeout fuel wait fresh s
          ≡ ok (pos 1, message_of s k v) s')
        × IsQueue d s'.queue us
        × Taken dw s s' k
  unfolding receive
  receive_oldest nod k us v isq c kp kn f =
      let (q, e, isq', _) = pop_back-cons d s.queue nod k us isq in
      let (t, u, idle', same) =
        unlock_free dw (with_value s.ipc 0) (record { empty = idle.empty; at = refl }) in
      let s1 : Mailbox = record (taken s) { queue = q } in
      (
        record s { ipc = t; queue = q; freed = k ∷ s.freed },
        rw kp (
            hit_run r now null msg false timeout (now (suc r)) fuel wait fresh s s1 null k
              (lock_free s.ipc wait idle.at) (choose_any (taken s) msg fuel k q c e) kn
            ∙ hand_over_erase s1 null k fresh t f.prev f.next v u
                (ap (λ z. z.threads (s.messages k).source) same ∙ f.at) f.not_null),
        isq',
        record { freed = refl; idle = idle'; scheduler = same; messages = refl },
      )

  -- IpcReceive from the thread `src` without MSG_KEEP, where the queue holds a message of it and the
  -- source of every message in the queue is still a thread: it
  -- returns 1 with the oldest such message, and takes its entry out of the queue.
  pub receive-from_source :
      (src nod : Ptr) (k : ℕ) (ys zs : Cells ℕ) (v : Thread)
      → IsQueue d s.queue (ys ++ (nod, k) ∷ zs)
      → length (ys ++ (nod, k) ∷ zs) < fuel
      → Sourced s (ys ++ (nod, k) ∷ zs)
      → find (from_source s msg) (ys ++ (nod, k) ∷ zs) ≡ (nod, k)
      → src ≢ null
      → msg.command ≡ 0
      → keeps flag ≡ false
      → k ≢ null
      → From s k v
      → (s' : Mailbox) × (receive (suc r) now src msg flag timeout fuel wait fresh s
          ≡ ok (pos 1, message_of s k v) s')
        × IsQueue d s'.queue (ys ++ zs)
        × Taken dw s s' k
  unfolding receive
  receive-from_source src nod k ys zs v isq enough all hit sn c kp kn f =
      let us = ys ++ (nod, k) ∷ zs in
      let (q, e, isq', _) = remove_element-append d s.queue ys nod k zs isq in
      let (t, u, idle', same) =
        unlock_free dw (with_value s.ipc 0) (record { empty = idle.empty; at = refl }) in
      let found =
        search_queue-find (stops s (from_source s msg)) fuel d s.queue us isq enough
        ∙ ap (λ x. ok x s.queue) (find-stops s (from_source s msg) us all ∙ hit) in
      (
        record s { ipc = t; queue = q; freed = k ∷ s.freed },
        rw kp (
            hit_run r now src msg false timeout (now (suc r)) fuel wait fresh s (taken s) nod k
              (lock_free s.ipc wait idle.at)
              (choose_source (taken s) src msg fuel k nod sn c found (From-source s k v f)) kn
            ∙ hand_over_remove (taken s) src nod k fresh t q f.prev f.next v sn u e
                (ap (λ z. z.threads (s.messages k).source) same ∙ f.at) f.not_null),
        isq',
        record { freed = refl; idle = idle'; scheduler = same; messages = refl },
      )

  -- IpcReceive of a message with a given command from any thread, without MSG_KEEP: the message that
  -- it returns is given back, but its entry stays in the queue, which is unchanged.
  pub receive_by_command_dangles :
      (nod : Ptr) (k : ℕ) (us : Cells ℕ) (v : Thread)
      → IsQueue d s.queue us
      → length us < fuel
      → find (with_command s msg) us ≡ (nod, k)
      → msg.command ≢ 0
      → keeps flag ≡ false
      → k ≢ null
      → From s k v
      → (s' : Mailbox) × (receive (suc r) now null msg flag timeout fuel wait fresh s
          ≡ ok (pos 1, message_of s k v) s')
        × (s'.queue ≡ s.queue)
        × Taken dw s s' k
  unfolding receive
  receive_by_command_dangles nod k us v isq enough hit c kp kn f =
      let (t, u, idle', same) =
        unlock_free dw (with_value s.ipc 0) (record { empty = idle.empty; at = refl }) in
      let found =
        search_queue-find (with_command s msg) fuel d s.queue us isq enough
        ∙ ap (λ x. ok x s.queue) hit in
      (
        record s { ipc = t; freed = k ∷ s.freed },
        rw kp (
            hit_run r now null msg false timeout (now (suc r)) fuel wait fresh s (taken s) nod k
              (lock_free s.ipc wait idle.at) (choose_command (taken s) msg fuel k nod c found) kn
            ∙ hand_over_erase (taken s) nod k fresh t f.prev f.next v u
                (ap (λ z. z.threads (s.messages k).source) same ∙ f.at) f.not_null),
        refl,
        record { freed = refl; idle = idle'; scheduler = same; messages = refl },
      )

  -- IpcReceive of any message, once its time is over and the queue is empty: it returns
  -- -ERR_TIMEOUT and leaves the owner's semaphore taken.
  pub receive_times_out :
      IsQueue d s.queue []
      → msg.command ≡ 0
      → timeout ≢ 0
      → timed_out timeout (now (suc r)) (now r) ≡ true
      → (s' : Mailbox) × (receive (suc r) now null msg flag timeout fuel wait fresh s
          ≡ ok (err_timeout, msg) s')
        × IsQueue (suc d) s'.queue []
        × (s'.ipc ≡ with_value s.ipc 0)
  unfolding receive
  receive_times_out isq c nz late =
      let (q, e, isq', _) = pop_back-nil d s.queue isq in
      (
        record (taken s) { queue = q },
        late_run r now null msg (keeps flag) timeout (now (suc r)) fuel wait fresh s
            (record (taken s) { queue = q }) null (lock_free s.ipc wait idle.at)
            (choose_any (taken s) msg fuel null q c e) nz late,
        isq',
        refl,
      )
