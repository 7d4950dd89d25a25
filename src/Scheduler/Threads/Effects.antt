-- ===== src/Scheduler/Threads/Effects.antt =====
-- What the operations of kernel/tm/thread.c do to the chains.
use sgos.Prelude.{
  ℕ, ◌/◌, ◌%◌, ◌^◌, ◌<◌, ◌≡◌, ◌≢◌, refl, sym, subst, true, false, ◌||◌, ◌∷◌, ◌++◌, arith,
}
use sgos.Prelude.Int.{pos}
use sgos.Prelude.Run.{ok}
use sgos.Dll.{Ptr, null, node}
use sgos.Dll.Links.{Cells, first, last}
use sgos.Scheduler.{
  ThreadState, ts_ready, ts_sleep, ts_wait, same, Thread, Scheduler, read, set_thread_state,
}
use sgos.Scheduler.Chains.{chained, Chains, IsScheduler, replaced}
use sgos.Scheduler.Change.{read_in, move_in, in_state}
use sgos.Scheduler.Threads.{err_unknown, generate_thread_id, wakeup_thread}

-- The identifier of a thread holds that of its space, and `threadId` is never a multiple of 4.
pub generate_thread_id_lem :
    (space_id thread_id : ℕ)
    → space_id < 2 ^ 16
    → thread_id < 2 ^ 16
    → ((generate_thread_id space_id thread_id).0 / 2 ^ 16 ≡ space_id)
      × ((generate_thread_id space_id thread_id).0 % 2 ^ 16 ≡ thread_id)
      × ((generate_thread_id space_id thread_id).1 < 2 ^ 16)
      × ((generate_thread_id space_id thread_id).1 % 4 ≢ 0)
unfolding generate_thread_id
generate_thread_id_lem space_id thread_id f g =
    (omega arith, omega arith, ground arith, ground arith)

wakeup_run :
    (s s' : Scheduler) (p b n : Ptr) (v : Thread)
    → read p s ≡ ok (node b v n) s
    → (same v.state ts_sleep || same v.state ts_wait) ≡ true
    → set_thread_state p ts_ready s ≡ ok tt s'
    → wakeup_thread p s ≡ ok (pos 0) s'
unfolding wakeup_thread
wakeup_run s s' p b n v r a m = ground arith

refuse_run :
    (s : Scheduler) (p b n : Ptr) (v : Thread)
    → read p s ≡ ok (node b v n) s
    → (same v.state ts_sleep || same v.state ts_wait) ≡ false
    → wakeup_thread p s ≡ ok err_unknown s
unfolding wakeup_thread
refuse_run s p b n v r a = ground arith

module _ (s : Scheduler) (xs : Chains) (a : ThreadState) (p : Ptr) (v : Thread)
    (ys zs : Cells Thread) (is : IsScheduler s xs) (c : chained a ≡ true)
    (e : xs a ≡ ys ++ (p, v) ∷ zs) where
  -- TmWakeupThread returns 0 for a thread in the chain of the sleeping or of the waiting ones, and
  -- moves it to the head of the ready chain.
  pub wakeup_thread_moves :
      (same a ts_sleep || same a ts_wait) ≡ true
      → (s' : Scheduler) × (wakeup_thread p s ≡ ok (pos 0) s')
        × IsScheduler s'
            (replaced xs a (ys ++ zs) ts_ready ((p, record v { state = ts_ready }) ∷ xs ts_ready))
        × (s'.running ≡ s.running)
        × (s'.next ≡ s.next)
  wakeup_thread_moves h =
      let k = in_state s xs a p v ys zs is c e in
      let (s', m, is', r, n) = move_in s xs a p v ys zs is c e ts_ready refl (ground arith) in
      (
        s',
        wakeup_run s s' p (last ys null) (first zs null) v (read_in s xs a p v ys zs is c e)
            (subst (λ t. (same t ts_sleep || same t ts_wait) ≡ true) (sym k) h) m,
        is',
        r,
        n,
      )

  -- For a thread in any other chain it returns -ERR_UNKNOWN and changes nothing.
  pub wakeup_thread_refuses :
      (same a ts_sleep || same a ts_wait) ≡ false → wakeup_thread p s ≡ ok err_unknown s
  wakeup_thread_refuses h =
      refuse_run s p (last ys null) (first zs null) v (read_in s xs a p v ys zs is c e) (
        subst (λ t. (same t ts_sleep || same t ts_wait) ≡ false)
          (sym (in_state s xs a p v ys zs is c e)) h)
