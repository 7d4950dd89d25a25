-- ===== src/Scheduler/Clock/Round.antt =====
-- One round of the loop of TmIncreaseTime (kernel/tm/sched.c) over the waiting threads, and what
-- the whole loop is to do.
use sgos.Prelude.{
  ℕ, suc, ◌≡◌, ◌≢◌, refl, ap, true, false, [], ◌∷◌, ◌++◌, arith, ◌==◌, if◌then◌else◌,
}
use sgos.Prelude.Run.{ok}
use sgos.Dll.{Ptr, null, node}
use sgos.Dll.Links.{Cells, first, last}
use sgos.Scheduler.{
  ThreadState, ts_ready, ts_wait, Thread, Scheduler, read, change, set_thread_state,
}
use sgos.Scheduler.Chains.{Chains, IsScheduler, replaced}
use sgos.Scheduler.Clock.{expired, minus32, ms, back_to, tick, tick_loop}
use sgos.Scheduler.Change.{IsScheduler-same, put, read_in, change_in, move_in, in_not_null}

-- A waiting thread after a tick, and the thread that a tick wakes.
abbrev pub ticked : Thread → Thread
ticked v = record v { clock = minus32 v.clock ms }

abbrev pub woken : Thread → Thread
woken v = record (ticked v) { state = ts_ready }

-- Where the loop is: at the head of the chain, at a head that it passes over since the thread
-- before it woke, or behind a thread that goes on waiting.
pub data Place : Type 0 where
  at_head skipping inside : Place

-- The threads that go on waiting, and the ready ones in front of `rs`, after the loop over `zs`.
unfoldable pub left_waiting : Place → Cells Thread → Cells Thread
left_waiting m [] = []
left_waiting skipping (x ∷ zs) = x ∷ left_waiting inside zs
left_waiting at_head ((p, v) ∷ zs) =
    let skip = left_waiting skipping zs in
    let go = left_waiting inside zs in if expired (ticked v).clock then skip else (p, ticked v) ∷ go
left_waiting inside ((p, v) ∷ zs) =
    let go = left_waiting inside zs in if expired (ticked v).clock then go else (p, ticked v) ∷ go

unfoldable pub made_ready : Place → Cells Thread → Cells Thread → Cells Thread
made_ready m [] rs = rs
made_ready skipping (x ∷ zs) rs = made_ready inside zs rs
made_ready at_head ((p, v) ∷ zs) rs =
    let skip = made_ready skipping zs ((p, woken v) ∷ rs) in
    let go = made_ready inside zs rs in if expired (ticked v).clock then skip else go
made_ready inside ((p, v) ∷ zs) rs =
    let wake = made_ready inside zs ((p, woken v) ∷ rs) in
    let go = made_ready inside zs rs in if expired (ticked v).clock then wake else go

-- The chains with these waiting and ready threads.
abbrev pub Waits : Chains → Cells Thread → Cells Thread → Chains
Waits xs ws rs = replaced xs ts_wait ws ts_ready rs

put_same :
    (xs : Chains) (ws ws' rs : Cells Thread) (t : ThreadState)
    → put (Waits xs ws rs) ts_wait ws' t ≡ Waits xs ws' rs t
put_same xs ws ws' rs t = ground arith

replaced_same :
    (xs : Chains) (ws ws' rs rs' : Cells Thread) (t : ThreadState)
    → replaced (Waits xs ws rs) ts_wait ws' ts_ready rs' t ≡ Waits xs ws' rs' t
replaced_same xs ws ws' rs rs' t = ground arith

module _ (xs : Chains) (s : Scheduler) (ys zs rs : Cells Thread) (p : Ptr) (v : Thread)
    (is : IsScheduler s (Waits xs (ys ++ (p, v) ∷ zs) rs)) where
  -- The clock of the thread runs on; if that does not end its wait, it stays where it is.
  tick_on :
      (s' : Scheduler) × (change p ticked s ≡ ok tt s')
      × IsScheduler s' (Waits xs (ys ++ (p, ticked v) ∷ zs) rs)
  tick_on =
      let (s', run, is', _, _, _) =
        change_in s (Waits xs (ys ++ (p, v) ∷ zs) rs) ts_wait p v ys zs is refl refl ticked refl in
      (
        s',
        run,
        IsScheduler-same s' _ _ (put_same xs (ys ++ (p, v) ∷ zs) (ys ++ (p, ticked v) ∷ zs) rs) is',
      )

  wake_up :
      (s' : Scheduler) × (set_thread_state p ts_ready s ≡ ok tt s')
      × IsScheduler s' (Waits xs (ys ++ zs) ((p, record v { state = ts_ready }) ∷ rs))
  wake_up =
      let (s', run, is', _, _) =
        move_in s (Waits xs (ys ++ (p, v) ∷ zs) rs) ts_wait p v ys zs is refl refl ts_ready refl
          refl in
      (
        s',
        run,
        IsScheduler-same s' _ _
            (replaced_same xs (ys ++ (p, v) ∷ zs) (ys ++ zs) rs
              ((p, record v { state = ts_ready }) ∷ rs))
            is',
      )

-- The two courses of one round.
tick_stay_run :
    (s s1 : Scheduler) (p b n : Ptr) (v : Thread)
    → change p ticked s ≡ ok tt s1
    → read p s1 ≡ ok (node b v n) s1
    → expired v.clock ≡ false
    → tick p s ≡ ok p s1
unfolding tick
tick_stay_run s s1 p b n v c r x = ground arith

tick_wake_run :
    (s s1 s2 : Scheduler) (p b n : Ptr) (v : Thread)
    → change p ticked s ≡ ok tt s1
    → read p s1 ≡ ok (node b v n) s1
    → expired v.clock ≡ true
    → set_thread_state p ts_ready s1 ≡ ok tt s2
    → tick p s ≡ ok (if b == null then s2.wait else b) s2
unfolding tick back_to
tick_wake_run s s1 s2 p b n v c r x w = ground arith

pub loop_run :
    (k : ℕ) (s s1 : Scheduler) (p at b n : Ptr) (v : Thread)
    → p ≢ null
    → tick p s ≡ ok at s1
    → at ≢ null
    → read at s1 ≡ ok (node b v n) s1
    → tick_loop (suc k) p s ≡ tick_loop k n s1
unfolding tick_loop
loop_run k s s1 p at b n v nn t an r = ground arith

pub loop_stop :
    (k : ℕ) (s s1 : Scheduler) (p : Ptr)
    → p ≢ null
    → tick p s ≡ ok null s1
    → tick_loop (suc k) p s ≡ ok tt s1
unfolding tick_loop
loop_stop k s s1 p nn t = ground arith

pub loop_end : (k : ℕ) (s : Scheduler) → tick_loop (suc k) null s ≡ ok tt s
unfolding tick_loop
loop_end k s = refl

-- The last of a list that is not empty.
last_split :
    (q : Ptr) (w : Thread) (ys : Cells Thread)
    → (us : Cells Thread) × (u : Thread) × ((zs : Cells Thread)
        → (q, w) ∷ ys ++ zs ≡ us ++ (last ys q, u) ∷ zs)
last_split q w [] = ([], w, λ zs. refl)
last_split q w ((r, x) ∷ ys) =
    let (us, u, e) = last_split r x ys in ((q, w) ∷ us, u, λ zs. ap (λ l. (q, w) ∷ l) (e zs))

pub read-last :
    (xs : Chains) (s : Scheduler) (q : Ptr) (w : Thread) (ys zs rs : Cells Thread)
    → IsScheduler s (Waits xs ((q, w) ∷ ys ++ zs) rs)
    → (last ys q ≢ null)
      × (b : Ptr) × (u : Thread) × (read (last ys q) s ≡ ok (node b u (first zs null)) s)
read-last xs s q w ys zs rs is =
    let (us, u, e) = last_split q w ys in
    let c = Waits xs ((q, w) ∷ ys ++ zs) rs in
    (
      in_not_null s c ts_wait (last ys q) u us zs is refl (e zs),
      last us null,
      u,
      read_in s c ts_wait (last ys q) u us zs is refl (e zs),
    )

-- The loop over `zs` behind the threads `ys`, at `m`.
abbrev pub Ends : Chains → ℕ → Ptr → Scheduler → Cells Thread → Cells Thread → Type 0
Ends xs fuel p s ws rs =
    (s' : Scheduler) × (tick_loop fuel p s ≡ ok tt s') × IsScheduler s' (Waits xs ws rs)

module _ (xs : Chains) (k : ℕ) (s : Scheduler) (ys zs rs : Cells Thread) (p : Ptr) (v : Thread)
    (is : IsScheduler s (Waits xs (ys ++ (p, v) ∷ zs) rs)) where
  pub round_stay :
      expired (ticked v).clock ≡ false
      → (s' : Scheduler) × (tick_loop (suc k) p s ≡ tick_loop k (first zs null) s')
        × IsScheduler s' (Waits xs (ys ++ (p, ticked v) ∷ zs) rs)
  round_stay x =
      let (s1, c, is1) = tick_on xs s ys zs rs p v is in
      let w = Waits xs (ys ++ (p, ticked v) ∷ zs) rs in
      let r = read_in s1 w ts_wait p (ticked v) ys zs is1 refl refl in
      let nn = in_not_null s1 w ts_wait p (ticked v) ys zs is1 refl refl in
      (
        s1,
        loop_run k s s1 p p (last ys null) (first zs null) (ticked v) nn
            (tick_stay_run s s1 p (last ys null) (first zs null) (ticked v) c r x) nn r,
        is1,
      )

  pub round_wake :
      expired (ticked v).clock ≡ true
      → (s' : Scheduler) × (tick p s
          ≡ ok (if last ys null == null then s'.wait else last ys null) s')
        × IsScheduler s' (Waits xs (ys ++ zs) ((p, woken v) ∷ rs))
        × (p ≢ null)
  round_wake x =
      let (s1, c, is1) = tick_on xs s ys zs rs p v is in
      let w = Waits xs (ys ++ (p, ticked v) ∷ zs) rs in
      let r = read_in s1 w ts_wait p (ticked v) ys zs is1 refl refl in
      let (s2, m, is2) = wake_up xs s1 ys zs rs p (ticked v) is1 in
      (
        s2,
        tick_wake_run s s1 s2 p (last ys null) (first zs null) (ticked v) c r x m,
        is2,
        in_not_null s1 w ts_wait p (ticked v) ys zs is1 refl refl,
      )
