-- ===== src/Scheduler/Clock/Dispatch.antt =====
-- How TmSchedule of kernel/tm/sched.c finds a thread and changes to it.
use sgos.Prelude.{
  some_injective, ℕ, ◌≡◌, ◌≢◌, refl, sym, ap, ◌∙◌, true, false, some, ◌∷◌, ◌++◌, arith,
  if◌then◌else◌,
}
use sgos.Prelude.Run.{ok, blocked}
use sgos.Dll.{Ptr, null, node}
use sgos.Dll.Links.{Cells, first}
use sgos.Scheduler.{ThreadState, ts_ready, ts_idle, same, Thread, Scheduler, head, read, change}
use sgos.Scheduler.Chains.{chained, Chains, IsScheduler}
use sgos.Scheduler.Clock.{
  dispatch, switch_thread, ready_at, run_idle, idle_after, next_ready, next_idle, schedule,
}
use sgos.Scheduler.Change.{put, change_in}

-- A thread with a new time slice.
abbrev pub sliced : ℕ → Thread → Thread
sliced k v = record v { clock = k }

-- The state at a switch to `q`, which is in the chain `us ++ (q, w) ∷ ws` of the state `a`: `q`
-- runs, nothing is pending, and the chains are as they were, but for the time slice of `q`.
abbrev pub SwitchedTo : Ptr → Chains → ThreadState → Cells Thread → Scheduler → Type 0
SwitchedTo q xs a l s = (s.running ≡ q) × (s.next ≡ null) × IsScheduler s (put xs a l)

dispatch_run :
    (s s1 : Scheduler) (p q : Ptr) (k : ℕ) (b n : Ptr) (v : Thread)
    → q ≢ p
    → change q (sliced k) s ≡ ok tt s1
    → p ≢ null
    → s1.threads p ≡ some (node b v n)
    → v.is_interrupted ≡ false
    → dispatch p q k s ≡ blocked (record s1 { running = q; next = null })
unfolding dispatch switch_thread
dispatch_run s s1 p q k b n v ne c nn at i = ground arith

head_running :
    (t : ThreadState) (s : Scheduler) (q : Ptr)
    → chained t ≡ true
    → head t (record s { running = q; next = null }) ≡ head t s
head_running t s q c = ground arith

IsScheduler-running :
    (s : Scheduler) (xs : Chains) (q : Ptr)
    → IsScheduler s xs
    → IsScheduler (record s { running = q; next = null }) xs
IsScheduler-running s xs q is = record {
  links = is.links;
  heads = λ t c. head_running t s q c ∙ is.heads t c;
  states = is.states;
}

pub read_run :
    (s : Scheduler) (p b n : Ptr) (v : Thread)
    → p ≢ null
    → s.threads p ≡ some (node b v n)
    → read p s ≡ ok (node b v n) s
read_run s p b n v nn at = ground arith

pub dispatch_switches :
    (s : Scheduler) (xs : Chains) (a : ThreadState) (p : Ptr) (b n : Ptr) (v : Thread) (q : Ptr)
    (w : Thread) (us ws : Cells Thread) (k : ℕ)
    → IsScheduler s xs
    → chained a ≡ true
    → xs a ≡ us ++ (q, w) ∷ ws
    → q ≢ p
    → p ≢ null
    → s.threads p ≡ some (node b v n)
    → v.is_interrupted ≡ false
    → (s' : Scheduler) × (dispatch p q k s ≡ blocked s')
      × SwitchedTo q xs a (us ++ (q, sliced k w) ∷ ws) s'
dispatch_switches s xs a p b n v q w us ws k is c e ne nn at i =
    let (s1, run, is1, r, x, kept) = change_in s xs a q w us ws is c e (sliced k) refl in
    (
      record s1 { running = q; next = null },
      dispatch_run s s1 p q k b n v ne run nn (kept p (λ z. ne (sym z)) ∙ at) i,
      (refl, refl, IsScheduler-running s1 (put xs a (us ++ (q, sliced k w) ∷ ws)) q is1),
    )

-- Whom TmSchedule finds.
pub next_ready_run :
    (s : Scheduler) (p b q c m : Ptr) (v w : Thread)
    → read p s ≡ ok (node b v q) s
    → v.state ≡ ts_ready
    → q ≢ null
    → read q s ≡ ok (node c w m) s
    → w.state ≡ ts_ready
    → next_ready p s ≡ ok q s
unfolding next_ready ready_at
next_ready_run s p b q c m v w r e nn r' e' = ground arith

pub next_ready_head :
    (s : Scheduler) (p b n : Ptr) (v : Thread)
    → read p s ≡ ok (node b v n) s
    → (if same v.state ts_ready then n else null) ≡ null
    → next_ready p s ≡ ok s.ready s
unfolding next_ready
next_ready_head s p b n v r z = ground arith

pub schedule_run :
    (s : Scheduler) (p q : Ptr)
    → s.running ≡ p
    → next_ready p s ≡ ok q s
    → q ≢ null
    → schedule s ≡ dispatch p q 5 s
unfolding schedule
schedule_run s p q e r nn = ground arith

pub schedule_idle_run :
    (s : Scheduler) (p b n : Ptr) (v : Thread)
    → s.running ≡ p
    → next_ready p s ≡ ok null s
    → read p s ≡ ok (node b v n) s
    → s.idle ≢ null
    → schedule s ≡ dispatch p s.idle 1 s
unfolding schedule run_idle next_idle idle_after
schedule_idle_run s p b n v e r rd nn = ground arith

pub ready_is :
    (s : Scheduler) (xs : Chains) (l : Cells Thread)
    → IsScheduler s xs
    → xs ts_ready ≡ l
    → s.ready ≡ first l null
ready_is s xs l is e = some_injective (is.heads ts_ready refl) ∙ ap (λ t. first t null) e

pub idle_is :
    (s : Scheduler) (xs : Chains) (l : Cells Thread)
    → IsScheduler s xs
    → xs ts_idle ≡ l
    → s.idle ≡ first l null
idle_is s xs l is e = some_injective (is.heads ts_idle refl) ∙ ap (λ t. first t null) e

pub ne_state :
    (s : Scheduler) (p q b c n m : Ptr) (v w : Thread) (a : ThreadState)
    → s.threads p ≡ some (node b v n)
    → s.threads q ≡ some (node c w m)
    → w.state ≡ a
    → same v.state a ≡ false
    → q ≢ p
ne_state s p q b c n m v w a at at' e d z = ground arith
