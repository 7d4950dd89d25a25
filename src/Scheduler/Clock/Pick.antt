-- ===== src/Scheduler/Clock/Pick.antt =====
-- TmSchedule of kernel/tm/sched.c.
use sgos.Prelude.{
  append_snoc, ◌≡◌, ◌≢◌, refl, sym, ap, ◌∙◌, subst, false, some, [], ◌∷◌, ◌++◌, arith,
}
use sgos.Prelude.Run.{ok, blocked}
use sgos.Dll.{Ptr, null, node}
use sgos.Dll.Links.{Cells, has, first, last}
use sgos.Scheduler.{ts_ready, ts_idle, same, Thread, Scheduler}
use sgos.Scheduler.Chains.{Chains, IsScheduler}
use sgos.Scheduler.Clock.{dispatch, schedule}
use sgos.Scheduler.Change.{read_in, in_not_null, in_state, in_cell, in_once, has-middle}
use sgos.Scheduler.Clock.Dispatch.{
  sliced, SwitchedTo, dispatch_switches, next_ready_run, next_ready_head, schedule_run,
  schedule_idle_run, read_run, ready_is, idle_is, ne_state,
}

-- TmSchedule goes from a ready thread, outside interrupts, to the one that follows it in the ready
-- chain, with a time slice of 5.
pub schedule_next :
    (s : Scheduler) (xs : Chains) (p : Ptr) (v : Thread) (q : Ptr) (w : Thread)
    (ys zs : Cells Thread)
    → IsScheduler s xs
    → xs ts_ready ≡ ys ++ (p, v) ∷ (q, w) ∷ zs
    → s.running ≡ p
    → v.is_interrupted ≡ false
    → (s' : Scheduler) × (schedule s ≡ blocked s')
      × SwitchedTo q xs ts_ready (ys ++ (p, v) ∷ (q, sliced 5 w) ∷ zs) s'
schedule_next s xs p v q w ys zs is e run i =
    let e' = e ∙ sym (append_snoc ys ((q, w) ∷ zs) (p, v)) in
    let us = ys ++ (p, v) ∷ [] in
    let o = in_once s xs ts_ready p v ys ((q, w) ∷ zs) is refl e in
    let qn = in_not_null s xs ts_ready q w us zs is refl e' in
    let pick =
      next_ready_run s p (last ys null) q (last us null) (first zs null) v w
        (read_in s xs ts_ready p v ys ((q, w) ∷ zs) is refl e)
        (in_state s xs ts_ready p v ys ((q, w) ∷ zs) is refl e) qn
        (read_in s xs ts_ready q w us zs is refl e')
        (in_state s xs ts_ready q w us zs is refl e') in
    let (s', d, sw) =
      dispatch_switches s xs ts_ready p (last ys null) q v q w us zs 5 is refl e' (ground arith)
        (in_not_null s xs ts_ready p v ys ((q, w) ∷ zs) is refl e)
        (in_cell s xs ts_ready p v ys ((q, w) ∷ zs) is refl e) i in
    (
      s',
      schedule_run s p q run pick qn ∙ d,
      subst (λ l. SwitchedTo q xs ts_ready l s') (append_snoc ys ((q, sliced 5 w) ∷ zs) (p, v)) sw,
    )

-- From the last thread of the ready chain it goes back to the first.
pub schedule_wraps :
    (s : Scheduler) (xs : Chains) (p : Ptr) (v : Thread) (q : Ptr) (w : Thread) (ys : Cells Thread)
    → IsScheduler s xs
    → xs ts_ready ≡ (q, w) ∷ ys ++ (p, v) ∷ []
    → s.running ≡ p
    → v.is_interrupted ≡ false
    → (s' : Scheduler) × (schedule s ≡ blocked s')
      × SwitchedTo q xs ts_ready ((q, sliced 5 w) ∷ ys ++ (p, v) ∷ []) s'
schedule_wraps s xs p v q w ys is e run i =
    let us = (q, w) ∷ ys in
    let o = in_once s xs ts_ready q w [] (ys ++ (p, v) ∷ []) is refl e in
    let qn = in_not_null s xs ts_ready q w [] (ys ++ (p, v) ∷ []) is refl e in
    let pick =
      next_ready_head s p (last us null) null v (read_in s xs ts_ready p v us [] is refl e)
        (ground arith) in
    let (s', d, sw) =
      dispatch_switches s xs ts_ready p (last us null) null v q w [] (ys ++ (p, v) ∷ []) 5 is refl e
        (λ z.
          absurd (cc (has-middle p v ys [], subst (λ t. has t (ys ++ (p, v) ∷ []) ≡ false) z o)))
        (in_not_null s xs ts_ready p v us [] is refl e) (in_cell s xs ts_ready p v us [] is refl e)
        i in
    (
      s',
      schedule_run s p q run
            (pick ∙ ap (λ t. ok t s) (ready_is s xs ((q, w) ∷ ys ++ (p, v) ∷ []) is e)) qn
          ∙ d,
      sw,
    )

-- From a thread that is no longer ready it goes to the first ready one.
pub schedule_first :
    (s : Scheduler) (xs : Chains) (p b n : Ptr) (v : Thread) (q : Ptr) (w : Thread)
    (zs : Cells Thread)
    → IsScheduler s xs
    → xs ts_ready ≡ (q, w) ∷ zs
    → s.running ≡ p
    → p ≢ null
    → s.threads p ≡ some (node b v n)
    → same v.state ts_ready ≡ false
    → v.is_interrupted ≡ false
    → (s' : Scheduler) × (schedule s ≡ blocked s')
      × SwitchedTo q xs ts_ready ((q, sliced 5 w) ∷ zs) s'
schedule_first s xs p b n v q w zs is e run pn at nr i =
    let qn = in_not_null s xs ts_ready q w [] zs is refl e in
    let qat = in_cell s xs ts_ready q w [] zs is refl e in
    let qs = in_state s xs ts_ready q w [] zs is refl e in
    let pick = next_ready_head s p b n v (read_run s p b n v pn at) (ground arith) in
    let (s', d, sw) =
      dispatch_switches s xs ts_ready p b n v q w [] zs 5 is refl e
        (ne_state s p q b (null) n (first zs null) v w ts_ready at qat qs nr) pn at i in
    (
      s',
      schedule_run s p q run (pick ∙ ap (λ t. ok t s) (ready_is s xs ((q, w) ∷ zs) is e)) qn ∙ d,
      sw,
    )

-- With no ready thread it goes, from a thread that is not idle itself, to the first idle one, for
-- one tick.
pub schedule_idle :
    (s : Scheduler) (xs : Chains) (p b n : Ptr) (v : Thread) (q : Ptr) (w : Thread)
    (zs : Cells Thread)
    → IsScheduler s xs
    → xs ts_ready ≡ []
    → xs ts_idle ≡ (q, w) ∷ zs
    → s.running ≡ p
    → p ≢ null
    → s.threads p ≡ some (node b v n)
    → same v.state ts_ready ≡ false
    → same v.state ts_idle ≡ false
    → v.is_interrupted ≡ false
    → (s' : Scheduler) × (schedule s ≡ blocked s')
      × SwitchedTo q xs ts_idle ((q, sliced 1 w) ∷ zs) s'
schedule_idle s xs p b n v q w zs is e0 e run pn at nr ni i =
    let qn = in_not_null s xs ts_idle q w [] zs is refl e in
    let qat = in_cell s xs ts_idle q w [] zs is refl e in
    let qs = in_state s xs ts_idle q w [] zs is refl e in
    let rd = read_run s p b n v pn at in
    let pick =
      next_ready_head s p b n v rd (ground arith) ∙ ap (λ t. ok t s) (ready_is s xs [] is e0) in
    let hd = idle_is s xs ((q, w) ∷ zs) is e in
    let (s', d, sw) =
      dispatch_switches s xs ts_idle p b n v q w [] zs 1 is refl e
        (ne_state s p q b null n (first zs null) v w ts_idle at qat qs ni) pn at i in
    (
      s',
      schedule_idle_run s p b n v run pick rd (λ z. qn (sym hd ∙ z))
          ∙ ap (λ t. dispatch p t 1 s) hd
          ∙ d,
      sw,
    )
