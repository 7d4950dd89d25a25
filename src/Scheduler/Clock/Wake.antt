-- ===== src/Scheduler/Clock/Wake.antt =====
-- The loop of TmIncreaseTime (kernel/tm/sched.c) over the waiting threads.
use sgos.Prelude.{
  append_snoc, some_injective, if_true, if_false, ℕ, zero, suc, ◌<◌, ◌≡◌, refl, ap, sym, ◌∙◌, subst,
  true, inl, inr, Bool-cases, [], ◌∷◌, ◌++◌, arith, length,
}
use sgos.Dll.{Ptr, null}
use sgos.Dll.Links.{Cells, first, last}
use sgos.Scheduler.{ThreadState, ts_ready, ts_wait, Thread, Scheduler}
use sgos.Scheduler.Chains.{Chains, IsScheduler}
use sgos.Scheduler.Clock.{expired, tick_loop}
use sgos.Scheduler.Change.{IsScheduler-same, read_in, in_not_null}
use sgos.Scheduler.Clock.Round.{
  ticked, woken, at_head, skipping, inside, left_waiting, made_ready, Waits, Ends, round_stay,
  round_wake, loop_run, loop_stop, loop_end, read-last,
}

inside_wake :
    (xs : Chains) (k : ℕ) (s : Scheduler) (q : Ptr) (w : Thread) (ys zs rs : Cells Thread) (p : Ptr)
    (v : Thread)
    → IsScheduler s (Waits xs ((q, w) ∷ ys ++ (p, v) ∷ zs) rs)
    → expired (ticked v).clock ≡ true
    → (s' : Scheduler) × (tick_loop (suc k) p s ≡ tick_loop k (first zs null) s')
      × IsScheduler s' (Waits xs ((q, w) ∷ ys ++ zs) ((p, woken v) ∷ rs))
inside_wake xs k s q w ys zs rs p v is x =
    let (s2, t, is2, nn) = round_wake xs k s ((q, w) ∷ ys) zs rs p v is x in
    let (an, b, u, r) = read-last xs s2 q w ys zs ((p, woken v) ∷ rs) is2 in
    (s2, loop_run k s s2 p (last ys q) b (first zs null) u nn (t ∙ ground arith) an r, is2)

waits_eq :
    (xs : Chains) (s : Scheduler) (ws ws' rs rs' : Cells Thread)
    → ws ≡ ws'
    → rs ≡ rs'
    → IsScheduler s (Waits xs ws rs)
    → IsScheduler s (Waits xs ws' rs')
waits_eq xs s ws ws' rs rs' e k is =
    subst (λ l. IsScheduler s (Waits xs ws' l)) k (subst (λ l. IsScheduler s (Waits xs l rs)) e is)

tick_inside :
    (xs : Chains) (zs : Cells Thread) (fuel : ℕ) (s : Scheduler) (q : Ptr) (w : Thread)
    (ys rs : Cells Thread)
    → length zs < fuel
    → IsScheduler s (Waits xs ((q, w) ∷ ys ++ zs) rs)
    → Ends xs fuel
        (first zs null)
        s
        ((q, w) ∷ ys ++ left_waiting inside zs)
        (made_ready inside zs rs)
unfolding left_waiting made_ready
tick_inside xs zs zero s q w ys rs f is = absurd (omega arith)
tick_inside xs [] (suc k) s q w ys rs f is = (s, loop_end k s, is)
tick_inside xs ((p, v) ∷ zs) (suc k) s q w ys rs f is =
    elim (Bool-cases (expired (ticked v).clock)) [
      | inl x ↦
          let (s1, e, is1) = inside_wake xs k s q w ys zs rs p v is x in
          let (s2, e', is2) = tick_inside xs zs k s1 q w ys ((p, woken v) ∷ rs) (omega arith) is1 in
          (
            s2,
            e ∙ e',
            waits_eq xs s2 _ _ _ _
                (ap (λ l. (q, w) ∷ ys ++ l) (if_true (expired (ticked v).clock) _ _ x))
                (if_true (expired (ticked v).clock) _ _ x) is2,
          )
      | inr x ↦
          let (s1, e, is1) = round_stay xs k s ((q, w) ∷ ys) zs rs p v is x in
          let (s2, e', is2) =
            tick_inside xs zs k s1 q w (ys ++ (p, ticked v) ∷ []) rs (omega arith) (
              subst (λ l. IsScheduler s1 (Waits xs ((q, w) ∷ l) rs))
                (sym (append_snoc ys zs (p, ticked v))) is1) in
          (
            s2,
            e ∙ e',
            waits_eq xs s2 _ _ _ _
                (ap (λ l. (q, w) ∷ l) (append_snoc ys (left_waiting inside zs) (p, ticked v))
                  ∙ ap (λ l. (q, w) ∷ ys ++ l) (if_false (expired (ticked v).clock) _ _ x))
                (if_false (expired (ticked v).clock) _ _ x) is2,
          )
    ]

head_wake :
    (xs : Chains) (k : ℕ) (s : Scheduler) (zs rs : Cells Thread) (p : Ptr) (v : Thread)
    → IsScheduler s (Waits xs ((p, v) ∷ zs) rs)
    → expired (ticked v).clock ≡ true
    → length zs < suc k
    → Ends xs (suc k) p s (left_waiting skipping zs) (made_ready skipping zs ((p, woken v) ∷ rs))
unfolding left_waiting made_ready
head_wake xs k s [] rs p v is x f =
    let (s2, t, is2, nn) = round_wake xs k s [] [] rs p v is x in
    let h = is2.heads ts_wait refl in (s2, loop_stop k s s2 p nn (t ∙ ground arith), is2)
head_wake xs zero s (y ∷ zs) rs p v is x f = absurd (omega arith)
head_wake xs (suc k) s ((r, u) ∷ zs) rs p v is x f =
    let (s2, t, is2, nn) = round_wake xs (suc k) s [] ((r, u) ∷ zs) rs p v is x in
    let h = is2.heads ts_wait refl in
    let c = Waits xs ((r, u) ∷ zs) ((p, woken v) ∷ rs) in
    let rn = in_not_null s2 c ts_wait r u [] zs is2 refl refl in
    let rd = read_in s2 c ts_wait r u [] zs is2 refl refl in
    let e = loop_run (suc k) s s2 p r null (first zs null) u nn (t ∙ ground arith) rn rd in
    let (s3, e', is3) = tick_inside xs zs (suc k) s2 r u [] ((p, woken v) ∷ rs) (omega arith) is2 in
    (s3, e ∙ e', is3)

tick_head :
    (xs : Chains) (fuel : ℕ) (s : Scheduler) (zs rs : Cells Thread)
    → length zs < fuel
    → IsScheduler s (Waits xs zs rs)
    → Ends xs fuel (first zs null) s (left_waiting at_head zs) (made_ready at_head zs rs)
unfolding left_waiting made_ready
tick_head xs zero s zs rs f is = absurd (omega arith)
tick_head xs (suc k) s [] rs f is = (s, loop_end k s, is)
tick_head xs (suc k) s ((p, v) ∷ zs) rs f is = elim (Bool-cases (expired (ticked v).clock)) [
  | inl x ↦
      let (s1, e, is1) = head_wake xs k s zs rs p v is x (omega arith) in
      (
        s1,
        e,
        waits_eq xs s1 _ _ _ _ (if_true (expired (ticked v).clock) _ _ x)
            (if_true (expired (ticked v).clock) _ _ x) is1,
      )
  | inr x ↦
      let (s1, e, is1) = round_stay xs k s [] zs rs p v is x in
      let (s2, e', is2) = tick_inside xs zs k s1 p (ticked v) [] rs (omega arith) is1 in
      (
        s2,
        e ∙ e',
        waits_eq xs s2 _ _ _ _ (if_false (expired (ticked v).clock) _ _ x)
            (if_false (expired (ticked v).clock) _ _ x) is2,
      )
]

waits_all : (xs : Chains) (t : ThreadState) → xs t ≡ Waits xs (xs ts_wait) (xs ts_ready) t
waits_all xs t = ground arith

-- The loop of TmIncreaseTime, from the head of the waiting chain and with fuel for each thread in
-- it, returns, and what it does to the chains is as `left_waiting` and `made_ready` say. Every
-- thread gets one tick, with this exception: if the head of the chain wakes, the thread behind it
-- gets none, stays in the chain and keeps its clock, whatever that is. Of the threads with a tick
-- those whose time is up move to the head of the ready chain, the last one first; the others wait
-- on, in order, with the clock a tick lower. Every other chain is as it was.
pub tick_loop_lem :
    (fuel : ℕ) (s : Scheduler) (xs : Chains)
    → length (xs ts_wait) < fuel
    → IsScheduler s xs
    → Ends xs fuel s.wait s
        (left_waiting at_head (xs ts_wait))
        (made_ready at_head (xs ts_wait) (xs ts_ready))
tick_loop_lem fuel s xs f is =
    subst
      (λ p.
        Ends xs fuel p s (left_waiting at_head (xs ts_wait))
          (made_ready at_head (xs ts_wait) (xs ts_ready)))
      (some_injective (sym (is.heads ts_wait refl)))
      (tick_head xs fuel s (xs ts_wait) (xs ts_ready) f
        (IsScheduler-same s xs (Waits xs (xs ts_wait) (xs ts_ready)) (waits_all xs) is))
