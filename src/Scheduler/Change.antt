-- ===== src/Scheduler/Change.antt =====
-- Writes to a thread that is in a chain and stays there, and reads of one (kernel/tm/sched.c).
use sgos.Prelude.{◌≡◌, ◌≢◌, refl, sym, ◌∙◌, subst, true, false, some, [], ◌∷◌, ◌++◌, arith}
use sgos.Prelude.Run.{ok}
use sgos.Dll.{Ptr, null, node, write}
use sgos.Dll.Links.{Cells, has, first, last, Links, Links-write, Links-split}
use sgos.Dll.Splice.{Links-value, first-value}
use sgos.Dll.Heads.{leave_lem}
use sgos.Scheduler.{ThreadState, same, Thread, Scheduler, head, read, change, set_thread_state}
use sgos.Scheduler.Chains.{
  chained, Chains, AllIn, IsScheduler, same_eq, head_threads, chains-Apart, replaced,
  replaced-cases,
}
use sgos.Scheduler.Move.{set_thread_state_moves}

-- The invariant reads the chains at each state only.
pub IsScheduler-same :
    (s : Scheduler) (xs ys : Chains)
    → ((t : ThreadState) → xs t ≡ ys t)
    → IsScheduler s xs
    → IsScheduler s ys
IsScheduler-same s xs ys e is = record {
  links = λ t c. subst (λ l. Links s.threads null l null) (e t) (is.links t c);
  heads = λ t c. subst (λ l. head t s ≡ some (first l null)) (e t) (is.heads t c);
  states = λ t c. subst (λ l. AllIn t l) (e t) (is.states t c);
}

AllIn-value :
    (st : ThreadState) (ys : Cells Thread) (p : Ptr) (v w : Thread) (zs : Cells Thread)
    → w.state ≡ v.state
    → AllIn st (ys ++ (p, v) ∷ zs)
    → AllIn st (ys ++ (p, w) ∷ zs)
AllIn-value st [] p v w zs e i = (e ∙ i.0, i.1)
AllIn-value st ((r, u) ∷ ys) p v w zs e i = (i.0, AllIn-value st ys p v w zs e i.1)

pub has-middle : (p : Ptr) (v : Thread) (ys zs : Cells Thread) → has p (ys ++ (p, v) ∷ zs) ≡ true
has-middle p v [] zs = ground arith
has-middle p v ((r, w) ∷ ys) zs = ground (arith, has-middle p v ys zs)

AllIn-middle :
    (st : ThreadState) (ys : Cells Thread) (p : Ptr) (v : Thread) (zs : Cells Thread)
    → AllIn st (ys ++ (p, v) ∷ zs)
    → v.state ≡ st
AllIn-middle st [] p v zs i = i.0
AllIn-middle st ((r, w) ∷ ys) p v zs i = AllIn-middle st ys p v zs i.1

-- The chains with `l` for the state `a`.
abbrev pub put : Chains → ThreadState → Cells Thread → Chains
put xs a l = replaced xs a l a l

pub replaced-put :
    (xs : Chains) (a b : ThreadState) (l out into : Cells Thread) (t : ThreadState)
    → replaced (put xs a l) a out b into t ≡ replaced xs a out b into t
replaced-put xs a b l out into t = ground arith

module _ (s : Scheduler) (xs : Chains) (a : ThreadState) (p : Ptr) (v : Thread)
    (ys zs : Cells Thread) (is : IsScheduler s xs) (c1 : chained a ≡ true)
    (e : xs a ≡ ys ++ (p, v) ∷ zs) where
  in-Links : Links s.threads null (ys ++ (p, v) ∷ zs) null
  in-Links = subst (λ l. Links s.threads null l null) e (is.links a c1)

  in_states : AllIn a (ys ++ (p, v) ∷ zs)
  in_states = subst (λ l. AllIn a l) e (is.states a c1)

  read_in_run :
      (b n : Ptr) → p ≢ null → s.threads p ≡ some (node b v n) → read p s ≡ ok (node b v n) s
  read_in_run b n nn at = ground arith

  pub read_in : read p s ≡ ok (node (last ys null) v (first zs null)) s
  read_in =
      let u = leave_lem s.threads ys p v zs in-Links in
      read_in_run (last ys null) (first zs null) u.not_null u.old

  pub in_not_null : p ≢ null
  in_not_null = (leave_lem s.threads ys p v zs in-Links).not_null

  pub in_cell : s.threads p ≡ some (node (last ys null) v (first zs null))
  in_cell = (leave_lem s.threads ys p v zs in-Links).old

  pub in_once : has p zs ≡ false
  in_once = (Links-split s.threads null ys ((p, v) ∷ zs) null in-Links).1.2

  pub in_state : v.state ≡ a
  in_state = AllIn-middle a ys p v zs in_states

  -- TmSetThreadState on a thread of this chain.
  pub move_in :
      (st : ThreadState)
      → chained st ≡ true
      → same a st ≡ false
      → (s' : Scheduler) × (set_thread_state p st s ≡ ok tt s')
        × IsScheduler s' (replaced xs a (ys ++ zs) st ((p, record v { state = st }) ∷ xs st))
        × (s'.running ≡ s.running)
        × (s'.next ≡ s.next)
  move_in st c2 d =
      subst
        (λ b.
          chained b ≡ true
          → same b st ≡ false
          → xs b ≡ ys ++ (p, v) ∷ zs
          → (s' : Scheduler) × (set_thread_state p st s ≡ ok tt s')
            × IsScheduler s' (replaced xs b (ys ++ zs) st ((p, record v { state = st }) ∷ xs st))
            × (s'.running ≡ s.running)
            × (s'.next ≡ s.next))
        in_state (λ c d e. set_thread_state_moves s xs p v ys zs st is c c2 d e) c1 d e

  changed : (Thread → Thread) → Scheduler
  changed f = record s {
    threads = write s.threads p (some (node (last ys null) (f v) (first zs null)));
  }

  change_run :
      (f : Thread → Thread) (b n : Ptr)
      → p ≢ null
      → s.threads p ≡ some (node b v n)
      → change p f s ≡ ok tt (record s { threads = write s.threads p (some (node b (f v) n)) })
  change_run f b n nn at = ground arith

  pub change_in :
      (f : Thread → Thread)
      → (f v).state ≡ v.state
      → (s' : Scheduler) × (change p f s ≡ ok tt s')
        × IsScheduler s' (put xs a (ys ++ (p, f v) ∷ zs))
        × (s'.running ≡ s.running)
        × (s'.next ≡ s.next)
        × ((r : Ptr) → r ≢ p → s'.threads r ≡ s.threads r)
  unfolding changed
  change_in f k =
      let u = leave_lem s.threads ys p v zs in-Links in
      let n = some (node (last ys null) (f v) (first zs null)) in
      let l = ys ++ (p, f v) ∷ zs in
      (
        changed f,
        change_run f (last ys null) (first zs null) u.not_null u.old,
        record {
          links = λ t c.
              let here = λ (w : same t a ≡ true). Links-value s.threads ys p v (f v) zs in-Links in
              replaced-cases (λ l. Links (changed f).threads null l null) xs a a t l l here
                (λ z. here)
                (λ z w.
                  Links-write s.threads null (xs t) null p n
                    (chains-Apart s.threads a t (ys ++ (p, v) ∷ zs) (xs t) p in-Links (is.links t c)
                      in_states (is.states t c) (ground arith) (has-middle p v ys zs))
                    (is.links t c));
          heads = λ t c.
              let here = λ (w : same t a ≡ true).
                head_threads t s (changed f).threads
                ∙ is.heads t c
                ∙ subst (λ q. some (first (xs q) null) ≡ some (first l null)) (sym (same_eq t a w))
                    (subst (λ q. some (first q null) ≡ some (first l null)) (sym e)
                      (ground (arith, first-value ys p v (f v) zs null))) in
              replaced-cases (λ l. head t (changed f) ≡ some (first l null)) xs a a t l l here
                (λ z. here) (λ z w. head_threads t s (changed f).threads ∙ is.heads t c);
          states = λ t c.
              let here = λ (w : same t a ≡ true).
                subst (λ q. AllIn q l) (sym (same_eq t a w))
                  (AllIn-value a ys p v (f v) zs k in_states) in
              replaced-cases (λ l. AllIn t l) xs a a t l l here (λ z. here) (λ z w. is.states t c);
        },
        refl,
        refl,
        λ r ne. ground arith,
      )
