-- ===== src/Scheduler/Move.antt =====
-- TmSetThreadState of kernel/tm/sched.c.
use sgos.Prelude.{
  ◌≡◌, ◌≢◌, inl, inr, refl, sym, ap, ◌∙◌, subst, true, false, some, ◌∷◌, ◌++◌, arith, ◌==◌,
  if◌then◌else◌, Bool-cases,
}
use sgos.Prelude.Run.{ok}
use sgos.Dll.{Ptr, null, node, Heap, write, link_next, link_prev, set_next, set_prev}
use sgos.Dll.Links.{Cells, first, last, Links, Links-frame}
use sgos.Dll.Heads.{Moved, move_lem, loose}
use sgos.Scheduler.{
  ThreadState, same, Thread, Scheduler, head, set_head, leave_chain, enter_chain, set_thread_state,
}
use sgos.Scheduler.Chains.{
  chained, Chains, AllIn, IsScheduler, same_eq, head_set_same, head_set_other, chains-Apart,
  set_head_id, set_head_threads, head_threads, replaced, first_not_null, replaced-cases, same_sym,
  set_head_running, AllIn-remove,
}

leave_run :
    (s : Scheduler) (p b : Ptr) (v : Thread) (a hd : Ptr) (mid after : Heap Thread)
    → p ≢ null
    → s.threads p ≡ some (node b v a)
    → mid p ≡ some (node b v a)
    → head v.state s ≡ some hd
    → hd ≢ null
    → link_prev a b s.threads ≡ some mid
    → link_next b a mid ≡ some after
    → leave_chain p s
      ≡ ok tt (record (set_head v.state (if b == null then a else hd) s) { threads = after })
unfolding leave_chain
leave_run s p b v a hd mid after nn at at' h hn e1 e2 = elim (Bool-cases (b == null)) [
  | inl z ↦ ground arith
  | inr z ↦ ground (arith, set_head_id v.state hd s)
]

enter_run :
    (s : Scheduler) (p b : Ptr) (v : Thread) (a hd : Ptr) (st : ThreadState) (g after : Heap Thread)
    → p ≢ null
    → s.threads p ≡ some (node b v a)
    → head st s ≡ some hd
    → g ≡ write s.threads p (some (node b v hd))
    → link_prev hd p g ≡ some after
    → enter_chain p st s ≡ ok tt (record (set_head st p s) { threads = after })
unfolding enter_chain set_next
enter_run s p b v a hd st g after nn at h eg e = ground arith

-- The state after a move, from the heap that the links end in.
abbrev Arrived : Scheduler → ThreadState → Ptr → Ptr → Thread → Ptr → Heap Thread → Scheduler
Arrived s st p c v hd h = record (set_head st p (set_head v.state c s)) {
  threads = write h p (some (node null (record v { state = st }) hd));
}

move_run :
    (s : Scheduler) (p b : Ptr) (v : Thread) (a c hd : Ptr) (st : ThreadState) (h g : Heap Thread)
    → p ≢ null
    → s.threads p ≡ some (node b v a)
    → same v.state st ≡ false
    → leave_chain p s ≡ ok tt (record (set_head v.state c s) { threads = h })
    → h p ≡ some (node b v a)
    → enter_chain p st
        (record (set_head v.state c s) { threads = write h p (some (node null v a)) })
      ≡ ok tt (record (set_head st p (set_head v.state c s)) { threads = g })
    → g p ≡ some (node null v hd)
    → set_thread_state p st s ≡ ok tt (Arrived s st p c v hd g)
unfolding set_thread_state set_prev
move_run s p b v a c hd st h g nn at d lr hp er gp = ground arith

module _ (s : Scheduler) (xs : Chains) (p : Ptr) (v : Thread) (ys zs : Cells Thread)
    (st : ThreadState) (is : IsScheduler s xs) (c1 : chained v.state ≡ true)
    (c2 : chained st ≡ true) (d : same v.state st ≡ false)
    (e : xs v.state ≡ ys ++ (p, v) ∷ zs) where
  from_Links : Links s.threads null (ys ++ (p, v) ∷ zs) null
  from_Links = subst (λ l. Links s.threads null l null) e (is.links v.state c1)

  from_states : AllIn v.state (ys ++ (p, v) ∷ zs)
  from_states = subst (λ l. AllIn v.state l) e (is.states v.state c1)

  move_cells : Moved s.threads ys p v zs (xs st) (record v { state = st })
  move_cells =
      move_lem s.threads ys p v zs (xs st) (record v { state = st }) from_Links (is.links st c2)
        λ q i.
          chains-Apart s.threads v.state st (ys ++ (p, v) ∷ zs) (xs st) q from_Links
            (is.links st c2) from_states (is.states st c2) d i

  arrived : Scheduler
  arrived = Arrived s st p (first (ys ++ zs) null) v (first (xs st) null) move_cells.headed.after

  set_thread_state_run : set_thread_state p st s ≡ ok tt arrived
  unfolding arrived
  set_thread_state_run =
      let m = move_cells in
      let u = m.left in
      let c = first (ys ++ zs) null in
      let hd = first (xs st) null in
      let s1 : Scheduler = record (set_head v.state c s) {
        threads = write u.after p (some (node null v (first zs null)));
      } in
      let leave =
        leave_run s p (last ys null) v (first zs null) (first (ys ++ (p, v) ∷ zs) null) u.mid
          u.after u.not_null u.old u.kept_mid
          (subst (λ l. head v.state s ≡ some (first l null)) e (is.heads v.state c1))
          (first_not_null s.threads null ys p v zs from_Links) u.prev_set u.next_set
        ∙ ap (λ t. ok tt (record (set_head v.state t s) { threads = u.after })) u.first_out in
      let enter =
        enter_run s1 p null v (first zs null) hd st (loose u.after p v (first zs null) hd)
          m.headed.after u.not_null (ground arith)
          (head_threads st (set_head v.state c s)
              (write u.after p (some (node null v (first zs null))))
            ∙ head_set_other st v.state c s (same_sym v.state st d)
            ∙ is.heads st c2)
          refl m.headed.prev_set
        ∙ ap (ok tt) (
            set_head_threads st p (set_head v.state c s)
              (write u.after p (some (node null v (first zs null)))) m.headed.after) in
      move_run s p (last ys null) v (first zs null) c hd st u.after m.headed.after u.not_null u.old
        d leave u.kept enter (m.headed.kept ∙ ground arith)

  abbrev after : Chains
  after = replaced xs v.state (ys ++ zs) st ((p, record v { state = st }) ∷ xs st)

  arrived-Links : (t : ThreadState) → chained t ≡ true → Links arrived.threads null (after t) null
  unfolding arrived
  arrived-Links t c =
      let m = move_cells in
      replaced-cases (λ l. Links arrived.threads null l null) xs v.state st t (ys ++ zs)
        ((p, record v { state = st }) ∷ xs st)
        (λ z.
          subst (λ h. Links h null ((p, record v { state = st }) ∷ xs st) null) m.final_is
            m.links_right)
        (λ z w. subst (λ h. Links h null (ys ++ zs) null) m.final_is m.links_left)
        (λ z w.
          subst (λ h. Links h null (xs t) null) m.final_is
            (Links-frame s.threads m.final null (xs t) null
              (λ q i.
                m.elsewhere q
                  (chains-Apart s.threads t v.state (xs t) (ys ++ (p, v) ∷ zs) q (is.links t c)
                    from_Links (is.states t c) from_states w i)
                  (chains-Apart s.threads t st (xs t) (xs st) q (is.links t c) (is.links st c2)
                    (is.states t c) (is.states st c2) z i))
              (is.links t c)))

  arrived_heads :
      (t : ThreadState) → chained t ≡ true → head t arrived ≡ some (first (after t) null)
  unfolding arrived
  arrived_heads t c =
      let s1 = set_head v.state (first (ys ++ zs) null) s in
      let e1 = head_threads t (set_head st p s1) arrived.threads in
      replaced-cases (λ l. head t arrived ≡ some (first l null)) xs v.state st t (ys ++ zs)
        ((p, record v { state = st }) ∷ xs st)
        (λ z.
          e1
          ∙ subst (λ u. head u (set_head st p s1) ≡ some p) (sym (same_eq t st z))
              (head_set_same st p s1 c2))
        (λ z w.
          e1
          ∙ head_set_other t st p s1 z
          ∙ subst (λ u. head u s1 ≡ some (first (ys ++ zs) null)) (sym (same_eq t v.state w))
              (head_set_same v.state (first (ys ++ zs) null) s c1))
        (λ z w. e1 ∙ head_set_other t st p s1 z ∙ head_set_other t v.state _ s w ∙ is.heads t c)

  arrived_states : (t : ThreadState) → chained t ≡ true → AllIn t (after t)
  arrived_states t c =
      replaced-cases (AllIn t) xs v.state st t (ys ++ zs) ((p, record v { state = st }) ∷ xs st)
        (λ z. (
          sym (same_eq t st z),
          subst (λ u. AllIn u (xs st)) (sym (same_eq t st z)) (is.states st c2),
        ))
        (λ z w.
          subst (λ u. AllIn u (ys ++ zs)) (sym (same_eq t v.state w))
            (AllIn-remove v.state ys p v zs from_states))
        (λ z w. is.states t c)

  -- From a chain to another state that has one, TmSetThreadState returns, takes the thread out of
  -- the chain it is in, puts it at the head of the other, and leaves every other chain, the current
  -- thread and the next one as they are. Each thread is in the chain of its own state before and
  -- after.
  pub set_thread_state_moves :
      (s' : Scheduler) × (set_thread_state p st s ≡ ok tt s')
      × IsScheduler s' (replaced xs v.state (ys ++ zs) st ((p, record v { state = st }) ∷ xs st))
      × (s'.running ≡ s.running)
      × (s'.next ≡ s.next)
  unfolding arrived
  set_thread_state_moves =
      let s1 = set_head v.state (first (ys ++ zs) null) s in
      let (r1, n1) = set_head_running v.state (first (ys ++ zs) null) s c1 in
      let (r2, n2) = set_head_running st p s1 c2 in
      (
        arrived,
        set_thread_state_run,
        record { links = arrived-Links; heads = arrived_heads; states = arrived_states },
        r2 ∙ r1,
        n2 ∙ n1,
      )
