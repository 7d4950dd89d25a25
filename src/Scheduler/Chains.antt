-- ===== src/Scheduler/Chains.antt =====
-- What the chains of kernel/tm/sched.c stand for: for each state that has one, a list of threads.
use sgos.Prelude.{
  ◌≡◌, ◌≢◌, subst, inl, inr, Bool-cases, Bool, true, false, Option, none, some, [], ◌∷◌, ◌++◌,
  arith, if◌then◌else◌,
}
use sgos.Dll.{Ptr, null, Node, Heap}
use sgos.Dll.Links.{Cells, has, first, Links}
use sgos.Scheduler.{ThreadState, ts_init, ts_running, same, Thread, Scheduler, head, set_head}

-- The states that a thread can be in while it is in a chain.
abbrev pub chained : ThreadState → Bool
chained ts_init = false
chained ts_running = false
chained _ = true

-- The threads of each chain.
abbrev pub Chains : Type 0
Chains = ThreadState → Cells Thread

abbrev pub AllIn : ThreadState → Cells Thread → Type 0
AllIn st [] = Unit {0}
AllIn st ((p, v) ∷ xs) = (v.state ≡ st) × AllIn st xs

pub record IsScheduler (s : Scheduler) (xs : Chains) : Type 0 where
  pub links : (st : ThreadState) → chained st ≡ true → Links s.threads null (xs st) null
  pub heads : (st : ThreadState) → chained st ≡ true → head st s ≡ some (first (xs st) null)
  pub states : (st : ThreadState) → chained st ≡ true → AllIn st (xs st)

pub same_refl : (a : ThreadState) → same a a ≡ true
same_refl a = ground arith

pub same_eq : (a b : ThreadState) → same a b ≡ true → a ≡ b
same_eq a b h = ground arith

pub head_set_same :
    (st : ThreadState) (p : Ptr) (s : Scheduler)
    → chained st ≡ true
    → head st (set_head st p s) ≡ some p
head_set_same st p s c = ground arith

pub head_set_other :
    (a b : ThreadState) (p : Ptr) (s : Scheduler)
    → same a b ≡ false
    → head a (set_head b p s) ≡ head a s
head_set_other a b p s d = ground arith

pub threads_set :
    (st : ThreadState) (p : Ptr) (s : Scheduler) → (set_head st p s).threads ≡ s.threads
threads_set st p s = ground arith

-- The node of a thread in a chain holds that chain's state.
abbrev state_of : Option (Node Thread) → Option ThreadState
state_of none = none
state_of (some n) = some n.v.state

state_of-has :
    (h : Heap Thread) (b : Ptr) (st : ThreadState) (xs : Cells Thread) (a q : Ptr)
    → Links h b xs a
    → AllIn st xs
    → has q xs ≡ true
    → state_of (h q) ≡ some st
state_of-has h b st [] a q l i e = absurd (cc)
state_of-has h b st ((p, v) ∷ xs) a q l i e = ground (arith, state_of-has h p st xs a q l.3 i.1)

-- A thread is in the chain of its own state only.
pub chains-Apart :
    (h : Heap Thread) (a b : ThreadState) (xs ys : Cells Thread) (q : Ptr)
    → Links h null xs null
    → Links h null ys null
    → AllIn a xs
    → AllIn b ys
    → same a b ≡ false
    → has q xs ≡ true
    → has q ys ≡ false
chains-Apart h a b xs ys q l m i j d e =
    let k = state_of-has h null a xs null q l i e in
    ground (arith, state_of-has h null b ys null q m j)

pub set_head_id :
    (st : ThreadState) (p : Ptr) (s : Scheduler) → head st s ≡ some p → set_head st p s ≡ s
set_head_id st p s h = ground arith

pub set_head_threads :
    (st : ThreadState) (p : Ptr) (s : Scheduler) (h g : Heap Thread)
    → record (set_head st p (record s { threads = h })) { threads = g }
      ≡ record (set_head st p s) { threads = g }
set_head_threads st p s h g = ground arith

pub head_threads :
    (st : ThreadState) (s : Scheduler) (h : Heap Thread)
    → head st (record s { threads = h }) ≡ head st s
head_threads st s h = ground arith

-- The chains with `out` for the state `a` and `into` for the state `b`.
abbrev pub replaced : Chains → ThreadState → Cells Thread → ThreadState → Cells Thread → Chains
replaced xs a out b into t = if same t b then into else if same t a then out else xs t

pub first_not_null :
    (h : Heap Thread) (b : Ptr) (ys : Cells Thread) (p : Ptr) (v : Thread) (zs : Cells Thread)
    → Links h b (ys ++ (p, v) ∷ zs) null
    → first (ys ++ (p, v) ∷ zs) null ≢ null
first_not_null h b [] p v zs l = l.0
first_not_null h b ((r, w) ∷ ys) p v zs l = l.0

pub replaced-cases :
    (P : Cells Thread → Type 0) (xs : Chains) (a b t : ThreadState) (out into : Cells Thread)
    → (same t b ≡ true → P into)
    → (same t b ≡ false → same t a ≡ true → P out)
    → (same t b ≡ false → same t a ≡ false → P (xs t))
    → P (replaced xs a out b into t)
replaced-cases P xs a b t out into f g h = elim (Bool-cases (same t b)) [
  | inl z ↦ subst P (ground arith) (f z)
  | inr z ↦ elim (Bool-cases (same t a)) [
    | inl w ↦ subst P (ground arith) (g z w)
    | inr w ↦ subst P (ground arith) (h z w)
  ]
]

pub same_sym : (a b : ThreadState) → same a b ≡ false → same b a ≡ false
same_sym a b d = ground arith

pub set_head_running :
    (st : ThreadState) (p : Ptr) (s : Scheduler)
    → chained st ≡ true
    → ((set_head st p s).running ≡ s.running) × ((set_head st p s).next ≡ s.next)
set_head_running st p s c = ground arith

pub AllIn-remove :
    (st : ThreadState) (ys : Cells Thread) (p : Ptr) (v : Thread) (zs : Cells Thread)
    → AllIn st (ys ++ (p, v) ∷ zs)
    → AllIn st (ys ++ zs)
AllIn-remove st [] p v zs i = i.1
AllIn-remove st ((r, w) ∷ ys) p v zs i = (i.0, AllIn-remove st ys p v zs i.1)
