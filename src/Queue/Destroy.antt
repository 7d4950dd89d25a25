-- ===== src/Queue/Destroy.antt =====
-- RtlDestroyQueue of kernel/lib/kqueue.c: the loop ends, and every entry is erased.
use sgos.Prelude.{
  ℕ, zero, suc, ◌<◌, ◌≡◌, ◌≢◌, refl, sym, subst, ◌∙◌, true, List, [], ◌∷◌, arith, length,
  if◌then◌else◌, Bool-cases, if_true, if_false, inl, inr,
}
use sgos.Prelude.Int.{pos}
use sgos.Prelude.Run.{ok}
use sgos.Dll.{Ptr, null}
use sgos.Dll.Links.{Cells, last-ne-null}
use sgos.Queue.{Queue, pop_back, destroy_loop, destroy}
use sgos.Queue.Shape.{IsQueue, IsLinked}
use sgos.Queue.Pop.{pop_back_keeps}

-- The data of the entries, the last one that was popped first, before those erased earlier.
unfoldable pub erased_after : Cells ℕ → List ℕ → List ℕ
erased_after [] l = l
erased_after ((p, v) ∷ xs) l = erased_after xs (v ∷ l)

erased_none : (l : List ℕ) → l ≡ erased_after [] l
unfolding erased_after
erased_none l = refl

-- The links are a matter of three fields.
IsLinked-fields :
    (q s : Queue) (xs : Cells ℕ)
    → IsLinked q xs
    → s.cells ≡ q.cells
    → s.back ≡ q.back
    → s.front ≡ q.front
    → IsLinked s xs
IsLinked-fields q s xs l c b f = record {
  links = rw c l.links;
  back_first = b ∙ l.back_first;
  front_last = f ∙ l.front_last;
}

loop_step :
    (k : ℕ) (q s : Queue) (v : ℕ)
    → q.front ≢ null
    → pop_back q ≡ ok v s
    → s.has_del ≡ true
    → destroy_loop (suc k) q ≡ destroy_loop k (record s { erased = v ∷ s.erased })
unfolding destroy_loop
loop_step k q s v nn e del = ground arith

loop_end : (k : ℕ) (q : Queue) → q.front ≡ null → destroy_loop (suc k) q ≡ ok tt q
unfolding destroy_loop
loop_end k q e = ground arith

IsQueue-erased :
    (d : ℕ) (q : Queue) (xs : Cells ℕ) (l : List ℕ)
    → IsQueue d q xs
    → IsQueue d (record q { erased = l }) xs
IsQueue-erased d q xs l is = record {
  linked = IsLinked-fields q (record q { erased = l }) xs is.linked refl refl refl;
  count = is.count;
  unlocked = is.unlocked;
}

-- The queue has no entries, and `l` is what was erased.
pub record Destroyed (s : Queue) (l : List ℕ) : Type 0 where
  pub empty : IsLinked s []
  pub erased : s.erased ≡ l

destroy_loop_lem :
    (k d : ℕ) (q : Queue) (xs : Cells ℕ)
    → IsQueue d q xs
    → length xs < k
    → q.has_del ≡ true
    → (s : Queue) × (destroy_loop k q ≡ ok tt s)
      × Destroyed s (erased_after xs q.erased)
      × (s.use_sem ≡ q.use_sem)
unfolding erased_after
destroy_loop_lem zero d q xs is lt del = absurd (omega arith)
destroy_loop_lem (suc k) d q [] is lt del =
    (q, loop_end k q is.linked.front_last, record { empty = is.linked; erased = refl }, refl)
destroy_loop_lem (suc k) d q ((p, v) ∷ xs) is lt del =
    let (s, e, (isq, _), hd, er, us) = pop_back_keeps d q p v xs is in
    let nn : q.front ≢ null =
      subst (λ z. z ≢ null) (sym is.linked.front_last)
        (last-ne-null q.cells null p v xs null is.linked.links) in
    let (t, run, gone, same) =
      destroy_loop_lem k d (record s { erased = v ∷ s.erased }) xs
        (IsQueue-erased d s xs (v ∷ s.erased) isq) (omega arith) (hd ∙ del) in
    (
      t,
      loop_step k q s v nn e (hd ∙ del) ∙ run,
      subst (λ l. Destroyed t (erased_after xs (v ∷ l))) er gone,
      same ∙ us,
    )

abbrev marked : Queue → Queue
marked q = record q { cur_num = pos 1; max_num = pos 0 }

marked-IsQueue :
    (d : ℕ) (q : Queue) (x : Ptr × ℕ) (xs : Cells ℕ)
    → IsQueue d q (x ∷ xs)
    → IsQueue (length xs) (marked q) (x ∷ xs)
marked-IsQueue d q x xs is = record {
  linked = IsLinked-fields q (marked q) (x ∷ xs) is.linked refl refl refl;
  count = ground arith;
  unlocked = is.unlocked;
}

destroy_run :
    (fuel : ℕ) (q s : Queue)
    → destroy_loop fuel (marked q) ≡ ok tt s
    → destroy fuel q ≡ ok tt (if s.use_sem then record s { semaphore = 0 } else s)
unfolding destroy
destroy_run fuel q s e = ground arith

ended :
    (s : Queue) (l : List ℕ)
    → Destroyed s l
    → Destroyed (if s.use_sem then record s { semaphore = 0 } else s) l
ended s l is = elim (Bool-cases s.use_sem) [
  | inl e ↦
      subst (λ t. Destroyed t l) (if_true s.use_sem _ _ e)
        (record {
          empty = IsLinked-fields s (record s { semaphore = 0 }) [] is.empty refl refl refl;
          erased = is.erased;
        })
  | inr e ↦ subst (λ t. Destroyed t l) (if_false s.use_sem _ _ e) is
]

-- RtlDestroyQueue, of a queue with a function that erases its data: its loop ends after as many
-- rounds as there are entries, no entry is left, and the data of each one was erased, from the back
-- to the front.
pub destroy-Destroyed :
    (fuel d : ℕ) (q : Queue) (xs : Cells ℕ)
    → IsQueue d q xs
    → length xs < fuel
    → q.has_del ≡ true
    → (s : Queue) × (destroy fuel q ≡ ok tt s) × Destroyed s (erased_after xs q.erased)
destroy-Destroyed zero d q xs is lt del = absurd (omega arith)
destroy-Destroyed (suc k) d q [] is lt del = (
  _,
  destroy_run (suc k) q (marked q) (loop_end k (marked q) is.linked.front_last),
  ended (marked q) (erased_after [] q.erased) (record {
    empty = IsLinked-fields q (marked q) [] is.linked refl refl refl;
    erased = erased_none q.erased;
  }),
)
destroy-Destroyed (suc k) d q (x ∷ xs) is lt del =
    let (s, run, gone, _) =
      destroy_loop_lem (suc k) (length xs) (marked q) (x ∷ xs) (marked-IsQueue d q x xs is) lt
        del in
    (_, destroy_run (suc k) q s run, ended s (erased_after (x ∷ xs) q.erased) gone)
