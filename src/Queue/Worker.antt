-- ===== src/Queue/Worker.antt =====
-- task_queue.go, `waitForTask`: the loop over the context and the two tickers. What happens
-- while the loop waits is a list of events: those of its `select`, and what other goroutines do.
pub mod Ends
use argodemo.Common.{
  ◌∙◌, subst, append_assoc, append-nil, Bool-cases, sym, ℕ, nat_eq, ◌≡◌, ◌≢◌, refl, ◌⊎◌, inl, inr,
  Bool, true, false, not, ◌&&◌, List, [], ◌∷◌, ◌++◌, some, none, arith, if◌then◌else◌, All,
  All-append,
}
use argodemo.Task.{Task}
use argodemo.Queue.{
  TaskQueue, Slot, Status, Context, add_last, is_empty, get_first, stop_queue, live, done, unset,
}

pub data Event : Type 0 where
  delay_fires done_fires : Event
  second_fires : ℕ → Event
  adds : Task → Event
  stops : Event

-- The task that `waitForTask` returned, the panic of a context that is not set, which is a nil
-- interface, or a loop that still waits with its delay.
pub data Waited : Type 0 where
  got : Slot → TaskQueue → Waited
  panicked : Waited
  waiting : TaskQueue → ℕ → Waited

-- A look at the `Done` channel, and what comes where it is not ready.
abbrev pub on_context : Context → TaskQueue → Waited → Waited
on_context unset q w = panicked
on_context done q w = got none q
on_context live q w = w

-- The inner loop. A ready `Done` channel is an event, since `select` may pick another one first.
wait_loop : List Event → Status → ℕ → TaskQueue → Waited
wait_loop [] orig delay q = waiting q delay
wait_loop (delay_fires ∷ es) orig delay q =
    let again = wait_loop es orig 0 q in if is_empty q then again else got (get_first q) q
wait_loop (done_fires ∷ es) orig delay q = on_context q.context q (wait_loop es orig delay q)
wait_loop (second_fires n ∷ es) orig delay q = wait_loop es orig delay (record q {
  status = if nat_eq delay 0 then Status.waiting_for_task n else Status.elapsed orig n;
})
wait_loop (adds t ∷ es) orig delay q = wait_loop es orig delay (add_last q t)
wait_loop (stops ∷ es) orig delay q = wait_loop es orig delay (stop_queue q)

unfoldable pub wait_for_task : List Event → ℕ → TaskQueue → Waited
unfolding wait_loop
wait_for_task es delay q = on_context q.context q (
    if not (is_empty q) && nat_eq delay 0
    then got (get_first q) q
    else wait_loop es q.status delay q)

-- No slot holds a nil task.
abbrev pub NoNil : List Slot → Type 0
NoNil ts = All (λ s. s ≢ none) ts

-- The loop returned nil because of the cancelled context, or the head of a queue with a task.
abbrev pub Fair : Slot → TaskQueue → Type 0
Fair s q =
    ((s ≡ none) × (q.context ≡ done))
    ⊎ ((t : Task) × (ts : List Slot) × (s ≡ some t) × (q.items ≡ some t ∷ ts))

first-Fair :
    (items : List Slot) (q : TaskQueue)
    → q.items ≡ items
    → NoNil items
    → is_empty q ≡ false
    → Fair (get_first q) q
unfolding get_first is_empty
first-Fair [] q e n h = ground arith
first-Fair (none ∷ ts) q e n h = absurd (n.0 refl)
first-Fair (some t ∷ ts) q e n h = inr (t, ts, rw e, e)

some≢none : (t : Task) → some t ≢ none
some≢none t = ground arith

add_last-NoNil : (q : TaskQueue) (t : Task) → NoNil q.items → NoNil (add_last q t).items
unfolding add_last
add_last-NoNil q t n = All-append (λ s. s ≢ none) q.items (some t ∷ []) n (some≢none t, tt)

stop_queue-NoNil : (q : TaskQueue) → NoNil q.items → NoNil (stop_queue q).items
unfolding stop_queue
stop_queue-NoNil q n = go q.context refl
  where
    go :
        (c : Context)
        → q.context ≡ c
        → NoNil (elim c as (λ _. TaskQueue) [ unset ↦ q | _ ↦ record q { context = done } ]).items
    go unset e = n
    go live e = n
    go done e = n

-- The items have only grown at the end.
abbrev pub Grown : List Slot → TaskQueue → Type 0
Grown items q = (more : List Slot) × (q.items ≡ items ++ more)

abbrev OnGot : List Slot → Waited → Type 0
OnGot items (got s q) = Fair s q × Grown items q
OnGot items panicked = Unit
OnGot items (waiting q d) = Unit

OnGot-weaken :
    (items : List Slot) (t : Slot) (w : Waited) → OnGot (items ++ t ∷ []) w → OnGot items w
OnGot-weaken items t (got s q) (f, (more, e)) =
    (f, (t ∷ more, e ∙ append_assoc items (t ∷ []) more))
OnGot-weaken items t panicked u = tt
OnGot-weaken items t (waiting q d) u = tt

Grown-refl : (q : TaskQueue) → Grown q.items q
Grown-refl q = ([], sym (append-nil q.items))

on_done :
    (c : Context) (q : TaskQueue) (w : Waited)
    → q.context ≡ c
    → OnGot q.items w
    → OnGot q.items (on_context c q w)
on_done unset q w e h = tt
on_done live q w e h = h
on_done done q w e h = (inl (refl, e), Grown-refl q)

stop_queue-items : (q : TaskQueue) → (stop_queue q).items ≡ q.items
unfolding stop_queue
stop_queue-items q = ground arith

head_taken :
    (q : TaskQueue) (w : Waited)
    → NoNil q.items
    → OnGot q.items w
    → OnGot q.items (if is_empty q then w else got (get_first q) q)
head_taken q w n h = elim (Bool-cases (is_empty q)) [
  | inl e ↦ rw e h
  | inr e ↦ rw e (first-Fair q.items q refl n e, Grown-refl q)
]

wait_loop-OnGot :
    (es : List Event) (orig : Status) (delay : ℕ) (q : TaskQueue)
    → NoNil q.items
    → OnGot q.items (wait_loop es orig delay q)
unfolding wait_loop add_last
wait_loop-OnGot [] orig delay q n = tt
wait_loop-OnGot (delay_fires ∷ es) orig delay q n = head_taken q _ n (wait_loop-OnGot es orig 0 q n)
wait_loop-OnGot (done_fires ∷ es) orig delay q n =
    on_done q.context q _ refl (wait_loop-OnGot es orig delay q n)
wait_loop-OnGot (second_fires k ∷ es) orig delay q n = wait_loop-OnGot es orig delay _ n
wait_loop-OnGot (adds t ∷ es) orig delay q n =
    OnGot-weaken q.items (some t) _
      (wait_loop-OnGot es orig delay (add_last q t) (add_last-NoNil q t n))
wait_loop-OnGot (stops ∷ es) orig delay q n =
    subst (λ items. OnGot items (wait_loop es orig delay (stop_queue q))) (stop_queue-items q)
      (wait_loop-OnGot es orig delay (stop_queue q) (stop_queue-NoNil q n))

wait_for_task-OnGot :
    (es : List Event) (delay : ℕ) (q : TaskQueue)
    → NoNil q.items
    → OnGot q.items (wait_for_task es delay q)
unfolding wait_for_task
wait_for_task-OnGot es delay q n =
    on_done q.context q _ refl (elim (Bool-cases (not (is_empty q) && nat_eq delay 0)) [
      | inl e ↦ rw e (first-Fair q.items q refl n (nonempty e), Grown-refl q)
      | inr e ↦ rw e (wait_loop-OnGot es q.status delay q n)
    ])
  where
    nonempty : (not (is_empty q) && nat_eq delay 0) ≡ true → is_empty q ≡ false
    nonempty e = ground arith

-- From a queue without nil slots, and whatever happens while it waits, `waitForTask` returns nil
-- only after the context was cancelled, and otherwise the head of the queue; tasks that came in
-- meanwhile stand behind those that were there.
pub wait_for_task-Fair :
    (es : List Event) (delay : ℕ) (q q' : TaskQueue) (s : Slot)
    → NoNil q.items
    → wait_for_task es delay q ≡ got s q'
    → Fair s q' × Grown q.items q'
wait_for_task-Fair es delay q q' s n e = subst (OnGot q.items) e (wait_for_task-OnGot es delay q n)

-- The delay ticker fires among these events.
abbrev pub fired : List Event → Bool
fired [] = false
fired (delay_fires ∷ es) = true
fired (done_fires ∷ es) = fired es
fired (second_fires n ∷ es) = fired es
fired (adds t ∷ es) = fired es
fired (stops ∷ es) = fired es

abbrev pub NoTask : Waited → Type 0
NoTask (got s q) = s ≡ none
NoTask panicked = Unit
NoTask (waiting q d) = Unit
