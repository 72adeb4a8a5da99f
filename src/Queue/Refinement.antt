-- ===== src/Queue/Refinement.antt =====
-- A task queue of shell-operator/pkg/task/queue/task_queue.go as the list of its tasks: what its
-- operations promise, without slots and copies.
use argodemo.Common.{
  ◌≡◌, refl, sym, ap, ◌∙◌, subst, arith, ◌⊎◌, inl, inr, String, Bool, List, [], ◌∷◌, ◌++◌, keep,
  Option, none, some, if◌then◌else◌, ◌==◌, eq_iff, Bool-cases, Option-cases, Outcome, ok, panic,
  ◌>>=◌,
}
use argodemo.Task.{Task}
use argodemo.Queue.{
  TaskQueue, Slot, add_first, add_last, remove_first, remove_last, add_after, add_before, remove,
  filter, filter_items, init,
}
use argodemo.Queue
use argodemo.Queue.Insert.{Lacks, insert_after, insert_before, add_after_lem}
use argodemo.Queue.Remove.{remove-split, remove-absent}
use argodemo.Queue.Handle.Success.{slots}

pub data Command : Type 0 where
  put_first put_last : Task → Command
  put_after put_before : String → Task → Command
  take_first take_last : Command
  take_out : String → Command
  keep_only : (Task → Bool) → Command

-- A call of the operation. A filter function that reads a nil task panics.
pub apply : Command → TaskQueue → Outcome TaskQueue
apply (put_first t) q = ok (add_first q t)
apply (put_last t) q = ok (add_last q t)
apply (put_after id t) q = add_after q id t
apply (put_before id t) q = add_before q id t
apply take_first q = ok (remove_first q).1
apply take_last q = ok (remove_last q).1
apply (take_out id) q = remove q id >>= λ r. ok r.1
apply (keep_only p) q = filter q (λ s. elim s [ none ↦ panic | some t ↦ ok (p t) ])

pub apply_all : List Command → TaskQueue → Outcome TaskQueue
apply_all [] q = ok q
apply_all (c ∷ cs) q = apply c q >>= apply_all cs

abbrev or_cons : Task → Option (List Task) → Option (List Task)
or_cons t none = none
or_cons t (some ts) = some (t ∷ ts)

-- Insertion next to the first task with the id, which there has to be.
unfoldable pub behind : String → Task → List Task → Option (List Task)
behind id new [] = none
behind id new (t ∷ ts) = if t.id == id then some (t ∷ new ∷ ts) else or_cons t (behind id new ts)

unfoldable pub ahead : String → Task → List Task → Option (List Task)
ahead id new [] = none
ahead id new (t ∷ ts) = if t.id == id then some (new ∷ t ∷ ts) else or_cons t (ahead id new ts)

-- The list without the first task with the id.
unfoldable pub without : String → List Task → List Task
without id [] = []
without id (t ∷ ts) = if t.id == id then ts else t ∷ without id ts

abbrev tail : List Task → List Task
tail [] = []
tail (t ∷ ts) = ts

abbrev front : List Task → List Task
front [] = []
front (t ∷ []) = []
front (t ∷ u ∷ ts) = t ∷ front (u ∷ ts)

unfoldable pub specified : Command → List Task → Option (List Task)
specified (put_first t) ts = some (t ∷ ts)
specified (put_last t) ts = some (ts ++ t ∷ [])
specified (put_after id t) ts = behind id t ts
specified (put_before id t) ts = ahead id t ts
specified take_first ts = some (tail ts)
specified take_last ts = some (front ts)
specified (take_out id) ts = some (without id ts)
specified (keep_only p) ts = some (keep p ts)

unfoldable pub specified_all : List Command → List Task → Option (List Task)
specified_all [] ts = some ts
specified_all (c ∷ cs) ts = elim (specified c ts) [ none ↦ none | some us ↦ specified_all cs us ]

-- The queue holds the tasks, in order, and no nil slot.
abbrev pub Represents : List Task → TaskQueue → Type 0
Represents ts q = q.items ≡ slots ts

-- The operation gives a queue that holds the tasks.
abbrev pub Gives : Outcome TaskQueue → List Task → Type 0
Gives out ts = (q : TaskQueue) × (out ≡ ok q) × Represents ts q

insert_after-behind :
    (id : String) (new : Task) (ts us : List Task)
    → behind id new ts ≡ some us
    → insert_after id new (slots ts) ≡ ok (slots us)
unfolding insert_after behind
insert_after-behind id new [] us h = ground (arith, h)
insert_after-behind id new (t ∷ ts) us h = elim (Bool-cases (t.id == id)) [
  | inl e ↦ ground (arith, e, h)
  | inr e ↦ (elim (Option-cases (behind id new ts)) [
    | inl f ↦ ground (arith, e, f, h)
    | inr (vs, f) ↦ ground (arith, e, f, h, insert_after-behind id new ts vs f)
  ])
]

insert_before-ahead :
    (id : String) (new : Task) (ts us : List Task)
    → ahead id new ts ≡ some us
    → insert_before id new (slots ts) ≡ ok (slots us)
unfolding insert_before ahead
insert_before-ahead id new [] us h = ground (arith, h)
insert_before-ahead id new (t ∷ ts) us h = elim (Bool-cases (t.id == id)) [
  | inl e ↦ ground (arith, e, h)
  | inr e ↦ (elim (Option-cases (ahead id new ts)) [
    | inl f ↦ ground (arith, e, f, h)
    | inr (vs, f) ↦ ground (arith, e, f, h, insert_before-ahead id new ts vs f)
  ])
]

-- Where the first task with the id stands.
record Located (id : String) (ts : List Task) : Type 0 where
  before : List Slot
  task : Task
  after : List Slot
  there : slots ts ≡ before ++ some task ∷ after
  has_id : task.id ≡ id
  lacks : Lacks id before
  rest : slots (without id ts) ≡ before ++ after

locate :
    (id : String) (ts : List Task) → (Lacks id (slots ts) × (without id ts ≡ ts)) ⊎ Located id ts
unfolding without
locate id [] = inl (tt, refl)
locate id (t ∷ ts) = elim (Bool-cases (t.id == id)) [
  | inl e ↦ inr (record {
    before = [];
    task = t;
    after = slots ts;
    there = refl;
    has_id = ground (arith, e, eq_iff t.id id);
    lacks = tt;
    rest = ground (arith, e);
  })
  | inr e ↦ (elim (locate id ts) [
    | inl (l, f) ↦ inl ((e, l), ground (arith, e, f))
    | inr r ↦ inr (record {
      before = some t ∷ r.before;
      task = r.task;
      after = r.after;
      there = ap (◌∷◌ (some t)) r.there;
      has_id = r.has_id;
      lacks = (e, r.lacks);
      rest = ground (arith, e, r.rest);
    })
  ])
]

filter_items-keep :
    (p : Task → Bool) (ts : List Task)
    → filter_items (λ s. elim s [ none ↦ panic | some t ↦ ok (p t) ]) (slots ts)
      ≡ ok (slots (keep p ts))
unfolding filter_items
filter_items-keep p [] = refl
filter_items-keep p (t ∷ ts) = ground (arith, filter_items-keep p ts)

add_after-behind :
    (id : String) (new : Task) (q : TaskQueue) (ts us : List Task)
    → Represents ts q
    → behind id new ts ≡ some us
    → Gives (add_after q id new) us
add_after-behind id new q ts us r h = (
  record q { items = slots us },
  ground (arith, r, (add_after_lem q id new).0, insert_after-behind id new ts us h),
  refl,
)

add_before-ahead :
    (id : String) (new : Task) (q : TaskQueue) (ts us : List Task)
    → Represents ts q
    → ahead id new ts ≡ some us
    → Gives (add_before q id new) us
add_before-ahead id new q ts us r h = (
  record q { items = slots us },
  ground (arith, r, (add_after_lem q id new).1, insert_before-ahead id new ts us h),
  refl,
)

remove-without :
    (id : String) (q : TaskQueue) (ts : List Task)
    → Represents ts q
    → Gives (remove q id >>= λ r. ok r.1) (without id ts)
remove-without id q ts r = elim (locate id ts) [
  | inl (l, e) ↦
      (let absent = (remove-absent q id (subst (Lacks id) (sym r) l)).1 in
        (q, ground (arith, absent), r ∙ ap slots (sym e)))
  | inr found ↦
      (let lacks : Lacks found.task.id found.before =
          subst (λ i. Lacks i found.before) (sym found.has_id) found.lacks in
        let removed =
          (remove-split q found.before found.task found.after (r ∙ found.there) lacks).1 in
        (
          record q { items = found.before ++ found.after },
          ground (arith, removed, found.has_id),
          sym found.rest,
        ))
]

filter-keep :
    (p : Task → Bool) (q : TaskQueue) (ts : List Task)
    → Represents ts q
    → Gives (filter q (λ s. elim s [ none ↦ panic | some t ↦ ok (p t) ])) (keep p ts)
unfolding filter
filter-keep p q ts r =
    (record q { items = slots (keep p ts) }, ground (arith, r, filter_items-keep p ts), refl)

slots-front : (ts : List Task) → init (slots ts) ≡ slots (front ts)
slots-front [] = refl
slots-front (t ∷ []) = refl
slots-front (t ∷ u ∷ ts) = ap (◌∷◌ (some t)) (slots-front (u ∷ ts))

slots-tail : (ts : List Task) → Queue.rest (slots ts) ≡ slots (tail ts)
slots-tail [] = refl
slots-tail (t ∷ ts) = refl

slots-snoc : (ts : List Task) (t : Task) → slots ts ++ some t ∷ [] ≡ slots (ts ++ t ∷ [])
slots-snoc [] t = refl
slots-snoc (u ∷ ts) t = ap (◌∷◌ (some u)) (slots-snoc ts t)

apply-specified :
    (c : Command) (q : TaskQueue) (ts us : List Task)
    → Represents ts q
    → specified c ts ≡ some us
    → Gives (apply c q) us
unfolding apply specified add_first add_last remove_first remove_last
apply-specified (put_first t) q ts us r h = (add_first q t, refl, ground (arith, r, h))
apply-specified (put_last t) q ts us r h =
    (add_last q t, refl, ground (arith, r, h, slots-snoc ts t))
apply-specified (put_after id t) q ts us r h = add_after-behind id t q ts us r h
apply-specified (put_before id t) q ts us r h = add_before-ahead id t q ts us r h
apply-specified take_first q ts us r h =
    ((remove_first q).1, refl, ground (arith, r, h, slots-tail ts))
apply-specified take_last q ts us r h =
    ((remove_last q).1, refl, ground (arith, r, h, slots-front ts))
apply-specified (take_out id) q ts us r h =
    subst (Gives (remove q id >>= λ r. ok r.1)) (ground (arith, h)) (remove-without id q ts r)
apply-specified (keep_only p) q ts us r h =
    subst (Gives (apply (keep_only p) q)) (ground (arith, h)) (filter-keep p q ts r)

-- A task queue with a task in every slot implements the list of its tasks: wherever the list
-- specification of a sequence of operations has a result, which it has unless a task is to be
-- inserted next to an id that is not there, the operations do not panic, and the queue ends with
-- exactly the tasks of the result, in order.
pub apply_all-specified_all :
    (cs : List Command) (q : TaskQueue) (ts us : List Task)
    → Represents ts q
    → specified_all cs ts ≡ some us
    → Gives (apply_all cs q) us
unfolding apply_all specified_all
apply_all-specified_all [] q ts us r h = (q, refl, ground (arith, r, h))
apply_all-specified_all (c ∷ cs) q ts us r h = elim (Option-cases (specified c ts)) [
  | inl e ↦ ground (arith, e, h)
  | inr (vs, e) ↦
      (let (next, f, held) = apply-specified c q ts vs r e in
        let (last, g, holds) = apply_all-specified_all cs next vs us held (ground (arith, e, h)) in
        (last, ground (arith, f, g), holds))
]
