-- ===== src/Queue/Handle/Success.antt =====
-- task_queue.go, `Start`: the items of the queue after a handler succeeded.
use mathlib.Core.List.{reverse, reverse-cons, map-append}
use argodemo.Common.{
  ◌∙◌, sym, ◌≡◌, refl, List, [], ◌∷◌, ◌++◌, map, append_assoc, append-nil, some, ok,
}
use argodemo.Task.{Task}
use argodemo.Queue.{TaskQueue, Slot, Status, add_first, add_last}
use argodemo.Queue.Insert.{Lacks, add_after-split}
use argodemo.Queue.Remove.{remove-split}
use argodemo.Queue.Handle.{TaskResult, add_after_all, add_last_all, add_first_all, on_success}

abbrev pub slots : List Task → List Slot
slots ts = map some ts

add_after_all-split :
    (q : TaskQueue) (ts : List Task) (pre : List Slot) (t : Task) (post : List Slot)
    → q.items ≡ pre ++ some t ∷ post
    → Lacks t.id pre
    → add_after_all q t.id ts ≡ ok (record q { items = pre ++ some t ∷ (slots ts ++ post) })
unfolding add_after_all
add_after_all-split q [] pre t post e l = λ i. ok (record q { items = e i })
add_after_all-split q (x ∷ ts) pre t post e l =
    rw (add_after_all-split q ts pre t post e l)
      (add_after-split (record q { items = pre ++ some t ∷ (slots ts ++ post) }) x pre t
        (slots ts ++ post) refl l).0

pub add_last_all_lem :
    (q : TaskQueue) (ts : List Task) → add_last_all q ts ≡ record q { items = q.items ++ slots ts }
unfolding add_last_all add_last
add_last_all_lem q [] = λ i. record q { items = sym (append-nil q.items) i }
add_last_all_lem q (t ∷ ts) =
    add_last_all_lem (record q { items = q.items ++ some t ∷ [] }) ts
    ∙ (λ i. record q { items = append_assoc q.items (some t ∷ []) (slots ts) i })

regroup :
    (t : Task) (ts : List Task) (items : List Slot)
    → slots (reverse ts) ++ some t ∷ items ≡ slots (reverse (t ∷ ts)) ++ items
regroup t ts items = rw (reverse-cons t ts, map-append, append_assoc)

pub add_first_all_lem :
    (q : TaskQueue) (ts : List Task)
    → add_first_all q ts ≡ record q { items = slots (reverse ts) ++ q.items }
unfolding add_first_all add_first
add_first_all_lem q [] = refl
add_first_all_lem q (t ∷ ts) =
    add_first_all_lem (record q { items = some t ∷ q.items }) ts
    ∙ (λ i. record q { items = regroup t ts q.items i })

tail_split :
    (pre : List Slot) (t : Task) (mid tail : List Slot)
    → (pre ++ some t ∷ mid) ++ tail ≡ pre ++ some t ∷ (mid ++ tail)
tail_split pre t mid tail = append_assoc pre (some t ∷ mid) tail

-- When the handler of task `t` succeeds, the first slot with its id is taken out; the after
-- tasks stand in its place in their order, the tail tasks at the end in their order, and the head
-- tasks at the front, the last of them first. Nothing else moves.
pub on_success-split :
    (q : TaskQueue) (t : Task) (res : TaskResult) (pre post : List Slot)
    → q.items ≡ pre ++ some t ∷ post
    → Lacks t.id pre
    → on_success q t res
      ≡ ok (record q {
        items =
            slots (reverse res.head_tasks)
            ++ (pre ++ ((slots res.after_tasks ++ post) ++ slots res.tail_tasks));
        status = Status.empty;
      })
unfolding on_success
on_success-split q t res pre post e l =
    let placed : TaskQueue = record q { items = pre ++ some t ∷ (slots res.after_tasks ++ post) } in
    rw (
      add_after_all-split q res.after_tasks pre t post e l,
      add_last_all_lem placed res.tail_tasks,
      (remove-split
          (record q {
            items = (pre ++ some t ∷ (slots res.after_tasks ++ post)) ++ slots res.tail_tasks;
          })
          pre t ((slots res.after_tasks ++ post) ++ slots res.tail_tasks)
          (tail_split pre t (slots res.after_tasks ++ post) (slots res.tail_tasks)) l).1,
      add_first_all_lem
          (record q { items = pre ++ ((slots res.after_tasks ++ post) ++ slots res.tail_tasks) })
          res.head_tasks,
    )
