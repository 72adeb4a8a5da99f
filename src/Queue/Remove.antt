-- ===== src/Queue/Remove.antt =====
-- `Remove`, `Get` and `Filter` of task_queue.go.
use argodemo.Common.{
  ◌∙◌, eq_refl, ℕ, suc, ◌+◌, ◌≡◌, refl, ap, String, true, List, [], ◌∷◌, ◌++◌, none, some, ◌==◌,
  length, ok, arith,
}
use native.Mathlib.Nat.{zero-add}
use argodemo.Task.{Task}
use argodemo.Queue.{TaskQueue, Slot, find, get, index_of, remove, take, drop, nth}
use argodemo.Queue.Insert.{Lacks}

index_of-split :
    (id : String) (pre : List Slot) (t : Task) (post : List Slot) (i : ℕ)
    → Lacks id pre
    → (t.id == id) ≡ true
    → index_of id i (pre ++ some t ∷ post) ≡ ok (some (i + length pre))
unfolding index_of
index_of-split id [] t post i l h = rw h (ground arith)
index_of-split id (none ∷ pre) t post i l h = absurd l
index_of-split id (some p ∷ pre) t post i l h =
    rw l.0 (index_of-split id pre t post (suc i) l.1 h ∙ ground arith)

index_of-absent : (id : String) (ts : List Slot) (i : ℕ) → Lacks id ts → index_of id i ts ≡ ok none
unfolding index_of
index_of-absent id [] i l = refl
index_of-absent id (none ∷ ts) i l = absurd l
index_of-absent id (some t ∷ ts) i l = rw l.0 (index_of-absent id ts (suc i) l.1)

cut :
    (pre : List Slot) (x : Slot) (post : List Slot)
    → (nth (length pre) (pre ++ x ∷ post) ≡ x)
      × (take (length pre) (pre ++ x ∷ post) ++ drop (suc (length pre)) (pre ++ x ∷ post)
          ≡ pre ++ post)
cut [] x post = (refl, refl)
cut (p ∷ pre) x post = ((cut pre x post).0, ap (◌∷◌ p) (cut pre x post).1)

find-split :
    (id : String) (pre : List Slot) (t : Task) (post : List Slot)
    → Lacks id pre
    → (t.id == id) ≡ true
    → find id (pre ++ some t ∷ post) ≡ ok (some t)
unfolding find
find-split id [] t post l h = rw h
find-split id (none ∷ pre) t post l h = absurd l
find-split id (some p ∷ pre) t post l h = rw l.0 (find-split id pre t post l.1 h)

find-Absent : (id : String) (ts : List Slot) → Lacks id ts → find id ts ≡ ok none
unfolding find
find-Absent id [] l = refl
find-Absent id (none ∷ ts) l = absurd l
find-Absent id (some t ∷ ts) l = rw l.0 (find-Absent id ts l.1)

-- `Get` finds the first task with the id; `Remove` returns it and takes just this one out.
pub remove-split :
    (q : TaskQueue) (pre : List Slot) (t : Task) (post : List Slot)
    → q.items ≡ pre ++ some t ∷ post
    → Lacks t.id pre
    → (get q t.id ≡ ok (some t)) × (remove q t.id ≡ ok (some t, record q { items = pre ++ post }))
unfolding get remove
remove-split q pre t post e l = (
  rw e (find-split t.id pre t post l (eq_refl t.id)),
  rw (
    e,
    index_of-split t.id pre t post 0 l (eq_refl t.id),
    zero-add,
    (cut pre (some t) post).0,
    (cut pre (some t) post).1,
  ),
)

-- Where no task has the id, `Get` and `Remove` return nil and the queue stays as it is.
pub remove-absent :
    (q : TaskQueue) (id : String)
    → Lacks id q.items
    → (get q id ≡ ok none) × (remove q id ≡ ok (none, q))
unfolding get remove
remove-absent q id l = (find-Absent id q.items l, rw (index_of-absent id q.items 0 l))
