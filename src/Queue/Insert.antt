-- ===== src/Queue/Insert.antt =====
-- `AddAfter` and `AddBefore` of task_queue.go: the copy loops against list insertion.
use argodemo.Common.{
  ◌∙◌, eq_refl, ℕ, zero, suc, ◌≡◌, refl, ap, String, true, false, List, [], ◌∷◌, ◌++◌, append_assoc,
  none, some, if◌then◌else◌, ◌==◌, length, replicate, set, Outcome, ok, panic, ◌>>=◌, arith, inl,
  inr, Bool-cases,
}
use argodemo.Task.{Task}
use argodemo.Queue.{TaskQueue, Slot, copy_after, copy_before, add_after, add_before}

-- Insertion behind the first task with the id. A nil slot is left at the end if there is none.
unfoldable pub insert_after : String → Task → List Slot → Outcome (List Slot)
insert_after id new [] = ok (none ∷ [])
insert_after id new (none ∷ ts) = panic
insert_after id new (some t ∷ ts) =
    if t.id == id
    then ok (some t ∷ some new ∷ ts)
    else (insert_after id new ts >>= λ r. ok (some t ∷ r))

unfoldable pub insert_before : String → Task → List Slot → Outcome (List Slot)
insert_before id new [] = ok (none ∷ [])
insert_before id new (none ∷ ts) = panic
insert_before id new (some t ∷ ts) =
    if t.id == id
    then ok (some new ∷ some t ∷ ts)
    else (insert_before id new ts >>= λ r. ok (some t ∷ r))

set_at :
    (pre : List Slot) (i : ℕ) (x v : Slot) (post : List Slot)
    → i ≡ length pre
    → set (pre ++ x ∷ post) i v ≡ pre ++ v ∷ post
set_at [] zero x v post e = refl
set_at [] (suc i) x v post e = absurd (omega arith)
set_at (p ∷ pre) zero x v post e = absurd (omega arith)
set_at (p ∷ pre) (suc i) x v post e = ap (◌∷◌ p) (set_at pre i x v post (omega arith))

snoc_append :
    (pre : List Slot) (x : Slot) (post : List Slot) → (pre ++ x ∷ []) ++ post ≡ pre ++ x ∷ post
snoc_append pre x post = append_assoc pre (x ∷ []) post

length-snoc : (pre : List Slot) (x : Slot) → length (pre ++ x ∷ []) ≡ suc (length pre)
length-snoc [] x = refl
length-snoc (p ∷ pre) x = ap suc (length-snoc pre x)

set_next :
    (pre : List Slot) (i : ℕ) (x y v : Slot) (post : List Slot)
    → i ≡ length pre
    → set (pre ++ x ∷ y ∷ post) (suc i) v ≡ pre ++ x ∷ v ∷ post
set_next [] zero x y v post e = refl
set_next [] (suc i) x y v post e = absurd (omega arith)
set_next (p ∷ pre) zero x y v post e = absurd (omega arith)
set_next (p ∷ pre) (suc i) x y v post e = ap (◌∷◌ p) (set_next pre i x y v post (omega arith))

-- The slots that a loop has not reached yet.
abbrev unwritten : List Slot → List Slot
unwritten ts = replicate (length ts) none

copy_after-found :
    (id : String) (new : Task) (ts pre : List Slot) (i : ℕ) (x : Slot)
    → i ≡ length pre
    → copy_after id new i ts (pre ++ x ∷ unwritten ts) true ≡ ok (pre ++ x ∷ ts)
unfolding copy_after
copy_after-found id new [] pre i x e = refl
copy_after-found id new (t ∷ ts) pre i x e =
    rw
      (
        set_next pre i x none t (unwritten ts) e,
        ← snoc_append pre x (t ∷ unwritten ts),
        ← snoc_append pre x (t ∷ ts),
      )
      (copy_after-found id new ts (pre ++ x ∷ []) (suc i) t (omega (arith, length-snoc pre x)))

bind_prefix :
    (pre : List Slot) (t : Slot) (m : Outcome (List Slot))
    → (m >>= λ r. ok ((pre ++ t ∷ []) ++ r)) ≡ ((m >>= λ r. ok (t ∷ r)) >>= λ r. ok (pre ++ r))
bind_prefix pre t (ok r) = ap ok (snoc_append pre t r)
bind_prefix pre t panic = refl

copy_after-eq :
    (id : String) (new : Task) (ts pre : List Slot) (i : ℕ)
    → i ≡ length pre
    → copy_after id new i ts (pre ++ none ∷ unwritten ts) false
      ≡ (insert_after id new ts >>= λ r. ok (pre ++ r))
unfolding copy_after insert_after
copy_after-eq id new [] pre i e = refl
copy_after-eq id new (none ∷ ts) pre i e = refl
copy_after-eq id new (some t ∷ ts) pre i e = elim (Bool-cases (t.id == id)) [
  | inl hit ↦
      rw
        (
          hit,
          set_at pre i none (some t) (none ∷ unwritten ts) e,
          set_next pre i (some t) none (some new) (unwritten ts) e,
          ← snoc_append pre (some t) (some new ∷ unwritten ts),
          ← snoc_append pre (some t) (some new ∷ ts),
        )
        (copy_after-found id new ts (pre ++ some t ∷ []) (suc i) (some new)
          (omega (arith, length-snoc pre (some t))))
  | inr miss ↦
      rw
        (
          miss,
          set_at pre i none (some t) (none ∷ unwritten ts) e,
          ← snoc_append pre (some t) (none ∷ unwritten ts),
          ← bind_prefix pre (some t) (insert_after id new ts),
        )
        (copy_after-eq id new ts (pre ++ some t ∷ []) (suc i)
          (omega (arith, length-snoc pre (some t))))
]

copy_before-found :
    (id : String) (new : Task) (ts pre : List Slot) (i : ℕ) (x : Slot)
    → i ≡ length pre
    → copy_before id new i ts (pre ++ x ∷ unwritten ts) true ≡ ok (pre ++ x ∷ ts)
unfolding copy_before
copy_before-found id new [] pre i x e = refl
copy_before-found id new (t ∷ ts) pre i x e =
    rw
      (
        set_next pre i x none t (unwritten ts) e,
        ← snoc_append pre x (t ∷ unwritten ts),
        ← snoc_append pre x (t ∷ ts),
      )
      (copy_before-found id new ts (pre ++ x ∷ []) (suc i) t (omega (arith, length-snoc pre x)))

copy_before-eq :
    (id : String) (new : Task) (ts pre : List Slot) (i : ℕ)
    → i ≡ length pre
    → copy_before id new i ts (pre ++ none ∷ unwritten ts) false
      ≡ (insert_before id new ts >>= λ r. ok (pre ++ r))
unfolding copy_before insert_before
copy_before-eq id new [] pre i e = refl
copy_before-eq id new (none ∷ ts) pre i e = refl
copy_before-eq id new (some t ∷ ts) pre i e = elim (Bool-cases (t.id == id)) [
  | inl hit ↦
      rw
        (
          hit,
          set_at pre i none (some new) (none ∷ unwritten ts) e,
          set_next pre i (some new) none (some t) (unwritten ts) e,
          ← snoc_append pre (some new) (some t ∷ unwritten ts),
          ← snoc_append pre (some new) (some t ∷ ts),
        )
        (copy_before-found id new ts (pre ++ some new ∷ []) (suc i) (some t)
          (omega (arith, length-snoc pre (some new))))
  | inr miss ↦
      rw
        (
          miss,
          set_at pre i none (some t) (none ∷ unwritten ts) e,
          ← snoc_append pre (some t) (none ∷ unwritten ts),
          ← bind_prefix pre (some t) (insert_before id new ts),
        )
        (copy_before-eq id new ts (pre ++ some t ∷ []) (suc i)
          (omega (arith, length-snoc pre (some t))))
]

-- The items are not nil, and none of them has the id.
abbrev pub Lacks : String → List Slot → Type 0
Lacks id [] = Unit
Lacks id (none ∷ ts) = ⊥
Lacks id (some t ∷ ts) = ((t.id == id) ≡ false) × Lacks id ts

bind_ok : (m : Outcome (List Slot)) → (m >>= λ r. ok r) ≡ m
bind_ok (ok r) = refl
bind_ok panic = refl

pub add_after_lem :
    (q : TaskQueue) (id : String) (new : Task)
    → (add_after q id new ≡ (insert_after id new q.items >>= λ r. ok (record q { items = r })))
      × (add_before q id new ≡ (insert_before id new q.items >>= λ r. ok (record q { items = r })))
unfolding add_after add_before
add_after_lem q id new = (
  rw (copy_after-eq id new q.items [] 0 refl, bind_ok (insert_after id new q.items)),
  rw (copy_before-eq id new q.items [] 0 refl, bind_ok (insert_before id new q.items)),
)

module _ (id : String) (new : Task) where
  pub insert_after-split :
      (pre : List Slot) (t : Task) (post : List Slot)
      → Lacks id pre
      → (t.id == id) ≡ true
      → insert_after id new (pre ++ some t ∷ post) ≡ ok (pre ++ some t ∷ some new ∷ post)
  unfolding insert_after
  insert_after-split [] t post l h = rw h
  insert_after-split (none ∷ pre) t post l h = absurd l
  insert_after-split (some p ∷ pre) t post l h = rw (l.0, insert_after-split pre t post l.1 h)

  pub insert_before-split :
      (pre : List Slot) (t : Task) (post : List Slot)
      → Lacks id pre
      → (t.id == id) ≡ true
      → insert_before id new (pre ++ some t ∷ post) ≡ ok (pre ++ some new ∷ some t ∷ post)
  unfolding insert_before
  insert_before-split [] t post l h = rw h
  insert_before-split (none ∷ pre) t post l h = absurd l
  insert_before-split (some p ∷ pre) t post l h = rw (l.0, insert_before-split pre t post l.1 h)

  insert_after-absent :
      (ts : List Slot) → Lacks id ts → insert_after id new ts ≡ ok (ts ++ none ∷ [])
  unfolding insert_after
  insert_after-absent [] l = refl
  insert_after-absent (none ∷ ts) l = absurd l
  insert_after-absent (some t ∷ ts) l = rw (l.0, insert_after-absent ts l.1)

  insert_before-absent :
      (ts : List Slot) → Lacks id ts → insert_before id new ts ≡ ok (ts ++ none ∷ [])
  unfolding insert_before
  insert_before-absent [] l = refl
  insert_before-absent (none ∷ ts) l = absurd l
  insert_before-absent (some t ∷ ts) l = rw (l.0, insert_before-absent ts l.1)

-- `AddAfter` puts the new task right behind the first task with the id, `AddBefore` right before
-- it, and the other items stay as they are.
pub add_after-split :
    (q : TaskQueue) (new : Task) (pre : List Slot) (t : Task) (post : List Slot)
    → q.items ≡ pre ++ some t ∷ post
    → Lacks t.id pre
    → (add_after q t.id new ≡ ok (record q { items = pre ++ some t ∷ some new ∷ post }))
      × (add_before q t.id new ≡ ok (record q { items = pre ++ some new ∷ some t ∷ post }))
add_after-split q new pre t post e l = (
  (add_after_lem q t.id new).0 ∙ rw (e, insert_after-split t.id new pre t post l (eq_refl t.id)),
  (add_after_lem q t.id new).1 ∙ rw (e, insert_before-split t.id new pre t post l (eq_refl t.id)),
)

-- Where no task has the id, both append a nil slot in place of the new task.
pub add_after-absent :
    (q : TaskQueue) (id : String) (new : Task)
    → Lacks id q.items
    → (add_after q id new ≡ ok (record q { items = q.items ++ none ∷ [] }))
      × (add_before q id new ≡ ok (record q { items = q.items ++ none ∷ [] }))
add_after-absent q id new l = (
  (add_after_lem q id new).0 ∙ rw (insert_after-absent id new q.items l),
  (add_after_lem q id new).1 ∙ rw (insert_before-absent id new q.items l),
)
