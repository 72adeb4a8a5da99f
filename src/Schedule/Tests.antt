-- ===== src/Schedule/Tests.antt =====
-- A cron that counts its entries, and the theorems about the schedule manager applied.
use argodemo.Common.{
  some, lookup, refl, ℕ, suc, ◌≡◌, Bool, true, false, not, ◌&&◌, List, [], ◌∷◌, ◌==◌, arith,
  has_key, if◌then◌else◌, nat_eq, any, ltb,
}
use argodemo.Schedule.{Cron, ScheduleEntry, CronEntry, ScheduleManager, add, remove}
use argodemo.Schedule.Manager.{ids, add-remove-ids, add-remove-add}

-- The number of entries so far, and the removed ids.
abbrev pub Counting : Type 0
Counting = ℕ × List ℕ

abbrev pub still_active : Counting → ℕ → Bool
still_active c id = ltb id c.0 && not (any (nat_eq id) c.1)

pub active-removed : (c : Counting) (id : ℕ) → still_active (c.0, id ∷ c.1) id ≡ false
active-removed c id = ground arith

abbrev pub counting : Cron Counting
counting = record {
  add_func = λ c s. (c.0, (suc c.0, []));
  remove = λ c id. (c.0, id ∷ c.1);
  active = still_active;
  active-remove = active-removed;
}

abbrev entry : ScheduleEntry
entry = record { crontab = "* * * * *"; id = "a" }

abbrev pub empty : ScheduleManager Counting
empty = record { cron = (0, []); entries = [] }

add-remove-add_example :
    (c : CronEntry) × (lookup "* * * * *"
        (add counting (remove counting (add counting empty entry) entry) entry).entries
      ≡ some c)
    × (has_key "a" c.ids ≡ true)
    × (counting.active
          (add counting (remove counting (add counting empty entry) entry) entry).cron
          c.entry_id
        ≡ false)
unfolding lookup
add-remove-add_example = add-remove-add counting empty entry refl

add-remove-ids_example :
    (has_key "b" (ids "* * * * *" (add counting empty entry)) ≡ (
      if ◌==◌ "* * * * *" "* * * * *"
      then (if ◌==◌ "a" "b" then true else has_key "b" (ids "* * * * *" empty))
      else has_key "b" (ids "* * * * *" empty)))
    × (has_key "b" (ids "* * * * *" (remove counting empty entry)) ≡ (
        if ◌==◌ "* * * * *" "* * * * *"
        then (if ◌==◌ "a" "b" then false else has_key "b" (ids "* * * * *" empty))
        else has_key "b" (ids "* * * * *" empty)))
add-remove-ids_example = add-remove-ids counting empty entry "* * * * *" "b"

abbrev shared : CronEntry
shared = record { entry_id = 0; ids = ("a", true) ∷ ("b", true) ∷ [] }

abbrev sharing : ScheduleManager Counting
sharing = record { cron = (1, []); entries = ("* * * * *", shared) ∷ [] }
