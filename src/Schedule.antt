-- ===== src/Schedule.antt =====
-- shell-operator/pkg/schedule_manager: crontabs that several bindings share. The cron library is
-- a parameter.
pub mod Manager
pub mod Tests
use argodemo.Common.{
  ℕ, ◌≡◌, String, Bool, true, false, List, [], ◌∷◌, Option, none, some, if◌then◌else◌, ◌==◌, Dict,
  lookup, insert, delete, has_key,
}

-- `cron.AddFunc` gives the id of a new entry; `active` tells whether the function of an entry
-- will fire. The laws are what the library documents of adding and removing an entry.
pub record Cron (C : Type 0) : Type 0 where
  pub add_func : C → String → ℕ × C
  pub remove : C → ℕ → C
  pub active : C → ℕ → Bool
  pub active-remove : (c : C) (id : ℕ) → active (remove c id) id ≡ false

pub record ScheduleEntry : Type 0 where
  pub crontab : String
  pub id : String

pub record CronEntry : Type 0 where
  pub entry_id : ℕ
  pub ids : Dict Bool

pub record ScheduleManager (C : Type 0) : Type 0 where
  pub cron : C
  pub entries : Dict CronEntry

abbrev pub no_ids : Dict Bool → Bool
no_ids [] = true
no_ids (i ∷ is) = false

module _ {C : Type 0} (lib : Cron C) where
  -- The new entry holds the id already, and is written once more by the last statement.
  unfoldable pub add : ScheduleManager C → ScheduleEntry → ScheduleManager C
  add sm e = elim (lookup e.crontab sm.entries) [
    | none ↦
        (let (entry_id, cron) = lib.add_func sm.cron e.crontab in
          record {
            cron = cron;
            entries =
                insert e.crontab
                  (record { entry_id = entry_id; ids = insert e.id true (insert e.id true []) })
                  sm.entries;
          })
    | some c ↦ if has_key e.id c.ids then sm else record sm {
      entries = insert e.crontab (record c { ids = insert e.id true c.ids }) sm.entries;
    }
  ]

  unfoldable pub remove : ScheduleManager C → ScheduleEntry → ScheduleManager C
  remove sm e = elim (lookup e.crontab sm.entries) [
    | none ↦ sm
    | some c ↦
        if has_key e.id c.ids
        then record {
          cron = if no_ids (delete e.id c.ids) then lib.remove sm.cron c.entry_id else sm.cron;
          entries = insert e.crontab (record c { ids = delete e.id c.ids }) sm.entries;
        }
        else sm
  ]
