-- ===== src/Schedule/Manager.antt =====
-- schedule_manager.go: what `Add` and `Remove` do to the entries and to the cron library.
use argodemo.Common.{
  ◌∙◌, ◌≡◌, refl, String, Bool, true, false, [], ◌∷◌, Option, none, some, if◌then◌else◌, ◌==◌,
  eq_iff, eq_refl, Dict, lookup, insert, delete, has_key, lookup-insert, arith, Option-cases, inl,
  inr,
}
use argodemo.Schedule.{Cron, ScheduleEntry, CronEntry, ScheduleManager, no_ids, add, remove}

abbrev ids_of : Option CronEntry → Dict Bool
ids_of none = []
ids_of (some c) = c.ids

-- The ids that share a crontab.
abbrev pub ids : {C : Type 0} → String → ScheduleManager C → Dict Bool
ids crontab sm = ids_of (lookup crontab sm.entries)

has_key-insert :
    (k j : String) (v : Bool) (m : Dict Bool)
    → has_key j (insert k v m) ≡ (if k == j then true else has_key j m)
unfolding has_key insert
has_key-insert k j v [] = refl
has_key-insert k j v ((i, w) ∷ m) =
    ground (arith, eq_iff k j, eq_iff i k, eq_iff i j, has_key-insert k j v m)

has_key-delete :
    (k j : String) (m : Dict Bool)
    → has_key j (delete k m) ≡ (if k == j then false else has_key j m)
unfolding has_key delete
has_key-delete k j [] = ground arith
has_key-delete k j ((i, w) ∷ m) =
    ground (arith, eq_iff k j, eq_iff i k, eq_iff i j, has_key-delete k j m)

module _ {C : Type 0} (lib : Cron C) where
  entry_ids :
      (e : ScheduleEntry) (crontab : String) (c : CronEntry) (sm : ScheduleManager C)
      → ids_of (lookup crontab (insert e.crontab c sm.entries))
        ≡ (if e.crontab == crontab then c.ids else ids crontab sm)
  entry_ids e crontab c sm = ground (arith, lookup-insert e.crontab crontab c sm.entries)

  ids-same :
      (e : ScheduleEntry) (crontab : String) (sm : ScheduleManager C)
      → (e.crontab == crontab) ≡ true
      → ids crontab sm ≡ ids e.crontab sm
  ids-same e crontab sm h = ground (arith, eq_iff e.crontab crontab)

  add_ids :
      (sm : ScheduleManager C) (e : ScheduleEntry) (crontab id : String)
      → has_key id (ids crontab (add lib sm e)) ≡ (
          if e.crontab == crontab
          then (if e.id == id then true else has_key id (ids crontab sm))
          else has_key id (ids crontab sm))
  unfolding add has_key
  add_ids sm e crontab id = elim (Option-cases (lookup e.crontab sm.entries)) [
    | inl n ↦ ground (
      arith,
      n,
      lookup-insert e.crontab crontab
          (record {
            entry_id = (lib.add_func sm.cron e.crontab).0;
            ids = insert e.id true (insert e.id true []);
          })
          sm.entries,
      has_key-insert e.id id true (insert e.id true []),
      has_key-insert e.id id true [],
      eq_iff e.crontab crontab,
    )
    | inr (c, s) ↦ ground (
      arith,
      s,
      lookup-insert e.crontab crontab (record c { ids = insert e.id true c.ids }) sm.entries,
      has_key-insert e.id id true c.ids,
      eq_iff e.crontab crontab,
      eq_iff e.id id,
    )
  ]

  remove_ids :
      (sm : ScheduleManager C) (e : ScheduleEntry) (crontab id : String)
      → has_key id (ids crontab (remove lib sm e)) ≡ (
          if e.crontab == crontab
          then (if e.id == id then false else has_key id (ids crontab sm))
          else has_key id (ids crontab sm))
  unfolding remove has_key
  remove_ids sm e crontab id = elim (Option-cases (lookup e.crontab sm.entries)) [
    | inl n ↦ ground (arith, n, eq_iff e.crontab crontab)
    | inr (c, s) ↦ ground (
      arith,
      s,
      lookup-insert e.crontab crontab (record c { ids = delete e.id c.ids }) sm.entries,
      has_key-delete e.id id c.ids,
      eq_iff e.crontab crontab,
      eq_iff e.id id,
    )
  ]

  -- `Add` puts the id among those of its crontab and `Remove` takes it out; all other ids, of
  -- this and of other crontabs, stay.
  pub add-remove-ids :
      (sm : ScheduleManager C) (e : ScheduleEntry) (crontab id : String)
      → (has_key id (ids crontab (add lib sm e)) ≡ (
          if e.crontab == crontab
          then (if e.id == id then true else has_key id (ids crontab sm))
          else has_key id (ids crontab sm)))
        × (has_key id (ids crontab (remove lib sm e)) ≡ (
            if e.crontab == crontab
            then (if e.id == id then false else has_key id (ids crontab sm))
            else has_key id (ids crontab sm)))
  add-remove-ids sm e crontab id = (add_ids sm e crontab id, remove_ids sm e crontab id)

  -- A crontab that is known is not scheduled again, and its function is removed exactly by the
  -- call that removes its last id.
  pub remove_cron :
      (sm : ScheduleManager C) (e : ScheduleEntry) (c : CronEntry)
      → lookup e.crontab sm.entries ≡ some c
      → ((add lib sm e).cron ≡ sm.cron)
        × ((remove lib sm e).cron ≡ (
            if has_key e.id c.ids
            then (if no_ids (delete e.id c.ids) then lib.remove sm.cron c.entry_id else sm.cron)
            else sm.cron))
  unfolding add remove
  remove_cron sm e c h = (ground (arith, h), ground (arith, h))

  add_new :
      (sm : ScheduleManager C) (e : ScheduleEntry)
      → lookup e.crontab sm.entries ≡ none
      → add lib sm e ≡ record {
        cron = (lib.add_func sm.cron e.crontab).1;
        entries =
            insert e.crontab
              (record {
                entry_id = (lib.add_func sm.cron e.crontab).0;
                ids = insert e.id true (insert e.id true []);
              })
              sm.entries;
      }
  unfolding add
  add_new sm e h = ground (arith, h)

  remove_last :
      (sm : ScheduleManager C) (e : ScheduleEntry) (c : CronEntry)
      → lookup e.crontab sm.entries ≡ some c
      → has_key e.id c.ids ≡ true
      → delete e.id c.ids ≡ []
      → remove lib sm e ≡ record {
        cron = lib.remove sm.cron c.entry_id;
        entries = insert e.crontab (record c { ids = [] }) sm.entries;
      }
  unfolding remove
  remove_last sm e c h k d = ground (arith, h, k, d)

  add_again :
      (sm : ScheduleManager C) (e : ScheduleEntry) (c : CronEntry)
      → lookup e.crontab sm.entries ≡ some c
      → c.ids ≡ []
      → add lib sm e ≡ record sm {
        entries = insert e.crontab (record c { ids = insert e.id true [] }) sm.entries;
      }
  unfolding add has_key
  add_again sm e c h n = ground (arith, h, n)

  ids_twice :
      (id : String)
      → (has_key id (insert id true (insert id true [])) ≡ true)
        × (delete id (insert id true (insert id true [])) ≡ [])
        × (has_key id (insert id true []) ≡ true)
  unfolding insert delete has_key
  ids_twice id = (rw (eq_refl id, eq_refl id), rw (eq_refl id, eq_refl id), rw (eq_refl id))

  stored :
      (crontab : String) (c : CronEntry) (entries : Dict CronEntry)
      → lookup crontab (insert crontab c entries) ≡ some c
  stored crontab c entries = lookup-insert crontab crontab c entries ∙ rw (eq_refl crontab)

  -- A crontab whose last id was removed stays among the entries, so it is not scheduled when an
  -- id is added to it once more: the function of its entry does not fire.
  pub add-remove-add :
      (sm : ScheduleManager C) (e : ScheduleEntry)
      → lookup e.crontab sm.entries ≡ none
      → (c : CronEntry) × (lookup e.crontab (add lib (remove lib (add lib sm e) e) e).entries
          ≡ some c)
        × (has_key e.id c.ids ≡ true)
        × (lib.active (add lib (remove lib (add lib sm e) e) e).cron c.entry_id ≡ false)
  add-remove-add sm e h =
      let c : CronEntry = record {
        entry_id = (lib.add_func sm.cron e.crontab).0;
        ids = insert e.id true (insert e.id true []);
      } in
      let cron : C = (lib.add_func sm.cron e.crontab).1 in
      let one : ScheduleManager C = record {
        cron = cron;
        entries = insert e.crontab c sm.entries;
      } in
      let emptied : CronEntry = record c { ids = [] } in
      let two : ScheduleManager C = record {
        cron = lib.remove cron c.entry_id;
        entries = insert e.crontab emptied one.entries;
      } in
      rw
        (
          add_new sm e h,
          remove_last one e c (stored e.crontab c sm.entries) (ids_twice e.id).0 (ids_twice e.id).1,
          add_again two e emptied (stored e.crontab emptied one.entries) refl,
        )
        (
          record c { ids = insert e.id true [] },
          stored e.crontab (record c { ids = insert e.id true [] }) two.entries,
          (ids_twice e.id).2,
          lib.active-remove cron c.entry_id,
        )
