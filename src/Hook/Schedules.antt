-- ===== src/Hook/Schedules.antt =====
-- shell-operator/pkg/hook/controller/schedule_bindings_controller.go: the schedules of one hook.
-- A dictionary's order is one of those in which Go ranges over the map.
use argodemo.Common.{
  arith, ◌≡◌, ◌↔◌, refl, String, Bool, true, false, List, [], ◌∷◌, if◌then◌else◌, ◌==◌, Dict,
  insert, delete,
}
use argodemo.Task.Context.{BindingContext, BindingType, no_metadata, no_context}
use argodemo.Schedule.{ScheduleManager, Cron, add, remove}
use argodemo.Hook.Bindings.{ScheduleConfig, BindingExecutionInfo}

pub record ScheduleLink : Type 0 where
  pub binding_name : String
  pub crontab : String
  pub include_snapshots : List String
  pub allow_failure : Bool
  pub queue_name : String
  pub group : String

pub record ScheduleBindingsController : Type 0 where
  pub schedule_links : Dict ScheduleLink
  pub schedule_bindings : List ScheduleConfig

abbrev has_crontab : String → Dict ScheduleLink → Bool
has_crontab crontab [] = false
has_crontab crontab ((id, link) ∷ ls) =
    if link.crontab == crontab then true else has_crontab crontab ls

unfoldable pub can_handle_event : ScheduleBindingsController → String → Bool
can_handle_event c crontab = has_crontab crontab c.schedule_links

abbrev schedule_context : ScheduleLink → BindingContext
schedule_context link = record no_context {
  binding = link.binding_name;
  metadata = record no_metadata {
    binding_type = BindingType.schedule;
    include_snapshots = link.include_snapshots;
    group = link.group;
  };
}

abbrev execution_info : ScheduleLink → BindingExecutionInfo
execution_info link = record {
  binding_context = schedule_context link ∷ [];
  include_snapshots = link.include_snapshots;
  allow_failure = link.allow_failure;
  queue_name = link.queue_name;
  binding = link.binding_name;
  group = link.group;
  wait_for_synchronization = false;
}

abbrev infos_of : String → Dict ScheduleLink → List BindingExecutionInfo
infos_of crontab [] = []
infos_of crontab ((id, link) ∷ ls) =
    if link.crontab == crontab
    then execution_info link ∷ infos_of crontab ls
    else infos_of crontab ls

unfoldable pub handle_event : ScheduleBindingsController → String → List BindingExecutionInfo
handle_event c crontab = infos_of crontab c.schedule_links

abbrev link_of : ScheduleConfig → ScheduleLink
link_of config = record {
  binding_name = config.binding_name;
  crontab = config.schedule_entry.crontab;
  include_snapshots = config.include_snapshots_from;
  allow_failure = config.allow_failure;
  queue_name = config.queue;
  group = config.group;
}

unfoldable pub links_added : List ScheduleConfig → Dict ScheduleLink → Dict ScheduleLink
links_added [] ls = ls
links_added (b ∷ bs) ls = links_added bs (insert b.schedule_entry.id (link_of b) ls)

unfoldable pub links_deleted : List ScheduleConfig → Dict ScheduleLink → Dict ScheduleLink
links_deleted [] ls = ls
links_deleted (b ∷ bs) ls = links_deleted bs (delete b.schedule_entry.id ls)

module _ {C : Type 0} (lib : Cron C) where
  unfoldable pub add_each : List ScheduleConfig → ScheduleManager C → ScheduleManager C
  add_each [] sm = sm
  add_each (b ∷ bs) sm = add_each bs (add lib sm b.schedule_entry)

  unfoldable pub remove_each : List ScheduleConfig → ScheduleManager C → ScheduleManager C
  remove_each [] sm = sm
  remove_each (b ∷ bs) sm = remove_each bs (remove lib sm b.schedule_entry)

  -- The links and the schedule manager do not depend on each other within the loop.
  unfoldable pub enable_schedule_bindings :
      ScheduleBindingsController
      → ScheduleManager C
      → ScheduleBindingsController × ScheduleManager C
  unfolding links_added add_each
  enable_schedule_bindings c sm = (
    record c { schedule_links = links_added c.schedule_bindings c.schedule_links },
    add_each c.schedule_bindings sm,
  )

  unfoldable pub disable_schedule_bindings :
      ScheduleBindingsController
      → ScheduleManager C
      → ScheduleBindingsController × ScheduleManager C
  unfolding links_deleted remove_each
  disable_schedule_bindings c sm = (
    record c { schedule_links = links_deleted c.schedule_bindings c.schedule_links },
    remove_each c.schedule_bindings sm,
  )

-- A hook is asked to handle a crontab exactly if it has something to run for it.
pub can_handle_event-handle_event :
    (c : ScheduleBindingsController) (crontab : String)
    → (can_handle_event c crontab ≡ false) ↔ (handle_event c crontab ≡ [])
unfolding can_handle_event handle_event
can_handle_event-handle_event c crontab = (there c.schedule_links, back c.schedule_links)
  where
    there : (ls : Dict ScheduleLink) → has_crontab crontab ls ≡ false → infos_of crontab ls ≡ []
    there [] h = refl
    there ((id, link) ∷ ls) h = ground (arith, there ls)

    back : (ls : Dict ScheduleLink) → infos_of crontab ls ≡ [] → has_crontab crontab ls ≡ false
    back [] h = refl
    back ((id, link) ∷ ls) h = ground (arith, back ls)
