-- ===== src/Group/Tests.antt =====
-- The form of a table group at concrete values.
use dataops_testgen.Base.{◌≡◌, refl, true, false, none, some, List, [], ◌∷◌, All}
use dataops_testgen.Base.Text.{codes, split_by}
use dataops_testgen.Display.{trim, trim_start, trim_end}
use dataops_testgen.Validators.{join_all, required}
use dataops_testgen.Inputs.{runs, change_to, open_form, reports, errors_of}
use dataops_testgen.Group.{
  TableGroup, GroupState, GroupEvent, edit_table_groups_name, edit_table_group_schema, table_names,
  normalize_table_set, group_start, updated_group, base_fields, group_fields, group_event,
  group_open,
}
use dataops_testgen.Group.Names.{IsName, updated_group-group_start}
use dataops_testgen.Group.Valid.{group_ok, is_valid-group_event}

normalize_test :
    normalize_table_set (codes " orders,, items\n  users ") ≡ codes "orders, items, users"
unfolding normalize_table_set table_names split_by trim trim_start trim_end join_all
normalize_test = refl

abbrev new_group : TableGroup
new_group = record {
  id = none;
  connection_id = none;
  table_groups_name = none;
  profiling_include_mask = none;
  profiling_exclude_mask = none;
  profiling_table_set = some (codes "orders,items");
  table_group_schema = none;
  profile_id_column_mask = none;
  profile_sk_column_mask = none;
  profiling_delay_days = none;
  profile_flag_cdes = none;
  profile_flag_pii = none;
  profile_exclude_xde = none;
  include_in_dashboard = none;
  add_scorecard_definition = none;
  profile_use_sampling = none;
  profile_sample_percent = none;
  profile_sample_min_count = none;
  description = none;
  data_source = none;
  source_system = none;
  source_process = none;
  data_location = none;
  business_domain = none;
  stakeholder_group = none;
  transform_level = none;
  data_product = none;
}

abbrev started : GroupState
started = group_start new_group

abbrev named : List GroupEvent
named = edit_table_groups_name (codes "demo") ∷ edit_table_group_schema (codes "public") ∷ []

-- The connection is still missing.
connection_test : (runs (group_event true) named (group_open true started)).is_valid ≡ false
unfolding runs group_event group_open group_start group_fields base_fields change_to open_form
    reports errors_of required
connection_test = refl

is_valid-group_event_example :
    (runs (group_event false) named (group_open false started)).is_valid
    ≡ group_ok false (runs (group_event false) named (group_open false started)).state
is_valid-group_event_example = is_valid-group_event false named started

abbrev with_list : GroupState
with_list = record started { profiling_table_set = some (codes "orders,items") }

updated_group-group_start_example :
    (group_start (updated_group none with_list) ≡ record with_list {
      profiling_table_set = some (normalize_table_set (codes "orders,items"));
    })
    × (updated_group none (group_start (updated_group none with_list))
        ≡ updated_group none with_list)
    × ((updated_group none with_list).profiling_table_set
        ≡ some (normalize_table_set (codes "orders,items")))
    × (table_names (normalize_table_set (codes "orders,items"))
        ≡ table_names (codes "orders,items"))
    × All IsName (table_names (codes "orders,items"))
updated_group-group_start_example =
    updated_group-group_start none with_list (codes "orders,items") refl
