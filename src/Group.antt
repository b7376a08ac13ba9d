-- ===== src/Group.antt =====
-- Component `TableGroupForm` (testgen/ui/static/js/components/table_group_form.js): its states, its
-- inputs and the payload. Numbers are the texts of their inputs; a text that is not there is the empty
-- one, as which its input writes it back when it is built.
pub mod Names
pub mod Valid
mod Tests
use dataops_testgen.Base.{
  ℕ, Bool, true, false, not, Option, none, some, List, [], ◌∷◌, ◌||◌, ◌==◌, String, map, keep,
  or_default, if◌then◌else◌, bool_ne,
}
use dataops_testgen.Base.Text.{Text, codes, text_eq, is_empty, split_by}
use dataops_testgen.Display.{trim}
use dataops_testgen.Validators.{required, required_error, join_all}
use dataops_testgen.Inputs.{Field, Form, fixed_input, change_to, open_form}

-- `/[,\n]/`
abbrev pub is_separator : ℕ → Bool
is_separator c = c == b',' || c == 10

-- The names of a list of tables: trimmed, and not empty.
unfoldable pub table_names : Text → List Text
unfolding split_by trim
table_names value = keep (λ part. not (is_empty part)) (map trim (split_by is_separator value))

-- `normalizeTableSet` where there is a value
unfoldable pub normalize_table_set : Text → Text
unfolding table_names join_all
normalize_table_set value = join_all (table_names value)

pub record TableGroup : Type 0 where
  pub id : Option Text
  pub connection_id : Option Text
  pub table_groups_name : Option Text
  pub profiling_include_mask : Option Text
  pub profiling_exclude_mask : Option Text
  pub profiling_table_set : Option Text
  pub table_group_schema : Option Text
  pub profile_id_column_mask : Option Text
  pub profile_sk_column_mask : Option Text
  pub profiling_delay_days : Option Text
  pub profile_flag_cdes : Option Bool
  pub profile_flag_pii : Option Bool
  pub profile_exclude_xde : Option Bool
  pub include_in_dashboard : Option Bool
  pub add_scorecard_definition : Option Bool
  pub profile_use_sampling : Option Bool
  pub profile_sample_percent : Option Text
  pub profile_sample_min_count : Option Text
  pub description : Option Text
  pub data_source : Option Text
  pub source_system : Option Text
  pub source_process : Option Text
  pub data_location : Option Text
  pub business_domain : Option Text
  pub stakeholder_group : Option Text
  pub transform_level : Option Text
  pub data_product : Option Text

pub record GroupState : Type 0 where
  pub connection_id : Option Text
  pub table_groups_name : Text
  pub profiling_include_mask : Text
  pub profiling_exclude_mask : Text
  pub profiling_table_set : Option Text
  pub table_group_schema : Text
  pub profile_id_column_mask : Text
  pub profile_sk_column_mask : Text
  pub profiling_delay_days : Text
  pub profile_flag_cdes : Bool
  pub profile_flag_pii : Bool
  pub profile_exclude_xde : Bool
  pub include_in_dashboard : Bool
  pub add_scorecard_definition : Bool
  pub profile_use_sampling : Bool
  pub profile_sample_percent : Text
  pub profile_sample_min_count : Text
  pub description : Text
  pub data_source : Text
  pub source_system : Text
  pub source_process : Text
  pub data_location : Text
  pub business_domain : Text
  pub stakeholder_group : Text
  pub transform_level : Text
  pub data_product : Text

abbrev pub normalized : Option Text → Option Text
normalized none = none
normalized (some value) = some (normalize_table_set value)

unfoldable pub group_start : TableGroup → GroupState
unfolding normalize_table_set
group_start g = record {
  connection_id = g.connection_id;
  table_groups_name = or_default g.table_groups_name [];
  profiling_include_mask = or_default g.profiling_include_mask (codes "%");
  profiling_exclude_mask = or_default g.profiling_exclude_mask (codes "tmp%");
  profiling_table_set = normalized g.profiling_table_set;
  table_group_schema = or_default g.table_group_schema [];
  profile_id_column_mask = or_default g.profile_id_column_mask (codes "%_id");
  profile_sk_column_mask = or_default g.profile_sk_column_mask (codes "%_sk");
  profiling_delay_days = or_default g.profiling_delay_days (codes "0");
  profile_flag_cdes = or_default g.profile_flag_cdes true;
  profile_flag_pii = or_default g.profile_flag_pii true;
  profile_exclude_xde = or_default g.profile_exclude_xde true;
  include_in_dashboard = or_default g.include_in_dashboard true;
  add_scorecard_definition = or_default g.add_scorecard_definition true;
  profile_use_sampling = or_default g.profile_use_sampling false;
  profile_sample_percent = or_default g.profile_sample_percent (codes "30");
  profile_sample_min_count = or_default g.profile_sample_min_count (codes "15000");
  description = or_default g.description [];
  data_source = or_default g.data_source [];
  source_system = or_default g.source_system [];
  source_process = or_default g.source_process [];
  data_location = or_default g.data_location [];
  business_domain = or_default g.business_domain [];
  stakeholder_group = or_default g.stakeholder_group [];
  transform_level = or_default g.transform_level [];
  data_product = or_default g.data_product [];
}

-- `updatedTableGroup`, where `id` is that of the table group given
unfoldable pub updated_group : Option Text → GroupState → TableGroup
unfolding normalize_table_set
updated_group id s = record {
  id = id;
  connection_id = s.connection_id;
  table_groups_name = some s.table_groups_name;
  profiling_include_mask = some s.profiling_include_mask;
  profiling_exclude_mask = some s.profiling_exclude_mask;
  profiling_table_set = normalized s.profiling_table_set;
  table_group_schema = some s.table_group_schema;
  profile_id_column_mask = some s.profile_id_column_mask;
  profile_sk_column_mask = some s.profile_sk_column_mask;
  profiling_delay_days = some s.profiling_delay_days;
  profile_flag_cdes = some s.profile_flag_cdes;
  profile_flag_pii = some s.profile_flag_pii;
  profile_exclude_xde = some s.profile_exclude_xde;
  include_in_dashboard = some s.include_in_dashboard;
  add_scorecard_definition = some s.add_scorecard_definition;
  profile_use_sampling = some s.profile_use_sampling;
  profile_sample_percent = some s.profile_sample_percent;
  profile_sample_min_count = some s.profile_sample_min_count;
  description = some s.description;
  data_source = some s.data_source;
  source_system = some s.source_system;
  source_process = some s.source_process;
  data_location = some s.data_location;
  business_domain = some s.business_domain;
  stakeholder_group = some s.stakeholder_group;
  transform_level = some s.transform_level;
  data_product = some s.data_product;
}

abbrev same_option : Option Text → Option Text → Bool
same_option none none = true
same_option (some s) (some t) = text_eq s t
same_option _ _ = false

-- The value of the `Select` for the connection is there, and not the empty text.
abbrev pub has_connection : GroupState → Bool
has_connection s = not (is_empty (or_default s.connection_id []))

-- The `Select`, whose entry is also set before the inputs are built.
abbrev connection_field : Field GroupState
connection_field = record {
  name = "connection_id";
  shown = λ s. true;
  rebuilt = λ old new. false;
  changed = λ old new. not (same_option new.connection_id old.connection_id);
  errors = λ s. if has_connection s then [] else required_error ∷ [];
}

-- An `Input` without validators.
abbrev plain_field : String → (GroupState → Text) → Field GroupState
plain_field name value = fixed_input name value (λ s. [])

unfoldable pub base_fields : List (Field GroupState)
base_fields =
    fixed_input "table_groups_name" (λ s. s.table_groups_name) (λ s. required ∷ [])
    ∷ fixed_input "table_group_schema" (λ s. s.table_group_schema) (λ s. required ∷ [])
    ∷ plain_field "profiling_include_mask" (λ s. s.profiling_include_mask)
    ∷ plain_field "profiling_exclude_mask" (λ s. s.profiling_exclude_mask)
    ∷ plain_field "profile_id_column_mask" (λ s. s.profile_id_column_mask)
    ∷ plain_field "profile_sk_column_mask" (λ s. s.profile_sk_column_mask)
    ∷ plain_field "profiling_delay_days" (λ s. s.profiling_delay_days)
    ∷ plain_field "profile_sample_percent" (λ s. s.profile_sample_percent)
    ∷ plain_field "profile_sample_min_count" (λ s. s.profile_sample_min_count)
    ∷ plain_field "description" (λ s. s.description)
    ∷ plain_field "data_source" (λ s. s.data_source)
    ∷ plain_field "source_process" (λ s. s.source_process)
    ∷ plain_field "business_domain" (λ s. s.business_domain)
    ∷ plain_field "transform_level" (λ s. s.transform_level)
    ∷ plain_field "source_system" (λ s. s.source_system)
    ∷ plain_field "data_location" (λ s. s.data_location)
    ∷ plain_field "stakeholder_group" (λ s. s.stakeholder_group)
    ∷ plain_field "data_product" (λ s. s.data_product)
    ∷ []

-- The parts of the form that report; `selector` is `showConnectionSelector`.
unfoldable pub group_fields : Bool → List (Field GroupState)
unfolding base_fields
group_fields selector = if selector then connection_field ∷ base_fields else base_fields

pub data GroupEvent : Type 0 where
  pick_connection : Option Text → GroupEvent
  edit_table_groups_name edit_profiling_include_mask edit_profiling_exclude_mask
        edit_profiling_table_set edit_table_group_schema edit_profile_id_column_mask
        edit_profile_sk_column_mask edit_profiling_delay_days edit_profile_sample_percent
        edit_profile_sample_min_count edit_description edit_data_source edit_source_system
        edit_source_process edit_data_location edit_business_domain edit_stakeholder_group
        edit_transform_level edit_data_product :
      Text → GroupEvent
  tick_profile_flag_cdes tick_profile_flag_pii tick_profile_exclude_xde tick_include_in_dashboard
        tick_add_scorecard_definition tick_profile_use_sampling :
      Bool → GroupEvent

unfoldable pub group_after : GroupEvent → GroupState → GroupState
group_after (pick_connection c) s = record s { connection_id = c }
group_after (edit_table_groups_name t) s = record s { table_groups_name = t }
group_after (edit_profiling_include_mask t) s = record s { profiling_include_mask = t }
group_after (edit_profiling_exclude_mask t) s = record s { profiling_exclude_mask = t }
group_after (edit_profiling_table_set t) s = record s { profiling_table_set = some t }
group_after (edit_table_group_schema t) s = record s { table_group_schema = t }
group_after (edit_profile_id_column_mask t) s = record s { profile_id_column_mask = t }
group_after (edit_profile_sk_column_mask t) s = record s { profile_sk_column_mask = t }
group_after (edit_profiling_delay_days t) s = record s { profiling_delay_days = t }
group_after (edit_profile_sample_percent t) s = record s { profile_sample_percent = t }
group_after (edit_profile_sample_min_count t) s = record s { profile_sample_min_count = t }
group_after (edit_description t) s = record s { description = t }
group_after (edit_data_source t) s = record s { data_source = t }
group_after (edit_source_system t) s = record s { source_system = t }
group_after (edit_source_process t) s = record s { source_process = t }
group_after (edit_data_location t) s = record s { data_location = t }
group_after (edit_business_domain t) s = record s { business_domain = t }
group_after (edit_stakeholder_group t) s = record s { stakeholder_group = t }
group_after (edit_transform_level t) s = record s { transform_level = t }
group_after (edit_data_product t) s = record s { data_product = t }
group_after (tick_profile_flag_cdes b) s = record s { profile_flag_cdes = b }
group_after (tick_profile_flag_pii b) s = record s { profile_flag_pii = b }
group_after (tick_profile_exclude_xde b) s = record s { profile_exclude_xde = b }
group_after (tick_include_in_dashboard b) s = record s { include_in_dashboard = b }
group_after (tick_add_scorecard_definition b) s = record s { add_scorecard_definition = b }
group_after (tick_profile_use_sampling b) s = record s { profile_use_sampling = b }

unfoldable pub group_event : Bool → GroupEvent → Form GroupState → Form GroupState
unfolding group_fields group_after
group_event selector e form = change_to (group_fields selector) (group_after e form.state) form

unfoldable pub group_open : Bool → GroupState → Form GroupState
unfolding group_fields
group_open selector s = open_form (group_fields selector) false s
