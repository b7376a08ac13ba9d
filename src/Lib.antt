-- ===== src/Lib.antt =====
-- Verification of the browser components of TestGen (testgen/ui/static/js and
-- testgen/ui/components/frontend/js): trees, tables, schedules and selections of the data quality
-- user interface.
--
-- A page of the program is a set of components over VanJS. A component keeps its state in van
-- states, handlers write to them, and a `van.derive` runs again when a state that it has read
-- changes. Here a component is a module: its states are a record or a data type, a handler is
-- a function from the old states to the new ones, and a derive is a function of the states.
--
-- * Tree.antt is components/tree.js: `TreeNode` and `TreeNodes` for the nodes and their arrays,
--   `init_tree_state`, `filter_tree`, `expand_or_collapse_tree`, `select_tree`,
--   `get_multi_selection` and `is_indeterminate` for the functions of these names, `click_node`
--   for the handler of a row, on a path of indices.
-- * Cron.antt is components/crontab_input.js: the states of the three modes and the expressions
--   that they write; Cron/Parse.antt has `determine_mode`, `parse_stepped_list` and
--   `populate_initial_mode_state`, and Cron/Editing.antt the editor while it is open.
-- * Table.antt is components/table.js: the sort options, the selected rows and the page buttons.
-- * Display.antt is display_utils.js: the durations that `formatDurationSeconds` writes and
--   `humanReadableDuration` reads, for whole seconds.
-- * Lifecycle.antt is page_lifecycle.js: the registry of abort controllers, and `call` for the calls
--   of `enterPage` and `exitPage`; a controller is the number with which it was made.
-- * Equality.antt is `isEqual` of utils.js on JSON values: `is_equal`, with `===` on arrays and objects
--   as its parameter `same`; Equality/Places.antt has the reading of a value that it is compared with.
-- * Paginator.antt is components/paginator.js: `turn_page` for the clicks on the buttons.
-- * Select.antt is components/select.js: the filter on the options, and the choice of several.
-- * Columns.antt is components/explorer_column_selector.js, with `slugify` of utils.js: `initial_nodes`
--   for the nodes that `initlialize` makes of the columns, and `get_selection` for
--   `getSelectionFromTreeNodes`, over nodes whose `ticked` is the property that this reads.
-- * Wizard.antt is components/table_group_wizard.js and components/wizard_progress_indicator.js: `act`
--   for the buttons, the places of the indicator and the reports of the steps, `save` for what is sent.
-- * Results.antt is testgen/ui/components/frontend/js/pages/test_results.js: `Page` for its states,
--   `PageEvent` for what a user does and for new props, and `page_after` for a handler and the derives
--   that follow it; Results/Sets.antt has the JavaScript `Set` and `Map`, Results/Dispositions.antt the
--   buttons over the rows, and Results/Chosen.antt the selection as a predicate on ids.
-- * Monitor.antt is components/monitor_settings_form.js: `monitor_start` for its states, `monitor_event`
--   for its inputs with the derive on `excludeHolidays`, `updated_schedule` and `updated_suite` for
--   what it hands on; Monitor/Duration.antt has `determineDuration`.
-- * Group.antt is components/table_group_form.js: `group_start` for its states, `group_event` for its
--   inputs, `updated_group` for what it hands on, and `normalize_table_set` for `normalizeTableSet`.
-- * Validators.antt is form_validators.js, on texts and on the sizes of files; `parseFloat` and the
--   comparisons of its result are the parameter `Floats`.
-- * Inputs.antt is components/input.js and components/file_input.js, together with the entries
--   `validityPerField` of the form around them: `Field` for an input over the states of its form,
--   `Form` for these states, the entries and `isValid`, and `change_to` for a change of the states.
-- * Connection.antt is components/connection_form.js: Connection/Host.antt for `RedshiftForm`,
--   Connection/Azure.antt, Connection/Databricks.antt, Connection/Snowflake.antt and
--   Connection/Bigquery.antt for the forms of these flavors, with their handlers as events, and
--   Connection/Editor.antt for `ConnectionForm` around the form over a host.
--
-- Numbers are natural numbers, where the program has integers that are not negative. Text that is
-- taken apart is a list of code points (Base/Text.antt); ids and names that are only compared are
-- strings. The loop of `generateSteppedValues` runs on fuel `max + 1`, which its index cannot
-- outgrow; `\d{1,2}` and the other patterns of `determineMode` are tests on the fields of an
-- expression; `Number` is read on digits alone, which is what the patterns let through.
--
-- VanJS runs what depends on a changed state in the order in which it was declared, and builds
-- markup that depends on it afterwards. In a form, an input that is in the markup before a change
-- reports first, if its value or the number of its errors is another one, and one whose markup is
-- built reports after that. `isValid` is compared once these rounds are over; the form of BigQuery,
-- where a state that changed in the rounds counts as settled before its markup is built again,
-- keeps what it last handed on (`reported`) apart from its own `isValid`. The events of a form are
-- those of the inputs in the markup; one that is disabled is not told apart. The parameters are
-- `flavor_of`, which finds a flavor in a property of the page, `lower`, which is `toLowerCase`, and
-- `JSON.parse` with what the form of BigQuery asks of its result.
--
-- Not modelled: markup and style sheets, the DOM, VanJS, the code that calls the server, `ConnectionForm`
-- around the forms of Azure, Databricks, Snowflake and BigQuery, the inputs inside the steps of the
-- wizard, the charts, which draw over floats, and the pages other than the list of test results.
mod Base
pub mod Tree
pub mod Validators
pub mod Columns
pub mod Connection
pub mod Wizard
pub mod Cron
pub mod Table
pub mod Equality
pub mod Display
pub mod Inputs
pub mod Lifecycle
pub mod Paginator
pub mod Select
pub mod Results
pub mod Monitor
pub mod Group
