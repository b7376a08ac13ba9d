-- ===== src/Connection.antt =====
-- Component `ConnectionForm` (testgen/ui/static/js/components/connection_form.js): the connection that
-- is edited, the default ports, and the text shown before and in the URL field.
pub mod Url
pub mod Files
pub mod Host
pub mod Azure
pub mod Databricks
pub mod Snowflake
pub mod Bigquery
pub mod Editor
mod Tests
use mathlib.Core.Option
use dataops_testgen.Base.{
  bool_ne, ℕ, Bool, true, false, Option, none, some, List, [], ◌∷◌, ◌++◌, String, str_eq,
  if◌then◌else◌, ◌==◌, any, not, ◌||◌, or_default,
}
use dataops_testgen.Base.Text.{Text, codes, text_eq, starts_with, is_empty}

-- `updatedConnection`, less what no form of this development writes. Texts stand for strings, with
-- the empty text for `undefined`.
pub record Connection : Type 0 where
  pub sql_flavor : String
  pub project_host : Text
  pub project_port : Text
  pub project_db : Text
  pub project_user : Text
  pub project_pw_encrypted : Text
  pub connect_by_url : Bool
  pub connect_by_key : Bool
  pub private_key : Text
  pub private_key_passphrase : Text
  pub http_path : Text
  pub warehouse : Text
  pub url : Text
  pub connect_with_identity : Bool
  pub sql_flavor_code : String
  pub connection_name : Text
  pub max_threads : ℕ
  pub max_query_chars : ℕ

-- `defaultPorts`, with the empty text for `undefined`
unfoldable pub default_port : String → Text
default_port flavor =
    if str_eq flavor "redshift"
    then codes "5439"
    else if str_eq flavor "redshift_spectrum"
    then codes "5439"
    else if str_eq flavor "azure_mssql"
    then codes "1433"
    else if str_eq flavor "synapse_mssql"
    then codes "1433"
    else if str_eq flavor "mssql"
    then codes "1433"
    else if str_eq flavor "postgresql"
    then codes "5432"
    else if str_eq flavor "snowflake"
    then codes "443"
    else if str_eq flavor "databricks"
    then codes "443"
    else if str_eq flavor "oracle"
    then codes "1521"
    else if str_eq flavor "sap_hana"
    then codes "39015"
    else []

-- `a || b`
abbrev pub text_or_else : Text → Text → Text
text_or_else [] b = b
text_or_else (c ∷ s) b = c ∷ s

-- `parts[0]` of `url.split('@')`
unfoldable pub before_at : Text → Text
before_at [] = []
before_at (c ∷ s) = let rest = before_at s in if c == b'@' then [] else c ∷ rest

-- `url.slice(0, url.indexOf('://') + 3)`; without `://` the index is -1, and two characters are left
unfoldable pub scheme : Text → Option Text
scheme [] = none
scheme (c ∷ s) =
    let rest = scheme s in
    if starts_with (c ∷ s) (codes "://") then some (codes "://") else Option.map (λ p. c ∷ p) rest

abbrev pub two : Text → Text
two [] = []
two (c ∷ []) = c ∷ []
two (c ∷ d ∷ s) = c ∷ d ∷ []

unfoldable pub extract_prefix : Text → Text
unfolding scheme before_at
extract_prefix url =
    if is_empty url
    then []
    else if any (λ c. c == b'@') url
    then if is_empty (before_at url) then [] else before_at url ++ b'@' ∷ []
    else or_default (scheme url) (two url)

-- What is left of `s` behind `p`, if `s` starts with `p`.
abbrev pub after : Text → Text → Option Text
after s [] = some s
after [] (d ∷ p) = none
after (c ∷ s) (d ∷ p) = let rest = after s p in if c == d then rest else none

-- `s.replace(p, '')`: without the first occurrence of `p`
unfoldable pub without : Text → Text → Text
without [] p = []
without (c ∷ s) p = let rest = without s p in or_default (after (c ∷ s) p) (c ∷ rest)

-- `newUrlValue`
unfoldable pub url_value : Text → Text
unfolding without
url_value dynamic_url = without dynamic_url (extract_prefix dynamic_url)

-- `shouldRefreshUrl`
pub should_refresh_url : Connection → Connection → Bool
should_refresh_url previous current =
    if current.connect_by_url
    then false
    else not (str_eq previous.sql_flavor current.sql_flavor)
      || not (text_eq previous.project_host current.project_host)
      || not (text_eq previous.project_port current.project_port)
      || not (text_eq previous.project_db current.project_db)
      || not (text_eq previous.project_user current.project_user)
      || bool_ne previous.connect_by_key current.connect_by_key
      || not (text_eq previous.http_path current.http_path)
      || not (text_eq previous.warehouse current.warehouse)
      || bool_ne previous.connect_with_identity current.connect_with_identity
