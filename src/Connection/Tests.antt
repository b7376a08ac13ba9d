-- ===== src/Connection/Tests.antt =====
-- Runs of the functions on the URL of a connection.
use dataops_testgen.Base.{◌≡◌, refl, ◌++◌}
use dataops_testgen.Base.Text.{Text, codes}
use dataops_testgen.Connection.{extract_prefix, url_value, scheme, before_at, without}
use dataops_testgen.Connection.Url.{extract_prefix-url_value}

abbrev user_url : Text
user_url = codes "postgresql://me:secret@db:1/x"

prefix_test : extract_prefix user_url ≡ codes "postgresql://me:secret@"
unfolding extract_prefix scheme before_at
prefix_test = refl

value_test : url_value user_url ≡ codes "db:1/x"
unfolding url_value extract_prefix scheme before_at without
value_test = refl

scheme_test : extract_prefix (codes "jdbc://h") ≡ codes "jdbc://"
unfolding extract_prefix scheme before_at
scheme_test = refl

quirk_test : extract_prefix (codes "host") ≡ codes "ho"
unfolding extract_prefix scheme before_at
quirk_test = refl

extract_prefix-url_value_example : extract_prefix user_url ++ url_value user_url ≡ user_url
extract_prefix-url_value_example = extract_prefix-url_value user_url
