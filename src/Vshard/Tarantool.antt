-- ===== src/Vshard/Tarantool.antt =====
-- internal/vshard/tarantool.go: what is done to the URI of a node.
use qumomf.Prelude.{String, Option, none, some}
use qumomf.Prelude.Text.{after_first}

abbrev part_or : String → Option String → String
part_or uri none = uri
part_or uri (some part) = part

-- `removeUserInfo`: what follows the first `@`, or the whole URI if there is none.
unfoldable pub remove_user_info : String → String
unfolding after_first
remove_user_info uri = part_or uri (after_first b'@' uri)
