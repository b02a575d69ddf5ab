-- ===== src/Model/Constant.antt =====
-- term.rs, `impl Constant`. The registry of datatypes (src/datatype_value.rs) is a record of the
-- three functions that the constructor calls.
use hermit_rs.Base.{String, Bool, ◌||◌, ◌==◌, string_eq}
use hermit_rs.Model.Types.{Constant}

abbrev pub anonymous_constants_datatype : String
anonymous_constants_datatype = "internal:anonymous-constants"

abbrev pub unsupported_literal_datatype : String
unsupported_literal_datatype = "internal:anonymous-constants#unsupported-literal"

unfoldable pub create : String → String → Constant
create lexical_form datatype_uri = record {
  lexical_form = lexical_form;
  datatype_uri = datatype_uri;
}

unfoldable pub create_anonymous : String → Constant
unfolding create
create_anonymous id = create id anonymous_constants_datatype

unfoldable pub create_unsupported_literal : String → Constant
unfolding create
create_unsupported_literal lexical_form = create lexical_form unsupported_literal_datatype

unfoldable pub is_unsupported_literal : Constant → Bool
is_unsupported_literal c = c.datatype_uri == unsupported_literal_datatype

unfoldable pub is_anonymous : Constant → Bool
unfolding is_unsupported_literal
is_anonymous c = c.datatype_uri == anonymous_constants_datatype || is_unsupported_literal c
