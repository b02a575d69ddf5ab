-- ===== src/Model/Individual.antt =====
-- term.rs, `impl Individual`.
use text.Mathlib.Text.{starts_with}
use Prim.Native.String.{◌++◌ as str_append}
use hermit_rs.Base.{String, Bool}
use hermit_rs.Model.Types.{Individual}

abbrev pub anonymous_individual_prefix : String
anonymous_individual_prefix = "internal:anonymous#"

unfoldable pub create : String → Individual
create uri = record { uri = uri }

unfoldable pub anonymous_uri : String → String
anonymous_uri id = str_append anonymous_individual_prefix id

unfoldable pub create_anonymous : String → Individual
unfolding create anonymous_uri
create_anonymous id = create (anonymous_uri id)

unfoldable pub is_anonymous : Individual → Bool
is_anonymous i = starts_with i.uri anonymous_individual_prefix
