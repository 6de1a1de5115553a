-- ===== src/Tests/ScalarsTests.antt =====
-- `CheckIfParamsExist` of pkg/parser/validate/parameters.go on one scalar.
use circleci_yaml_language_s.Prelude.{
  ◌≡◌, ◌↔◌, some, false, [], ◌∷◌, All, string_eq, nat_eq, bytes_eq,
}
use circleci_yaml_language_s.Position.{Position, Range}
use circleci_yaml_language_s.Text.{codes}
use circleci_yaml_language_s.Values.{Parameter, string_parameter}
use circleci_yaml_language_s.Document.{YamlDocument, OrbParsedAttributes}
use circleci_yaml_language_s.UsedParams.{
  Scalar, AllDefined, check_if_params_exist, check_if_params_exist-AllDefined,
}

abbrev at : Position
at = record { line = 0; character = 0 }

abbrev range : Range
range = record { start = at; end = record { line = 2; character = 0 } }

abbrev os : Parameter
os =
    string_parameter
      (record {
        name = "os";
        name_range = range;
        range = range;
        has_default = false;
        description = "";
        type_range = range;
        default_range = range;
      })
      ""

abbrev attributes : OrbParsedAttributes
attributes = record {
  commands = [];
  jobs = ("build", record { range = range; parameters = ("os", os) ∷ [] }) ∷ [];
  executors = [];
  commands_range = record { start = at; end = at };
  jobs_range = range;
  executors_range = record { start = at; end = at };
}

abbrev doc : YamlDocument
doc = record { own = attributes; orbs = []; orbs_range = range; local_orb_info = [] }

-- `echo << parameters.os >>`, on the second line
abbrev scalar : Scalar
scalar = record {
  content = codes "echo << parameters.os >>";
  start = record { line = 1; character = 4 };
  start_point = record { line = 1; character = 4 };
  is_block_scalar = false;
}

check_if_params_exist-AllDefined_example :
    check_if_params_exist (λ bytes. "") doc [] (scalar ∷ []) ≡ some []
    ↔ All (AllDefined (λ bytes. "") doc []) (scalar ∷ [])
check_if_params_exist-AllDefined_example =
    check_if_params_exist-AllDefined (λ bytes. "") doc [] (scalar ∷ [])
