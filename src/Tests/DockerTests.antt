-- ===== src/Tests/DockerTests.antt =====
-- Runs of pkg/parser/validate/dockerImage.go.
use circleci_yaml_language_s.Prelude.{
  ◌≡◌, refl, String, Bool, true, false, none, some, List, [], ◌∷◌, string_eq, string_dec, ◌==◌,
}
use circleci_yaml_language_s.Prelude.Dict.{lookup, insert}
use circleci_yaml_language_s.Docker.{
  DockerHubApi, DockerImage, does_docker_image_exists, does_tag_exist, choose_tag_to_recommend,
  get_tags,
}
use circleci_yaml_language_s.Docker.Tags.{does_tag_exist_again}

abbrev listed : List String
listed = "latest" ∷ "edge" ∷ "1.2" ∷ []

abbrev hub : DockerHubApi
hub = record {
  does_image_exist = λ namespace name. true;
  get_image_tags = λ namespace name. some listed;
  image_has_tag = λ namespace name tag. tag == "old";
}

-- An answer to nothing.
abbrev down : DockerHubApi
down = record {
  does_image_exist = λ namespace name. false;
  get_image_tags = λ namespace name. none;
  image_has_tag = λ namespace name tag. false;
}

abbrev image : DockerImage
image = record {
  namespace = "cimg";
  name = "go";
  tag = "1.2";
  full_path = "cimg/go:1.2";
  has_auth = false;
}

abbrev is_version : String → Bool
is_version tag = tag == "1.2"

runs : Unit {0}
unfolding does_docker_image_exists does_tag_exist choose_tag_to_recommend get_tags lookup insert
    string_dec
runs = tt

recommended_run : choose_tag_to_recommend is_version listed ≡ "1.2"
unfolding runs
recommended_run = refl

does_tag_exist_again_example :
    does_tag_exist is_version image "old" (does_tag_exist is_version image "old" [] hub).1 down
    ≡ does_tag_exist is_version image "old" [] hub
does_tag_exist_again_example = does_tag_exist_again is_version image hub down "old" [] listed refl
