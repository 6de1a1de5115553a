-- ===== src/Offerings.antt =====
-- pkg/utils/machineOfferings.go: the machines that can be had. The request of the catalogue is a
-- parameter; the mutex makes the first request and its storing one step. A map is in the order in
-- which Go ranges over it.
use circleci_yaml_language_s.Prelude.{
  String, Bool, true, false, not, ◌||◌, Option, none, some, List, [], ◌∷◌, ◌++◌, ltb, length,
  string_eq, if◌then◌else◌, contains,
}
use circleci_yaml_language_s.Prelude.Dict.{Dict, lookup, keys}
use circleci_yaml_language_s.Text.{split, cut_prefix, trim_prefix, codes, index_of}

pub record Offerings : Type 0 where
  pub linux : Dict String (List String)
  pub windows : Dict String (List String)
  pub mac_os : Dict String (List String)
  pub deprecated : Dict String (List String)

pub record MachinePair : Type 0 where
  pub resource_class : String
  pub images : List String

pub record MachineOfferingsCache : Type 0 where
  pub offerings : Option Offerings
  pub attempted : Bool

unfoldable pub set : Option Offerings → MachineOfferingsCache → MachineOfferingsCache
set offerings c = record { offerings = offerings; attempted = true }

-- `machineOfferings`, with the answer of `fetchOfferings`
unfoldable pub machine_offerings :
    Option Offerings → MachineOfferingsCache → Option Offerings × MachineOfferingsCache
machine_offerings fetched c =
    if not c.attempted
    then (fetched, record { offerings = fetched; attempted = true })
    else (c.offerings, c)

-- The functions below are given the offerings that `machine_offerings` returns; `none` is nil.
abbrev pub pairs_of : Dict String (List String) → List MachinePair
pairs_of [] = []
pairs_of ((class, images) ∷ group) =
    record { resource_class = class; images = images } ∷ pairs_of group

unfoldable pub machine_pairs : Option Offerings → Option (List MachinePair)
machine_pairs none = none
machine_pairs (some o) = some (pairs_of o.linux ++ pairs_of o.windows)

abbrev classes_of : List MachinePair → List String
classes_of [] = []
classes_of (pair ∷ pairs) = pair.resource_class ∷ classes_of pairs

unfoldable pub machine_resource_classes : Option Offerings → List String
unfolding machine_pairs
machine_resource_classes o = elim (machine_pairs o) [ none ↦ [] | some pairs ↦ classes_of pairs ]

-- A key that is missing from the map holds nil.
abbrev listed : String → Dict String (List String) → List String
listed key d = elim (lookup key d) [ none ↦ [] | some images ↦ images ]

unfoldable pub deprecated_machine_images : Option Offerings → List String
deprecated_machine_images none = []
deprecated_machine_images (some o) = listed "linux" o.deprecated ++ listed "windows" o.deprecated

abbrev versions_of : List String → List String
versions_of [] = []
versions_of (image ∷ images) = trim_prefix image "xcode:" ∷ versions_of images

unfoldable pub deprecated_xcode_versions : Option Offerings → List String
deprecated_xcode_versions none = []
deprecated_xcode_versions (some o) = versions_of (listed "macos" o.deprecated)

-- versions[version] = true, for the images of every class
abbrev add_xcode_version : String → List String → List String
add_xcode_version version versions =
    if contains versions version then versions else version ∷ versions

abbrev add_xcode_versions : List String → List String → List String
add_xcode_versions [] versions = versions
add_xcode_versions (image ∷ images) versions =
    add_xcode_versions images (add_xcode_version (trim_prefix image "xcode:") versions)

abbrev all_versions : Dict String (List String) → List String → List String
all_versions [] versions = versions
all_versions ((_, images) ∷ d) versions = all_versions d (add_xcode_versions images versions)

unfoldable pub xcode_versions : Option Offerings → Option (List String)
xcode_versions none = none
xcode_versions (some o) = some (all_versions o.mac_os [])

unfoldable pub mac_os_resource_classes : Option Offerings → List String
mac_os_resource_classes none = []
mac_os_resource_classes (some o) = keys o.mac_os

-- strings.Contains
abbrev contains_text : String → String → Bool
contains_text s needle = elim (index_of (codes needle) (codes s)) [ none ↦ false | some _ ↦ true ]

abbrev is_machine_only : String → Bool
is_machine_only class =
    contains_text class ".gen"
    || (contains_text class ".multi"
        || elim (cut_prefix "gpu." class) [ none ↦ false | some _ ↦ true ])

abbrev for_docker : List String → List String
for_docker [] = []
for_docker (class ∷ classes) =
    let rest = for_docker classes in if is_machine_only class then rest else class ∷ rest

unfoldable pub docker_resource_classes : Option Offerings → Option (List String)
docker_resource_classes none = none
docker_resource_classes (some o) = some ("small" ∷ "medium+" ∷ for_docker (keys o.linux))

unfoldable pub is_self_hosted_runner : String → Bool
unfolding split
is_self_hosted_runner resource_class = ltb 1 (length (split b'/' resource_class))
