-- ===== src/Lib.antt =====
-- CircleCI YAML language server: the core logic of the Go program, and the theorems about it.
--
-- The server parses a CircleCI configuration with tree-sitter, validates the parsed document,
-- filters the diagnostics by comments of the user, and sends them to the editor. It keeps caches of
-- files, orbs, Docker images and contexts. The development follows these parts:
--
-- - Position (pkg/utils/range.go, pkg/utils/nodeAtPos.go) and Index (pkg/utils/indexToPos.go):
--   positions, ranges and byte indices. Lines and characters are Go's uint32, with the wrap-around
--   written out as `% u32`.
--   Index.Columns compares them with the positions of the protocol, in UTF-16 code units.
-- - Edits (pkg/server/methods/synchronize.go): the incremental changes of a document.
-- - Cycles (pkg/parser/validate/cycles.go): `isValidDAG`. A map is an association list, and the two
--   loops whose order of iteration shows in the result take that order as a parameter, of which
--   `IsIteration` says that it visits each key. The loop takes fuel; `enough` is one round for each
--   job and one for each edge, and `is_valid_dag_total` returns a result with it.
-- - Contexts (pkg/utils/cache.go, pkg/utils/context.go): the context cache. Pointers are addresses
--   of a store, so that two keys can lead to one object. The answers of the API are an argument.
-- - Diagnostics (pkg/utils/diagnostics.go, pkg/services/diagnostics.go) and Suppression
--   (pkg/parser/suppression.go): diagnostics, and the comments that silence them. Texts that are
--   scanned are lists of bytes; the regular expressions are matchers on them.
-- - Semantics (pkg/services/semantics.go): the relative encoding of semantic tokens.
-- - Syntax (pkg/ast): the records that the validation reads. Requires, JobGroups and JobGraph
--   (pkg/parser/validate/job_invocation.go, pkg/parser/job_invocation.go,
--   pkg/parser/validate/workflow.go): the checks of job invocations; JobGraph uses Cycles on the
--   graph that the parser builds.
-- - Usage (pkg/parser/validate/jobs.go) and Names (pkg/parser/validate/names.go): unused jobs, job
--   types, and names of two kinds. The order of a map that the code ranges over is the order of the
--   list here, or a parameter.
-- - Docker (pkg/parser/validate/dockerImage.go, pkg/utils/cache.go): the checks of Docker images and
--   tags with their caches. Docker Hub and the semver package are parameters.
-- - Images (pkg/parser/dockerImageParser.go, pkg/parser/validate/dockerImage.go): the names of
--   Docker images and the edits of their tags. Texts are bytes.
-- - Parameters (pkg/utils/parameters.go): references to parameters in texts, on bytes.
-- - Values (pkg/ast/parameters.go, pkg/ast/step.go, pkg/ast/command.go): parameters, values and
--   steps. The dynamic type of a value is a data type; lists inside values stand in a mutual block.
-- - ParameterChecks (pkg/parser/validate/parameters.go, enum.go and utils.go beside it): the checks of
--   values. A panic of a type assertion is `none`. An executor that is given for a parameter is a
--   finding, which Steps resolves with the cache of the orbs, in the order of the findings.
-- - Document (pkg/parser/yamlparser.go) and RemoteOrbs (pkg/parser/orbs.go, pkg/parser/remoteOrb.go):
--   which names the document and its orbs define. The request of an orb is a parameter that works on
--   the cache.
-- - Offerings (pkg/utils/machineOfferings.go) and Executors (pkg/parser/validate/executor.go): the
--   machines that are offered, and the checks of executors, which use Document for references.
-- - Steps and OrbUse (pkg/parser/validate/steps.go): the checks of steps, which use RemoteOrbs for
--   the parameters of a step and ParameterChecks for their values. Atoi and ParseDuration are parameters.
-- - OrbChecks (pkg/parser/validate/orb.go): which orbs are used, and their versions and executors.
-- - UsedParams (pkg/parser/validate/parameters.go): the references to parameters in the scalars of the
--   document, which uses Parameters and Document. The captured scalars are an argument.
-- - CodeActions (pkg/utils/codeActions.go): the edits that offer to silence a diagnostic. JSON is a
--   parameter.
-- - Sync (pkg/server/methods/synchronize.go, pkg/utils/cache.go): the cache of open files, which
--   uses Edits for the text.
-- - Versions (pkg/parser/validate/version.go, pkg/parser/remoteOrb.go) and Orbs (pkg/utils/cache.go):
--   the latest versions of an orb and what is said of them, and the cache of orbs.
-- - Walk, Nodes, Mappings and Anchors (pkg/parser/utils.go, pkg/parser/anchors.go): how a walk over the
--   syntax tree ends, the helpers on its nodes, the walk over a mapping with its merge keys, and the
--   table of anchors. The tree is a parameter: a record of what the walks call of tree-sitter. The walk
--   over a mapping recurs through anchors, so it is on fuel; Mappings.Returns says which fuel is enough.
-- - Walks (pkg/parser/parameters.go, steps.go, commands.go, job_invocation.go, job_groups.go,
--   environment.go and retention.go beside it): the values, steps, parameters, commands and job
--   invocations that are built from the tree. They call one another through the record Recursion, whose
--   levels Walks.Fuel makes, one unit of fuel for each call of Go. How much fuel is enough is
--   shown for mappings and for run steps, not for the whole recursion over values and steps.
-- - Text: texts as lists of bytes.
-- - Prelude: shared names, equality, lists and maps. Tests: runs at concrete inputs.
--
-- Not modelled: the walks for jobs, executors and workflows, the loop over the images of a Docker
-- executor, completion, hover and navigation; the tree-sitter parser and its queries, the JSON schema,
-- HTTP, JSON and the mutexes: an operation under a lock is one step.
pub mod Prelude
pub mod Position
pub mod Index
pub mod Edits
pub mod Cycles
pub mod Contexts
pub mod Diagnostics
pub mod Suppression
pub mod Syntax
pub mod Text
pub mod Parameters
pub mod Values
pub mod Document
pub mod RemoteOrbs
pub mod Offerings
pub mod Executors
pub mod Steps
pub mod OrbUse
pub mod OrbChecks
pub mod UsedParams
pub mod ParameterChecks
pub mod Requires
pub mod JobGroups
pub mod JobGraph
pub mod Usage
pub mod Names
pub mod Nodes
pub mod Anchors
pub mod Mappings
pub mod Docker
pub mod Images
pub mod CodeActions
pub mod Sync
pub mod Versions
pub mod Walk
pub mod Walks
pub mod Orbs
pub mod Semantics
pub mod Tests
