-- ===== src/Lib.antt =====
-- crossplane-update-tester: what its pure parts do, and that they do it.
--
-- The program patches the fields of Crossplane resources and checks that the provider carries each
-- change through. Which fields, and how, stands in the update-test annotation of an example manifest,
-- or in a sidecar beside it; after a run the live object is classified field by field, and the
-- classification decides which skipped entries are refuted and which fields a run has to test.
--
-- The parts, and the files that model them:
-- * Manifest, of internal/manifest/manifest.go. Manifest.antt has the records UpdateTest, SkipInfo and
--   Manifest; Manifest/Skip has validateSkipInfo, validateDisposition and validateEntryDisposition;
--   Manifest/Entries has ValidateIgnoreFields, ValidateClear, ValidateWithValues,
--   ValidateIgnoreMapKeys, ValidateIgnoreListElementKeys and ValidateFieldEntryMix;
--   Manifest/Directives has extractDirectives, splitFieldList and parseReadyConditions;
--   Manifest/Annotation composes them into ParseAnnotation; Manifest/Documents has parseDocs,
--   mergeSidecarDocs, decodeManifestDocs and manifestFromDoc, which call the sidecar's Resolve.
-- * Sidecar, of sidecar/sidecar.go. Sidecar.antt has Conflicts, Resolve, resolveOne, filterCandidates
--   and the hint on API groups; Sidecar/Document has Parse and docFromNode over YAML nodes.
-- * Roundtrip, of internal/roundtrip. Roundtrip/Cell has the rows and GroupCells (cell.go, and Row of
--   roundtrip.go); Roundtrip/Rotation has RepresentativesPerRun, shuffledOrder, Select and
--   PromoteFailure (rotation.go); Roundtrip/Credit has CreditCells (credit.go), which calls Select for
--   each cell; Roundtrip/Denominator has DenominatorReport (denominator.go) and ClassifyWaivers
--   (waiverbucket.go), which calls it.
-- * Roundtrip/Schema, of roundtrip.go and immutable.go: servedSchema, fieldSchema, leafPaths,
--   immutablePaths and collectContainerLeaves; Roundtrip/Schema/Report has DiffReport.
-- * Roundtrip/Clearing, of containerclear.go: coverageFor and the findings; Roundtrip/Clearing/Coverage
--   has ContainerClearCoverage, with classifyAbsentFromManifest and testEntryDataTree of ineligible.go;
--   Roundtrip/Clearing/Cells has BuildClearCellReport and the counts of PrintClearCellReport;
--   Roundtrip/Ineligible has stripOuterParens.
-- * Runner/Values, of internal/runner/runner.go: navigateJSONPath, ReadField, readCurrentValue,
--   compareFieldValue and buildMergePatch, which calls ValidateClear and ValidateWithValues.
-- * Runner/Unchanged, of assert_unchanged.go, and Runner/Clears, of clear_assert.go, which takes the
--   reports of Roundtrip/Clearing/Cells: the checks that follow each test of a run.
-- * Runner/Field, of runner.go: runFieldTest, with pollField, evidenceOutcome and applyEvidenceCheck;
--   Runner/Run: RunTests, which calls it for each test, and printResults of main.go.
-- * Runner/Converge, of converge.go and resolve.go: buildConvergeResult, sumEventOccurrencesByReason,
--   namedCondition and buildResolveRecoverResult; Runner/ConvergeAll, of convergeall.go:
--   RunConvergeAll over what each target answers, and formatConvergeAllSummary.
-- * Differ, of internal/differ/differ.go: all of it; runFieldTest calls it.
-- * Validator, of internal/validator/validator.go: ValidateManifest.
-- * Runner/Adaptive, of internal/runner/adaptive.go: the limiter as a state with its sleeping callers,
--   its methods as functions, and the interleavings of its callers as a relation between states.
-- * Runner/Throttle, of internal/runner/throttle.go and batch.go: Observe of the tracker of responses
--   with status 429, and the handler that calls the limiter's Throttle on a long streak of them.
-- * Cli/Args, of internal/cli/args.go: ReorderArgs.
-- Base and its children hold the shared types and lemmas, Value the decoded YAML and JSON values, Json
-- what the code takes from Go for them, and Tests the concrete inputs on which the theorems are applied.
--
-- Conventions. A string is the list of its bytes, a map an association list, a nil slice or map the
-- empty one, and a pair of a value and an error is a Result. An error is a constructor that carries
-- the values its message shows. A state that a method changes is passed in and returned. Numbers are
-- natural numbers: a count of the modelled code does not become negative, but for Release without
-- Acquire, which the limiter's model refuses, and the int32 of an event, which stands by its word.
-- What a cluster answers to a run is an input: an Opening, and for each test a Trial with the answers
-- to its calls in their order, where the answers of a poll end with the one that comes after the
-- deadline. Loops are structural recursion and every function is total; stripOuterParens alone counts
-- rounds, as many as its text has bytes, of which each round takes two. An index out of range is
-- `none`. The durations of convergeall.go are below 2 ^ 52 ns, where Go's float64 product is exact.
--
-- Parameters. gopkg.in/yaml.v3 (Yaml in Manifest/Directives, YamlNodes in Sidecar/Document, the list of
-- decoded documents in Manifest/Documents), the texts of encoding/json and of fmt's %v (Codec in Json),
-- the formatting, hashing and shuffling of Go's library (Random in Roundtrip/Rotation; math/rand
-- documents that Shuffle exchanges elements below n, which is IsShuffle), and the flag set of package
-- flag (Cli/Args).
--
-- Not modelled: the commands of main.go but for the count of results, the Kubernetes client and the
-- waits on a cluster (internal/runner), the restart of the controller, the round-trip run, the
-- concurrency of the fleet run, the reading of Go source and CRD files (internal/validator, the file
-- handling of internal/roundtrip), classifyIneligibility, whose verdicts are an input of
-- ContainerClearCoverage, the residual and hook packages, the test server under hack, the texts of
-- details and durations, and the reading and writing of files in every part. TrimSpace is modelled
-- for the white space of ASCII.
pub mod Base
pub mod Value
pub mod Json
pub mod Differ
pub mod Validator
pub mod Manifest
pub mod Roundtrip
pub mod Sidecar
pub mod Runner
pub mod Cli
pub mod Tests
