-- ===== src/Lib.antt =====
-- zscalerctl is a read-only command line client for the Zscaler APIs. It reads lists of records
-- page by page from an API, projects each record to the fields that the catalog lets a redaction
-- mode show, verifies and narrows the result, and reports its progress as events to a sink. It
-- compares two dumps of such records, and it helps with mistyped names, references to secrets and
-- Windows paths. This library models these parts. The larger parts meet in the record: a walker
-- returns records, projection keeps what may be shown of each, an event stream hands on the
-- projected records, and a comparison reads them back from two dumps.
--
-- Paging models the page walkers of internal/zscaler. Paging and Paging.Canonical are
-- reader_page_fingerprint.go (fingerprintPage, summarizePage, canonicalRecord,
-- paginationRecordIdentity), Paging.Zpa is zpaPaginate of reader_zpa_pagination.go,
-- Paging.Zidentity is readAllZidentityPages of reader_zidentity_pagination.go, and Paging.Zia is
-- ziaWalkPages, ziaIgnoresPaging and ziaPaginate of reader_zia.go. The variables of each loop are a
-- record Walk, one round is a function turn, and the loop is Prelude.Loop.rounds with the page
-- ceiling of the source, 1000 in each, as its fuel: running out of fuel is the refusal that the
-- source makes at the ceiling, so no bound is added. A request is a parameter, a function of the
-- page and the page size; encoding/json and crypto/sha256 are parameters too (Encoding and
-- RecordEncoding). The child modules Complete, Progress, Identities and Reorder hold proofs.
--
-- Machine models the event core and the executor of internal/machine. Machine.Types has the types
-- of types.go and failure.go that events carry; Machine.Events has the emitter (emit,
-- failAfterDelivery, emitTerminalError) and the checks of events; Machine.Events.Stream has
-- StartEventStream, Emit, Complete and Fail. The state is the emitter with the list of events that
-- it handed to the sink, and the sink is an arbitrary function of that list and of the event, which
-- may accept, return an error or panic. Pointers are not modelled: values are immutable, so the
-- copies that the code makes for the sink are the identity. Settle, Lifecycle and Order hold
-- proofs. Machine.Failure is the detail of failed loads in failure.go, Machine.Request the inputs
-- of a request, Machine.Refusal the machine errors of executor.go, and Machine.Executor its
-- ExecuteStream: its checks (preflight), the load and the narrowing through Resources.Narrow
-- (read_records), and the calls on the stream (run_task). The browser is a parameter, and so are
-- the scanner, the texts of errors and the gap table; Machine.Execute is Execute, whose sink builds
-- a response from the events; Machine.Events.Stream.Accept, Machine.Executor.Ends,
-- Machine.Executor.Succeeds and Machine.Execute.Reads hold proofs.
--
-- Resources models internal/resources/resources.go and the modes of internal/redact/redact.go. Spec
-- has the types of the catalog and the look-ups in it, Validate the method Validate, Value the
-- values of records, Project the projection (projectRecordCore, projectValue, projectNestedValue,
-- sanitizeScalar), Verify the method assert of renderedSubsetValidator and AssertRenderedSubset,
-- Select the narrowing to fields, Availability the dotted paths and the modes in which they render,
-- Filters the filters and the search, and Narrow the checks of the options, OmittedFields,
-- EffectiveFields and NarrowProjectedRecords. A map is the list of its entries in the order in
-- which they are visited. The scanners of internal/redact and the printing of maps by fmt are
-- parameters. Rendered, Encodable, Supported, Accepted, Select.Admits, Select.Kept, Narrow.Renders,
-- Narrow.Matches, Narrow.Wanted and Narrow.Narrows hold proofs.
--
-- Diff models internal/diff/diff.go. Number is canonicalNumber, with strconv.ParseFloat as a
-- parameter, Json the values of dumps with jsonValuesEqual, canonicalHashValue and identityString,
-- Records compareResource with compareSingleton, compareKeyed and compareContentHash, and Compare
-- the loop of CompareContext over the selected resources with its report, selectedSpecs and
-- resourceReadLimit. A dump is given by what its maps hold; contexts are never cancelled.
-- Number.Scale, Number.Value, Records.Keyed, Records.Multiplicity, Records.Hashed, Compare.Totals
-- and Compare.Limit hold proofs.
--
-- Cli models internal/cli/suggest.go: Distance is editDistance, Words resourceWords, singular and
-- missingWords, Suggest resourceSuggestions and didYouMean; Suggest.Listed and Suggest.Typos hold
-- proofs. Secretref models internal/secretref/ref.go, with yaml.v3 and time.ParseDuration as
-- parameters, and Fileperm internal/fileperm/winpath.go; Secretref.Strings and Fileperm.Unc hold
-- proofs.
--
-- Prelude has the shared helpers: tests and results, lists, byte strings, integers, sorting, and
-- loops on fuel. Modules named Tests hold runs on concrete data.
--
-- Not modelled: the command line but for its suggestions, the dump directory, the loading of dumps
-- for a comparison, configuration, credentials and the keyring, presentation, the typed engines of
-- internal/machine, the mappers from SDK structures and the catalog's tables, and in resources.go
-- the copies of values by reflection and typed Go sequences other than []string. They are input and
-- output, calls of third-party packages, data, or left for a later extension.
pub mod Cli
pub mod Diff
pub mod Fileperm
pub mod Machine
pub mod Paging
pub mod Prelude
pub mod Resources
pub mod Secretref
