-- ===== src/Lib.antt =====
-- A model of the system tests of the medik8s operators, and what is proved of it.
--
-- The repository holds Ginkgo suites that run against a cluster, the Go packages under them that
-- compute on what the cluster answers, a tool that reports which specs the suites hold, and one that
-- checks the sources for blank lines. The model is of the packages and the tools. Seven parts of it
-- stand here, and do not call each other:
--
--   Ownership models tests/sbr-operator/internal/sbrutils/ownership.go (OwnedRun, DeleteIdentity,
--   Cleanup, CheckClean) and tests/nhc-operator/internal/nhcutils/ownership.go, which has the same
--   program with another label and a console plugin. What the two share is in Ownership and
--   Ownership/Check, with the differences in a record (Suite, Operator) that Ownership/Sbr and
--   Ownership/Nhc fill; Nhc also has DeleteOrphanConsolePlugin and PauseResponse. Safety and its
--   children prove what may be deleted, Finders fills its condition for both suites, Outcome proves
--   what a success or a foreign namespace means, Check/Sound what an accepted cluster shows.
--
--   Block models tests/sbr-operator/tests/block_storage_rbd_helpers.go, the reader of the format
--   that the SBR agents keep on a shared device: Bytes (binary.LittleEndian), Header
--   (validSBDHeader, parseSlotData, parseFenceSlots, slotRegionIsZero), Superblock
--   (parseSuperblock), NodeMap (parseNodeMapBuffer, parseNodeMapPayload, readNodeMapOnce,
--   readNodeMapFromPod), Heartbeats (validateSlotDataConsistency, validateSequenceNumbers).
--   FenceLayout writes out the layout of a fence message, over the lemmas of Slices. RoundTrip, Fences,
--   NodeMap/Newest, NodeMap/Retry and the children of Heartbeats hold the theorems.
--
--   Report models internal/report, the tool. Tree is tree.go (Insert, InsertSpecs, NewFromReports,
--   findChild; TrimRoot and String are in Tree/Print, Sort in Tree/Sort, whose children give its
--   order and what it keeps). Cache is cache.go: Update there, the file names in Cache/Name, Get and
--   GetOrCreate in Cache/Get, deleteExpiredFiles in Cache/Files, Load, Save, NewCacheContext,
--   CleanCache and GetRemotePatterns in Cache/Store, over the files of Cache/Disk; Cache/Asked says
--   what is known of the answers of Git, Cache/Stale what the loops of Update do. Command is
--   command.go, with Command/Revisions on GetRemoteRevisions; Template is template.go (cleanPath,
--   TemplateReport, TemplateTree, executeTemplateAndSave), Sum is sum.go, Main is main.go. Main puts
--   these together over a state of the machine that each command may change: getLocalTreeMap,
--   getFromCacheOrClone and getTrees in Main/Collect, printTreeMap and templateTreeMap in
--   Main/Output, main in Main/Start, the flags of init in Main/Registered; Main/Create has
--   GetOrCreate again, with the commands that it runs. Main/Again, Main/Local, Main/Remote,
--   Main/Written and Main/Tidy hold the theorems.
--
--   Blanklines models internal/tools/blanklines/main.go, the tool that removes blank lines between
--   simple statements: the syntax tree as far as the tool tells its nodes apart, checkFile and what
--   it calls, removeBlankLines; run and writeFixedFile are in Blanklines/Run. Lines and Gap hold the
--   lemmas on lines; Nested says what the order of a file's nodes is, and Nested/Once that no
--   position is found twice; Sorted says what is asked of `sort.Slice`. Kept, Run/Checked and
--   Run/Fixed hold the theorems. The words of a text, in these, are its characters without the white
--   space.
--
--   Inputs models tests/internal/medik8sparams/fbc_upgrade.go (LoadFBCUpgradeInputs, isDigestPinned)
--   and envOrDefault of upgrade.go beside it; Inputs/Pinned proves what accepted inputs hold.
--
--   Preservation models tests/internal/helpers/configuration_preservation.go, which asks whether an
--   upgrade has kept a configuration: Json has the values with reflect.DeepEqual, Preservation the
--   recursion (verifyPreservedValue, verifyPreservedMap, configurationPropertySchema),
--   Preservation/Configuration the rest (VerifyConfigurationPreserved, configurationSpecSchema).
--   Settings proves what is kept, Accepted says what is accepted without the loops, Fuel that the
--   recursion ends. A setting is a scalar at the end of a path of keys and indices.
--
--   Bundle models tests/sbr-operator/internal/sbrutils/bundle_inspection.go: Tags has
--   downstreamGAVersion, compareVersion and the loop of findLatestGABundle, Bundle what is computed
--   on pull specs and on the content of a bundle, Bundle/Inspect the functions that run commands,
--   over a state of the machine of any type. Latest and Upgrade hold the theorems.
--
-- Base and Go hold what they share: lists over the native numbers, Boolean tests, `int64`, and
-- package strings. Cluster is the client of the Kubernetes API, as the ownership code calls it: an
-- environment answers each call from the history of all calls so far, so that any behaviour of the
-- API server and of other clients is covered; a program is a function from the history to a result
-- and a longer history, and an error is a value. `wait.PollUntilContextTimeout` looks at least once,
-- and at most `poll_rounds` times more, a number that the environment gives at the start of the
-- poll. It stands for the timeout and is arbitrary, and a poll that uses it up returns the timeout
-- error, so that no fuel has to be enough.
--
-- Bounds: the fields of a message are bytes and little-endian numbers of 16, 32 or 64 bits, and an
-- `int64` is read in two's complement; counts of specs, nodes and slots are unbounded. The loops over
-- a region visit at most 255 slots, the reads of the node map are tried five times, as in the source.
--
-- The fuel of Sort is the number of nodes of the tree, which Tree/Sort/Sorted proves to be enough;
-- that of verifyPreservedValue is the number of values under the new one, by Preservation/Fuel. A
-- line of the output of `git ls-remote` has fewer than 65536 bytes, as `bufio.Scanner` asks. A slice
-- of a source between two offsets is cut off at its end, where the source would panic; the offsets
-- of a file's syntax tree lie within it.
--
-- Parameters: CRC-32, the JSON decoder and encoder with the compression, the reads of the device,
-- the commands that are run, the file system, SHA-256, the HTML templates, the packages of Go files
-- with what their identifiers stand for, the environment's variables, the clock, the parser of the
-- command line, Unicode's case mappings, `path.Join`, `strconv.Itoa`, and Ginkgo's choice of `It`
-- specs. `slices.SortFunc` and `sort.Slice` are parameters too: SortsBy and SortsDescending state
-- what their documentation promises, of which Tree/Sort/Insertion and Blanklines/Sorted show that a
-- sort can keep it. A map is the list of its entries in the order in which a `range` loop would meet
-- them. `git ls-remote` in Load is taken to leave the machine as it is. What it answers is known of
-- the branches that it is asked for, and of no others. A file is named by a directory and a path
-- from there, and no file has two such names, as Git allows no `..` or empty element in the name of a
-- branch; a path with a slash lies in a directory below, and whether `os.Create` can make it is a
-- parameter. `os.RemoveAll` removes a path with all that lies below it, or, when it fails, an
-- arbitrary part of that.
--
-- Not modelled: printing and logging, but for the report that the tool prints and the lines that the
-- blank-line tool names; error texts (an error keeps its kind, and in Bundle
-- only that there is one), cancellation of contexts, the
-- flags of klog, the bodies of the suites, and vendored code.
pub mod Base
pub mod Go
pub mod Cluster
pub mod Ownership
pub mod Block
pub mod Report
pub mod Inputs
pub mod Blanklines
pub mod Preservation
pub mod Bundle
