-- ===== src/Lib.antt =====
-- WeftEnd: a verification library for its deterministic core.
--
-- WeftEnd examines web artifacts, decides on their intake, and runs them behind a kernel that answers
-- each call of a capability with allow or deny. Its core is a set of deterministic functions on
-- strings, reason codes and small records; files, processes and user interface stand around it.
-- The parts, and the files that model them (paths from the repository's root):
--
-- Text, Sort, Bounds: strings and lists as the rest uses them. src/core/order.ts is Text.cmp_str
-- (cmpStrV0), Text.Table is the language's Map, Sort its stable sort, and src/core/bounds.ts is
-- Bounds (truncateListWithMarker, truncateTextWithMarker).
-- Reasons: src/core/trust_algebra_v0.ts. normalizeReasonCodesV0 is normalize_reason_codes, a function
-- from the codes and the options to the codes and the budget after them, since the source writes into
-- the budget. Reasons/Collect, Order, Normal, Budget, Detail, Join and Whole have the theorems.
-- Kernel: src/runtime/kernel/cap_kernel.ts and stamp_observer_core.ts. The fields of the class
-- CapKernel are the record Kernel.Types.CapKernel, and handleInvoke is Kernel.Invoke.handle_invoke, from a
-- kernel and a message to the kernel after it and the answer. The lists of reasons that it pushes are
-- functions of their own, one for each group of checks, in Kernel.Invoke.Checks. Kernel.Receipt is validateGateReceiptV0 of
-- src/core/validate.ts, Kernel.Stamp the observer of stamps. A run is a list of messages
-- (Kernel.Trace), in which the setters may be called between two messages.
-- Tartarus: src/engine/tartarus_core.ts, the classification of incidents, and Store:
-- src/runtime/store/artifact_store.ts, which records them. A run of a store is a list of calls and
-- of damage to its open field. Store.Laws is about what is stored and read, Store.Repair about a repair.
-- Intake: src/core/intake_policy_v1.ts and src/runtime/examiner/intake_decision_v1.ts. Intake has the
-- policy and the severities, Intake.Caps the capability summary, Intake.Decide the loop and the appeal,
-- Intake.Build the disclosure and the decision.
-- Graph: src/engine/graph.ts with sortDependencies of src/core/canon.ts. validateGraph is validate_graph,
-- its loop kahn. Graph.Ends is about the end of the loop, Graph.Counts, Start and Order about the
-- order of its result, Graph.Unique and Whole about the nodes in it, and Graph.Laws about the answer.
-- Release: verifyReleaseManifestV0 of src/runtime/release/release_loader.ts (verify_release_manifest) and
-- mintReleaseManifestV0 of src/engine/release_manifest.ts. Release.Laws is about the verification,
-- Release.Mint about a manifest that was signed.
-- Host: installHostUpdateV0 of src/runtime/host/host_update.ts, and readTrustRoot of host_self_manifest.ts. Host.Inputs
-- has the paths, the files and the signatures, Host.Check the reasons against a release, Host.Install the
-- decision and the exit code, Host.Apply the staged exchange of the directories, a list of calls of
-- the file system each of which may throw, and its rollback. Host.Laws, Rollback and Unread have the
-- theorems.
-- Compare: compareSummariesV0 of src/cli/compare.ts on the summaries of src/cli/compare_normalize.ts. A block of
-- the source is a test and the change that it pushes (Compare.Blocks). Compare.Fields, Agree, Same, Counts
-- and Swap have the theorems.
-- Library: src/cli/library_state.ts. Library.State is buildViewState, Library.Blocked the texts of the files,
-- Library.Update the two updates, from the files of a view to the files after it and the answer.
-- Library.History, Pointers, Keys, Laws and Accept have the theorems.
--
-- Boundary: src/runtime/boundary/nonce.ts, the shape of a session nonce and the comparison of secrets.
-- Pulse: src/core/pulse_digest.ts, the normal form of a pulse and its seal, with the last test of
-- validatePulseV0 of src/core/validate.ts.
-- SecretZone: src/runtime/secretzone/secret_zone_host.ts. The class is the record SecretZoneHost, its map of
-- pending promises the list of their identifiers. A run is a list of requests, messages and timers.
-- SecretZone.Laws is about one step, SecretZone.Once about runs.
-- Strict: src/runtime/strict/strict_executor.ts. The fields of the class are the record Strict.Types.Executor,
-- a method is a function to the fields after it and its effects. Strict.State has the constructor, the
-- pulses and the resolution of the entry, Strict.Preflight run up to the self test, Strict.Messages the
-- handlers, Strict.Step one event (a call, a message of the worker or of the port, a timer, an event of the
-- secret zone) and runs. An invocation of id.sign waits in the field waiting for the answer of the secret
-- zone, while other events go on. Strict.Effects reads the effects; Strict.Follows says what each method
-- keeps, which Emit, Answer, Refine and Handle show for the methods and Once for runs. Strict.Cleared, Safe,
-- Ready, Value and Checked are about the checks before a value of the entry.
--
-- The kernel calls the stamp observer and the receipt validator, and all parts give their reason codes
-- to the trust algebra. The artifact store calls the classifier. The host update calls the verification of the release,
-- the view of the library the comparison. The strict executor calls the kernel, the artifact
-- store, the verification of the release, the pulses and the secret zone. The intake reads the trust
-- algebra and the bounded truncation.
--
-- Choices. Numbers are natural numbers, on which the calls of Math.floor and Math.max of the source
-- change nothing. Strings are sequences of code points, without lone surrogates, ordered as their
-- UTF-16 code units are; where the source counts code units, a text is a list of them. Two
-- loops have fuel. For that of buildIntakeDecisionV1 (settle_reasons) three passes are enough for a
-- package of at most 30 reason codes; for that of validateGraph (kahn) two passes for each node are
-- enough. All other functions are structural recursions, and decimal numerals
-- have one digit of fuel for each unit of the number.
-- The calls of the file system in the exchange of a host update do what they say or throw and change
-- nothing, and a file of a release does not change between its reading and its copying.
-- A field that a message of a sandbox lacks is the empty string, where the source reads it so. An object of the source that is read by
-- a key is a table: keys that it inherits, such as constructor, are not in it. A kind of a capability is not the text of the marker that
-- stands for the rest of the kinds. An invocation without an identifier is not told apart from one
-- with the empty one. Of the strict
-- executor a second run after terminate, while its first self test still waits, is not told apart from the first.
-- Parameters of the models: the signature port and its digests (Kernel), the digest of a content and
-- of an incident (Store, Tartarus), and for Intake the digests, the canonical JSON of an appeal and
-- the domain of a URL; the canonical
-- form of a release body, its identifier and issues (Release); JSON with its validators, the digests,
-- the signatures and the answers of the file system (Host); the summary of a run (Library);
-- the digests, what the validators say of a snapshot and of an evidence bundle, and the nonces that are
-- drawn (Strict, SecretZone, Pulse).
-- Not modelled: canonical JSON and the digests over it, the other validators of src/core/validate.ts, the
-- portal model, the worker's side of the strict sandbox with its ports, the runner and the status of the host, the receipt that an
-- update writes, the examiner's reading of files, the adapters of archive and document formats, the
-- reading of receipts into a summary, the report of a comparison, the rest of the command line, and
-- the scripts of the desktop.
pub mod Prelude
pub mod Text
pub mod Sort
pub mod Bounds
pub mod Reasons
pub mod Kernel
pub mod Tartarus
pub mod Store
pub mod Intake
pub mod Graph
pub mod Release
pub mod Compare
pub mod Host
pub mod Library
pub mod Boundary
pub mod Pulse
pub mod SecretZone
pub mod Strict
mod Tests
