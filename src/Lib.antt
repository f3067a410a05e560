-- ===== src/Lib.antt =====
-- technical-tts: a model of the parts of study-tts that decide what may be built, stored and played.
--
-- A lesson is planned into segments (crates/study-tts-core/src/plan.rs), each segment is synthesized
-- into a cached audio file, the files are joined into one master (crates/study-tts-runtime/src/
-- assembly.rs), and the transcript, captions and chapters are written from the boundaries of that
-- master (timeline.rs). A job document follows each build attempt through its states
-- (crates/study-tts-core/src/job.rs); the job repository (crates/study-tts-runtime/src/
-- job_repository.rs) decides which document may be stored over which.
--
-- Files and the code they model:
--   Prelude, Text, Map     the Rust library as the code uses it: results, lists, byte strings with
--                          their decimal numbers, and `BTreeMap<String, V>` as a sorted list
--   Schema                 core schema.rs: `SchemaVersion` and its acceptance
--   Contract               core contract.rs: `ContractDescriptor::assess_successor`
--   Voice                  core voice.rs: the records of a voice and `validate_profile_for_use`
--   Digest                 core digest.rs: `is_blake3_hex` and the checked digest types
--   Release                core release.rs: `ReleaseClaim` and the production gates
--   Job                    core job.rs: `JobState`, `JobDocument` and their operations
--   Repository             runtime job_repository.rs: `validate_document`, `validate_replacement`,
--                          `replace_document` with its event
--   Canonical              core canonical.rs: `CanonicalValue` and `write_value`
--   Identity               core identity.rs: `segment_digest` and `Revision`
--   Language               core language.rs: `parse_language_tag`
--   Lesson                 core lesson.rs: the document types; its child Checks has
--                          `AuthoredLesson::validate` with all its checks
--   Markdown               core markdown.rs: `BlockBuilder::apply`; its children Source and Compiled
--                          have `parse_source` and `compile_lesson`
--   Plan                   core plan.rs: `RenderPlan` and `PlannedSegment`
--   Selection              core plan.rs: `TakeSelection` and `RenderPlan::for_lesson_with_takes`
--   Takes                  core takes.rs: `validate`, `reconcile_with_plan`, `verify_selected_keys`
--   Assembly               runtime assembly.rs: `assemble` with its write loop
--   Audio                  runtime audio_edges.rs: `measure_edge_silence` and `condition_edges` over a
--                          `Signal`; its child Floats makes one of `f32` and `f64`, with
--                          `raised_cosine_gain` and `frame_rms`
--   Cache                  runtime cache.rs: its children Entry, Publish and Resolve have
--                          `load_validated`, `synthesize_transaction` and `resolve` over the
--                          directories of one key
--   Timeline               runtime timeline.rs: `timestamp`, `transcript`, `captions`, `chapters`
--   Manifest               runtime manifest.rs: its children Layouts, Stored, Report, Package and Write have
--                          `parse_stored_manifest`, `validate_package` and `write`
--   Events                 runtime job_events.rs: `validate_event_file`, `append_event`,
--                          `preflight_append`
--   Examples               concrete runs
-- Operations keep the names of the code; a method becomes a function of its receiver, and `?` a bind
-- of `Result`. Texts are lists of UTF-8 bytes. `u16`, `u32` and `u64` values are natural numbers:
-- checked arithmetic returns an option, and unchecked arithmetic is taken modulo 2 ^ 64. A loop
-- recurs on its list, and the printing of a number on the well-founded order; the loop over the
-- event log has fuel, one more than the bytes of the log, and the two loops that measure silence have
-- fuel, one more than the samples; each round takes one of them at least. The subtraction of boundaries
-- in `condition_edges` has both builds: a panic with overflow checks, and without them, as the release
-- profile makes the program and the cache is modelled, the wrapped difference.
--
-- Not modelled: file operations, locks, processes, JSON decoding, Markdown parsing, hashing and WAV decoding (the
-- last four are parameters where an operation reads their result), and the texts of errors. The number of
-- segments is bounded by `MAX_LESSON_SEGMENTS` where a theorem needs a bound.
mod Prelude
pub mod Text
pub mod Map
pub mod Digest
pub mod Schema
pub mod Release
pub mod Job
pub mod Repository
pub mod Assembly
pub mod Contract
pub mod Voice
pub mod Events
pub mod Markdown
pub mod Audio
pub mod Canonical
pub mod Language
pub mod Lesson
pub mod Plan
pub mod Identity
pub mod Takes
pub mod Selection
pub mod Cache
pub mod Timeline
pub mod Manifest
pub mod Examples
