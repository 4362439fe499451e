-- ===== src/Lib.antt =====
-- A model of the core of Curator, the server behind a local media library.
--
-- Parts of the program. src/session.rs drives an interactive session: a configuration of phases,
-- tempo curves and events, an engine that takes commands and readings of a monotonic clock, and the
-- service that holds the one engine of the process and ticks it from a runner. src/maintenance.rs
-- runs one maintenance job at a time, after a confirmation, a pause of the background workers and a
-- safety backup. src/storage.rs decides whether a source may sync and evicts cached thumbnails and
-- archives; src/url_guard.rs keeps sources away from addresses that are not public.
-- src/downloader.rs runs gallery-dl for one source at a time per place, and
-- src/services/downloads.rs pauses, resumes and reports on all of them. src/nsfw.rs and
-- src/services/media.rs rate media and plan byte ranges; src/services/settings.rs changes the
-- settings, whose limits storage and downloads read; src/services/access.rs says who may edit, and
-- src/services/playback.rs keeps presets that several pages edit. src/routes/groups.rs keeps a tree of
-- groups, whose names and tags src/db.rs and src/services/library.rs hand down to their media, and
-- src/provenance.rs keeps the tags that sources bring, for a person or a rule to accept.
-- src/services/library.rs also answers with pages of media.
--
-- Session. Config holds `GameConfig` and its parts, State what a session keeps, its commands and
-- effects. Floats is the interface of `f64` and of the generator `StdRng`, which are parameters:
-- Samples instantiates them. Tempo is `TempoCurve::target_bpm`, Events `schedule_phase_events`,
-- Clock `advance_running_time` and what it calls, Dispatch the commands, Validate
-- `GameConfig::validate` and `SessionEngine::new`, Service `SessionService`. An operation on
-- `&mut self` takes a `Turn`, the engine beside the effects so far, to a `Turn`. The other modules
-- are proofs: Frame, Advance and Running say what the clock leaves alone and where it ends,
-- Invariant, Located, Named, Milestones, Catchup, History, Occurrences, Status, Names and
-- Service/Runners what the comments in the source promise.
--
-- Maintenance. Kinds holds the requests and records of jobs, Work is `run_blocking` and
-- `transactional`, with the SQL of each kind as text, over an interface `Library` of what SQLite does
-- (begin, execute, commit, roll back) and of the calls on files and archives, Jobs `start` and its task,
-- Leases the interleaved steps of workers and of the job on `active` and the counter of workers.
--
-- Storage. Limits holds the admission of a sync and its pauses, Cleanup the evictions: what a
-- directory holds and which removals the operating system refuses are arguments, and what stays is
-- returned. Quota and Eviction are proofs.
--
-- UrlGuard. Addresses is `is_public_ip` on addresses as octets and segments; Blocks compares it with
-- the blocks of addresses.
--
-- Access. Roles, callers and what each may do, and `edit_lease`.
--
-- Media. Range is `plan_range` on the bytes of the header, with Digits for `u64::from_str`.
--
-- Ratings. Policy is what detections and action windows are worth, Rows the statements that write
-- what the classifiers found to the table media, Reviews `review`, `undo_review` and `rate_many`, Resets
-- the statements of src/media_files.rs and src/maintenance.rs that take ratings back. An
-- SQL statement is a function on the list of rows. The other modules are proofs. Of the writers of ratings
-- two are left out: src/downloader.rs, which copies the rating of a medium to its placeholder, and
-- src/routes/clips.rs, which rates new clips.
--
-- Downloads. Source holds the columns of the table sources that syncing uses; Admit is
-- `run_download_impl` up to the start of gallery-dl, Decide the end of `run_download_inner`, Retry
-- what it reads in the output; Controls pauses and resumes, Report is `status`. Budget, Limits,
-- Tokens, Stopping, Pausing, Resuming and Queue are proofs.
--
-- Settings. State is `Settings` and `SettingsPatch`, Checks `validate_patch`, Apply the functions
-- `apply_*`, whose errors carry the settings as they are left, Patching `apply_settings_patch`, with
-- the files that may fail to be written and the semaphore of downloads: its permits, how many are held, and
-- how many are held of the semaphores that a patch has replaced. Validity, Providers, Steps, Asked and
-- Atomic are proofs.
--
-- Playback. Presets is `save`, `delete` and `list` of src/services/playback.rs on a list of rows; Spec
-- is a book of presets with revisions, without rows, and what it answers. Stale, Table and Refines are
-- proofs.
--
-- Groups. Tree is the table of groups and `build_group_ancestry_map`, whose loop has fuel for each group
-- and one more; Descendants the recursive query `group_is_self_or_descendant`, with fuel for each row;
-- Moves the requests on groups and their tags, Tags `build_group_effective_tags_map`, Cache
-- `effective_tags` with requests that run side by side. `str::to_lowercase` is a parameter. Ancestors,
-- Chain, Rows, Forest, Kept and Effective are proofs.
--
-- Provenance. Names is `normalize_tag`, Metadata what is read of a source's JSON, Rows the tables and
-- the statements on them (the column `source_metadata_id` of source_tags stands beside its rows), Review `attach_tag`, `apply_rule_if_any` and `review_source_tag`, Capture
-- `capture_source_metadata`, Rules `upsert_rule` and `delete_rule`, Commands any sequence of them. A call
-- returns its outcome beside the tables as they are then. The ids of new rows come from `RowIds`. Normal,
-- Extends, Applied, Attached, Writing and Settled are proofs.
--
-- Library. Pages is the order, the cursor and the page of `list` in src/services/library.rs, and a client
-- that follows the cursors, with fuel for each row and one page more; Sorted and Walk are proofs.
--
-- Ascii and Text hold what the program uses of `str`, on code points.
--
-- Bounds. Integers are naturals; additions that saturate in the source saturate at `u64::MAX`, and
-- conditions `< 18446744073709551616` say that a value is a `u64`. The product
-- of an id and the seed of a shuffle is below 2^63. `advance_to_active` has its
-- distance to the target as fuel, which is enough as each round moves on by at least a millisecond.
--
-- Not modelled: locks and their poisoning (a method that holds its lock is one step), the delivery
-- of broadcasts, times of day (arguments), the contents of backups, the walks over directories, the
-- retention of originals, the parsing of URLs, statements that the database refuses, the columns of
-- evidence and scores, the processes of gallery-dl and of the classifiers with their output, the
-- indexing of files, the bulk changes of tags, the lists of groups, source tags and rules that pages
-- read, the removal of a tag from a medium (src/services/media.rs, src/routes/media.rs), the
-- filters of the library and the text of a cursor, the resolution of a preset to media, and a PATCH of the
-- settings that comes between the validation of another and its application. The rest of the database, the routes, the other
-- services and the user interfaces are not modelled.

pub mod Prelude
pub mod Text
pub mod Ascii
pub mod Access
pub mod Session
pub mod Maintenance
pub mod Storage
pub mod UrlGuard
pub mod Media
pub mod Ratings
pub mod Downloads
pub mod Settings
pub mod Playback
pub mod Groups
pub mod Provenance
pub mod Library
