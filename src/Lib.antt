-- ===== src/Lib.antt =====
-- catnap watches the stock of the shop lxc.lazycat.wiki and notifies its users (src/*.rs of the
-- repository). This development models the parts of the server that decide: the refresh queue
-- and its workers, what a fetched topology does to the catalog, the full refresh, the schedule
-- of the poller, the configuration, the check for a newer release, what a fetched page writes,
-- the fetch of a page, whom a run and a poll tell of it, the records of that which a user
-- reads, the stream of events, the sync of a lazycat account and the error texts that are
-- shown.
-- Common holds what all share: tests, equality as an interface, lists, maps and texts.
-- Ops is src/ops.rs. Ops.Reasons has the freshness windows of the reasons for a refresh;
-- Ops.State the state under the manager's lock; Ops.Queue `OpsManager::enqueue`; Ops.Worker
-- `start_task`, `finish_task`, `set_worker_error`, `remove_task_completion`,
-- `complete_or_retry_cache_hit` and the cache test of `run_task`; Ops.System puts them together
-- as `worker_loop` does: a list of events is an interleaving of callers and workers, an event
-- being what happens between two points where a task may be suspended. The database, the
-- upstream site and the clock answer through the events. A oneshot sender is a number with a
-- note of whether its call asked for a forced fetch.
-- Catalog has the data of the catalog (src/models.rs, src/upstream.rs). Topology is the part of
-- src/poller.rs that a fetched topology passes through: Topology.Merge
-- `merge_topology_probe_result`, Topology.Changes `collect_topology_notification_changes`,
-- Topology.Refreshed the changes that a refresh tells of, Topology.Targets the lists of what to
-- fetch, Topology.Preserve `preserve_ambiguous_country_regions`, Topology.Apply
-- `apply_topology_snapshot`. A hash set is a list of its elements, and what is proved of it
-- does not depend on the order.
-- Refresh is src/catalog_refresh.rs: Refresh.Manager `CatalogRefreshManager` with its gate and
-- status, Refresh.Job the pieces of `run_full_refresh_job` between two places where it may be
-- suspended, Refresh.System the callers and the jobs as one machine. What the database, the
-- catalog and the queue answer, an error included, comes with the events.
-- Schedule is the loop of src/poller.rs `run`: Schedule.Round has one turn, cut into its parts,
-- and what it does; a turn is given the time, the rows that its queries read, the jitter drawn
-- and the outcomes of its jobs. Its times are nanoseconds, up to the last one that the type of
-- the source has, and the seconds to the next poll of a user wrap as an `i64` does.
-- Config is src/config.rs: `RuntimeConfig::from_env` as a function of the environment. Its one
-- floating-point number has a type that is given, with its parser.
-- UpdateCheck is src/update_check.rs: versions and their order, and UpdateCheck.Cache
-- `maybe_refresh` by what the server answers. Decimal printing has fuel 20, the digits of the
-- largest number that is printed.
-- Notifications has `is_public_ip` of src/notifications.rs.
-- Listing is the part of src/db.rs that a fetched page is written with,
-- `apply_catalog_url_fetch_success`, and `retire_catalog_targets` and
-- `archive_all_delisted_configs`: a table is a list of its rows by key, a statement a function
-- on it, a transaction one function.
-- Notifications.Sanitize has `sanitize_error_text` of src/notifications.rs on the code points
-- of a text, Notifications.Percent `percent_encode_url_component` on bytes, and
-- Notifications.Redact `redact_with_optional_whitespace`, whose loop has the length of the text
-- as fuel: each turn passes a character.
-- Lazycat is src/lazycat.rs: Lazycat.Store the tables of one user in src/db.rs that a sync
-- writes, Lazycat.Sync what is written for one panel's answer, Lazycat.Run `sync_user_inner`
-- from its beginning to its end, given what the site and the panels answer, in the order in
-- which they do; Lazycat.Cookies has `CookieJar`, and Lazycat.Guard the guard that a login and
-- a sync of a user hold, as events of many requests. No other request of the user runs between
-- a look at the account and the writes after it, and a statement fails only on a key that is
-- there.
-- What users are told is in Alerts. Alerts.Texts and Alerts.Content are
-- src/notification_content.rs; a float is of a type `F` that is given with how it is shown and
-- compared. Alerts.Records holds the tables of notification records of src/db.rs,
-- Alerts.Deliver the delivery of one by src/ops.rs and src/notifications.rs, whose two
-- functions share one body, `deliver`. Alerts.Audience has the users that may be told,
-- Alerts.Lifecycle `notify_lifecycle_events` of src/ops.rs, Alerts.Places
-- `notify_topology_changes` with its texts, and Alerts.Poll `poll_once` of src/poller.rs: each
-- gives its deliveries in order and, where it can panic or fail, whether it did. Database
-- statements do not fail there, the tables do not change while users are told, and logs are
-- left out; the ids of records and the answers of the sends are inputs. Alerts.Panics is about
-- the `expect` of the restock fallbacks, Alerts.Told about how often a user is told,
-- Alerts.Items about the rows of the catalog as notifications read them.
-- Runs is `run_task` of src/ops.rs: the rule of Ops.Worker for the cache, the transaction of
-- Listing.Apply, the catalog in memory and the notifications of Alerts.Lifecycle, in the order
-- of the code. The state of the queue is read twice, as it stands when the run begins and when
-- users are told, and both are inputs. A statement that fails undoes the transaction, and its
-- error is an input.
-- Alerts.Pages is the list of the notification records of a user, `get_notification_records` of
-- src/app_api.rs over `list_notification_records` of src/db.rs: a SELECT is a filter and a
-- sort, and how the time of a cursor is read and written is given. A client that follows it has
-- a number of turns.
-- Upstream is the fetch of a page by src/upstream.rs, `fetch_region_configs_detailed`: a site
-- gives an answer for each URL and the parsers what they find in it, and both are given; the
-- time of a request and of parsing is theirs too.
-- Ops.Events has the events of src/ops.rs and `get_ops_stream` of src/app_api.rs, with what
-- publications do between its steps as lists: each inserts its row and then sends its event,
-- and holds a lock meanwhile.
-- Not modelled: logs and SQL statistics, HTTP, HTML parsing, the rest of the database, the
-- pages of a lazycat account, the test messages and the web user interface.
pub mod Alerts
pub mod Catalog
pub mod Common
pub mod Config
pub mod Lazycat
pub mod Listing
pub mod Notifications
pub mod Ops
pub mod Refresh
pub mod Runs
pub mod Schedule
pub mod Topology
pub mod UpdateCheck
pub mod Upstream
