-- ===== src/Lib.antt =====
-- Verification of the heltec-wifi-optimization server (app/), which runs a HaLow bridge of one
-- access point (AP) and one station (STA): scheduled jobs poll the two devices over SSH, write what
-- they report to a database, let rules decide on commands, send these and follow them up.
--
-- The parts, and the files that model them:
--
--   * Db: the rows of the database (db/migrations, app/models.py) and the whole state `Db`. The
--     type `F` of floats is a parameter, with the operations of Float.antt and no law, so nothing
--     rests on rounding.
--   * ChannelPlan: app/halow_channel_plan.py.
--   * Notify, Events: `notify` and `record_event` (app/notify.py, app/events.py). A push and an
--     event are kept as the values that their texts are formatted from.
--   * Optimizer: app/optimizer.py. Signals has the queries, Channels the picks, Halow and Wifi24
--     the two evaluations, Pass the job `run_optimizer_pass`.
--   * DeviceClient: the interface of app/device_client.py to the jobs, over a state `W` of the
--     connections and devices. What it answers is arbitrary.
--   * Ssh, AgentClient: app/ssh_client.py over asyncssh, which is a parameter, and
--     app/device_client.py over it, which implements the interface; Ssh.Files and
--     AgentClient.Restore have `put_bytes` and `restore_backup`.
--   * Commands: `apply_pending_commands` and `check_in_flight_commands` of app/main.py.
--   * Devices, Recovery: the `devices` table, `_maybe_auto_recover_radio` and
--     `_reset_auto_recovery` of app/main.py.
--   * Devices.Liveness: `check_device_liveness` of app/main.py.
--   * Report, Ingest, Poll: the report of a device (app/models.py), `_ingest_collect` of app/main.py
--     with the functions that it calls, and `poll_telemetry`. Ingest.Counters has the rates,
--     Register `_get_or_create_device`, Channel `_record_channel_change_if_any`.
--   * Backups: `poll_backups` of app/main.py, with the checksum function as a parameter.
--   * Uptime: the query of `_uptime_pct` of app/main.py.
--   * Settings, Thresholds: the bounds of the bodies (app/models.py), and the endpoints of
--     `app_settings` and of the optimizer's thresholds (app/main.py).
--   * Server: `lifespan` and `update_app_settings` of app/main.py and `ensure_retention_policies` of
--     app/db.py, over APScheduler and TimescaleDB, which are parameters.
--   * Targets: `update_device_target`, `provision_device` and `restore_backup` of app/main.py, over
--     an interface to the devices.
--   * Setup: `provision` of app/device_client.py, over asyncssh and its SFTP as a parameter.
--     Setup.Client implements the interface of Targets.
--   * OrderBy: what the database promises of an `ORDER BY` of a time.
--   * Queries: `get_events`, `get_command_history`, `get_backup_history` and `download_backup` of
--     app/main.py.
--   * Dashboard: the endpoints `set_optimizer_state`, `reboot_device` and `delete_backup` of
--     app/main.py. An endpoint is modelled after its token was checked.
--   * Schedule: the two command jobs cut at their waits, as a step relation, with the writes of the
--     optimizer, the dashboard and the other jobs between the steps.
--   * Examples: the theorems at concrete inputs.
--
-- How the code is modelled. A job is a function from the state to the state; its clock is read
-- once and is the argument `now`, in microseconds. Each job runs as one step; only Schedule has
-- what others write while a job awaits an SSH reply. Exceptions are values (`Result`), and a
-- handler of them is a clause. Tables are lists in the order of insertion; where a query does not
-- fix which row it returns, it is the first, and of rows with one time the newest is the one
-- inserted last; the pages and lists of Queries take the order of each query as a parameter. Loops
-- are recursions on the rows that a query returned, so nothing needs fuel. Log lines are left out.
--
-- Not modelled: the token check, the status and the charts, the test notification and the pages;
-- the connection pool, the text of messages, what pydantic makes of a document before its bounds
-- are checked, ids and counters above the range of a BIGINT, the agent script on the devices
-- (agent/), and the dashboard page.
pub mod Prelude
pub mod Float
pub mod Db
pub mod ChannelPlan
pub mod Notify
pub mod Events
pub mod Optimizer
pub mod Report
pub mod Ssh
pub mod DeviceClient
pub mod Commands
pub mod Devices
pub mod Recovery
pub mod AgentClient
pub mod Ingest
pub mod Poll
pub mod Backups
pub mod Uptime
pub mod Server
pub mod Targets
pub mod Setup
pub mod OrderBy
pub mod Queries
pub mod Settings
pub mod Thresholds
pub mod Dashboard
pub mod Schedule
pub mod Examples
