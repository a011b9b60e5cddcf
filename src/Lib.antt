-- ===== src/Lib.antt =====
-- ThinClient: a network-booted thin client, its connection manager and its configuration server.
--
-- A thin client boots a live image over the network. While it boots it asks the configuration
-- server (tools/tc-config-server.py) for the image and for its configuration, and the server's
-- status monitor accounts for each of these requests. On the client, the library under
-- overlay/usr/local/lib/thinclient merges the configuration files into one configuration
-- (tcconfig.py), turns the connection that the user picks into the command line of a FreeRDP or a
-- VNC client, and asks a server, before it connects, which security it would negotiate
-- (rdpprobe.py). These parts meet in values: the server's monitor is changed by the calls of its
-- request handler, the configuration is what the connection's command is built from, and the probe
-- hands its answer to the network report.
--
-- Where each part is:
--   Monitor/         tools/tc-config-server.py, the class StatusMonitor. Clients has the table of
--                    clients (`_client_key`, `_new_client`, `_merge_clients`, `_touch_client`),
--                    Requests the requests in flight (`begin`, `set_content_length`, `add_bytes`,
--                    `finish`, `request_profile`), Durable what is saved and restored
--                    (`_state_document_locked`, `_restore_state`,
--                    `_recover_interrupted_requests`), Events the changes that the calls make under
--                    the monitor's lock, and Saves `_persist` and `_write_state`: `begin` and `finish`
--                    save after they have released that lock, so that a run of the server is a
--                    sequence of changes, snapshots, writes and reports of any threads, and a save
--                    holds the persistence lock from its snapshot to its report. Active, Ledger,
--                    Takeover, Accounting, Outcome, Recovery, Restore, Crash, Lag and Service hold
--                    what the proofs need and show. The monitor's fields are the attributes of the object.
--   Rdp/             rdpprobe.py. Request has the bytes of `connection_request`, Response
--                    `parse_response`, Transport the socket, `_recv_exact` and `probe`. The peer is
--                    a list of bytes with a list of deliveries, each of which says how many bytes
--                    a call of `recv` hands over, or that it fails. Pieces, Rounds, Fragments, Bounds,
--                    Answers and Wire hold the laws.
--   Config/          tcconfig.py. Fields has `_string`, `_boolean`, `_bounded_int`, `_enum` and
--                    `_display`, Connections `_normalise_connection`, Ids
--                    `_assign_connection_ids`, Layers `_normalise_device`, `load` and `find`, Nmcli
--                    `parse_nmcli_terse`, Reload the payload of `save`. Valid, Stable, Generated,
--                    Distinct, Renaming, Loaded, Gate, Saved and Roundtrip hold the laws.
--   Command/         tcconfig.py. Rdp has `build_command`, Vnc `build_vnc_command`: the argument list
--                    of the FreeRDP or VNC client and what is written to its standard input. Failure
--                    has `FAILURE_HINTS` and `explain_failure`. Secrets, Certificates and Retry
--                    hold the laws.
--   Fetch/           configfetch.py, `validate` and `fetch`: what is downloaded, checked and kept, and
--                    the state that is reported. Gate holds the law. The state is what `load` of
--                    tcconfig.py reads behind its policy.
--   Job              uijobs.py, the class BackgroundJob, with the calls of `finish` that the
--                    dispatcher still has to make. Single holds the laws.
--   Manager/         manager.py, the class ThinClient: the life of a session. Manager has the
--                    attributes, Worker the thread of a session (`_session_worker`, `_run_session`),
--                    Auto, Start and Done the automatic connection, `start_session` and
--                    `_session_done` with `reload_config` and `_reconnect_countdown`, Events the main
--                    loop: clicks, timers, the signal, the answers of dialogs and the calls that
--                    threads hand over. Invariant, Thread, Keeps, Steps, Threads, Loop, Runs,
--                    Recovery, Return, Outcome and Twice hold what the proofs need and show. The text of the
--                    progress dialog, the time that a status stays, the metrics and the network test
--                    that a dialog offers are left out; every exception in the thread is its
--                    message.
--   Diagnostics/     networkdiag.py. Endpoint has `_split_endpoint` and `normalize_target`, Checks
--                    `check_dns`, `check_ping`, `check_tcp` and `check_route`, Service
--                    `check_protocol`, over the probe and its socket, Report
--                    `format_network_report`, Preflight `run_preflight` and `connection_preflight`
--                    of manager.py, whose checks are the same functions. Valid, Resolved, Agreement
--                    and Careful hold the laws. The connections that `run_preflight` opens are listed
--                    beside its findings. What
--                    `check_local_network` finds is an argument, and a connection's port is a number.
--   Presentation/    uxstate.py. Rows has `parse_network_report` and `_outcome`, Cache `cache_status`,
--                    `_key_values` and the labels of a connection, Support `changelog_text` and
--                    `support_report`. Lines, Outcomes, Reading and Roundtrip hold the laws of a report
--                    and the rows read back from it. The summary line of the cache is left out.
--   Password         tcconfig.py, `hash_password` and `verify_password`, with the hash functions as a
--                    record. Laws holds the laws.
--   Value, Text      decoded JSON and Python's `str`, with the methods that the program calls.
--   Dict             Python's ordered dictionaries as lists of items, oldest first.
--   Prelude          names of the libraries, Boolean tests, lists, integers, equality.
--
-- Integers are natural numbers where the program keeps them from being negative, and Python's
-- integers otherwise; Python's are not bounded, and neither are these. Packed fields are bytes.
--
-- Three loops run on fuel. `_recv_exact` reads at least one byte in each round that goes on, so that
-- the number of bytes that it wants, and one round more, is enough (the reading of a VNC banner is
-- the same loop); the loop for a free generated identifier has one
-- more than the number of identifiers that are taken, and the identifiers differ; `"%d"` has the
-- number itself, and divides by ten at most that often. Every other loop is recursion on the list
-- that it walks.
--
-- Parameters, for what is not in the repository: the clock is an argument of every call that reads
-- it, the outcome of writing the state file and its size are arguments of the save, the bytes and the faults
-- of a socket are the deliveries of the peer, and the contents of files are the JSON values that
-- `json.load` makes of them, or none. What the command line depends on outside the configuration is
-- a record: the path of the client that was found and whether it reads the password from its
-- standard input. So is what the name resolver, the system commands and the peers answer to the
-- diagnostics, and what curl, openssl, the URL parser and the disk answer to `fetch`, with what `json.loads`
-- makes of the bytes and what `read_json` makes of them once they are kept.
--
-- Not modelled: the GTK screens (settings.py, dialogs.py, sessionbar.py, uicommon.py, and the
-- widgets and the system calls of manager.py), the request handler and the status page of the
-- configuration server, the checks of the saved state's JSON before it is restored, the version, the
-- digest and the times in the status of `fetch`, the parsing of the local addresses and routes, the
-- Kerberos realm, the installer and the inventory, which call system tools, and the shell scripts that
-- build and boot the image. A configuration keeps its keys beyond those that the program reads; the
-- records have only the keys that it reads.
pub mod Prelude
pub mod Text
pub mod Dict
pub mod Value
pub mod Config
pub mod Command
pub mod Fetch
pub mod Job
pub mod Monitor
pub mod Rdp
pub mod Manager
pub mod Diagnostics
pub mod Presentation
pub mod Password
