-- ===== src/Lib.antt =====
-- Verification of the WAN router monitor: a local monitor beside a dual-WAN router, which polls the
-- router over SNMP, reads its syslog and sends Telegram alerts and heartbeats, and a remote sentinel
-- which raises an alert when the heartbeats stop.
--
-- How the parts stand in these files:
--
-- Shared/Models    shared/models.py: the enumerations and records that the components exchange.
-- Shared/Clock     `datetime`: instants as microseconds, differences, `strftime`; Cycles and Calendar have the
--                  lemmas on dates.
-- Shared/Config    shared/config.py: the configurations, their defaults and validators.
-- Shared/Telegram  shared/telegram.py: `Duration` is `format_duration`, `Messages` has the message
--                  formats, Telegram itself `TelegramNotifier`.
-- Local/AlertEngine  local/alert_engine.py: `AlertState`, `AlertEngine.process_wan_state`,
--                  `process_syslog_event` (Syslog), `should_use_alert_interval`; Messages has the texts.
-- Local/SnmpPoller local/snmp_poller.py: `SNMPPoller` (SnmpPoller) and `MockSNMPPoller`; Queries has
--                  `_get_next_hop` and `_get_if_oper_status`.
-- Local/SyslogReceiver  local/syslog_receiver.py: Patterns has the regular expressions, Categories
--                  `categorize_message`, Strings, Strptime and Utf8 what is used of `str`, `int`,
--                  `strptime` and `bytes.decode`, and the module itself `parse_syslog_message`,
--                  `SyslogProtocol.datagram_received` and `SyslogReceiver`.
-- Local/Heartbeat  local/heartbeat.py: `HeartbeatSender`.
-- Local/Poller     local/main.py: `SNMPPollerProtocol` and the choice of the poller.
-- Local/Monitor    local/main.py: the poll loop of `LocalMonitor` with the heartbeats and syslog events
--                  that come between, and the constructor (Start).
-- Local/Program    local/main.py: `start`, `stop` and the three loops together, with the receiver.
-- Local/Main       local/main.py: `main`, with its command line; `load_local_config`.
-- Remote/HeartbeatStore  remote/heartbeat_receiver.py: `HeartbeatStore` and the two endpoints.
-- Remote/DnsMonitor  remote/dns_monitor.py.
-- Remote/ExternalProbe  remote/external_probe.py.
-- Remote/AlertEngine  remote/alert_engine.py.
-- Remote/Sentinel  remote/main.py: the loop `_monitor_loop`.
-- Remote/DnsLoop   remote/main.py: an iteration of `_dns_monitor_loop`.
-- Remote/Program   remote/main.py: `start`, `stop` and the three loops together, with the server.
-- Remote/Main      remote/main.py: `main`, with its command line; `load_remote_config`.
-- Shared/CommandLine  `argparse`, for the options of the two programs.
-- System           the two programs together: a heartbeat of the one in the other.
-- Common           numbers, text, dictionaries and lists, as Python has them; Regex is the part of `re`
--                  that the syslog receiver uses.
--
-- Modules below these hold their proofs, and modules named Tests their tests and the examples that
-- apply the theorems at concrete inputs.
--
-- Conventions. A method that changes an object is a function to the new record. Each call of
-- `datetime.now(UTC)` is an argument, and so is what a third-party library answers: pysnmp, httpx,
-- telegram's `Bot`, `socket.getaddrinfo`, TCP connections. Python's Unicode tables are the
-- record `Unicode`, an argument of the syslog receiver and of the command lines. The loops of the two
-- programs are cut at their `await` points into steps on a record with a phase, and a run is any list of
-- events, so all interleavings of the loops with arriving heartbeats and syslog events are covered. The
-- sleeps of the local poll and status loops and of the DNS loop carry their lengths; nothing that is
-- proved depends on those of the other loops. An exception is `raised`, since every handler of the loops
-- catches all of them alike, and in Local/Main since any ends the program; Remote/Main says which
-- exception of reading the file or the environment it is (`Attempt`). Strings are lists of code
-- points, dictionaries are association lists in insertion order. An instant is a natural number of
-- microseconds since 0001-01-01, a difference an integer; the detour of durations over floats is exact
-- up to 270 years. The digits of a number are made with fuel one more than the number, which is more
-- than its digits.
--
-- Not modelled: logging (no state), YAML, pydantic's parsing of types and JSON,
-- FastAPI, uvicorn and asyncio, which are not the repository's code.
pub mod Common
pub mod Local
pub mod Remote
pub mod Shared
pub mod System
