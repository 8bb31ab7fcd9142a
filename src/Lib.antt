-- ===== src/Lib.antt =====
-- A flight copilot for DCS: the core of its telemetry pipeline and of its rules.
--
-- The client reads the DCS-BIOS export stream byte by byte into a copy of the simulator's memory and
-- publishes catalogs, snapshots and deltas of control values. The cloud assembles these messages for
-- each connection, normalizes them into an aircraft state, keeps a short history of changes, infers
-- the flight phase, evaluates rules with debounce and cooldown, and turns their transitions into
-- events that may be spoken and into statistics of a flight.
--
-- The parts, with the file that models each:
--   Bios/State: client/dcs_copilot/dcs/bios_state.py. `apply_write`, `read`, `clear_availability`;
--     `oldest_update` is the method `updated_at`. Arrays are functions from addresses.
--   Bios/Parser: client/dcs_copilot/dcs/bios_protocol.py. `feed`, `_handle_sync`, `_consume`,
--     `_malformed` under their names. The clock is read once for each byte.
--   Aircraft/Value, Aircraft/State: cloud/dcs_copilot_cloud/state/models.py.
--   Aircraft/History: cloud/dcs_copilot_cloud/state/history.py. `record_state` is `record`,
--     `transitions_of` is `transitions`.
--   Aircraft/Phase: cloud/dcs_copilot_cloud/state/phase_detector.py. `infer` is `_infer`.
--   Rules/Base: cloud/dcs_copilot_cloud/rules/base.py.
--   Rules/Engine: cloud/dcs_copilot_cloud/rules/engine.py. `step` is what `evaluate` does for one
--     rule; `advance`, `activate`, `deactivate`, `applicable` are the private methods.
--   Rules/Condition: cloud/dcs_copilot_cloud/rules/declarative.py.
--   Protocol/Telemetry, Protocol/Checks: shared/dcs_copilot_protocol/telemetry.py, the fields of the
--     messages and what their constructors accept.
--   Ingress: cloud/dcs_copilot_cloud/telemetry.py. `accept` and its private methods; Ingress/Payload
--     has `from_control` of shared/dcs_copilot_protocol/telemetry.py with its limit of 256 KiB.
--   Publisher: client/dcs_copilot/telemetry/publisher.py, with what it asks of dcs/bios_client.py and
--     dcs/bios_registry.py. `flush` sends through a sender with a state of its own. Publisher/Start
--     has `_begin_epoch` and its callers.
--   Protocol/Json, Protocol/Message: shared/dcs_copilot_protocol/messages.py, the control messages.
--     `from_fields` is `from_json` on the decoded document.
--   Protocol/Media: shared/dcs_copilot_protocol/media.py, the audio format and the media packets.
--   Session: cloud/dcs_copilot_cloud/session.py. `activate` and `start_as` are parts of
--     `_start_session`, `complete` and `end_recording` of `_end_ptt`, `admit` of `_authenticate`.
--   Checklists: cloud/dcs_copilot_cloud/checklists/models.py; Checklists/Stages, Checklists/Items and
--     Checklists/Engine: checklists/engine.py, the stages and their validation, the judgement of an
--     item, and the engine. `item_now` is the choice in the loop of `evaluate`.
--   Events: cloud/dcs_copilot_cloud/events. `raise_event` and `close_event` are the two branches of
--     `handle_transition`.
--   Habits: cloud/dcs_copilot_cloud/habits. `finish`, `observe`, `acknowledge`, `on_transition`.
-- Prelude and the files below it hold the shared helpers: Boolean tests, lists, dictionaries in
-- insertion order, integers.
--
-- The rule engine takes rules as records with a function, which Rules/Condition builds; the history
-- and the state come from Aircraft; the events and the statistics take the engine's transitions. The
-- checklists judge their items by the conditions of Rules/Condition. The ingress takes the messages
-- that the publisher sends, and the session reads its audio formats as Protocol/Media does.
--
-- Conventions. A time is a natural number of milliseconds or clock ticks, and `now - since < delay`
-- is written `now < since + delay`. A float is an integer number of thousandths; NaN and infinities
-- are not modelled. `none` in the result of an operation that can raise is the exception; the
-- ingress, the publisher and the flight statistics, whose exceptions keep assignments made before,
-- return the state beside it (for the publisher with a Boolean, false after an exception). Callbacks
-- are total: lists of calls, the state of a listener, or the value that they receive. Members
-- of a `StrEnum` compare by their text. Sets are lists whose order nothing reads. Loops are
-- structural recursions on the bytes, values, rules or transitions, without fuel, but for two: the
-- chunks of a list take its length, which is enough as no chunk is empty, and the visit of a
-- checklist's stages takes two more than the number of stages, as a stage that is being visited is not
-- entered again.
-- A fresh `uuid4()` is an argument; `UUID`, `str.strip`, `json`, the length of a text in UTF-8, its
-- first characters, the size of an encoded telemetry payload and the verifier of access tokens are
-- parameters. The roundings of a session are those of the exact fractions.
--
-- Not modelled: sockets, devices, databases, the user interfaces, the voice service and the
-- assistant's tools, which are I/O and glue; the coach and the state store; the dictionaries in
-- which telemetry messages travel, with the names of their fields; an exception of a callback,
-- which leaves the rule engine's `evaluate`; the rule engine's logging and its read-only
-- diagnostics; the fresh ids of a session's replies; the checklists' table of one aircraft.
pub mod Aircraft
pub mod Bios
pub mod Checklists
pub mod Events
pub mod Habits
pub mod Ingress
pub mod Prelude
pub mod Protocol
pub mod Rules
pub mod Publisher
pub mod Session
