-- ===== src/Lib.antt =====
-- Shape Rotator Matrix: the approver of a private Matrix space.
--
-- knock-approver/approver.py is one process that lets people into a Matrix space. Someone with an
-- invite code either knocks on the space (`sync_loop`, `handle_knock`) or asks the web page for a
-- lobby room (`join_handler`, `lobby_sync_loop`). Either way the process opens a room, posts a haiku
-- captcha there, vets the answers, and invites whoever passes. Admins mint, list and revoke codes by
-- chat. The state lives in JSON files: the code tables, vetting.json, lobby.json and the sidecar of
-- the notices to operators. bridge/relay.py is a second process, which relays messages between one
-- Matrix room and one Telegram group. The bots of landing/ run with the credentials that a signup
-- hands out: landing/sas_verification.py lets them verify devices, and landing/responder.py answers
-- commands and takes over the history of a room from whoever invites the bot.
--
-- The modules:
--   Base, Text, Dict: the names of the libraries passed on, Python's text methods, JSON objects as
--     association lists in the order of insertion.
--   Exec: statements that change the world and may raise; what was done before a raise stays done.
--     Exec/Rules, Exec/Triples and Exec/Returns are the rules to reason about them.
--   World: the state files, the audit log, the history of requests and the configuration
--     (World/Data), the statements on them (World/Effects: `_save`, `audit`, `_send_msg`,
--     `_send_msg_raw`, `_new_code`), and what leaves the files alone (World/Frames).
--   Haiku: `_fetch_wiki_challenge` and `_vet`.
--   Codes: the life of a code, `merge_seed`, and the search for an unused code.
--   Sync, Knock: the events of a /sync reply, `iter_knock_events`, `handle_knock`.
--   Welcome: `_invite_to_children`, `_mint_welcome_signup_code`.
--   Vetting: `iter_vetting_rooms`, `process_vetting_room`, `cleanup_stale_vetting`, and the part of
--     `sync_loop` that drives them.
--   Lobby: `join_handler` (Join), `iter_lobby_rooms` (Rooms), `process_lobby_room` (Process),
--     `process_lobby_resends` (Resend), `cleanup_stale_lobby` (Sweep), one round of
--     `lobby_sync_loop` (Round).
--   Credentials: the files of a bot, and `_resolve_credentials`.
--   Heal: `_export_escrow_for_wipe`, `_wipe_crypto_store`,
--     `import_inbound_sessions`, and the part of `main` that wipes. Escrow shows what is kept before a
--     wipe, Restore the way back.
--   Signup: `signup_handler`. Announce: `announce_lobby_events`.
--   Crosssign: POST /signup/api/crosssign: `_sign_object` and the key objects (Keys), the requests
--     (Requests), `_crosssign` and `crosssign_handler` (Bootstrap).
--   Bundle: `build_room_key_bundle`, whose bundles the responder imports.
--   Admin: `cmd_mint` (Mint), `cmd_revoke` and `cmd_codes` (Revoke), `process_admin_command` with
--     its authorisation (Dispatch).
--   Round: one round of `sync_loop`, with the queue that `on_room_message` fills.
--   System: the two loops and the two HTTP handlers of `main` as steps on the shared files. Places is
--     the abstract machine that they refine: codes with uses, and rooms that are opened for uses.
--   Loops: `sync_loop` and `lobby_sync_loop`, for any number of turns, with the files of their
--     positions (Cursor, Follows), what the start of the crypto store leaves alone (Setup) and what they
--     do to places (Moves). The position of `sync_loop` is the file that `_wipe_crypto_store` removes.
--   Start: `main` up to its loops, with `merge_seed` (Seeding), and the life of the process over many
--     starts (Restarts).
--   Relay: bridge/relay.py, the relay between one Matrix room and one Telegram group: `class State`
--     (State), `_tg_text` and `_mx_body` (Bodies), the state and the posts (Bridge), `tg_poll_once`
--     (Telegram), `mx_relay_once` (Matrix), `State.load` and `run` with --once (Run).
--   Sas: landing/sas_verification.py, which verifies devices: `_SASSession` (Session, and Mac from the
--     exchange of keys on), `SASVerificationManager` (Manager).
--   Redact: deploy/admin/bulk_redact.py: its requests (Tool), `collect_targets` (Scan), `main` (Run).
--   Responder: landing/responder.py: `import_room_key_bundle` (Bundle), `_remember_inviters`,
--     `sync_once`, the handlers and the loop of `main` (Loop).
--   Mx: bridge/mx.py: the files and requests (Host), `load_config` (Config), the cursor, `sync_once`,
--     `bootstrap` and `ensure_ready` (Session), the two commands and `main` (Commands).
--   Tests: the theorems at concrete inputs.
--
-- How the code is read. A request is answered by `Env.reply`, an arbitrary function of the whole
-- history of requests, so nothing is assumed of the servers. Only what the code reads of a reply is
-- kept. Texts are sequences of code points; `str.lower` and `str.isalpha` are parameters. Message
-- texts are constructors of `Notice` with the values that they show. Absent JSON fields are read as
-- the defaults of the code's `.get`. Times are whole seconds, sleeps half seconds. Counts of uses
-- and tries are natural numbers: a negative one in a file, and a negative power level or flag, is
-- read as 0. A table keeps its order; the files are written with sorted keys, which no theorem uses.
-- The loop that draws a code until it is unused has fuel for the first candidate and for one more
-- than the table has codes, since distinct candidates cannot all be in the table; running out is an
-- exception that the source does not have, and no theorem says that it never happens. The other loops
-- are structural.
-- The clients of the relay (mautrix, Telethon) are functions of all that was posted before; ids of
-- Telegram senders are kept as their decimal texts. What Telethon yields is a list of
-- messages in which an exception may stand for the next one. A session of the crypto store has its
-- room, keys, id and first index, and a ratchet that only the crypto library reads; opening a store,
-- exporting and importing a session, and what they raise, are parameters.
-- In landing/sas_verification.py a handler runs to its end before the next one, and what it raises
-- ends it alone, as the client logs it. olm, the crypto store and the homeserver are parameters; a
-- field that is read as a text is read as absent where it is none.
-- The redaction script starts with parsed arguments; `urlopen` raises for a status outside the 200s.
-- Its loop over the pages is counted by the pages left of 2000, as in the source.
-- `_crosssign` asks for its device at most four times, counted by the attempts left. A private key is
-- known by the number of its generation; Ed25519, `json.dumps`, the encryption of attachments and the
-- crypto store are parameters of Crosssign and Bundle.
--
-- A loop over /sync that does not end is run for any number of turns. Its rounds and those of the other
-- loop follow each other; what overlaps is the subject of Lobby/Join/Race and Lobby/Round/Loss.
--
-- Not modelled: `run_http` of the approver, and the construction of the clients and the decryption of
-- the events, which third-party cryptography does; the relay without --once, whose two loops
-- interleave at their awaits; the command line of bridge/tg.py; the other scripts of deploy and
-- those of dev, which post a message or set up accounts and rooms. In bridge/mx.py a negative count
-- of rows is left out.
pub mod Base
pub mod Text
pub mod Dict
pub mod Exec
pub mod World
pub mod Haiku
pub mod Codes
pub mod Sync
pub mod Places
pub mod Knock
pub mod Welcome
pub mod Vetting
pub mod Lobby
pub mod Admin
pub mod Round
pub mod System
pub mod Credentials
pub mod Heal
pub mod Start
pub mod Loops
pub mod Announce
pub mod Signup
pub mod Crosssign
pub mod Relay
pub mod Sas
pub mod Redact
pub mod Responder
pub mod Bundle
pub mod Mx
pub mod Tests
