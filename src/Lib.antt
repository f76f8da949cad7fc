-- ===== src/Lib.antt =====
-- Linkable desktop: the protocol core of the desktop application, verified.
--
-- The desktop pairs with a phone, opens an encrypted session with it, and then exchanges envelopes
-- over the session, files among them. The parts, all under desktop/src/linkable_desktop/:
--
-- * Transport/ models transport/framing.py: `Transport.Stream.read_exact` is `_read_exact`, and
--   `Transport.Framing` has `read_envelope` and `write_envelope`. A stream is any `Reader`: a read
--   gives some of the next bytes, at most as many as asked for, and none only at the end.
-- * Crypto/Channel models crypto/session_cipher.py: the state of `EncryptedEnvelopeChannel` is the
--   record `Channel`, with the counters that its `ReplayGuard` has marked in `seen`. AES-GCM is a
--   parameter that decrypts what it encrypted and adds 16 bytes.
-- * Session/Auth models session/auth.py: what both ends of a session sign, and the freshness test.
-- * Trust models trust/: the store's file is a list of records or missing, and each method loads it,
--   changes it and saves it.
-- * Pairing/Code models pairing/code_generator.py, and Pairing/Registry and Pairing/Server model of
--   pairing/pairing_server.py `ActiveSessionRegistry` and `_handle_pairing_request`. The handler is an
--   action on a world of coming envelopes, sent replies, failing writes and the trust store; its parts
--   `ask`, `check_code`, `await_confirm`, `check_confirm` and `conclude` are the code between its early
--   returns. It uses the trust store and the pairing code.
-- * Pairing/Session models `_handle_session_init` of pairing/pairing_server.py as an action on sent
--   replies, failing writes, the registry and the list of encrypted channels that were served; it
--   uses the trust store, Session/Auth, the registry and Crypto/Keys, the keys of a session. How the
--   loop over the encrypted transport ends is a parameter there, for each of its results.
-- * Pairing/Transport models that loop, `_serve_encrypted_transport`: Pairing/Transport/Handlers has
--   one handler for each branch on the packet's type, and Pairing/Transport/Loop the rounds, the
--   `except` and the `finally`. The packets that are only parsed and reported are one constructor,
--   `event`, with their type. It uses the file receiver and the input controller.
-- * Pairing/Outgoing models the other thread of a session, `_pump_outgoing_commands`, with the queues
--   of app/runtime.py that it empties (`_enqueue_outgoing`, the `_next_…` methods, `_queue_get`).
--   Pairing/Outgoing/Wakeups has the steps of all threads on the semaphore between them; each server
--   has a semaphore of its own. One session's outgoing thread is taken to have ended when the next one
--   begins: `join` waits one second for it, and a write that takes longer is not modelled.
-- * The two threads of a session share one counter of sequence numbers: in Pairing/Transport/Loop and
--   Transfer/Sender the numbers that the other thread takes in between are passed over.
-- * Transfer/ models transfer/: Transfer/Receiver and Transfer/Names are file_receiver.py over the
--   file system of Transfer/Paths, and Transfer/Sender is file_sender.py.
-- * App/Devices models app/devices.py: the list of phones that the windows show, made from the
--   trusted records and the live sessions.
-- * App/Clipboard, App/CallHistory, App/Notifications and App/Sessions model the parts of
--   app/runtime.py about the copied texts, the calls, the notifications and the devices, each method
--   one step under the runtime's lock. App/Sessions decides which sessions Pairing/Session and
--   Pairing/Transport admit and end. App/Requests has the methods that make requests to the phone, on
--   the queues of Pairing/Outgoing.
-- * App/DeviceSettings models app/device_settings.py, and App/SafeWifi app/safe_wifi.py: each method on
--   the content of its file.
-- * Input/Control models input/control.py: each request as the tool commands that it runs.
-- * Discovery/Endpoint models the typed endpoint of discovery/fallback.py.
-- * Prelude/ has the shared types and lemmas: byte encodings, decimal texts, dictionaries, equality
--   tests, and actions that may raise (`Exec`), where what was changed before a raise stays changed.
-- * Examples/ has the stand-ins for libraries that compute, and the theorems at concrete inputs.
--
-- Numbers are natural numbers, with the ranges of struct.pack and int.to_bytes written out as the
-- exceptions that they raise. Texts are lists of code points. Three loops of the program run on
-- fuel: `read_exact` on one round more than the bytes asked for, since each round reads a byte at least; `unique_path` on
-- one round more than there are files, since the tried names differ; and `file_chunks` on one round
-- more than the bytes of the file, since each chunk has a byte at least. That this is enough is
-- proved, and `no_fuel` is the result that would show the contrary.
--
-- Not modelled: protobuf, JSON, HKDF, SHA-256, ECDSA and AES-GCM are parameters. Locks are not
-- modelled where each method is one step under its lock; the registry's interleavings are sequences
-- of such steps. In Crypto/Channel every write to the stream succeeds: that the counter stays when a write
-- or a flush fails is left out. Notices to the user, but for those at a
-- session's start and end, time stamps in transfer results, sockets and file modes are
-- left out. The accept loop, the start, the stop and the camera of the runtime, mDNS discovery,
-- Bluetooth, the configuration, the windows and the Android application are not modelled.
pub mod Prelude
pub mod Transport
pub mod Crypto
pub mod Transfer
pub mod Session
pub mod Trust
pub mod Pairing
pub mod App
pub mod Discovery
pub mod Input
pub mod Examples
