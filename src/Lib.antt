-- ===== src/Lib.antt =====
-- Desky is a desk robot of two boards: the core (embedded/core), which drives, senses and pairs
-- with the phone app, and the head (embedded/head), which shows the faces. This library models
-- the parts of the core that decide whether the robot moves, who may drive it, and what is on
-- its two wires, with the codec that the boards share (embedded/shared/link), both ends of the
-- link between them, the cipher of the credentials, the update of the head from the upload to
-- the restart, the servo of the motors, the event bus, and the edges of the sensors.
--
-- The parts and how they interact:
-- - The app sends datagrams to the UDP server, which classifies them by length and header and
--   checks their checksum (`Udp.Rx`, `Udp`). The pairing session verifies the tag, the era and
--   the counter of each frame (`Pairing.Session`); the handlers of `Pairing.Receive` mark the
--   peer alive, stage requests, and publish a command as an event. A pair request
--   (`Pairing.Enrol`) trades the code on show (`Pairing.Code`) for a key, and a rotation
--   (`Pairing.Refresh`) replaces the key. `Pairing.Server` is one datagram through all of this.
--   `Pairing.Button` is the boot and the pair button, which sends the owner away and opens the
--   window of a new code.
-- - The coordinator drains the events once per tick (`Coordinator`), feeds the mode policy
--   (`Mode`) from the session, arbitrates (`Arbiter`), and commands the motors (`Motor`), whose
--   bridge is `Motor.Driver`. It also owns the safety face, which it requests of the expression
--   task (`Expression`), whose catalog is `Catalog`.
-- - Faces and pairing codes go to the head as frames of the link (`Link`, `Link.Payload`,
--   `Link.Reassembly`). The core end is `Link.Server`, with the push of the home credentials
--   (`Link.Server.Creds`) and the image stream (`Link.Stream`); the head end is `Link.Client`,
--   with the search for a network and the heartbeats (`Link.Client.Assoc`) and the still
--   (`Link.Client.Still`), on the pure rules of `Link.Follow`. The credentials are sealed and
--   opened by `Link.Crypto`, which also derives the passphrase of the access point
--   (`Link.Crypto.Sha256`). `Link.Delivery` puts both ends together over a network that loses,
--   repeats and reorders.
-- - The sensors publish edges (`Sensors`) on the event bus (`Bus`), which the coordinator
--   drains, and the pair button is debounced (`Sensors.PairButton`). An update is uploaded to
--   the core, which stages it in memory and serves it (`Ota.Staging`, `Ota.Staging.Server`)
--   under a manifest that names it (`Ota.Manifest`), and sends the head its address. The head
--   asks for the manifest and the image (`Ota.Url`, `Ota.Reply`), writes what it reads and
--   restarts into it (`Ota.Policy`, `Ota.Updater`). `Ota.EndToEnd` puts both ends together.
--
-- Files and sources:
-- - Udp: embedded/core/src/transport/udp_codec.h (encodeControl is encode_control, and so on);
--   Udp/Rx: the Arduino-free half of transport/udp_server.h.
-- - Pairing/Peer: transport/connection_manager.h; Pairing/Code:
--   abilities/pairing/pairing_manager.h; Pairing/Tags: abilities/pairing/pairing_codec.h;
--   Pairing/Session, Receive, Enrol, Refresh and Button: abilities/pairing/pairing_task.h with
--   the handlers of transport/udp_server.h; Pairing/Server: the receive loop of
--   transport/udp_server.h.
-- - Arbiter, Coordinator: behavior/coordinator.h with core/include/system_context.h; Mode:
--   behavior/mode_manager.h.
-- - Catalog: embedded/shared/link/expression_catalog.h; Expression:
--   abilities/expression/expression_manager.h and expression_task.h, with the tables that the
--   bundle conductor reads.
-- - Link, Link/Payload, Link/Reassembly: embedded/shared/link/link_codec.h; Link/Server,
--   Link/Server/Creds and Link/Stream: embedded/core/src/transport/link_server.h (handleHb is
--   handle_hb, and so on); Link/Follow: embedded/head/src/transport/link_codec.h; Link/Client
--   and its children Assoc and Still: embedded/head/src/transport/link_client.h; Link/Crypto,
--   Link/Crypto/Aes and Link/Crypto/Sha256: embedded/shared/link/link_crypto.h.
-- - Ota/Manifest: embedded/shared/link/ota_manifest.h; Ota/Staging:
--   embedded/core/src/abilities/ota/ota_manager.h with ota_codec.h; Ota/Staging/Server:
--   ota_task.h beside them (handleUpload is handle_upload, and so on); Ota/Url, Ota/Policy:
--   embedded/head/src/abilities/ota/ota_codec.h and ota_manager.h; Ota/Reply, Ota/Updater:
--   ota_task.h beside them. Sensors: embedded/core/src/abilities/sensors/sensors_codec.h;
--   Sensors/PairButton: embedded/core/src/hal/pair_button.h.
-- - Prelude: buffers, words and integers. Examples: runs on small inputs.
-- - Bus: embedded/shared/common/event_bus.h, the slots of the subscribers and what goes to
--   their queues. Motor: embedded/core/src/behavior/motion_controller.h; Motor/Driver:
--   embedded/core/src/hal/motor_driver.h.
-- The child modules of each part hold what is proved of it.
--
-- How it is modelled. A member function is a function from the state to the new state and its
-- result; calls to other parts are effects, returned in order, or arguments that hold what was
-- read. Unsigned words are natural numbers with the wrap-around written out. A stick value is
-- the integer of its 127ths, since the code only compares it with 0 and hands it on. Times are
-- milliseconds of 32 bits. The functions of mbedtls are parameters that may fail; random bytes
-- and the answer of the configuration store are arguments. The radio, the handlers of the head
-- and the network that is found answer through arguments, and so do `open` and `seal` where the
-- cipher does not matter. The queues of FreeRTOS, which the event bus calls, are parameters
-- too, with what its documentation says of them as hypotheses, and the answers of the clock in
-- the loop over the image stream are a sequence that the state of the stream holds. The web
-- server, the sockets, the flash and the memory that is asked for answer through arguments too;
-- the digest of mbedtls is a function of the bytes it was fed, the same on both boards; and a
-- connection is the list of the bytes that arrive before a wait times out. A text of C is the
-- list of its characters before the NUL. Each loop runs over a list or a fixed count, but for
-- these: the loop over the image stream has as many rounds as there are bytes, which is proved
-- to be enough; the loops over the blocks of the cipher and of the digest have a round for each
-- byte, and the padding of the digest one for each place of its block; and the digits of a
-- number have the 16 characters of their array. The head of a reply is read byte by byte over
-- the list of its bytes, and the polls over the list of their reads.
--
-- Not modelled: FreeRTOS tasks, locks and watchdogs, logging, WiFi, flash, I2S, PWM and sensor
-- registers; the drawing library of the head; the floats of the mix and the sine of the motors
-- and of the telemetry angles. The pump that shows the code on the head, the text of the
-- compiled secret, the QR code, the display and the stores in flash have no model here.
pub mod Prelude
pub mod Udp
pub mod Catalog
pub mod Expression
pub mod Mode
pub mod Arbiter
pub mod Bus
pub mod Coordinator
pub mod Motor
pub mod Link
pub mod Pairing
pub mod Ota
pub mod Sensors
pub mod Examples
