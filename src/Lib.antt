-- ===== src/Lib.antt =====
-- The Telco-Vecchio daemon: an SMS remote control for a router, which opens ssh tunnels to
-- applications of the local network.
--
-- The daemon (daemon/src/main.rs) starts up, and then waits for text messages at an LTE modem. A
-- message of a configured user is a request (daemon/src/request.rs): it opens or closes a tunnel,
-- asks for the status, or reboots or stops the router, and it is answered by a message. When no
-- message comes within the refresh period, the connection is checked and the expired tunnels are
-- closed.
--
-- What models what. Names are those of the source; a function that the source writes inline in
-- another has a name of its own here.
--   Prelude   shared names of the library, Boolean tests, lists, association lists with their laws
--   Text      str and String of Rust: code points, with positions in UTF-8 bytes; Words is
--             split_whitespace, Decimal is Display and parse of integers, Utf8 is from_utf8
--   Config    daemon/src/user.rs, daemon/src/application.rs and the structures that toml fills
--   Effects   Error of daemon/src/common.rs, and computations with effects: World has what the daemon
--             does (Effect), the outside (Host) and the packages (Crates)
--   Status    daemon/src/status.rs: Qmi is QmiProvider, Resolve is get_status with its helpers,
--             Display has the printed forms
--   Sms       daemon/src/sms_utils.rs: Modem has the serial port and init, Phone and Message the
--             encodings, Send is send_sms, Receive is wait_sms
--   Email     daemon/src/email_utils.rs
--   Ssh       daemon/src/ssh_utils.rs
--   Context   Context and Tunnel of daemon/src/common.rs: Expiry is clean_up_expired_tunnels
--   Request   handle_request of daemon/src/request.rs: Handle has the sender's check and the commands,
--             Open and Close the two long ones, Message the texts
--   Init      daemon/src/init.rs: Start is init and read_config_file, Register the two functions on the
--             register file
--   Daemon    daemon/src/main.rs: Round is the loop of run, CommandLine is main and run
--   Table     the abstract view of the open tunnels, a table of users and applications by reference with
--             its steps, which stands beside the loop of run
--   Examples  a small installation, on which the theorems are applied
-- The other modules hold theorems and are named for what they prove.
--
-- State and effects. An async fn is a function from a world, or from the context with the world, to
-- an outcome and the world afterwards. An outcome is Ok, Err, a panic, or a wait that never ends. The
-- world is the trace of the effects so far, the latest first, and the register file. The host answers
-- each effect by an arbitrary function of the trace, so that a theorem for all hosts holds whatever
-- modem, network, commands and clock do. A deadline of tokio turns a wait that never ends into the
-- result of the elapsed deadline. A process of ssh comes under the daemon's care when it is spawned,
-- and is dropped, which kills it, wherever Rust drops its Child.
--
-- Bounds. Loops are structural recursion over lists, or recursion on fuel. The loop of
-- is_connected_to_internet runs at most four times; the search for a status at the start runs at most
-- as often as the retries and two, since a round that goes on sends the PIN for the first time or
-- counts down. The loops that wait for the modem or for ssh's output have no bound in the source: they
-- make as many reads as the host says, and then wait for ever, or until the deadline around them. The
-- endless loop of run has no fuel that is enough for it: properties of it are stated of any number of
-- rounds, and with main it is run on any fuel, at whose end it is still at work. References are u32,
-- which wraps at 2 ^ 32; other numbers of the source are lengths and durations, which do not
-- overflow here.
--
-- Parameters and simplifications. The packages gsm7, hex, regex-lite, tinyjson and toml are the
-- functions of Crates. A HashMap is an association list, and what iterates over it takes the list's
-- order. An IpAddr is its printed form. Case mapping is that of ASCII, and the escapes of {:?} are
-- those of ASCII characters. A process is its pid.
--
-- Not modelled: the log lines and their format (the set-up of the log, which can panic, and the fork
-- into the background are replies of the host); the web interface under luci, the packaging scripts and
-- the service script, which are not part of the daemon.
pub mod Prelude
pub mod Text
pub mod Config
pub mod Effects
pub mod Status
pub mod Sms
pub mod Email
pub mod Ssh
pub mod Context
pub mod Request
pub mod Init
pub mod Daemon
pub mod Table
pub mod Examples
