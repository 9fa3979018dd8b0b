-- ===== src/Lib.antt =====
-- Verification of the FROST tools: the coordination server frostd, the session states by which its
-- clients run threshold signing and distributed key generation (DKG), the cipher between the
-- clients, their address book, and the note commitment tree of the Zcash signer.
--
-- The parts and their files.
--
-- Prelude: tests on numbers, equality as an interface (`PartialEq`), lists read as sets, hash maps
-- and B-tree maps as association lists with one entry for each key, and outcomes: `ok`, a returned
-- error, or a panic. Iteration orders of hash maps are those of the lists; no theorem is about an
-- order.
--
-- Api (frost-client/src/api.rs): the messages of the server's API, its errors and their codes.
-- Uuids are numbers, byte strings are lists of numbers.
--
-- Frostd (frostd/src): State has the sessions, the index `sessions_by_pubkey`, the challenges, the
-- access tokens and one round of each timer task; Functions has every handler and
-- `User::from_request_parts`; Server is the router with its table of paths, and a machine that
-- takes one call or timer round at a time. A handler or a timer round is one step in the model.
-- `login` and the timer of the sessions release one lock before they take the next; what others do
-- in between is not modelled. The crate delay_map is a parameter (Delay): its maps have the laws
-- that it documents, and time is an argument. XEd25519 verification is a parameter, and so is the
-- UUID that a call draws. The other modules of Frostd prove: Registry and Listing the index,
-- Lifetime the end of sessions and their renewal, Auth, Replay and Tokens the logins, Mailbox and
-- Delivery the queues. Reach is the relation of states that the server can reach; it asks that the
-- id of a new session is in nobody's list.
--
-- Session (frost-client/src/session.rs): Coordinator is `CoordinatorSessionState`, Dkg is
-- `DKGSessionState`. Suite holds what frost-core and serde_json give: the types of a ciphersuite
-- and the decoders of messages. An index out of bounds and a call in a wrong state are panics.
--
-- Cipher (frost-client/src/cipher.rs): Noise is the struct of that name, a handshake that turns
-- into a transport; Peers is the struct `Cipher`, with a channel to and from each peer. The crate
-- snow is a parameter (Snow): its states, and operations that return what they write into a buffer
-- of `MAX_MSG_SIZE` bytes. `IsRegular` and `Channels` are what its documentation says of them.
-- Validity and Use prove each operation, Opening and Conversation the two ends of a channel.
--
-- Config (frost-client/src/cli/config.rs and contact.rs): File is the configuration and its file,
-- Contacts the commands on the address book; AddressBook and Commands prove them. Files, toml,
-- bech32 and postcard are a parameter (Platform). Errors are told apart by their messages.
--
-- Note (zcash-sign/src/transaction_plan.rs): Tree is `CTree`, `Witness` and the trait `Hasher`, of
-- which any implementation is a parameter; Merkle, Path and Position prove its roots,
-- authentication paths and positions. The depth is a `u8`, written with `% 256`, and an index out
-- of bounds is a panic. The Orchard hasher and the readers are not modelled.
--
-- Client (frost-client/src/client.rs): Calls is `Client` and its methods. reqwest and serde_json
-- are a parameter (Transport): a world that answers requests, and writers and readers of JSON
-- texts. Server makes a transport of Frostd's router and its table of paths, with axum's
-- extractors, the form of a URL and serde_json as a parameter (Codec); Served proves the
-- composition.
--
-- Comms (coordinator/comms/http.rs, participant/comms/http.rs and dkg/comms/http.rs of
-- frost-client/src): Coordinator, Participant and Dkg are the three structs `HTTPComms`, over
-- Client, Cipher and Session; Core has what they share, and Arrivals says which messages a server
-- returned and snow opened. The two-second sleep and the printing are left out, and ip and port
-- are one url. A loop that waits for messages takes a bound on its rounds, and ends in an error of
-- its own, `still_waiting`, when it is used up; Polling has the relation of rounds without a
-- bound, and proves that any larger bound gives the same. Frames, Collects, Signs, Listens,
-- Trusts, Enters, Running, Agrees and Ends say what the methods have established when they return,
-- and Stuck is a way in which no bound is enough.
--
-- Protocol (coordinator/cli.rs, participant/cli.rs and dkg/cli.rs of frost-client/src): the
-- procedures over the traits `Comms`, which are records of methods here. frost-core and
-- frost-rerandomized are parameters (Frost, Keygen); so is the randomness of one run, as a draw
-- for each key and index. `into_even_y` is modelled over the conversions of reddsa. Runs asks the
-- coordinator's trait for as many tables as there are messages, a law that OverHttp proves of the
-- HTTP implementation; OverHttp composes the parts.
--
-- Each part has a module Examples, in which its theorems are applied at concrete runs.
--
-- Dealer (frost-client/src/trusted_dealer/): the inputs, trusted_dealer and `cli` up to the
-- printing of the shares. The terminal, frost-core and the random numbers are a parameter
-- (Dealing), whose world they change; `into_even_y` is modelled over the conversions of reddsa.
-- Prompts are texts without their newline, and what goes to standard error is left out.
--
-- Inputs (coordinator/args.rs, coordinator/input.rs and dkg/inputs.rs): the readers of messages,
-- randomizers, numbers and packages. The terminal, std::fs and the crate hex are a parameter
-- (Console). A name that is `-` or empty stands for the terminal.
--
-- Commands (frost-client/src/cli/coordinator.rs, participant.rs, dkg.rs and session.rs): Machine
-- is what a command runs on: the files of Config, the terminal of Inputs and the world of Client.
-- Coordinator, Participant and Dkg are their `run_for_ciphersuite`, over Protocol with the HTTP
-- implementations of Comms; Sessions is the list of sessions. Signed with Writes, Consents and
-- Creates say what a command has done when it ends well.
--
-- Not modelled: the network, the terminal, files and process setup; cryptography, which enters as
-- parameters; logging. The socket and terminal implementations of the traits `Comms`, the other
-- commands of frost-client, the parsing of arguments and the signing of transactions are not
-- modelled either: they read, print and call other crates. Other than the loops of Comms, every
-- function recurs on a list or a number.
mod Prelude
pub mod Api
pub mod Frostd
pub mod Session
pub mod Cipher
pub mod Config
pub mod Note
pub mod Client
pub mod Comms
pub mod Protocol
pub mod Dealer
pub mod Inputs
pub mod Commands
