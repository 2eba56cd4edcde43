-- ===== src/Lib.antt =====
-- A model of pvcli and its crates: the messages that it parses, builds and seals, its HTTP/3 bodies
-- and connections, its arguments, and what holds of them.
--
-- The program. pvcli sends HTTP requests, also through oblivious HTTP (RFC 9458): a request is
-- written as a binary HTTP message (RFC 9292), sealed by HPKE and sent; the response comes back the
-- same way. Bytes come from the network as a stream of chunks. crates/stream-buf puts a buffer in
-- front of such a stream, crates/stream-octets reads integers and counted byte strings off it,
-- crates/hyper-binary decodes and encodes messages on top of the two, and crates/ohttp-hpke seals
-- and opens the streams of encoded messages.
--
-- The files.
--   Poll         `Poll`, `Result`, errors, `.await` and the sequence of an `async fn`.
--   StreamBuf    crates/stream-buf/src/lib.rs. `poll_f` of the source is `poll_f`, a function of the
--                StreamBuf into an answer and the new StreamBuf; the `async` `f` is `f`. `Content`
--                says what bytes an object holds, `Conserve` that none is lost, `Flat` is the
--                specification (a cursor over one byte string), `Refine` what it is to implement
--                it, `Awaited`, `AtMost` and `Served` that the methods do.
--   Octets       the crate `octets`, a parameter: its operations and their laws.
--   StreamOctets crates/stream-octets/src/lib.rs, with its flat specification, and `Taken` for streams that
--                fail as well.
--   Http         the crate `http`, a parameter.
--   HyperBinary  crates/hyper-binary: `Decoder` (decoder/mod.rs), `Body` (decoder/body.rs),
--                `Encoder` (encoder/mod.rs), each with the functions' names of the source, and
--                `RoundTrip` for the two together. `Encoder/Wire` is the wire format.
--   OhttpHpke    crates/ohttp-hpke: `Config` (config.rs), `Keys` (keys.rs), `Header` (header.rs),
--                `Nonce` and `Response` (response.rs), `Aead` (instance.rs), `Encapsulated`,
--                `Decapsulated`, `ClientConfig` and `Client` (client.rs), `ServerConfig` and
--                `Server` (server.rs). `ConfigRoundTrip` and `RoundTrip` put both sides together.
--                The crates `aead`, `hkdf` and `hpke` are the parameters `Crypto` and `Hpke`;
--                `dispatch_triple`, which turns ids into type arguments, is the ids as arguments.
--   Http3        src/client/http3: `Body` and `SendBody` (body.rs), and `Connection` (connection.rs)
--                with the map from stream and request ids. The channels of the QUIC driver are
--                the lists of what they answer.
--   Args         src/args.rs: the arguments behind clap, completed and checked.
--   Pat          src/pat.rs: the host of a token issuer, and the choice of its key.
--   Examples     concrete parameters, and the theorems applied to concrete messages.
--
-- How the code is modelled. A stream is the list of what its `poll_next` answers, one entry a
-- poll: `Pending`, a chunk or an error; behind the last entry it is at its end. A waker is left
-- out. An error is its kind, without its message. A panic is the error `panicked`. Integers are
-- natural numbers: the widths are checked where the source converts (`try_from`), and
-- `usize_max` is a parameter. The bytes handed to `octets` are those of the slice, and a vector
-- that is written to is its length and what has been written.
--
-- Fuel. An awaited poll function gets one poll more than its stream has entries, since a `Pending`
-- uses an entry up; the loops of the decoder get as much fuel as there are bytes left, since every
-- round takes one. Both are enough on clean streams, which is proved: `Decoder/Total` for the
-- decoders.
--
-- A stream is clean if it does not fail and yields no empty chunk, and the refinement theorems ask
-- for one whose bytes fit under the size limit.
--
-- Not modelled: the worker of crates/ohttp-gateway-worker; of the program in src/, the network
-- clients (src/client, but for the files named above), the resolver, the parser of --resolve, the
-- token request, and the top level; formatting for debugging; tests.
pub mod Prelude
pub mod Poll
pub mod StreamBuf
pub mod Octets
pub mod StreamOctets
pub mod Http
pub mod HyperBinary
pub mod OhttpHpke
pub mod Http3
pub mod Args
pub mod Pat
pub mod Examples
