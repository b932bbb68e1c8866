-- ===== src/Lib.antt =====
-- A model of aamio's Rust client, from its protocol core to the board over it.
--
-- The program is a client of a rendezvous service. Its core, which touches no network, is five
-- modules that call one another downwards:
--   * `src/codec.rs` (Codec): base64url, base32, sha256 and the shape of a public key.
--   * `src/address.rs` (Address): read keys, write addresses, scope keys and their addresses.
--   * `src/receipt.rs` (Receipt): the root of a thread's receipt and the checks of a receipt.
--   * `src/gate.rs` (Gate): the canonical text of a gate and its hash (Gate.Canonical), the texts that
--     work is computed over and the count of zero bits (Gate.Work), the digits of a candidate
--     (Gate.Digits), the search for a nonce (Gate.Search), the timing of that search on the machine
--     (Gate.Rate) and the plan that a writer makes of a gate (Gate.Plan).
--   * `src/keys.rs` (Keys): an identity, its signatures, its envelopes and the signing inputs.
-- On top of them stands the client, `src/client.rs` (Client). What it makes of the answers that it
-- gets is the parts of an answer (Client.Answer), the check of a message (Client.Check), its decoding
-- and opening (Client.Message) and the allowlist with the filter of a read (Client.Allow). What it does
-- is written as actions on a state (Client.World): an action takes the State and gives an Outcome and
-- the State after it. The State holds the caches of the client, the exchanges so far, the newest
-- first, and how often the clock was read and the generator used. The World, an instance argument, is
-- what the client meets: the service, which answers a call by all that was exchanged before, the
-- clocks, the generator and the rate of the machine. An Outcome is a value, an error, a panic, or a
-- search that is still running when its fuel is used up; a sequence of actions ends where one of them
-- does. Client.Calls is one call, decoded; Client.Gates the gates that are kept, the time left and
-- `plan_to`; Client.Parcel what a write is made of, and Client.Send the write itself, with the closures
-- and early returns of `send` as definitions that are called in its order; Client.Threads opening,
-- reading, the receipt and closing; Client.Presence the presence calls. `decode_all` is the loop of
-- `read_limited` over the items of an answer, and `filter_messages` what `read_thread_limited` does with
-- its messages. That a package may panic under `catch_unwind` is an argument of `decode_at`.
--
-- `src/board.rs` (Board) is a board over a client: its descriptor and what is found on it (Board.Find),
-- what is put on it and answered there (Board.Posts), and the answers that are read (Board.Replies).
-- The descriptor that it keeps is a field of the State, so the model has one board over a client.
-- `src/hosts.rs` (Hosts) has the two hosts that are used where none is given.
--
-- `wasm/src/lib.rs` (Wasm) passes the core on to JavaScript, with seeds for identities.
--
-- Definitions have the names of the functions that they model. `open` of `src/keys.rs` is
-- `open_envelope`, that of `src/client.rs` is `open_thread`; `keys`, `gate` and `open` of
-- `wasm/src/lib.rs` are `keys_of`, `gate_of` and `open_text`.
--
-- Base holds what they share, with `from_utf8_lossy`, `split` and `trim` of the Rust library: texts
-- as lists of bytes, results, decimal text and integers. A `&str` and a `&[u8]` are both a list of
-- numbers, which are bytes where a theorem says so. An early return with an error and `?` are the bind
-- of Result; the texts of errors of the packages are not modelled where the source replaces them.
--
-- Extern holds the packages that the program calls, as records of operations with the laws that the
-- program relies on: base64, hex and base32 (Encodings), sha2 (Hashing), ed25519 and crypto_box
-- (Crypto), serde's text of an envelope (Envelopes), serde_json's values (Json) and f64 (Floats, with
-- no laws). That sha256 has no collision is never assumed: a theorem that would want it says which two
-- texts collide. Sample fills each record with executable functions that have the laws, and Tests
-- applies each theorem to them.
--
-- Fuel: the search for a nonce has no bound in the source, so `search_from` takes the number of
-- candidates that it may try, and ends in `running` when they are used up. Fuel above the first
-- candidate that does the work is enough. The counter is a `u64` with its wrap-around written out, so
-- fuel is taken below 2 ^ 64, where it does not wrap.
--
-- The timing of the machine (`hash_rate`) takes fuel for the readings of its clock, and fuel above the
-- first reading of a quarter of a second is enough. Its result is kept by the program, and is an
-- argument of the plan.
--
-- In a write the fuel is a field of the World. What is stated of a write holds for any fuel below
-- 2 ^ 64, and a search that uses it up ends the write as `running`.
--
-- The random draws of identities and the clock of a deadline are arguments; in the client they are
-- counted readings of the World. Lifetimes are `u32`, with the wrap-around of a release build written
-- out where a sum is taken.
--
-- Not modelled: TLS, timeouts and the user agent of a call; the locks around the caches, since a call
-- is modelled from its start to its end; `src/lib.rs`, which holds names; the examples and the tests of
-- the crate.
pub mod Base
pub mod Extern
pub mod Codec
pub mod Address
pub mod Receipt
pub mod Gate
pub mod Keys
pub mod Hosts
pub mod Board
pub mod Client
pub mod Wasm
pub mod Sample
pub mod Tests
