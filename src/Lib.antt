-- ===== src/Lib.antt =====
-- A verification library for the ERC-4337 v0.7 bundler in crates/bundler/src.
--
-- The program. A request brings a batch of user operations. The bundler checks the fees of each
-- operation, packs it into the on-chain struct, checks the deposit of its sponsor, has the node
-- simulate it and judges the two words of validation data, asks for its hash, and then wraps the
-- batch into one `handleOps` transaction: gas with a margin, outer fees, nonce, signature. In
-- submit mode it broadcasts the transaction under a lock, waits for the receipt after the lock is
-- free and decodes the revert of a failed one. Errors become JSON-RPC codes with a data object.
--
-- The files.
--   Base           lists, results (`ok`, `err`, `panic`), bits, byte strings, integers, names.
--   Alloy          `U256` of the `alloy` crates as an interface with its documented behaviour
--                  (`Uint`), and an implementation on native numbers (Alloy/Native).
--   Contracts      contracts.rs: the Solidity structs; `Abi` stands for the generated codecs.
--   Types          types.rs: operation, options, response, and the ranges of their fields;
--                  Types/Wire has their JSON objects by the `serde` attributes, Types/Wire/Given and
--                  Reading which objects are an operation.
--   Packing        packing.rs: `pack`, `pack_pair_to_bytes32`, `parse_paymaster_and_data`.
--   Provider       provider.rs: the trait `EthProvider` as calls (`Query`) with answers (`Reply`).
--                  Provider/Remote has the requests to the node and the clock, Provider/AlloyProvider
--                  the methods over them (`serve`), the loop of `wait_for_receipt` and its end, and
--                  the world of a request whose provider it is (`served`),
--                  what a response means at the node (Confirmed), and which raw transactions
--                  reach it (Recorded, Reached).
--   Signer         signer.rs: the trait `Signer`, and `LocalSigner` over a key.
--   Program        asynchronous code as a tree of calls, run against any world that answers by the
--                  calls made so far; Program/Laws has the rules to prove what a program calls, and
--                  Program/Steady the worlds that answer a call always in the same way.
--   Validator      validator.rs: `simulate`, `parse_window` and the verdict.
--   Errors         errors.rs: the errors, their texts, `classify`, `decode_handle_ops_revert`.
--   Config         config.rs: the configuration and its defaults.
--   Bundler        bundler.rs: Bundler/Policy has the fee policy, the prefund formula and the gas
--                  margin; Bundler/Pipeline has `build_inner`, cut into its successive parts, and
--                  Shutdown `build_signed_user_ops_tx`, which may drop it at any awaited call. Stage has
--                  what the calls have brought so far, and which call may come next. Accepts has
--                  which requests succeed in a steady world, part by part, which operation of a
--                  batch is reported, how the two modes compare, and how a broadcast ends.
--                  Bundler/Concurrent has the requests in flight at the same time.
--   Rpc            rpc.rs: the method of the server, its error objects, its replies, and which requests
--                  it refuses at once (Refused).
--   Discovery      discovery.rs: what the server tells wallets.
--   Startup        bin/ethera-bundler/src: the probes of startup.rs (`probe`), and main.rs up to
--                  the server (`prepare_server`); what it advertises, and what it signs.
--                  Startup/Main has main.rs from there to its end (`main`): the merged methods, the
--                  socket, the interrupt, and the stop.
--   Tests          concrete inputs at which the theorems apply.
--
-- How it corresponds. A function keeps its name, but where a call of a trait has it: `serve` has the
-- methods of `AlloyProvider`, `await_receipt` is its `wait_for_receipt`, `local_sign_eip1559` that of
-- `LocalSigner`. A part of a long function is a definition named for what it does. `?` is `>>=` on
-- `Result`; a panic (a slice out of range, `expect` on `None`) is the value `panic`. An
-- `await` on the provider, the signer, the clock or the lock is a `Call`. The guard of `submit_lock`
-- is `locked`: the lock is freed however its body ends. Integers are native numbers with the
-- operations of their width written out: saturation by `Uint`, the wrap of the gas margin by
-- `% 2 ^ 64`. The loop over the operations is recursion on the list. The loop of
-- `wait_for_receipt` has as fuel the turns in which its sleeps, of 200 ms at least, use up the
-- timeout, and two more, which are enough by a theorem. In Alloy/Native 256 digits and 32 bytes are
-- enough for every `U256`.
--
-- Concurrent requests are programs with their logs, and a step gives one of them the answer to its
-- next call, which takes effect then. The lock is given to one at a time. What the steps assume of
-- the node: its pending nonce is above the nonces of the transactions that it has accepted; of the
-- signer: its bytes encode the nonce. A broadcast that ends in an error may be accepted or not. The
-- account sends no other transactions.
--
-- A steady world gives a call the same answer whenever it is made. A request makes no call twice but
-- the query for a sponsor's deposit and those about equal operations, so that only there the node
-- must not change during the request.
--
-- Assumptions. Answers of the node are in the ranges of their Rust types; the configured minimum
-- fee and the fields of an operation likewise. The custom errors' selectors have four bytes and
-- differ, where decoding is concerned. The overflow checks and `debug_assert_eq` of a debug build
-- are not modelled: the definitions are those of the release build.
--
-- Not modelled: the CORS layer, the log and the command line of `main`, and how `jsonrpsee` reads
-- the two positional parameters of its method out of a request. The codecs and macros of serde,
-- jsonrpsee and `sol!`, the socket and the interrupt are the work of libraries, and where the code
-- uses their results they are parameters (`Abi`, `SimulationsAbi`, `ErrorObjects`, `PrivateKeys`,
-- `Outside`, `Format`, `Serde`, `RpcModules`, `Host`). Of a refused JSON object only the refusal is
-- modelled, not the message. The overflow of an instant in `wait_for_receipt`, which needs a
-- timeout of centuries, is left out.
pub mod Base
pub mod Alloy
pub mod Contracts
pub mod Types
pub mod Packing
pub mod Provider
pub mod Signer
pub mod Program
pub mod Validator
pub mod Errors
pub mod Config
pub mod Bundler
pub mod Tests
pub mod Rpc
pub mod Discovery
pub mod Startup
