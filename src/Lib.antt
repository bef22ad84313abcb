-- ===== src/Lib.antt =====
-- BetterCallChain, a proof-of-stake blockchain with unspent outputs: the core library, the node and the
-- wallet.
--
-- A node keeps a chain of blocks, the map of unspent outputs and the table of validators behind the
-- store traits, and a mempool of transactions that wait for a block. A transaction enters the mempool
-- after validation against the unspent outputs; a block is validated against its parent, the elected
-- proposer and the unspent outputs, and is then applied to the store, from which it can be rolled back.
--
-- Files, with the paths from the repository's root:
--   Core/Types.antt            crates/bcc-core/src/types: structs as records, enums as data types
--   Core/Crypto.antt           crates/bcc-core/src/crypto, over a parameter `Crypto`
--   Core/Address.antt          crates/bcc-core/src/types/address.rs: from_pubkey_bytes, validate
--   Core/Merkle.antt           crates/bcc-core/src/types/block.rs and transaction.rs: hash,
--                              compute_merkle_root
--   Core/Election.antt         crates/bcc-core/src/consensus/pos.rs: elect_proposer
--   Core/Validation            crates/bcc-core/src/validation: validate_transaction (Transactions),
--                              validate_block (Blocks)
--   Core/Utxo.antt             the loops of apply_block and rollback_block of
--                              crates/bcc-core/src/store/memory.rs on the unspent outputs
--   Core/Memory.antt           crates/bcc-core/src/store/memory.rs: the other operations of MemoryStore;
--                              `insert` is insert_block, and the three methods `get` are get_by_height
--                              and get_by_hash, get_output, get_validator
--   Node/Mempool.antt          crates/bcc-node/src/mempool.rs: add, remove (remove_hashes), drain
--   Node/State.antt            crates/bcc-node/src/state.rs: NodeState, PeerSet, reorg_block, and the messages of
--                              p2p/protocol.rs; `Stores` is bcc-core's three store traits over one
--                              storage, and `memory` is MemoryStore behind them
--   Node/Handler.antt          crates/bcc-node/src/p2p/handler.rs: dispatch, by on_new_block (extend, fork,
--                              adopt, swap_tip, commit), on_new_tx and on_get_blocks; the block that
--                              run_peer sends on connecting (greeting)
--   Node/Ticker.antt           crates/bcc-node/src/slot_ticker.rs: one iteration of run_slot_ticker (tick, on_slot,
--                              on_elected), propose_block (build_block, announce)
--   Node/Sync.antt             crates/bcc-node/src/ibd.rs: a batch of downloaded blocks (apply_batch, apply_one,
--                              check_block); run_ibd itself, with its loops as steps on the record
--                              of its variables, is in Sync/Download
--   Node/Sled.antt             crates/bcc-node/src/storage/sled_store.rs: SledStore, its keys and encoding;
--                              the BlockStore methods are in Sled/Chain, those of UtxoStore in
--                              Sled/Outputs and Sled/Rollback, the rest in Sled/Registry
--   Node/Genesis.antt          crates/bcc-node/src/genesis.rs: apply_genesis (allocate, seed, register),
--                              build_genesis_block
--   Node/Config.antt           crates/bcc-node/src/config.rs: from_raw
--   Node/Clock.antt            the time stamps of crates/bcc-node/src/debug_event.rs: format_ts,
--                              epoch_to_ymd (year_loop, month_loop)
--   Node/Api.antt              crates/bcc-node/src/api.rs: route (route_of, serve) and the handlers; an answer is
--                              its status, reason and body before they are written
--   Node/Errors.antt           crates/bcc-node/src/error.rs
--   Node/IndexMap.antt         what the mempool uses of the third-party crate `indexmap`
--   Client/Wallet.antt         crates/bcc-client/src/wallet.rs: select_coins (pick), build_transfer (inputs_of,
--                              outputs_for, sign_all), with the UtxoItem of rpc.rs
--   Client/Keystore.antt       crates/bcc-client/src/keystore.rs: create (sealed, save), load_and_decrypt (opened,
--                              unlock), read_address, derive_key
--   Client/Split.antt          crates/bcc-client/src/split.rs: split_utxo by its rounds (build_all, submit)
--   Client/Rpc.antt            crates/bcc-client/src/rpc.rs: RpcClient's requests and check_response
--   Client/Commands.antt       crates/bcc-client/src/cli.rs: run and the commands
--   Client/Errors.antt         crates/bcc-client/src/error.rs
--   Prelude                    tests, lists, results, maps and words that the other files share
--   Tests                      concrete parameters and the theorems at concrete inputs
-- The other children of a file hold its theorems.
--
-- A byte string is the list of its bytes. A u64 is a native number, with the wrap-around of a release
-- build written out in sums and products; an i64 is an integer that the operations bring back into its
-- range. A method that changes a store takes the store and returns it. Error texts and log lines are
-- left out, and so are poisoned locks.
--
-- The crates sha2, ed25519_dalek, hex and serde_json are the fields of the record `Crypto`. The theorems
-- that rely on what they document take it as `CryptoLaws`: digests of 32 bytes, two lowercase digits
-- for a byte, decoding that inverts encoding, signatures that verify. Nothing is assumed of the hash
-- beyond that; where a theorem rests on it, a collision is one of its outcomes. `IndexMap` is a
-- parameter with the laws of a map. A HashMap of the standard library is an association list, a
-- BTreeMap one in the order of its keys.
--
-- The loop of the Merkle root runs on the number of leaves as fuel: each round at least halves the
-- layer, rounded up, so the loop ends by its own test. The loop over the years of a date runs on the
-- number of days divided by 365, which no year falls short of. The digits of a number run on its
-- successor. The download of blocks and the splitting of outputs run on fuel, one unit for each
-- round, with theorems on how much is enough.
--
-- The database sled is the parameter `Sled`: a tree is a value, and each operation may fail. `SledLaws`
-- says what a successful operation does to the content of a tree, and what a failure tells is a
-- parameter: with the empty type for it, the theorems are about a database that never fails, and the
-- operations answer. serde_json is the parameter `Json`, with the law that what is written is read back.
-- The order in which a tree is walked is left open.
--
-- What the network brings to a download, and what the node answers to a client, is a parameter that
-- may differ in every round. The ciphers and the files of the keystore are the parameters `Vault` and
-- `Disk` with laws: decryption inverts encryption, and a renaming replaces its target as a whole or
-- leaves it. What is drawn at random is an argument. Prompts, folders and TOML are the parameter `Desk`,
-- and the HTTP client is `Http`.
--
-- A message handler takes the node's state and returns it with the list of the messages that it tries to
-- send and its result; where a write fails, the state after the write is what it leaves. The storage
-- of a node is a parameter of the handler, since a node may run on any implementation of the traits.
--
-- Not modelled: sockets, timers, the parsing of the command line, the tasks that hold the connections of
-- a node (run_peer but for its first message, run_server, run_connector) and its main function, and the visualizer.
pub mod Prelude
pub mod Core
pub mod Node
pub mod Client
pub mod Tests
