-- ===== src/Lib.antt =====
-- Doge SDK: the state of a chain, from the database up to the store of a module.
--
-- The parts and how they interact:
--   Database   database/src: the trait `Database` as a record over an explicit store state, `MemDB`
--              (Database/Memory) with the end bound of its prefix scan (Database/Bound), and
--              `PrefixDB` (Database/Prefix), a view of one shared database.
--   Trees      trees/src: the IAVL tree that keeps the versions of a store in a database.
--              Trees/Iavl/Node has the nodes, their hash and their bytes, NodeDb the nodes and roots
--              by key in the database, Rotate the two rotations with the loading of children, Set
--              `recursive_get` and `recursive_set`, Tree the `Tree` with its versions. Shape is the
--              abstract view: a tree with every child present, whose entries are a sorted map.
--              Get, RotateLaws, UpdateLaws and SetLaws relate the code to it; Balance, Append,
--              AppendTurn, Ascending and TreeLaws follow keys written in ascending order, Heights has the
--              heights and sizes that they leave; Faults has the writes that panic.
--              Save has the nodes that a save writes, Stored what the database holds after it, and
--              SaveLaws the tree that is read back.
--              Contents is the map that a tree stands for, empty or not.
--              Range is `Tree::range` with its iterator (RangeBounds, RangeLaws).
--              Trees/Merkle is trees/src/merkle.rs, whose recursion takes fuel: one more than the
--              number of items is enough (Trees/Merkle/Split).
--   Store      store/src/store.rs: `KVStore` with the caches of the transaction and of the block
--              over the tree, and the prefix stores. Reads has what a read gives, Range and
--              RangeLaws what a scan yields, Subspace the writes through one prefix store.
--              KvStore/Writes has what a commit does to the database of one store, KvStore/Commit
--              what it does to the reads, over KvStore/View, and what a store reads that is opened
--              on what it left. MultiStore has the loops of `MultiStore` over the transaction caches, MultiStore/Commit its
--              opening and its commit: the `Arc` of the database is one state, which each store
--              sees through its name as a prefix and which the loops pass from one store to the
--              next. MultiStore/Isolation is about that. Hash is store/src/hash.rs.
--   Messages   proto-messages/src and proto-types/src: addresses, keys, accounts with their bytes, and
--              transactions with their signers (Tx), `MsgSend`, coins and denominations (Coin,
--              CoinText), fees and tips (Fee). Tx/Raw converts a transaction from and to its
--              generated types, Tx/Decoded is about what it reads, and Tx/FromBytes reads it from
--              bytes. Messages/Crates has the crates that they call.
--   Auth       x/auth/src: the auth keeper over its store (Keeper, with what a write changes in
--              Keeper/Accounts and the numbers of the accounts in Keeper/Numbers), its parameters
--              (Params), and the module accounts of gears/src/x/auth/auth.rs (Module).
--   Bank       x/bank/src/keeper.rs and coin.rs of proto-messages/src/cosmos/base/v1beta1: `SendCoins`
--              (Bank/Coin) and `send_coins` over the store (Bank/Keeper), whose loop body is split in
--              reads and writes of balances (Cells), what one turn does (Transfer, Payment), the
--              conservation of coins (Conservation) and when it returns (Returns). Accounts has
--              the calls that use the auth keeper too, Queries the queries and the supply, Message
--              the message of x/bank/src/message.rs, Params the parameters, and Genesis the genesis,
--              whose supply Genesis/Supply is about.
--   Ante       gears/src/baseapp/ante.rs: the handlers that a transaction passes before its messages
--              run, over two keepers that are interfaces. Keepers says what the handlers rely on in
--              them, Stores fills them with the keepers of Auth and Bank, Refinement relates the
--              two. Sequences, Increment, Passed, Replay and Leaves are about the handlers. The
--              files named Pending, here and in Store, Auth and Bank, are about what a keeper's
--              write changes in its stores.
--   App        gears/src/baseapp/baseapp.rs: `run_tx` over Store/MultiStore, with the application's
--              handlers as an interface (App.Handlers) that may panic, and the calls of Tendermint
--              (App/Calls) with the states that they lead to, in any order (Step, Reach). Atomic and
--              Failed are about `run_tx`, Sync and Reach about the states, Refused about the
--              transactions that are refused before the ante handler. ConsensusParams is gears/src/baseapp/params.rs.
--   Gaia       gaia-rs/src: the store keys (StoreKeys), and the handlers of the example chain, with
--              the ante handler, on the stores of the application (Handler). A `PrefixDB` is there
--              the database with its prefix. Chain has the genesis, and the chain as App takes it;
--              with Pending it fills what App asks of a chain. Query has the queries, with the
--              handlers of x/auth/src/handler.rs and x/bank/src/handler.rs, Paths is the
--              table of the paths, and Balances follows one query from its bytes to the bytes of
--              the response.
--   Base       bytes in their order, `BTreeMap` as a sorted list, lists, Boolean tests, decimal
--              numerals (Decimal), and results without panics (Tried).
--   Tests      the theorems at concrete inputs, and runs.
--
-- Stateful code passes its state explicitly: a method that takes `&mut self` returns the new
-- record. Errors and panics are the constructors of `Outcome` (Trees/Outcome): `err` is a `Result`,
-- `panic` an `expect`, an `unwrap` or a slice out of range. `recursive_get` and `recursive_set`
-- follow hashes into the database, so they take fuel, one unit for each level; a tree of fewer than
-- 2 ^ 127 keys that is in balance has fewer than 256 levels. A `u8` height and a `u32` size wrap as
-- in a release build. The range of a tree takes fuel for the nodes that it visits, two more than
-- the tree has; a range ends when its caller stops asking, so it is modelled by all that it yields.
-- The crates sha2 and integer_encoding are parameters (Trees/External); the round trip of a node
-- assumes that an encoded number is read back. The protobuf encoding of a coin is one more
-- (Bank/Keeper.CoinCodec). Messages/Crates.Crates has bech32, secp256k1, ripemd, the protobuf
-- encodings and the generated types with the fields that the program reads;
-- Messages/Crates.IsLawful states that what is encoded is decoded again, and the ranges of what is
-- decoded. An error keeps its constructor and not its text, where the text is only printed.
--
-- The nodes of a tree are stored under their hashes. That what is saved is read back assumes that no
-- two nodes of the tree and its database that differ have one hash (Trees/Iavl/Save.IsAddressed):
-- a function says which bytes belong under a hash.
--
-- Not modelled: the exchange of states with peers; the RocksDB binding, the network, the
-- conversions of Tendermint messages, the client, the command line and REST, which are input and
-- output or copy fields; the decimal numbers of proto-types/src/decimal256.rs, which nothing here
-- calls. How the example chain reads a transaction is given to it: reading a message of the bank can
-- panic (Bank/Message), which Tx/FromBytes, for messages that are read without one, does not cover.
pub mod Base
pub mod Database
pub mod Trees
pub mod Store
pub mod Bank
pub mod Messages
pub mod Auth
pub mod Ante
pub mod App
pub mod Gaia
pub mod Tests
