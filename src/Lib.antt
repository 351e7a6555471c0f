-- ===== src/Lib.antt =====
-- A model of the consensus core of ScarletCoin, a proof-of-work coin in Python.
--
-- A node keeps an index of blocks and a table of unspent coins. A block arrives as bytes, is parsed,
-- checked on its own, and, if its branch becomes the active one, connected: its transactions are
-- validated one after another against an overlay of the coin table, and the overlay is then written
-- back with the data that undoes it. Each part has its module:
-- - Prelude and Outcome: lists, native numbers, byte strings, and Python's exceptions as values.
-- - Serialize: src/scarletcoin/core/serialize.py. A `Writer` chain is the bytes written or the
--   exception raised, and a `Reader` method takes the bytes left and returns those left after it.
-- - Crypto: src/scarletcoin/crypto/hashing.py and the part of src/scarletcoin/crypto/keys.py that
--   consensus uses. SHA-256 and the curve are the fields of a record that the other modules take.
-- - Transaction (with Codec, Signing): src/scarletcoin/core/transaction.py; Coinbase:
--   src/scarletcoin/core/coinbase.py; Params: src/scarletcoin/core/params.py.
-- - Utxo: src/scarletcoin/core/utxo.py, the overlay, and the coin table of the storage.
-- - Script: src/scarletcoin/core/script.py. Validation: src/scarletcoin/core/validation.py.
-- - Pow: src/scarletcoin/core/pow.py. AuxPow: src/scarletcoin/core/auxpow.py, merged mining.
-- - Block: src/scarletcoin/core/block.py. Storage: the tables of src/scarletcoin/core/storage.py that
--   connecting and disconnecting a block read and write.
-- - Mempool: src/scarletcoin/core/mempool.py, the pool of unconfirmed transactions. A call that may
--   raise after a change gives its result and the pool; Mempool.History runs the calls in any order.
-- - Builder: src/scarletcoin/wallet/builder.py, the choice of coins and the transactions of a wallet.
-- - Chain: src/scarletcoin/core/chain.py: `_connect_block`, `_disconnect_block` and `_index_block`,
--   the target of the next block (Chain.Retarget), and the check of a block against its parent
--   (Chain.Context), which read an index of all known blocks.
-- - Tests: a toy signature scheme, small blocks, and the results at concrete inputs.
--
-- Functions keep the names of the source without a leading underscore. An exception is an `err` of
-- `Outcome.Error`; what the source catches, the model catches. A loop that consumes its input is
-- recursion on it. Ten loops run on fuel: decoding a script on its length, since each round
-- consumes a byte; the levels of a Merkle tree on the number of ids, since each level is shorter;
-- the digits of a target and the height of an auxiliary tree on the number itself, which each round
-- divides; `remove` of the pool on the entries and their outputs, since each round takes an item
-- off the stack or an entry out of the pool; `collect` on the number of candidates, of which each
-- round but the last selects one; the walk back along a branch and the search for the start of a
-- window on a height, which each block on the way back lowers; the search for the number of inputs
-- of a sweep on the width of its range, which each round makes smaller; and the batches of a sweep
-- on the number of coins, of which each takes one at least. Fee rates are floats in the source: the
-- quotient is a parameter of the pool's functions. Heights, values and sizes are native numbers:
-- the upper bounds that the source checks are kept, and its tests for a negative value are left
-- out, except where an integer is the argument (`select_coins`, the times and the work of
-- retargeting).
--
-- Not modelled: `Reader.offset`, strings and signed integers of the serialiser, JSON views, the
-- database engine with its caches, migrations and statistics, the choice of the best branch,
-- the chain of headers, pruning of blocks, block templates, the estimate of the fee
-- rate, key storage and derivation, the network, the miner, the pool and the graphical programs.
pub mod Prelude
pub mod Outcome
pub mod Serialize
pub mod Crypto
pub mod Transaction
pub mod Coinbase
pub mod Params
pub mod Utxo
pub mod Script
pub mod Validation
pub mod Pow
pub mod AuxPow
pub mod Block
pub mod Mempool
pub mod Builder
pub mod Storage
pub mod Chain
pub mod Tests
