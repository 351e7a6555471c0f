-- ===== src/Chain.antt =====
-- src/scarletcoin/core/chain.py: what the chain does with a block that joins or leaves the active
-- branch. `Index` updates the transaction index, and `Connect` and `Disconnect` are the two
-- directions; `Retarget` computes the target of a new block and `Context` checks the block against its
-- parent. Choosing the branch, the header chain and pruning are not modelled.
pub mod Index
pub mod Retarget
pub mod Context
pub mod Ancestors
pub mod Window
pub mod Connect
pub mod Disconnect
pub mod Shows
pub mod Steps
pub mod Supply
pub mod Undoing
pub mod Restore
pub mod Reorg
pub mod MoneyCap
