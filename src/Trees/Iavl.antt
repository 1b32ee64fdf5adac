-- ===== src/Trees/Iavl.antt =====
-- trees/src/iavl: nodes and their encoding, the node store, the tree's operations.
pub mod Node
pub mod NodeDb
pub mod Rotate
pub mod Set
pub mod Shape
pub mod Get
pub mod RotateLaws
pub mod UpdateLaws
pub mod SetLaws
pub mod Balance
pub mod Append
pub mod AppendTurn
pub mod Ascending
pub mod Tree
pub mod Range
pub mod RangeBounds
pub mod RangeLaws
pub mod TreeLaws
pub mod Heights
pub mod Contents
pub mod Save
pub mod Stored
pub mod SaveLaws
pub mod Faults
