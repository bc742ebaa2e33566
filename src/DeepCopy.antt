-- ===== src/DeepCopy.antt =====
-- api/v1alpha1/zz_generated.deepcopy.go, over the structs of noplanecontrolplane_types.go and
-- noplanecontrolplanetemplate_types.go as they are in memory.
pub mod Memory
pub mod Copies
pub mod Kinds
pub mod Pieces
pub mod Conditions
pub mod Structs
pub mod Objects
pub mod Lists
pub mod ListCopies
pub mod Independence
