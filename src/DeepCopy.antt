-- ===== src/DeepCopy.antt =====
-- api/v1alpha1/zz_generated.deepcopy.go: the copies of the resources in Go's memory, where a
-- resource holds pointers and slices.
pub mod Structs
pub mod Memory
pub mod Generated
pub mod Shape
pub mod Independent
pub mod Parts
