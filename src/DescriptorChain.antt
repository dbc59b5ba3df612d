-- ===== src/DescriptorChain.antt =====
-- src/descriptor_utils.rs: the buffers of a descriptor chain, read and written in their order.
pub mod Consumer
pub mod Reader
pub mod Flat
pub mod Refinement
pub mod Agreement
pub mod ZeroCopy
mod Tests
