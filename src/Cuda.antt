-- ===== src/Cuda.antt =====
-- src/cuda: the code that runs on the card, and what launches it.
pub mod DeviceKeccak
pub mod SearchHash
pub mod SearchKernel
pub mod DagKernel
pub mod DeviceState
pub mod DeviceManager
pub mod Callback
