-- ===== src/Pcie.antt =====
-- history/sw/drivers/pcie/src: the kernel driver of the PCIe board.
pub mod Umem
pub mod Kmem
pub mod Ioctl
pub mod Bars
pub mod Device
pub mod Modes
pub mod Config
pub mod Client
