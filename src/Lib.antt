-- ===== src/Lib.antt =====
-- The software of the beam position monitor: the firmware of the LM32 soft core of the FPGA in
-- history/embedded-sw, which finds the Wishbone devices of the chip and drives them, and the kernel
-- driver of the PCIe board in history/sw/drivers/pcie.
--
-- How the parts interact. The firmware searches the bus ROM for each kind of device (Sdb) and keeps
-- a list of the devices found. Each driver's init function walks its list and fills an array of base
-- addresses (Init, and spi_init in Spi). The drivers then read and write registers at these
-- addresses (Bus) and poll status bits. The Etherbone responder is fed with frames by the Ethernet MAC
-- driver. The PCIe driver is a program of its own, on the host; user programs call it through the C
-- library in history/sw/lib/pcie.
--
-- The files, and the code that each is about:
--   Base: names that the other files share; Base/Bits has the lemmas on bit masks, Base/Lists those on
--     lists and arrays, Base/Int the `int` results. They model no code.
--   Sdb: history/embedded-sw/dev/sdb.c, `sdb_find_devices` and the searches under it. The ROM is a
--     parameter, a function from the address of a table to its records. The recursion into bridges has
--     fuel, one unit for each level; `Nested` says that the tables are nested at most so deep, and then
--     the fuel is enough (Sdb/Depth). The nodes that the C code links by pointers are a store of nodes
--     numbered in the order of allocation, and a pointer to a pointer is a `Slot`. Sdb/Walk has the
--     specifications on lists, Sdb/Refine the proof that the pointers follow them.
--   Init: the init functions in history/embedded-sw/dev (gpio, dma, timer, ethmac_adapt, uart, onewire,
--     i2c). `none` is an access through a null pointer.
--   Bus: reads and writes of registers, which are a parameter, and the polling loops. A loop has fuel,
--     and `Settles` says that the polled bit is clear after so many reads.
--   Onewire, I2c, Spi, Uart: dev/onewire.c, dev/i2c.c, dev/spi.c, dev/uart.c. The functions have the
--     names of the code; the handle `owr[id]` and its like is the argument `a`. What a core does is a
--     record of laws (`Core`, `Transmitter`) that the results take as an argument, and each has an
--     instance in the tests.
--   Firmware: dbe_main.c, the main program. Firmware/Start has `dbe_init`, which searches the devices and
--     starts the drivers with the init functions of Init, Ethmac and Interrupts; Firmware has the tests of
--     the LEDs and buttons, and Firmware/Panel and Firmware/Buttons are about them.
--   Gpio, Dma: dev/gpio.c, dev/dma.c and dev/ethmac_adapt.c, the accesses to the registers.
--   Timer: dev/timer.c, the delay, with the counter as a record of laws (`Counter`): a read takes a cycle
--     of the clock at least, and a tick is any number of cycles.
--   Fmc516: fmc/fmc516/fmc516.c, the registers of the ADC board (`Registers` is their contract), and
--     Fmc516/Boards its `fmc516_init`. Fmc516/Isla: fmc/fmc516/isla216p25.c and lmk02000.c, the chips of
--     the board, over the three-wire transfers of Spi/ThreeMode; Fmc516/Isla/Bytes is about what is read
--     from an ADC chip.
--   Fmc150: fmc/fmc150/fmc150.c, the other ADC board; Fmc150/Chip is the contract of its core and clock
--     chip, and Fmc150/Load is about `init_cdce72010`.
--   Etherbone: lib/ethmac/etherbone.c. A buffer is a function from offsets to bytes, and `none` is a
--     copy that leaves its array. The Etherbone core is a function on the body of the packet.
--     Etherbone/Answer goes from the request that is received to the Ethernet MAC driver.
--   Ethmac: lib/ethmac/ethmac.c, the rings of buffer descriptors, which Ethmac/Steps puts together with
--     the core: `Step` has a constructor for each operation of the firmware and for what the core may do,
--     and `Reach` is any sequence of them. `tx_packet` is one step from the end of its loop on, since the
--     core leaves a descriptor alone that is not ready, and so does the interrupt handler.
--     Ethmac/Frames has the invariant, Ethmac/Sending and Ethmac/Waiting are about `tx_packet`,
--     Ethmac/Receiving about `oeth_check_rx_bd` and `rx_packet`, and Ethmac/Registers has the registers,
--     `ethmac_init` and the whole of `ethmac_setup`.
--   Util: dev/util.c, the calendar of `format_time` with fuel for the years, `memcpy` and `memcmp`.
--   Mprintf: lib/mprintf.c, from a format and its arguments to the bytes that are printed. The loop has one
--     round for each character, and a number 32 divisions, which Mprintf/Digits shows to be enough.
--     Mprintf/Pieces and Mprintf/Printing are about `vprintf`, Mprintf/Formats compares it with
--     `_p_vsprintf`.
--   Interrupts: lib/int.c, the table of interrupt handlers. The control registers of the LM32 are a `Bus`.
--   Pcie/Umem: history/sw/drivers/pcie/src/umem.c, the scatter-gather lists of user memory, and
--     Pcie/Umem/Pages the split of a buffer into pages in `pcidriver_umem_sgmap`. Pcie/Umem/Sgmap has
--     `pcidriver_umem_sgmap` and `pcidriver_umem_sgunmap`, with a count of what they hold of the kernel,
--     which Pcie/Umem/Release is about.
--   Pcie/Kmem: history/sw/drivers/pcie/src/kmem.c, the kernel buffers. What the kernel gives to a call
--     is an argument of the call.
--   Pcie/Ioctl: history/sw/drivers/pcie/src/ioctl.c and int.c, the calls of a user program, over Umem and
--     Kmem, and the interrupt handler. Pcie/Ioctl/Leaks and Pcie/Ioctl/Waiting are about two of the calls.
--   Pcie/Bars: int.c, the set-up of BARs and interrupt with a record of what the kernel has given, and the
--     mmap calls of base.c. Pcie/Device: base.c, `pcidriver_probe`, which uses Bars, and
--     `pcidriver_remove`, which uses Bars and Kmem; Pcie/Device/Lifetime is about sequences of the two, and
--     Pcie/Device/Ends about the ways in which a probe ends.
--     Pcie/Device/Loading: `pcidriver_init` and `pcidriver_exit`, and the open and release of a file.
--     Pcie/Config: ioctl.c, the calls on the configuration space, and the dispatch `pcidriver_ioctl`.
--     Pcie/Client: history/sw/lib/pcie/pciDriver_Capi.c, the C library of user programs, which calls the
--     operations of Pcie/Ioctl, Pcie/Config and Pcie/Bars; the files under it are about its functions, and
--     Pcie/Client/Session about any sequence of those that change the state and return.
--     Pcie/Modes: the calls of Pcie/Ioctl in any order, with the mmap calls of Pcie/Bars after them.
--
-- Machine words are natural numbers with the wrap-around written out. Not modelled: the allocator
-- `memmgr` (each call gives fresh memory), lwip, pp_printf and the C library, which are other projects'
-- code; debug prints; the FPGA logic; the locks, page marks and attributes in the PCIe driver; the C++
-- library over it; and the remaining parts of the firmware: the polled
-- responder in lib/arp.c, ipv4.c and icmp.c, the main loop of dbe_main.c, and the other main programs.
pub mod Base
pub mod Bus
pub mod Dma
pub mod Etherbone
pub mod Ethmac
pub mod Firmware
pub mod Fmc150
pub mod Fmc516
pub mod Gpio
pub mod I2c
pub mod Init
pub mod Interrupts
pub mod Mprintf
pub mod Onewire
pub mod Pcie
pub mod Sdb
pub mod Spi
pub mod Timer
pub mod Uart
pub mod Util
