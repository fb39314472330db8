-- ===== src/Lib.antt =====
-- The program linux_uart talks from a Linux host to the MCU of a rearview camera: registers of the
-- MCU are read and written over SPI, with a handshake on a serial line, and ring buffers and a
-- firmware update are built on those registers. This library models the C code under src/ of the
-- repository, and proves what makes it correct.
--
-- Base        numbers, C's int, lists, bit operations: what the other modules share.
-- Crc         src/general/crc_check.c: `crc16`. Serial has the bit-serial reference, Detect what the CRC
--             detects.
-- MemCtrl     src/general/inc/memctrl.h: byte order in memory, on a little-endian machine,
--             and the macros of the header for either byte order (Order).
-- Os          the calls of the kernel and of libc, as an interface `Os W` over a state `W` of the
--             machine; nothing of it is code of the repository, so every theorem holds for all its
--             answers unless it says what it needs. Audit watches another interface: who holds the
--             locks, which descriptors are open, how often a rule was broken; Wire keeps what is
--             sent. Scripted is a machine for tests.
-- Uart        src/general/pp_uart.c: uart_Open, uart_Write, uart_Read and the rest. The loop of
--             uart_Read runs on fuel, one unit for every byte that is wanted: a round that goes on
--             has read a byte, so this is enough.
-- SpiReg      src/spi_reg.c: SpiReg_Read and SpiReg_Write as chains of steps that may jump to the label
--             `out`, with the value of `ret`; Lifecycle has SpiReg_Init and SpiReg_Exit. The handle
--             is a record; its mutex is part of the machine. Mcu has the MCU at the other end of
--             the link as hypotheses, and what an access does to its registers (Mcu.Access); Wire is
--             about the messages that are sent, Detect about damaged data.
-- RegWrCb     src/regwr_cb.c: ring buffers of the MCU behind registers. The function pointers of the
--             handle are a record of functions. Ring says what the registers are documented to do,
--             and that the calls are those of a bounded queue; Granular is about whole elements.
--             Simulated carries the calls from one bus of registers to another that behaves alike,
--             Sure is about a bus on which no access fails.
-- RvMcu       src/rearview_mcu.c: the registers of the MCU by name, the watchdog, CAN messages. Burn is
--             the firmware update, Device the board of the program. The update's loop over a block
--             runs on fuel, one unit for each byte and seven for the tries, which is enough; the
--             loops that wait for the MCU or for the end of the file give `none` when their fuel runs
--             out.
--             Bus puts the layers above each other: over a link that works, the registers behind SPI
--             are a register file (Refine), a ring buffer is a queue (Queue), blocks of CAN
--             messages are moved whole (Can), and settings are read back (Named).
-- Run         src/run.c: the commands, and src/general/inc/bits.h (Bits). Config has the commands and what
--             the command line says about them (src/include/run.h), Dispatch has `run`. Loops has
--             the commands without an end, by their state after a number of rounds, which stands
--             for fuel: theorems on them hold for every number. Tapped is a board that watches the
--             registers of the CAN messages.
--             Stress is about the test of many accesses, and runs it on the layers of RvMcu.Bus.
-- Debug       src/general/debug.c: log files, of which the oldest is removed (Oldest), their streams
--             (Files), the dump of a buffer (Dump), and src/general/inc/debug.h: the levels and the
--             macros (Levels). The calls are an interface `LogOs W`.
-- Main        src/main.c: `main`, the table of options (Options) and the checks of the arguments
--             (Args). What argparse, strtol and strtoul make of the command line is a parameter.
--
-- The Keeps modules carry what every register access leaves as it is through the calls built on the
-- registers, up to `run`; RvMcu.Device.Audit and Main.Audit use this for the locks and descriptors.
--
-- A pointer to a buffer is the list of its bytes, given to a call and returned by it. An `int` is an
-- integer, a `uint16_t` or `uint32_t` a natural number with the truncations written out.
--
-- Not modelled: src/general/argparse.c (a third-party library),
-- src/general/inc/ulist.h (a copy of the Linux kernel's, unused), src/general/md5.c (a copied snippet,
-- not built), the words that are printed, and the time column of the received CAN messages. The calls
-- of debug_printf in the other files are left out of their models, and with them the log file that a
-- message may open. An access of more than 1022 registers overruns the buffers in C, where the
-- model cuts it off: above this bound the model does not say what the program does.
pub mod Base
pub mod Crc
pub mod Os
pub mod MemCtrl
pub mod Uart
pub mod SpiReg
pub mod RegWrCb
pub mod RvMcu
pub mod Run
pub mod Debug
pub mod Main
