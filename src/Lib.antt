-- ===== src/Lib.antt =====
-- RepVGG-Acc: a RISC-V SoC (HummingBird E203) with an accelerator for RepVGG convolutions. This
-- library models the C code that runs on it: the drivers of the hbirdv2 SoC, its trap handling, and
-- the program that tests the accelerator; and the Verilog code of the accelerator.
--
-- Parts and files (paths of the repository; the C code of the SoC is in
-- hbird-sdk/SoC/hbirdv2/Common):
--   App: hbird-sdk/application/baremetal/acc/main.c. App.Gen is gen_imap, gen_w3 and gen_w1, App.Check
--   is check_result, and App.Check.Spec is the convolution that it stands for.
--   Acc: Source/Drivers/hbirdv2_acc_cfg.c. Acc.Slave is the register file rtl/acc/icb_slave.v,
--   Acc.Fsm the state machine rtl/acc/main_fsm.v and what repvgg_acc_top.v connects to it.
--   Mac: the data path of the accelerator, rtl/acc. Mac itself is the element basic_pe.v, Mac.Array
--     systolic_array.v, Mac.Tree the adder trees, Mac.Core mac_array_core.v, Mac.Control
--     mac_array_fsm.v, and Mac.Unit mac_array.v, which puts them together with mac_array_wlu.v.
--     Mac.Accumulate is psum_acc.v, Mac.Merge map_merger.v, Mac.Weights weight_biu.v, Mac.Load
--     imap_biu.v with imap_buf.v, Mac.Output omap_biu.v behind the merger, and Mac.Arbiter
--     icb_master.v. Mac.Spec is the
--     convolution that the array stands for.
--   Trap: Source/system_hbirdv2.c, the handler tables and core_trap_handler. Trap.Spec is what they
--     promise, with functions for tables.
--   Uart: Source/Drivers/hbirdv2_uart.c. Uart.Device is rtl/e203/perips/apb_uart/apb_uart.v with its
--   FIFOs.
--   Stubs: the functions under Source/Stubs that newlib calls, `stub_write` for `_write` and so on.
--     Output and input are over the UART; Stubs.Refusal has the stubs that refuse.
--   Timer: Source/hbirdv2_common.c, delay_1ms and the measurement of the clock.
--   Spi, I2c, Pwm, Gpio: hbirdv2_spi.c, hbirdv2_i2c.c, hbirdv2_pwm.c and hbirdv2_gpio.c of
--     Source/Drivers. Gpio.Device and Pwm.Device are the registers of apb_gpio.v and
--     adv_timer_apb_if.v in rtl/e203/perips. Spi.Fifo has an interface of a transmit FIFO, which the properties of
--     `spi_write_fifo` take.
--   Spinlock: Include/riscv_atomic.h. A function is cut at its accesses, and Spinlock.System lets any
--     number of harts run, each making a step at a time.
--   Hbird: the UART and GPIO drivers of the older chip, hbird-sdk/SoC/hbird/Common/Source/Drivers.
--   Demo: hbird-sdk/application/baremetal/demo_plic/main.c, over Gpio.
--   Machine: volatile accesses on a bus, waiting loops, undefined accesses. Bits: the bits of words.
--   Base: what the library of the proof checker gives, arrays, words, integers and loops.
--
-- How the code corresponds: a function of C is a program `Prog D A`, from the state of the hardware
-- (or of the global variables) to an `Outcome`: `done` with the result and the new state, `spinning`
-- when a waiting loop is still waiting, `fault` on an access out of an array. A volatile access is a
-- `load` or `store` of a `Bus`, a parameter of each driver; the properties take a memory, or the
-- registers of the device as the hardware description gives them. A pointer is an `Option ℕ`, `none`
-- for NULL. An int32_t result of -1 is 2 ^ 32 - 1. A name of C is a name here, in lower case.
--
-- A unit of the hardware is a record of its registers and a function for one clock edge, which takes
-- the inputs of that cycle; a wire is a function of the registers and the inputs. The lines of a bus
-- that carries one signal for each channel or element are a function of the index. A signed wire is an
-- integer, kept in its width by `wrap`.
--
-- Bounds and fuel: a word wraps around at 2 ^ 32 where the code's arithmetic can. The loops on a
-- status register take fuel, one unit for each load; one more unit than the device needs is enough
-- (`limit < fuel` in the properties). The loops of Timer take one unit for each round, and as many as
-- the ticks have cycles are enough, as a round takes at least a cycle. Every other loop counts up to a
-- constant.
--
-- Not modelled: the operating systems, the NMSIS library and the benchmarks under hbird-sdk, which
-- are copies of other projects; the calls that the trap code makes of NMSIS are events of a log. The
-- output of printf, the start-up assembly and the simulators' htif.c are left out. The memory behind
-- the bus of the accelerator, what the arbiter answers to each of its units, the words that the
-- array is given, the units that the main state machine waits for, the serial line behind the UART,
-- and the constants of newlib are parameters, with what they may do between two accesses as
-- hypotheses. The runs of the array are those in which the next unit does not stall it. An access to
-- the accelerator is one clock edge, and the lock word of a spin lock is sequentially consistent
-- memory, in which a fence does nothing.
pub mod Base
pub mod Bits
pub mod Machine
pub mod Gpio
pub mod Uart
pub mod Trap
pub mod Acc
pub mod App
pub mod Stubs
pub mod Spi
pub mod I2c
pub mod Timer
pub mod Pwm
pub mod Hbird
pub mod Spinlock
pub mod Demo
pub mod Mac
