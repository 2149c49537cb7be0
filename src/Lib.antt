-- ===== src/Lib.antt =====
-- The verification library of zstage, a small RISC-V boot stage: it checks the header of its image,
-- finds a console, copies payload blobs, the device tree and the next stage to their places, and
-- jumps to the next stage.
--
-- The parts, and the files that model them:
--   Base.antt          numbers, lists, tests and integers that all parts share
--   Memory.antt        the memory, a function from addresses to bytes, and texts in it
--   CString.antt       firmware/string.c; a pointer is its address, NULL is `none`
--   Machine.antt       the state: the memory, the static variables of firmware/console.c and of the
--                      drivers, and the trace of volatile accesses and host calls, latest first;
--                      `Run` is how a function ends, `Cmd` a function on the state; children
--                      of it say what commands leave alone, down to a single byte, which return, and
--                      which choose the console
--   Console.antt       firmware/console.c up to printi, and the console device
--   Format.antt        print of firmware/console.c: its format, with Format/Print.antt for its calls
--                      and sprintf, snprintf, printf and panic
--   Fdt.antt           firmware/fdt/fdt_helper.c, with Fdt/Cells.antt for addresses
--   Serial.antt        firmware/serial: Serial/Mmio.antt (include/zstage/riscv_io.h),
--                      Serial/Node.antt (include/zstage/serial/fdt_serial.h),
--                      Serial/Uart8250.antt, Serial/Cadence.antt, Serial/Htif.antt,
--                      Serial/Semihosting.antt, Serial/Probe.antt (fdt_serial.c);
--                      Serial/Uart8250/Registers.antt is the device behind the 8250 driver, its
--                      registers as the stores of the trace leave them
--   Entry.antt         firmware/head.S: the addresses and loads of its code, the relocation of the image
--                      and the clearing of .bss, with Entry/Call.antt for the boot hart up to the
--                      call of zstage_main, from there to the jump, and both as `firmware`, with
--                      Entry/Data.antt for the header and the table of blobs as they are assembled,
--                      and Entry/Harts.antt for all harts, a step relation: the lottery, the wait
--                      of the others and their release
--   Boot.antt          firmware/main.c and platform/generic/platform.c, with Boot/Plan.antt for what
--                      a boot is to leave in memory, Boot/Lines.antt for the lines it prints, and
--                      Boot/Effect.antt, Boot/Steps.antt and Boot/Run.antt for its steps in order, and
--                      Boot/Debugger.antt and Boot/Stdout.antt for runs with a console found at the
--                      boot, Boot/Frame.antt for the bytes that no boot changes, and Boot/Checks.antt
--                      for what a boot that returns has tested
--   Examples.antt      the parts at small inputs
-- A child of one of these holds proofs about it, or a part of it. A function has the name that it has
-- in C, less the prefix `zstage_` for the two that get and set the console device. The parts meet
-- where the code's do: print hands its buffer to nputs, nputs calls the console device through its
-- structure (`ConsoleDevice`: each driver has one, and `console_devices` of Serial/Probe.antt gives the
-- one that a pointer leads to), fdt_serial_init sets the device, zstage_main runs them in order on
-- one `Machine`, and the entry code reads the header and the blobs that it hands to zstage_main from the
-- memory that the relocation left.
--
-- The model is of RV64, where `char` is unsigned and a variadic argument has a slot of 64 bits.
-- Unsigned arithmetic wraps as its type does; addresses are natural numbers. A result of `int` is an
-- integer. The C code runs on one hart without interrupts, so its runs are sequential. In
-- Entry/Harts.antt the accesses of the harts happen one after the other, in any order that the code
-- allows.
--
-- Copies. A boot is compared with a plan on the memory alone: print's buffer lies in the same memory as
-- what is copied, so the plan speaks of the bytes outside of it.
--
-- Fuel. A loop that runs to a NUL takes fuel and is `none` where it runs out; the theorems ask for more
-- fuel than the string has characters. print takes one round more than its format has characters,
-- and each round takes a character at least. A wait for the hardware or the host takes the rounds of
-- `Outside.patience` and ends as `waiting` behind them: nothing in the firmware bounds it. The walk
-- to the root of the device tree takes `depth` steps. The loops of head.S take `rounds`, which must be
-- more than the words that they copy or clear; the walk over the table of blobs takes a round for each.
--
-- Not in the model. firmware/libfdt is a copy of another project: what the code calls of it is the
-- record `Tree`, a parameter. What the hardware and the host answer is the record `Outside`, another
-- parameter. Of print, the strings of `%s` and the format are given by their contents, so they do not
-- overlap what is written. zstage_main stands in the model twice: on pointers, reading its header and
-- table anew at each use (Boot/InMemory.antt), as the entry code calls it, and on their contents at the
-- call (Boot.antt); Boot/Reread.antt compares the two.
-- Of the banner, only the version line of a build without
-- version macros is there. The branch of firmware/serial/htif.c for RV32, the inline assembly of
-- include/zstage/riscv_asm.h and the barriers of include/zstage/riscv_barrier.h, which no other file
-- uses, are left out; the fences of include/zstage/riscv_io.h are events of the trace. Of
-- firmware/head.S, the writes to CSRs and to the stack and global pointers, the hook of the
-- platform, the dynamic info and the hang of the trap handler are left out; where the linker script
-- puts the labels is the record `Image`, a parameter, and what it must satisfy is `IsLaidOut` and
-- `IsPlaced`. The values of the symbols and the options that the header and the table of blobs name
-- are the record `Build`, another parameter.
pub mod Base
pub mod Memory
pub mod CString
pub mod Machine
pub mod Console
pub mod Format
pub mod Fdt
pub mod Serial
pub mod Boot
pub mod Entry
pub mod Examples
