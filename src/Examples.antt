-- ===== src/Examples.antt =====
-- Tests: runs of the definitions at small inputs, and the theorems at inputs that meet their
-- hypotheses. The inputs are shared here.
pub mod Strings
pub mod Printing
pub mod Devices
pub mod Booting
pub mod Searching
pub mod Starting
pub mod Entering
pub mod Jumping
pub mod Assembling
use zstage.Base.{
  ℕ, Bool, true, false, Option, none, some, List, [], ◌∷◌, ◌==◌, if◌then◌else◌, ltb, ℤ, pos, negsuc,
  codes,
}
use zstage.Memory.{Memory}
use zstage.Machine.{Outside, Machine, Uart8250, Device, uart8250_console}
use zstage.Fdt.{Tree, Property}
use zstage.Boot.{ImageHeader, Platform, fdt_magic}

-- "abca" with its NUL at 10, "abd" at 20, and 0 elsewhere.
abbrev pub texts : Memory
texts q =
    if q == 10
    then b'a'
    else if q == 11
    then b'b'
    else if q == 12
    then b'c'
    else if q == 13
    then b'a'
    else if q == 20
    then b'a'
    else if q == 21
    then b'b'
    else if q == 22
    then b'd'
    else 0

abbrev pub outside : Outside
outside = record {
  answer = λ t width addr. 0x60;
  trap = λ t sysnum param. negsuc 0;
  debugger = false;
  patience = 3;
}

abbrev pub machine : Machine
machine = record {
  memory = texts;
  trace = [];
  console_dev = some uart8250_console;
  current_driver = none;
  uart8250 = record { base = 0x1000; in_freq = 0; baudrate = 115200; reg_width = 1; reg_shift = 0 };
  cadence = record { base = 0; in_freq = 0; baudrate = 0 };
  htif = record { fromhost = 0; tohost = 0; custom = false; console_buf = 0 };
  semihosting = record { enabled = true; try_semihosting = true; outfd = negsuc 8 };
}

-- A tree with two nodes, at 4 and 8; the one at 8 has a list of three cells.
abbrev pub tree : Tree
tree = record {
  node_check_compatible = λ nodeoff compatible. pos 0;
  node_offset_by_compatible = λ startoff compatible. pos 8;
  node_offset_by_phandle = λ phandle. pos 4;
  getprop = λ nodeoff name. some (record { len = 12; cell = λ i. 1; string = [] });
  address_cells = λ nodeoff. pos 1;
  size_cells = λ nodeoff. pos 1;
  parent_offset = λ nodeoff. negsuc 0;
  path_offset = λ path. pos 4;
  path_offset_namelen = λ path n. pos 4;
  magic = fdt_magic;
  totalsize = 4;
}

abbrev pub header : ImageHeader
header = record {
  jump_insn = 0x6f;
  magic = 7;
  version = 0x10000;
  reserved1 = 0;
  image_run_addr = 0;
  image_size = 0;
  image_spin_addr = 0;
  image_nmivect_addr = 0;
  image_nmivect_size = 0;
  image_platdata_addr = 0;
  image_platdata_size = 0;
  next_load_addr = 0;
  next_run_addr = 0;
  next_fdt_addr = 0x40;
  next_size = 0;
  reserved2 = [];
}

abbrev pub string_at : ℕ → List ℕ
string_at a = if a == 10 then codes "abca" else []

abbrev pub platform : Platform
platform = record {
  outside = outside;
  libfdt = λ m fdt. tree;
  tohost = 0x2000;
  fromhost = 0x2008;
  tbuf = 0x800;
  string_at = string_at;
  literal = λ s. 10;
  stack_addr = 0;
  stack_size = 0;
  depth = 5;
}
