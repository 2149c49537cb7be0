-- ===== src/Serial/Htif.antt =====
-- firmware/serial/htif.c on RV64 and its glue to the device tree, fdt_serial_htif.c. The variables
-- `tohost` and `fromhost`, which the host writes, are accessed at their addresses, with no fences.
pub mod Quiet
pub mod Addresses
pub mod Fields
pub mod Init
use Prim.Native.Nat.{bit_or}
use zstage.Base.{
  ℕ, zero, suc, ◌+◌, ◌*◌, ◌/◌, ◌%◌, ◌^◌, Bool, true, false, not, ◌&&◌, ◌||◌, Option, none, some,
  List, [], ◌∷◌, ◌==◌, if◌then◌else◌, ℤ, pos, is_zero, codes,
}
use zstage.Machine.{
  Outside, htif_console, Cmd, pure, halt, trapped, waiting, get, put, ◌>>=◌, ◌>>◌, and_then,
}
use zstage.Console.{ConsoleDevice, console_set_device}
use zstage.Fdt.{Tree, MatchTable, einval}
use zstage.Fdt.Cells.{fdt_get_node_addr_size}
use zstage.Serial.Node.{FdtSerial}
use zstage.Serial.Mmio.{raw_readq, raw_writeq}

abbrev htif_data_bits : ℕ
htif_data_bits = 48

abbrev htif_cmd_bits : ℕ
htif_cmd_bits = 8

abbrev htif_cmd_shift : ℕ
htif_cmd_shift = 48

abbrev htif_dev_bits : ℕ
htif_dev_bits = 8

abbrev htif_dev_shift : ℕ
htif_dev_shift = 56

abbrev htif_dev_console : ℕ
htif_dev_console = 1

abbrev htif_console_cmd_getc : ℕ
htif_console_cmd_getc = 0

abbrev htif_console_cmd_putc : ℕ
htif_console_cmd_putc = 1

-- `TOHOST_CMD`
pub tohost_cmd : (dev cmd payload : ℕ) → ℕ
tohost_cmd dev cmd payload =
    bit_or (dev * 2 ^ htif_dev_shift % 2 ^ 64) (bit_or (cmd * 2 ^ htif_cmd_shift % 2 ^ 64) payload)

abbrev pub fromhost_dev : ℕ → ℕ
fromhost_dev v = v / 2 ^ htif_dev_shift % 2 ^ htif_dev_bits

abbrev pub fromhost_cmd : ℕ → ℕ
fromhost_cmd v = v / 2 ^ htif_cmd_shift % 2 ^ htif_cmd_bits

abbrev pub fromhost_data : ℕ → ℕ
fromhost_data v = v % 2 ^ htif_data_bits

-- The result is the error code.
pub set_custom_addr : (custom_addr : Bool) (fromhost_addr tohost_addr : ℕ) → Cmd ℤ
set_custom_addr custom_addr fromhost_addr tohost_addr =
    if custom_addr
    then (do
      m ← get
      if m.htif.custom
            && (not (fromhost_addr == m.htif.fromhost) || not (tohost_addr == m.htif.tohost))
          then pure einval
          else (do
            put (record m {
              htif = record m.htif {
                fromhost = fromhost_addr;
                tohost = tohost_addr;
                custom = true;
              };
            })
            pure (pos 0)))
    else pure (pos 0)

pub htif_serial_init : (custom_addr : Bool) (fromhost_addr tohost_addr : ℕ) → Cmd ℤ
unfolding set_custom_addr
htif_serial_init custom_addr fromhost_addr tohost_addr = do
  rc ← set_custom_addr custom_addr fromhost_addr tohost_addr
  if is_zero rc then (do console_set_device (some htif_console); pure (pos 0)) else pure rc

-- `serial_htif_init`; `*addr` of a call with an address is an address again.
abbrev pub value_or : Option ℕ → ℕ → ℕ
value_or none d = d
value_or (some a) d = a

pub serial_htif_init : (fuel : ℕ) → Tree → (nodeoff : ℤ) → Cmd ℤ
unfolding htif_serial_init
serial_htif_init fuel t nodeoff =
    elim (fdt_get_node_addr_size fuel (some t) nodeoff (pos 0) (some 0) none) [
      | none ↦ halt waiting
      | some r ↦
          let custom = is_zero r.rc in
          let fromhost_addr = value_or r.addr 0 in
          let tohost_addr = if custom then (fromhost_addr + 8) % 2 ^ 64 else 0 in
          elim (fdt_get_node_addr_size fuel (some t) nodeoff (pos 1) (some tohost_addr) none) [
            | none ↦ halt waiting
            | some r' ↦ htif_serial_init custom fromhost_addr (value_or r'.addr tohost_addr)
          ]
    ]

pub serial_htif_match : MatchTable
serial_htif_match = codes "ucb,htif0" ∷ []

abbrev pub fdt_serial_htif : (fuel : ℕ) → FdtSerial
fdt_serial_htif fuel = record { match_table = serial_htif_match; init = serial_htif_init fuel }

set_console_buf : (value : ℕ) → Cmd (Unit {0})
set_console_buf value = do m ← get; put (record m { htif = record m.htif { console_buf = value } })

module _ (env : Outside) (tohost fromhost : ℕ) where
  read_tohost : Cmd ℕ
  read_tohost = do m ← get; raw_readq env (if m.htif.custom then m.htif.tohost else tohost)

  write_tohost : (val : ℕ) → Cmd (Unit {0})
  write_tohost val = do m ← get; raw_writeq val (if m.htif.custom then m.htif.tohost else tohost)

  read_fromhost : Cmd ℕ
  read_fromhost = do m ← get; raw_readq env (if m.htif.custom then m.htif.fromhost else fromhost)

  write_fromhost : (val : ℕ) → Cmd (Unit {0})
  write_fromhost val = do
    m ← get
    raw_writeq val (if m.htif.custom then m.htif.fromhost else fromhost)

  -- What is done with a value that the host left.
  handle_fromhost : (fh : ℕ) → Cmd (Unit {0})
  unfolding write_fromhost set_console_buf
  handle_fromhost fh = do
    write_fromhost 0
    if not (fromhost_dev fh == htif_dev_console)
        then halt trapped
        else if fromhost_cmd fh == htif_console_cmd_getc
        then set_console_buf (1 + fromhost_data fh % 2 ^ 8)
        else if fromhost_cmd fh == htif_console_cmd_putc
        then pure tt
        else halt trapped

  check_fromhost : Cmd (Unit {0})
  unfolding read_fromhost handle_fromhost
  check_fromhost = do fh ← read_fromhost; if fh == 0 then pure tt else handle_fromhost fh

  -- `while (__read_tohost()) __check_fromhost();`, for at most `rounds` rounds.
  drain : (rounds : ℕ) → Cmd (Unit {0})
  unfolding read_tohost check_fromhost
  drain zero = halt waiting
  drain (suc rounds) = do
    th ← read_tohost
    if th == 0 then pure tt else (do check_fromhost; drain rounds)

  set_tohost : (dev cmd payload : ℕ) → Cmd (Unit {0})
  unfolding drain write_tohost
  set_tohost dev cmd payload = do drain env.patience; write_tohost (tohost_cmd dev cmd payload)

  pub htif_putc : (ch : ℕ) → Cmd (Unit {0})
  unfolding set_tohost
  htif_putc ch = set_tohost htif_dev_console htif_console_cmd_putc ch

abbrev pub htif_console_device : Outside → (tohost fromhost : ℕ) → ConsoleDevice
htif_console_device env tohost fromhost = record {
  name = codes "htif";
  console_putc = some (htif_putc env tohost fromhost);
  console_puts = none;
}
