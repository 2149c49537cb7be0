-- ===== src/Serial/Probe.antt =====
-- firmware/serial/fdt_serial.c, and the console devices that the drivers offer.
pub mod Quiet
pub mod Output
pub mod Search
pub mod Chosen
pub mod Stdout
pub mod Frame
use zstage.Base.{
  ℕ, Bool, true, false, not, ◌&&◌, ◌||◌, Option, none, some, List, [], ◌∷◌, ◌==◌, if◌then◌else◌,
  ltb, ℤ, pos, negsuc, is_negative, is_zero, codes,
}
use zstage.CString.Search.{index_of}
use zstage.Machine.{
  Outside, Device, cadence_console, uart8250_console, htif_console, semihost_console, Driver,
  cadence_driver, uart8250_driver, htif_driver, Machine, Cmd, pure, halt, waiting, get, put, ◌>>=◌,
  ◌>>◌, and_then,
}
use zstage.Console.{Devices}
use zstage.Fdt.{Tree, MatchTable, enodev, fdt_match_node, fdt_find_match}
use zstage.Serial.Node.{FdtSerial}
use zstage.Serial.Uart8250.{uart8250_console_device, fdt_serial_uart8250}
use zstage.Serial.Cadence.{cadence_console_device, fdt_serial_cadence}
use zstage.Serial.Htif.{htif_console_device, fdt_serial_htif}
use zstage.Serial.Semihosting.{semihost_console_device}

-- The `zstage_console_device` structures of the drivers.
unfoldable pub console_devices : Outside → (tohost fromhost : ℕ) → Devices
console_devices env tohost fromhost cadence_console = cadence_console_device env
console_devices env tohost fromhost uart8250_console = uart8250_console_device env
console_devices env tohost fromhost htif_console = htif_console_device env tohost fromhost
console_devices env tohost fromhost semihost_console = semihost_console_device env

pub serial_drivers : List Driver
serial_drivers = cadence_driver ∷ uart8250_driver ∷ htif_driver ∷ []

abbrev pub is_enodev : ℤ → Bool
is_enodev (pos n) = false
is_enodev (negsuc n) = n == 8

-- The node that `stdout-path` of /chosen names, up to a `:`; -1 where there is none.
unfoldable pub stdout_node : Tree → ℤ
stdout_node t =
    let coff = t.path_offset (codes "/chosen") in
    if is_negative coff then negsuc 0 else elim (t.getprop coff (codes "stdout-path")) [
      | none ↦ negsuc 0
      | some prop ↦ if prop.len == 0 then negsuc 0 else elim (index_of b':' prop.string) [
        | none ↦ t.path_offset prop.string
        | some n ↦ t.path_offset_namelen prop.string n
      ]
    ]

-- `stack_addr` and `stack_size` are what `fdt_parse_uart_node` finds in its two variables.
module _ (env : Outside) (fuel stack_addr stack_size : ℕ) where
  -- The structure that a pointer of `serial_drivers` leads to.
  abbrev pub fdt_serial : Driver → FdtSerial
  fdt_serial cadence_driver = fdt_serial_cadence fuel stack_addr stack_size
  fdt_serial uart8250_driver = fdt_serial_uart8250 env fuel stack_addr stack_size
  fdt_serial htif_driver = fdt_serial_htif fuel

  -- The body of both loops behind their match: `next` is the `continue`, `some rc` the `return`.
  pub try_driver : Driver → Tree → (nodeoff : ℤ) → (next : Cmd (Option ℤ)) → Cmd (Option ℤ)
  try_driver drv t nodeoff next = do
    rc ← (fdt_serial drv).init t nodeoff
    if is_enodev rc
        then next
        else if not (is_zero rc)
        then pure (some rc)
        else (do m ← get; put (record m { current_driver = some drv }); pure none)

  pub stdout_loop : Tree → (nodeoff : ℤ) → List Driver → Cmd (Option ℤ)
  stdout_loop t nodeoff [] = pure none
  stdout_loop t nodeoff (drv ∷ drivers) =
      let next = stdout_loop t nodeoff drivers in
      if is_negative nodeoff
      then pure none
      else elim (fdt_match_node (some t) nodeoff (some (fdt_serial drv).match_table)) [
        | none ↦ next
        | some compatible ↦ try_driver drv t nodeoff next
      ]

  pub all_nodes_loop : Tree → List Driver → Cmd (Option ℤ)
  all_nodes_loop t [] = pure none
  all_nodes_loop t (drv ∷ drivers) =
      let next = all_nodes_loop t drivers in
      let nodeoff = (fdt_find_match (some t) (negsuc 0) (some (fdt_serial drv).match_table)).0 in
      if is_negative nodeoff then next else try_driver drv t nodeoff next

  abbrev pub returned : Option ℤ → ℤ
  returned none = pos 0
  returned (some rc) = rc

  pub fdt_serial_init : Tree → Cmd ℤ
  unfolding stdout_loop all_nodes_loop
  fdt_serial_init t = do
    early ← stdout_loop t (stdout_node t) serial_drivers
    m ← get
    elim early [
      | some rc ↦ pure rc
      | none ↦ elim m.current_driver [
        | some drv ↦ pure (pos 0)
        | none ↦ do late ← all_nodes_loop t serial_drivers; pure (returned late)
      ]
    ]
