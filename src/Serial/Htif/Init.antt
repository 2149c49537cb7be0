-- ===== src/Serial/Htif/Init.antt =====
-- htif_serial_init of firmware/serial/htif.c leaves the memory alone, and the choice of the driver to
-- its caller; where no console device was chosen, it chooses its own exactly if it returns 0.
use zstage.Base.{
  Bool-cases, inl, inr, ℕ, Bool, ◌+◌, ◌%◌, ◌^◌, ◌&&◌, ◌||◌, ◌==◌, not, if◌then◌else◌, refl, none,
  some, ℤ, pos, is_zero,
}
use zstage.Machine.{htif_console, waiting}
use zstage.Machine.Keeps.{Keeps, pure-Keeps, if-Keeps, Same-Keeps, if-Same}
use zstage.Machine.Chooses.{Chooses, bind-Chooses, Option-Chooses, halt-Chooses, refuse-Chooses}
use zstage.Machine.KeepsDriver.{
  KeepsDriver, bind-KeepsDriver, then-KeepsDriver, if-KeepsDriver, if-SameDriver,
  Option-KeepsDriver, pure-KeepsDriver, halt-KeepsDriver,
}
use zstage.Console.Wire.{console_set_device-KeepsDriver, console_set_device-Chooses}
use zstage.Fdt.{Tree}
use zstage.Fdt.Cells.{fdt_get_node_addr_size}
use zstage.Serial.Htif.{set_custom_addr, htif_serial_init, value_or, serial_htif_init}

set_custom_addr-KeepsDriver :
    (custom_addr : Bool) (fromhost_addr tohost_addr : ℕ)
    → KeepsDriver (set_custom_addr custom_addr fromhost_addr tohost_addr)
unfolding set_custom_addr
set_custom_addr-KeepsDriver custom_addr fromhost_addr tohost_addr =
    if-KeepsDriver custom_addr _ _
      (record {
        kept = λ m.
            if-SameDriver
              (m.htif.custom
                && (not (fromhost_addr == m.htif.fromhost) || not (tohost_addr == m.htif.tohost)))
              _ _ m (refl, refl) (refl, refl);
      })
      (pure-KeepsDriver _)

htif_serial_init-KeepsDriver :
    (custom_addr : Bool) (fromhost_addr tohost_addr : ℕ)
    → KeepsDriver (htif_serial_init custom_addr fromhost_addr tohost_addr)
unfolding htif_serial_init
htif_serial_init-KeepsDriver custom_addr fromhost_addr tohost_addr =
    bind-KeepsDriver _ _ (set_custom_addr-KeepsDriver custom_addr fromhost_addr tohost_addr) (λ rc.
      if-KeepsDriver (is_zero rc) _ _
        (then-KeepsDriver (console_set_device-KeepsDriver htif_console) (pure-KeepsDriver _))
        (pure-KeepsDriver rc))

pub serial_htif_init-KeepsDriver :
    (fuel : ℕ) (t : Tree) (nodeoff : ℤ) → KeepsDriver (serial_htif_init fuel t nodeoff)
unfolding serial_htif_init
serial_htif_init-KeepsDriver fuel t nodeoff =
    Option-KeepsDriver (fdt_get_node_addr_size fuel (some t) nodeoff (pos 0) (some 0) none)
      (halt-KeepsDriver waiting)
      (λ r.
        let custom = is_zero r.rc in
        let tohost_addr = if custom then (value_or r.addr 0 + 8) % 2 ^ 64 else 0 in
        Option-KeepsDriver
          (fdt_get_node_addr_size fuel (some t) nodeoff (pos 1) (some tohost_addr) none)
          (halt-KeepsDriver waiting)
          (λ r'.
            htif_serial_init-KeepsDriver custom (value_or r.addr 0) (value_or r'.addr tohost_addr)))

set_custom_addr-Keeps :
    (custom_addr : Bool) (fromhost_addr tohost_addr : ℕ)
    → Keeps (set_custom_addr custom_addr fromhost_addr tohost_addr)
unfolding set_custom_addr
set_custom_addr-Keeps custom_addr fromhost_addr tohost_addr =
    if-Keeps custom_addr _ _
      (Same-Keeps _ (λ m.
        if-Same
          (m.htif.custom
            && (not (fromhost_addr == m.htif.fromhost) || not (tohost_addr == m.htif.tohost)))
          _ _ m (refl, refl) (refl, refl)))
      (pure-Keeps _)

htif_serial_init-Chooses :
    (custom_addr : Bool) (fromhost_addr tohost_addr : ℕ)
    → Chooses htif_console (htif_serial_init custom_addr fromhost_addr tohost_addr)
unfolding htif_serial_init
htif_serial_init-Chooses custom_addr fromhost_addr tohost_addr =
    bind-Chooses (set_custom_addr-Keeps custom_addr fromhost_addr tohost_addr) (λ rc.
      elim (Bool-cases (is_zero rc)) [
        | inl set ↦ rw set (console_set_device-Chooses htif_console)
        | inr error ↦ rw error (refuse-Chooses rc error)
      ])

pub serial_htif_init-Chooses :
    (fuel : ℕ) (t : Tree) (nodeoff : ℤ) → Chooses htif_console (serial_htif_init fuel t nodeoff)
unfolding serial_htif_init
serial_htif_init-Chooses fuel t nodeoff =
    Option-Chooses (fdt_get_node_addr_size fuel (some t) nodeoff (pos 0) (some 0) none)
      (halt-Chooses waiting)
      (λ r.
        let custom = is_zero r.rc in
        let tohost_addr = if custom then (value_or r.addr 0 + 8) % 2 ^ 64 else 0 in
        Option-Chooses
          (fdt_get_node_addr_size fuel (some t) nodeoff (pos 1) (some tohost_addr) none)
          (halt-Chooses waiting)
          (λ r'.
            htif_serial_init-Chooses custom (value_or r.addr 0) (value_or r'.addr tohost_addr)))
