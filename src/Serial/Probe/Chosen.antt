-- ===== src/Serial/Probe/Chosen.antt =====
-- The console device that fdt_serial_init of firmware/serial/fdt_serial.c leaves behind.
use mathlib.Core.Path.{subst}
use zstage.Base.{ℕ, ◌≡◌, ◌⊎◌, inl, inr, refl, sym, ap, ◌∙◌, Option, none, some, List, ℤ, pos}
use zstage.Machine.{
  Outside, Device, cadence_console, uart8250_console, htif_console, Driver, cadence_driver,
  uart8250_driver, htif_driver, Machine, Run, Stop, ok, stop,
}
use zstage.Machine.Keeps.{machine_of}
use zstage.Machine.Laws.{Run-cases}
use zstage.Machine.Chooses.{Chooses}
use zstage.Fdt.{Tree, enodev}
use zstage.Serial.Cadence.Init.{serial_cadence_init-Chooses}
use zstage.Serial.Uart8250.Init.{serial_uart8250_init-Chooses}
use zstage.Serial.Htif.Init.{serial_htif_init-Chooses}
use zstage.Serial.Probe.{fdt_serial_init}
use zstage.Serial.Probe.Search.{
  Candidate, init, Search, exhausted, declined, taken, refused, stopped, init-KeepsDriver,
  fdt_serial_init-Search,
}

-- The console device of each driver.
abbrev pub console_of : Driver → Device
console_of cadence_driver = cadence_console
console_of uart8250_driver = uart8250_console
console_of htif_driver = htif_console

abbrev pub console_for : Option Driver → Option Device
console_for none = none
console_for (some drv) = some (console_of drv)

-- The console device is the one of the driver, and with an error code there is neither.
abbrev Linked : Run ℤ → Type 0
Linked (ok rc m) =
    (m.console_dev ≡ console_for m.current_driver) × ((rc ≡ pos 0) ⊎ (m.current_driver ≡ none))
Linked (stop s m) = Unit {0}

module _ (env : Outside) (fuel stack_addr stack_size : ℕ) (t : Tree) where
  init-Chooses :
      (c : Candidate) → Chooses (console_of c.0) (init env fuel stack_addr stack_size t c)
  init-Chooses (cadence_driver, nodeoff) =
      serial_cadence_init-Chooses fuel stack_addr stack_size t nodeoff
  init-Chooses (uart8250_driver, nodeoff) =
      serial_uart8250_init-Chooses env fuel stack_addr stack_size t nodeoff
  init-Chooses (htif_driver, nodeoff) = serial_htif_init-Chooses fuel t nodeoff

  init-driver :
      (c : Candidate) {rc : ℤ} (m : Machine) {m1 : Machine}
      → init env fuel stack_addr stack_size t c m ≡ ok rc m1
      → m1.current_driver ≡ m.current_driver
  init-driver c m ran =
      (λ i. (machine_of m (sym ran i)).current_driver)
      ∙ ((init-KeepsDriver env fuel stack_addr stack_size t c).kept m).1

  Search-Linked :
      {cs : List Candidate} {m : Machine} {r : Run ℤ}
      → Search env fuel stack_addr stack_size t cs m r
      → m.console_dev ≡ none
      → m.current_driver ≡ none
      → Linked r
  Search-Linked exhausted con free = (con ∙ ap console_for (sym free), inl refl)
  Search-Linked {m} (declined c {m1} ran s) con free =
      Search-Linked s ((init-Chooses c).chosen enodev m m1 con ran) (init-driver c m ran ∙ free)
  Search-Linked {m} (taken c {m1} ran) con free =
      ((init-Chooses c).chosen (pos 0) m m1 con ran, inl refl)
  Search-Linked {m} (refused c rc {m1} ran error tried) con free =
      let none1 = init-driver c m ran ∙ free in
      ((init-Chooses c).chosen rc m m1 con ran ∙ rw (error, none1) refl, inr none1)
  Search-Linked (stopped c s ran) con free = tt

  -- Where neither a driver nor a console device was chosen before, `fdt_serial_init` stops, or it
  -- returns with the console device of the driver that it chose, and with none where it chose none;
  -- with a result that is not 0 it chose none.
  pub fdt_serial_init-console_for :
      (m : Machine)
      → m.console_dev ≡ none
      → m.current_driver ≡ none
      → ((s : Stop) × (m' : Machine) × (fdt_serial_init env fuel stack_addr stack_size t m
            ≡ stop s m'))
        ⊎ ((rc : ℤ) × (m' : Machine) × (fdt_serial_init env fuel stack_addr stack_size t m
              ≡ ok rc m')
            × (m'.console_dev ≡ console_for m'.current_driver)
            × ((rc ≡ pos 0) ⊎ (m'.current_driver ≡ none)))
  fdt_serial_init-console_for m con free =
      let search = (fdt_serial_init-Search env fuel stack_addr stack_size t m free).0 in
      elim (Run-cases (fdt_serial_init env fuel stack_addr stack_size t m)) [
        | inl (rc, m', ran) ↦
            let linked : Linked (ok rc m') = subst Linked ran (Search-Linked search con free) in
            inr (rc, m', ran, linked.0, linked.1)
        | inr (s, m', ran) ↦ inl (s, m', ran)
      ]
