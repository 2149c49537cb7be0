-- ===== src/Examples/Searching.antt =====
-- The search for a console driver at a small tree.
use zstage.Base.{◌≡◌, ◌⊎◌, refl, none, ℤ, pos}
use zstage.Machine.{Machine, Stop, ok, stop}
use zstage.Machine.Keeps.{machine_of}
use zstage.Serial.Probe.{fdt_serial_init}
use zstage.Serial.Probe.Search.{Search, candidates, fdt_serial_init-Search}
use zstage.Serial.Probe.Chosen.{console_for, fdt_serial_init-console_for}
use zstage.Examples.{outside, machine, tree}

-- Each of the two nodes is a candidate of each of the three drivers.
fdt_serial_init-Search_example :
    Search outside 5 0 0 tree
      (candidates outside 5 0 0 tree)
      machine
      (fdt_serial_init outside 5 0 0 tree machine)
    × ((machine_of machine (fdt_serial_init outside 5 0 0 tree machine)).memory ≡ machine.memory)
fdt_serial_init-Search_example = fdt_serial_init-Search outside 5 0 0 tree machine refl

abbrev unset : Machine
unset = record machine { console_dev = none }

fdt_serial_init-console_for_example :
    ((s : Stop) × (m' : Machine) × (fdt_serial_init outside 5 0 0 tree unset ≡ stop s m'))
    ⊎ ((rc : ℤ) × (m' : Machine) × (fdt_serial_init outside 5 0 0 tree unset ≡ ok rc m')
        × (m'.console_dev ≡ console_for m'.current_driver)
        × ((rc ≡ pos 0) ⊎ (m'.current_driver ≡ none)))
fdt_serial_init-console_for_example = fdt_serial_init-console_for outside 5 0 0 tree unset refl refl
