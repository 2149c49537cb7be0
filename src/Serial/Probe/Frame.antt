-- ===== src/Serial/Probe/Frame.antt =====
-- The inits of the console in firmware/serial leave the memory alone, however they end.
use zstage.Base.{
  refl, ℕ, Option, none, some, List, [], ◌∷◌, ℤ, pos, is_zero, is_negative, negsuc, not,
}
use zstage.Machine.{Outside, Driver, Cmd, get}
use zstage.Machine.Spares.{
  Spares, pure-Spares, get-Spares, bind-Spares, if-Spares, Option-Spares, set-Spares,
  KeepsDriver-Spares,
}
use zstage.Fdt.{Tree, fdt_match_node, fdt_find_match}
use zstage.Serial.Probe.{
  fdt_serial, try_driver, stdout_loop, all_nodes_loop, stdout_node, serial_drivers, fdt_serial_init,
  is_enodev,
}
use zstage.Serial.Probe.Search.{init-KeepsDriver}

module _ (q : ℕ) (env : Outside) (fuel stack_addr stack_size : ℕ) (t : Tree) where
  try_driver-Spares :
      (drv : Driver) (nodeoff : ℤ) (next : Cmd (Option ℤ))
      → Spares q next
      → Spares q (try_driver env fuel stack_addr stack_size drv t nodeoff next)
  unfolding try_driver
  try_driver-Spares drv nodeoff next h =
      bind-Spares q ((fdt_serial env fuel stack_addr stack_size drv).init t nodeoff) _
        (KeepsDriver-Spares q _ (init-KeepsDriver env fuel stack_addr stack_size t (drv, nodeoff)))
        (λ rc. if-Spares q (is_enodev rc) _ _ h (
          if-Spares q (not (is_zero rc)) _ _ (pure-Spares q (some rc))
            (set-Spares q (λ m. refl) (λ m. pure-Spares q none))))

  stdout_loop-Spares :
      (nodeoff : ℤ) (drivers : List Driver)
      → Spares q (stdout_loop env fuel stack_addr stack_size t nodeoff drivers)
  unfolding stdout_loop
  stdout_loop-Spares nodeoff [] = pure-Spares q none
  stdout_loop-Spares nodeoff (drv ∷ drivers) =
      if-Spares q (is_negative nodeoff) _ _ (pure-Spares q none) (
        Option-Spares q
          (fdt_match_node (some t) nodeoff
            (some (fdt_serial env fuel stack_addr stack_size drv).match_table))
          (stdout_loop-Spares nodeoff drivers)
          (λ compatible. try_driver-Spares drv nodeoff _ (stdout_loop-Spares nodeoff drivers)))

  all_nodes_loop-Spares :
      (drivers : List Driver) → Spares q (all_nodes_loop env fuel stack_addr stack_size t drivers)
  unfolding all_nodes_loop
  all_nodes_loop-Spares [] = pure-Spares q none
  all_nodes_loop-Spares (drv ∷ drivers) =
      if-Spares q
        (is_negative
          (fdt_find_match (some t) (negsuc 0)
            (some (fdt_serial env fuel stack_addr stack_size drv).match_table)).0)
        _ _ (all_nodes_loop-Spares drivers)
        (try_driver-Spares drv _ _ (all_nodes_loop-Spares drivers))

  pub fdt_serial_init-Spares : Spares q (fdt_serial_init env fuel stack_addr stack_size t)
  unfolding fdt_serial_init
  fdt_serial_init-Spares =
      bind-Spares q _ _ (stdout_loop-Spares (stdout_node t) serial_drivers) (λ early.
        bind-Spares q get _ (get-Spares q) (λ m.
          Option-Spares q early
            (Option-Spares q m.current_driver
              (bind-Spares q _ _ (all_nodes_loop-Spares serial_drivers) (λ late. pure-Spares q _))
              (λ drv. pure-Spares q (pos 0)))
            (λ rc. pure-Spares q rc)))
