-- ===== src/Serial/Uart8250/Init.antt =====
-- uart8250_init of firmware/serial/uart8250.c leaves the memory alone, and the choice of the driver to
-- its caller; where no console device was chosen, it chooses its own exactly if it returns 0.
use zstage.Base.{ℤ, ◌%◌, ◌^◌, ℕ, refl, ◌==◌}
use zstage.Machine.{Outside, uart8250_console, undefined, get}
use zstage.Machine.Keeps.{Keeps, pure-Keeps, bind-Keeps, if-Keeps}
use zstage.Machine.Chooses.{
  Chooses, set-Chooses, bind-Chooses, then-Chooses, Option-Chooses, halt-Chooses,
}
use zstage.Machine.KeepsDriver.{
  KeepsDriver, bind-KeepsDriver, then-KeepsDriver, if-KeepsDriver, Option-KeepsDriver,
  set-KeepsDriver, get-KeepsDriver, pure-KeepsDriver, halt-KeepsDriver,
}
use zstage.Console.Wire.{console_set_device-KeepsDriver, console_set_device-Chooses}
use zstage.Fdt.{Tree}
use zstage.Serial.Node.{with_uart-KeepsDriver, with_uart-Chooses}
use zstage.Serial.Mmio.{readb, readw, readl, writeb, writew, writel}
use zstage.Serial.Uart8250.Quiet.{set_reg-Keeps, get_reg-Keeps}
use zstage.Serial.Uart8250.{
  set_reg, get_reg, set_divisor, bdiv, uart8250_init, serial_uart8250_init,
}

set_reg-KeepsDriver : (num val : ℕ) → KeepsDriver (set_reg num val)
unfolding set_reg writeb writew writel
set_reg-KeepsDriver num val = bind-KeepsDriver get _ get-KeepsDriver (λ m.
    if-KeepsDriver (m.uart8250.reg_width == 1) _ _ (record { kept = λ m'. (refl, refl) })
      (if-KeepsDriver (m.uart8250.reg_width == 2) _ _ (record { kept = λ m'. (refl, refl) })
        (record { kept = λ m'. (refl, refl) })))

set_divisor-KeepsDriver : (d : ℕ) → KeepsDriver (set_divisor d)
unfolding set_divisor
set_divisor-KeepsDriver d =
    if-KeepsDriver (d == 0) _ _ (pure-KeepsDriver tt)
      (then-KeepsDriver (set_reg-KeepsDriver _ _) (set_reg-KeepsDriver _ _))

module _ (env : Outside) where
  get_reg-KeepsDriver : (num : ℕ) → KeepsDriver (get_reg env num)
  unfolding get_reg readb readw readl
  get_reg-KeepsDriver num = bind-KeepsDriver get _ get-KeepsDriver (λ m.
      if-KeepsDriver (m.uart8250.reg_width == 1) _ _ (record { kept = λ m'. (refl, refl) })
        (if-KeepsDriver (m.uart8250.reg_width == 2) _ _ (record { kept = λ m'. (refl, refl) })
          (record { kept = λ m'. (refl, refl) })))

  uart8250_init-KeepsDriver :
      (base in_freq baudrate reg_shift reg_width : ℕ)
      → KeepsDriver (uart8250_init env base in_freq baudrate reg_shift reg_width)
  unfolding uart8250_init
  uart8250_init-KeepsDriver base in_freq baudrate reg_shift reg_width =
      set-KeepsDriver (λ m. (refl, refl))
        (λ m. Option-KeepsDriver (bdiv in_freq baudrate) (halt-KeepsDriver undefined) (λ d.
          then-KeepsDriver (set_reg-KeepsDriver _ _) (
            then-KeepsDriver (set_reg-KeepsDriver _ _) (
              then-KeepsDriver (set_divisor-KeepsDriver d) (
                then-KeepsDriver (set_reg-KeepsDriver _ _) (
                  then-KeepsDriver (set_reg-KeepsDriver _ _) (
                    then-KeepsDriver (set_reg-KeepsDriver _ _) (
                      bind-KeepsDriver _ _ (get_reg-KeepsDriver _) (λ lsr.
                        bind-KeepsDriver _ _ (get_reg-KeepsDriver _) (λ rbr.
                          then-KeepsDriver (set_reg-KeepsDriver _ _) (
                            then-KeepsDriver (console_set_device-KeepsDriver uart8250_console)
                              (pure-KeepsDriver _))))))))))))

  pub serial_uart8250_init-KeepsDriver :
      (fuel stack_addr stack_size : ℕ) (t : Tree) (nodeoff : ℤ)
      → KeepsDriver (serial_uart8250_init env fuel stack_addr stack_size t nodeoff)
  unfolding serial_uart8250_init
  serial_uart8250_init-KeepsDriver fuel stack_addr stack_size t nodeoff =
      with_uart-KeepsDriver fuel stack_addr stack_size t nodeoff _ (λ uart.
        uart8250_init-KeepsDriver uart.addr (uart.freq % 2 ^ 32) (uart.baud % 2 ^ 32)
          (uart.reg_shift % 2 ^ 32) (uart.reg_io_width % 2 ^ 32))

  set_divisor-Keeps : (d : ℕ) → Keeps (set_divisor d)
  unfolding set_divisor
  set_divisor-Keeps d =
      if-Keeps (d == 0) _ _ (pure-Keeps tt)
        (bind-Keeps (set_reg 0 _) _ (set_reg-Keeps _ _) (λ u. set_reg-Keeps _ _))

  uart8250_init-Chooses :
      (base in_freq baudrate reg_shift reg_width : ℕ)
      → Chooses uart8250_console (uart8250_init env base in_freq baudrate reg_shift reg_width)
  unfolding uart8250_init
  uart8250_init-Chooses base in_freq baudrate reg_shift reg_width =
      set-Chooses (λ m. refl)
        (λ m. Option-Chooses (bdiv in_freq baudrate) (halt-Chooses undefined) (λ d.
          then-Chooses (set_reg-Keeps _ _) (
            then-Chooses (set_reg-Keeps _ _) (
              then-Chooses (set_divisor-Keeps d) (
                then-Chooses (set_reg-Keeps _ _) (
                  then-Chooses (set_reg-Keeps _ _) (
                    then-Chooses (set_reg-Keeps _ _) (
                      bind-Chooses (get_reg-Keeps env _) (λ lsr.
                        bind-Chooses (get_reg-Keeps env _) (λ rbr.
                          then-Chooses (set_reg-Keeps _ _)
                            (console_set_device-Chooses uart8250_console)))))))))))

  pub serial_uart8250_init-Chooses :
      (fuel stack_addr stack_size : ℕ) (t : Tree) (nodeoff : ℤ)
      → Chooses uart8250_console (serial_uart8250_init env fuel stack_addr stack_size t nodeoff)
  unfolding serial_uart8250_init
  serial_uart8250_init-Chooses fuel stack_addr stack_size t nodeoff =
      with_uart-Chooses fuel stack_addr stack_size t nodeoff _ (λ uart.
        uart8250_init-Chooses uart.addr (uart.freq % 2 ^ 32) (uart.baud % 2 ^ 32)
          (uart.reg_shift % 2 ^ 32) (uart.reg_io_width % 2 ^ 32))
