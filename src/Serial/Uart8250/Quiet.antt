-- ===== src/Serial/Uart8250/Quiet.antt =====
-- The putc of firmware/serial/uart8250.c leaves the memory and the console device alone.
use zstage.Base.{ℕ, ◌==◌}
use zstage.Machine.{Outside, get}
use zstage.Machine.Keeps.{Keeps, pure-Keeps, get-Keeps, bind-Keeps, if-Keeps}
use zstage.Serial.Mmio.Quiet.{
  readb-Keeps, readw-Keeps, readl-Keeps, wait_while-Keeps, writeb-Keeps, writew-Keeps, writel-Keeps,
}
use zstage.Serial.Uart8250.{set_reg, get_reg, uart8250_putc}

pub set_reg-Keeps : (num val : ℕ) → Keeps (set_reg num val)
unfolding set_reg
set_reg-Keeps num val = bind-Keeps get _ get-Keeps (λ m.
    if-Keeps (m.uart8250.reg_width == 1) _ _ (writeb-Keeps val _)
      (if-Keeps (m.uart8250.reg_width == 2) _ _ (writew-Keeps val _) (writel-Keeps val _)))

module _ (env : Outside) where
  pub get_reg-Keeps : (num : ℕ) → Keeps (get_reg env num)
  unfolding get_reg
  get_reg-Keeps num = bind-Keeps get _ get-Keeps (λ m.
      if-Keeps (m.uart8250.reg_width == 1) _ _ (readb-Keeps env _)
        (if-Keeps (m.uart8250.reg_width == 2) _ _ (readw-Keeps env _) (readl-Keeps env _)))

  pub uart8250_putc-Keeps : (ch : ℕ) → Keeps (uart8250_putc env ch)
  unfolding uart8250_putc
  uart8250_putc-Keeps ch =
      bind-Keeps _ _
        (wait_while-Keeps env env.patience _
          (bind-Keeps (get_reg env 5) _ (get_reg-Keeps 5) (λ lsr. pure-Keeps _)))
        (λ u. set_reg-Keeps 0 ch)
