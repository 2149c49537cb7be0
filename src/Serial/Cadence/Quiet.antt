-- ===== src/Serial/Cadence/Quiet.antt =====
-- The putc of firmware/serial/cadence-uart.c leaves the memory and the console device alone.
use zstage.Base.{ℕ}
use zstage.Machine.{Outside, get}
use zstage.Machine.Keeps.{Keeps, pure-Keeps, get-Keeps, bind-Keeps}
use zstage.Serial.Mmio.Quiet.{readl-Keeps, wait_while-Keeps, writel-Keeps}
use zstage.Serial.Cadence.{set_reg, get_reg, cadence_uart_putc}

pub set_reg-Keeps : (offset val : ℕ) → Keeps (set_reg offset val)
unfolding set_reg
set_reg-Keeps offset val = bind-Keeps get _ get-Keeps (λ m. writel-Keeps val _)

module _ (env : Outside) where
  get_reg-Keeps : (offset : ℕ) → Keeps (get_reg env offset)
  unfolding get_reg
  get_reg-Keeps offset = bind-Keeps get _ get-Keeps (λ m. readl-Keeps env _)

  pub cadence_uart_putc-Keeps : (ch : ℕ) → Keeps (cadence_uart_putc env ch)
  unfolding cadence_uart_putc
  cadence_uart_putc-Keeps ch =
      bind-Keeps _ _
        (wait_while-Keeps env env.patience _
          (bind-Keeps (get_reg env 0x2c) _ (get_reg-Keeps 0x2c) (λ csr. pure-Keeps _)))
        (λ u. set_reg-Keeps 0x30 ch)
