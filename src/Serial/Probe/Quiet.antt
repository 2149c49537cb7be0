-- ===== src/Serial/Probe/Quiet.antt =====
-- The console devices of firmware/serial against what firmware/console.c needs of them.
use zstage.Base.{List, ◌∙◌, ℕ, ◌≡◌, refl, some}
use zstage.Memory.{bytes}
use zstage.Machine.{
  Event, ok, Outside, cadence_console, uart8250_console, htif_console, semihost_console, Machine,
  Cmd,
}
use zstage.Machine.Keeps.{Keeps}
use zstage.Console.{nputs}
use zstage.Console.Wire.{IsQuiet, wire, send_all, nputs-send_all, nputs-console_puts}
use zstage.Serial.Uart8250.{uart8250_putc}
use zstage.Serial.Uart8250.Quiet.{uart8250_putc-Keeps}
use zstage.Serial.Uart8250.Live.{IsResponsive, send_all-returns}
use zstage.Serial.Cadence.{cadence_uart_putc}
use zstage.Serial.Cadence.Quiet.{cadence_uart_putc-Keeps}
use zstage.Serial.Semihosting.{semihosting_puts}
use zstage.Serial.Htif.{htif_putc}
use zstage.Serial.Htif.Quiet.{htif_putc-Keeps}
use zstage.Serial.Probe.{console_devices}

quiet : (out : ℕ → Cmd (Unit {0})) → ((ch : ℕ) → Keeps (out ch)) → IsQuiet out
quiet out h = record {
  keeps_memory = λ c m m' e. ((h c).same tt m m' e).0;
  keeps_device = λ c m m' e. ((h c).same tt m m' e).1;
}

module _ (env : Outside) (tohost fromhost str len : ℕ) (m : Machine) where
  -- With the 8250 UART as the console, `nputs` sends the bytes in order through its `putc`, a
  -- newline as a carriage return and a newline.
  pub nputs-uart8250 :
      m.console_dev ≡ some uart8250_console
      → nputs (console_devices env tohost fromhost) str len m
        ≡ send_all (uart8250_putc env) (wire (bytes m.memory str len)) m
  unfolding console_devices
  nputs-uart8250 =
      nputs-send_all (console_devices env tohost fromhost) uart8250_console (uart8250_putc env)
        (quiet _ (uart8250_putc-Keeps env)) refl refl len str m

  -- With the Cadence UART as the console, `nputs` sends the bytes in order through its `putc`, a
  -- newline as a carriage return and a newline.
  pub nputs-cadence_uart :
      m.console_dev ≡ some cadence_console
      → nputs (console_devices env tohost fromhost) str len m
        ≡ send_all (cadence_uart_putc env) (wire (bytes m.memory str len)) m
  unfolding console_devices
  nputs-cadence_uart =
      nputs-send_all (console_devices env tohost fromhost) cadence_console (cadence_uart_putc env)
        (quiet _ (cadence_uart_putc-Keeps env)) refl refl len str m

  -- With HTIF as the console, `nputs` sends the bytes in order through its `putc`, a newline as a
  -- carriage return and a newline.
  pub nputs-htif :
      m.console_dev ≡ some htif_console
      → nputs (console_devices env tohost fromhost) str len m
        ≡ send_all (htif_putc env tohost fromhost) (wire (bytes m.memory str len)) m
  unfolding console_devices
  nputs-htif =
      nputs-send_all (console_devices env tohost fromhost) htif_console
        (htif_putc env tohost fromhost) (quiet _ (htif_putc-Keeps env tohost fromhost)) refl refl
        len str m

  -- With semihosting as the console, `nputs` is `semihosting_puts`.
  pub nputs-semihosting :
      m.console_dev ≡ some semihost_console
      → nputs (console_devices env tohost fromhost) str len m ≡ semihosting_puts env str len m
  unfolding console_devices
  nputs-semihosting =
      nputs-console_puts (console_devices env tohost fromhost) semihost_console
        (semihosting_puts env) str len m refl

  -- With the 8250 UART as the console and a device that shows an empty holding register at a poll
  -- within the rounds, whatever was sent before, `nputs` returns, and changes nothing but the
  -- trace.
  pub nputs-uart8250_returns :
      m.console_dev ≡ some uart8250_console
      → IsResponsive env m.uart8250
      → (trace' : List Event) × (nputs (console_devices env tohost fromhost) str len m
          ≡ ok tt (record m { trace = trace' }))
  nputs-uart8250_returns console live =
      let (trace', sent) = send_all-returns env (wire (bytes m.memory str len)) m live in
      (trace', nputs-uart8250 console ∙ sent)
