-- ===== src/Serial/Probe/Output.antt =====
-- printf of firmware/console.c over the console devices of firmware/serial.
use zstage.Base.{ℕ, ◌+◌, ◌≤◌, ◌<◌, ◌≡◌, ◌⊎◌, List}
use zstage.Machine.{
  Outside, Device, cadence_console, uart8250_console, htif_console, semihost_console, Machine, Run,
  ok, stop,
}
use zstage.Machine.Keeps.{Keeps, machine_of}
use zstage.Machine.Total.{IsTotal-Keeps}
use zstage.Console.{nputs}
use zstage.Console.Silent.{KeepsBy, KeepsAll, nputs-Keeps}
use zstage.Console.Frame.{Ends}
use zstage.Format.Print.{printf}
use zstage.Format.Print.Frame.{Any, printf-Stays}
use zstage.Serial.Uart8250.Quiet.{uart8250_putc-Keeps}
use zstage.Serial.Cadence.Quiet.{cadence_uart_putc-Keeps}
use zstage.Serial.Htif.Quiet.{htif_putc-Keeps}
use zstage.Serial.Semihosting.Debugger.{semihosting_putc-IsTotal, semihosting_puts-IsTotal}
use zstage.Serial.Probe.{console_devices}

module _ (env : Outside) (tohost fromhost : ℕ) where
  putc-KeepsBy : (d : Device) → KeepsBy ((console_devices env tohost fromhost d).console_putc)
  unfolding console_devices
  putc-KeepsBy cadence_console = cadence_uart_putc-Keeps env
  putc-KeepsBy uart8250_console = uart8250_putc-Keeps env
  putc-KeepsBy htif_console = htif_putc-Keeps env tohost fromhost
  putc-KeepsBy semihost_console = λ ch. IsTotal-Keeps _ (semihosting_putc-IsTotal env ch)

  puts-KeepsAll : (d : Device) → KeepsAll ((console_devices env tohost fromhost d).console_puts)
  unfolding console_devices
  puts-KeepsAll cadence_console = tt
  puts-KeepsAll uart8250_console = tt
  puts-KeepsAll htif_console = tt
  puts-KeepsAll semihost_console = λ str len. IsTotal-Keeps _ (semihosting_puts-IsTotal env str len)

  -- `nputs` leaves the memory and the choice of the console device alone, whatever the console is
  -- and however the run ends.
  pub console_nputs-Keeps :
      (str len : ℕ) → Keeps (nputs (console_devices env tohost fromhost) str len)
  console_nputs-Keeps = nputs-Keeps (console_devices env tohost fromhost) putc-KeepsBy puts-KeepsAll

end_memory :
    (tbuf : ℕ) (m : Machine) (r : Run ℕ) (q : ℕ)
    → Ends tbuf Any m.memory r
    → (q < tbuf) ⊎ (tbuf + 128 ≤ q)
    → (machine_of m r).memory q ≡ m.memory q
end_memory tbuf m (ok a m') q h apart = h.1 q apart
end_memory tbuf m (stop s m') q h apart = h q apart

-- Whatever the format, its arguments and the console are, and however the run ends, `printf` changes
-- no byte outside of its buffer of 128 bytes.
pub printf-frame :
    (env : Outside) (tohost fromhost : ℕ) (string_at : ℕ → List ℕ) (tbuf : ℕ) (format args : List ℕ)
    (m : Machine) (q : ℕ)
    → (q < tbuf) ⊎ (tbuf + 128 ≤ q)
    → (machine_of m
          (printf string_at (console_devices env tohost fromhost) tbuf format args m)).memory
        q
      ≡ m.memory q
printf-frame env tohost fromhost string_at tbuf format args m q = end_memory tbuf m _ q (
    (printf-Stays (console_devices env tohost fromhost) tbuf
        (console_nputs-Keeps env tohost fromhost) string_at format args).ends
      m)
