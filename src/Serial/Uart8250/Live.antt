-- ===== src/Serial/Uart8250/Live.antt =====
-- When the putc of firmware/serial/uart8250.c returns: where the device answers within the rounds.
use Prim.Native.Nat.{bit_and}
use zstage.Base.{
  ℕ, zero, suc, ◌<◌, ◌≡◌, ◌≢◌, refl, ◌==◌, List, [], ◌∷◌, Bool-cases, inl, inr, false, arith,
}
use zstage.Machine.{Outside, Machine, Uart8250, Event, w_o, ok}
use zstage.Serial.Mmio.{wait_while}
use zstage.Serial.Uart8250.{uart_lsr_thre, uart8250_putc}
use zstage.Serial.Uart8250.Ready.{lsr_of, polled, get_reg-lsr, is_busy, thr_write, set_reg-thr}
use zstage.Console.Wire.{send_all}

module _ (env : Outside) where
  -- The machine behind `n` polls of the line status.
  abbrev pub polls : (n : ℕ) → Machine → Machine
  polls zero m = m
  polls (suc n) m = polls n (polled env m)

  abbrev pub IsEmptied : Machine → Type 0
  IsEmptied m = bit_and (lsr_of env m) uart_lsr_thre ≢ 0

  -- Whatever was sent before, the device `u` shows an empty holding register at a poll that
  -- `uart8250_putc` waits for.
  abbrev pub IsResponsive : Uart8250 → Type 0
  IsResponsive u =
      (m : Machine) → m.uart8250 ≡ u → (n : ℕ) × (n < env.patience) × IsEmptied (polls n m)

  wait_while-returns :
      (n rounds : ℕ) (m : Machine)
      → n < rounds
      → IsEmptied (polls n m)
      → (trace' : List Event) × (wait_while env rounds (is_busy env) m
          ≡ ok tt (record m { trace = trace' }))
  unfolding wait_while
  wait_while-returns n zero m h ready = absurd (omega arith)
  wait_while-returns zero (suc rounds) m h ready =
      let idle : (bit_and (lsr_of env m) uart_lsr_thre == 0) ≡ false = ground arith in
      ((polled env m).trace, rw (get_reg-lsr env m) (rw idle refl))
  wait_while-returns (suc n) (suc rounds) m h ready =
      let (trace', waited) = wait_while-returns n rounds (polled env m) (omega arith) ready in
      elim (Bool-cases (bit_and (lsr_of env m) uart_lsr_thre == 0)) [
        | inr idle ↦ ((polled env m).trace, rw (get_reg-lsr env m) (rw idle refl))
        | inl busy ↦ (trace', rw (get_reg-lsr env m) (rw busy waited))
      ]

  putc-returns :
      (ch : ℕ) (m : Machine)
      → IsResponsive m.uart8250
      → (trace' : List Event) × (uart8250_putc env ch m ≡ ok tt (record m { trace = trace' }))
  unfolding uart8250_putc
  putc-returns ch m live =
      let (n, few, ready) = live m refl in
      let (trace1, waited) = wait_while-returns n env.patience m few ready in
      let m1 = record m { trace = trace1 } in
      (thr_write m1 ch ∷ Event.fence w_o ∷ trace1, rw waited (set_reg-thr ch m1))

  pub send_all-returns :
      (cs : List ℕ) (m : Machine)
      → IsResponsive m.uart8250
      → (trace' : List Event) × (send_all (uart8250_putc env) cs m
          ≡ ok tt (record m { trace = trace' }))
  send_all-returns [] m live = (m.trace, refl)
  send_all-returns (c ∷ cs) m live =
      let (trace1, sent) = putc-returns c m live in
      let (trace2, rest) = send_all-returns cs (record m { trace = trace1 }) live in
      (trace2, rw sent rest)
