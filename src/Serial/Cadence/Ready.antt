-- ===== src/Serial/Cadence/Ready.antt =====
-- When the putc of firmware/serial/cadence-uart.c writes.
use Prim.Native.Nat.{bit_and}
use zstage.Base.{
  ℕ, zero, suc, ◌+◌, ◌*◌, ◌%◌, ◌^◌, ◌≡◌, ◌⊎◌, inl, inr, refl, Bool, not, ◌==◌, List, ◌∷◌,
  Bool-cases, arith,
}
use zstage.Machine.{i_r, w_o, Outside, Machine, Event, Cmd, ok, stop, waiting, pure, ◌>>=◌}
use zstage.Serial.Mmio.{access, raw_writel, readl, writel, wait_while}
use zstage.Serial.Cadence.{
  uart_reg_csr, uart_reg_rfifo_tfifo, uart_csr_tful, get_reg, set_reg, cadence_uart_putc,
}

module _ (env : Outside) where
  abbrev is_full : Cmd Bool
  unfolding get_reg
  is_full = do csr ← get_reg env uart_reg_csr; pure (not (bit_and csr uart_csr_tful == 0))

  wait_while-is_full :
      (rounds : ℕ) (m : Machine)
      → ((csr : ℕ) × (older : List Event) × (wait_while env rounds is_full m
            ≡ ok tt (record m {
              trace = Event.fence i_r ∷ Event.read 4 (m.cadence.base + uart_reg_csr) csr ∷ older;
            }))
          × (bit_and csr uart_csr_tful ≡ 0))
        ⊎ ((trace' : List Event) × (wait_while env rounds is_full m
              ≡ stop waiting (record m { trace = trace' })))
  unfolding wait_while get_reg readl access
  wait_while-is_full zero m = inr (m.trace, refl)
  wait_while-is_full (suc rounds) m =
      let addr = m.cadence.base + uart_reg_csr in
      let csr = env.answer m.trace 4 addr % 2 ^ (8 * 4) in
      let m' = record m { trace = Event.fence i_r ∷ Event.read 4 addr csr ∷ m.trace } in
      elim (Bool-cases (bit_and csr uart_csr_tful == 0)) [
        | inl ready ↦ inl (csr, m.trace, rw ready refl, ground arith)
        | inr full ↦ elim (wait_while-is_full rounds m') [
          | inl (csr', older, done, ready) ↦ inl (csr', older, rw full done, ready)
          | inr (trace', out) ↦ inr (trace', rw full out)
        ]
      ]

  -- `cadence_uart_putc` either returns, and the last that left the core is its write of the
  -- character, behind a read of the status in which the FIFO is not full, with the fences of both
  -- in between and nothing else; or it is still waiting at the end of its rounds. Either way nothing changed but the trace.
  pub cadence_uart_putc-ready :
      (ch : ℕ) (m : Machine)
      → ((csr : ℕ) × (older : List Event) × (cadence_uart_putc env ch m
            ≡ ok tt (record m {
              trace =
                  Event.write 4 (m.cadence.base + uart_reg_rfifo_tfifo) (ch % 2 ^ 32)
                  ∷ Event.fence w_o
                  ∷ Event.fence i_r
                  ∷ Event.read 4 (m.cadence.base + uart_reg_csr) csr
                  ∷ older;
            }))
          × (bit_and csr uart_csr_tful ≡ 0))
        ⊎ ((trace' : List Event) × (cadence_uart_putc env ch m
              ≡ stop waiting (record m { trace = trace' })))
  unfolding cadence_uart_putc set_reg writel raw_writel get_reg
  cadence_uart_putc-ready ch m = elim (wait_while-is_full env.patience m) [
    | inl (csr, older, done, ready) ↦ inl (csr, older, rw done refl, ready)
    | inr (trace', out) ↦ inr (trace', rw out refl)
  ]
