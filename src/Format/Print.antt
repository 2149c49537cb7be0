-- ===== src/Format/Print.antt =====
-- print of firmware/console.c, with sprintf, snprintf, printf and panic. `tbuf` is the address of
-- the buffer on the stack. `print_loop` is the loop over the format: fuel bounds its rounds, each
-- of which takes a character or more.
pub mod Render
pub mod Calls
pub mod Rounds
pub mod Frame
pub mod Flushes
pub mod Ends
use zstage.Base.{
  ℕ, zero, suc, ◌+◌, ◌-◌, Bool, true, false, ◌&&◌, Option, none, some, List, [], ◌∷◌, ◌==◌, ltb,
  if◌then◌else◌, length,
}
use zstage.Machine.{Machine, Cmd, pure, halt, undefined, hung, waiting, ◌>>=◌, ◌>>◌, and_then}
use zstage.Console.{Devices, Sink, print_tbuf_max, printc, prints, printi, nputs}
use zstage.Format.{Conversion, text, number, letter, nothing, Step, round}

module _ (dev : Devices) where
  pub perform : Sink → Conversion → Cmd (Sink × ℕ)
  perform sink (text string width flags) = prints dev sink string width flags
  perform sink (number i b sg width flags letbase) = printi dev sink i b sg width flags letbase
  perform sink (letter c) = do sink' ← printc dev sink c; pure (sink', 1)
  perform sink nothing = pure (sink, 0)

module _ (dev : Devices) (tbuf : ℕ) where
  -- `if (use_tbuf && !tbuf_len) { nputs(tbuf, PRINT_TBUF_MAX); … }`
  flush : (use_tbuf : Bool) → Sink → Cmd Sink
  flush use_tbuf sink = elim sink.out_len [
    | none ↦ pure sink
    | some tbuf_len ↦
        if use_tbuf && (tbuf_len == 0)
        then (do
          nputs dev tbuf print_tbuf_max
          pure (record { out = some tbuf; out_len = some print_tbuf_max }))
        else pure sink
  ]

module _ (string_at : ℕ → List ℕ) (dev : Devices) (tbuf : ℕ) where
  pub print_loop :
      (fuel : ℕ) (use_tbuf : Bool) → Sink → (format args : List ℕ) (acnt pc : ℕ) → Cmd (Sink × ℕ)
  print_loop zero use_tbuf sink format args acnt pc = halt waiting
  print_loop (suc fuel) use_tbuf sink [] args acnt pc = pure (sink, pc)
  print_loop (suc fuel) use_tbuf sink (c ∷ format) args acnt pc = do
    sink ← flush dev tbuf use_tbuf sink
    elim (round string_at c format args acnt) [
      | none ↦ halt undefined
      | some none ↦ pure (sink, pc)
      | some (some step) ↦ do
        (sink, n) ← perform dev sink step.conversion
        print_loop fuel use_tbuf sink step.format step.args step.acnt (pc + n)
    ]

  -- `print`; one round more than the format has characters.
  pub print : Sink → (format args : List ℕ) → Cmd (Sink × ℕ)
  unfolding print_loop
  print sink format args = elim sink.out [
    | some p ↦ print_loop (length format + 1) false sink format args 0 0
    | none ↦ do
      (sink, pc) ←
          print_loop (length format + 1) true
            (record { out = some tbuf; out_len = some print_tbuf_max }) format args 0 0
      elim sink.out_len [
        | none ↦ pure (sink, pc)
        | some tbuf_len ↦
            if ltb tbuf_len print_tbuf_max
            then nputs dev tbuf (print_tbuf_max - tbuf_len) >> pure (sink, pc)
            else pure (sink, pc)
      ]
  ]

  pub sprintf : (out : ℕ) (format args : List ℕ) → Cmd ℕ
  sprintf out format args = do
    (sink, pc) ← print (record { out = some out; out_len = none }) format args
    pure pc

  pub snprintf : (out out_sz : ℕ) (format args : List ℕ) → Cmd ℕ
  snprintf out out_sz format args = do
    (sink, pc) ← print (record { out = some out; out_len = some out_sz }) format args
    pure pc

  pub printf : (format args : List ℕ) → Cmd ℕ
  printf format args = do
    (sink, pc) ← print (record { out = none; out_len = none }) format args
    pure pc

  pub panic : {A : Type 0} → (format args : List ℕ) → Cmd A
  panic format args = printf format args >> halt hung
