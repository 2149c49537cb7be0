-- ===== src/Console/Silent.antt =====
-- Console output of firmware/console.c leaves the memory and the choice of the device alone, where
-- the functions of the device do.
use zstage.Base.{ℕ, zero, suc, ◌+◌, Option, none, some, ◌==◌}
use zstage.Machine.{Device, Cmd, get}
use zstage.Machine.Keeps.{Keeps, pure-Keeps, get-Keeps, bind-Keeps, if-Keeps}
use zstage.Console.{Devices, putc_by, putc_to, putc, nputs_loop, nputs_by, nputs_to, nputs}

-- A function of a device, where it has one.
abbrev pub KeepsBy : Option (ℕ → Cmd (Unit {0})) → Type 0
KeepsBy none = Unit {0}
KeepsBy (some out) = (ch : ℕ) → Keeps (out ch)

abbrev pub KeepsAll : Option (ℕ → ℕ → Cmd (Unit {0})) → Type 0
KeepsAll none = Unit {0}
KeepsAll (some out) = (str len : ℕ) → Keeps (out str len)

module _ (dev : Devices) (by : (d : Device) → KeepsBy ((dev d).console_putc))
    (all : (d : Device) → KeepsAll ((dev d).console_puts)) where
  putc_by-Keeps : (o : Option (ℕ → Cmd (Unit {0}))) (ch : ℕ) → KeepsBy o → Keeps (putc_by dev o ch)
  unfolding putc_by
  putc_by-Keeps none ch h = pure-Keeps tt
  putc_by-Keeps (some out) ch h =
      bind-Keeps _ (λ u. out ch) (if-Keeps (ch == b'\n') _ _ (h b'\r') (pure-Keeps tt)) (λ u. h ch)

  putc_to-Keeps : (o : Option Device) (ch : ℕ) → Keeps (putc_to dev o ch)
  unfolding putc_to
  putc_to-Keeps none ch = pure-Keeps tt
  putc_to-Keeps (some d) ch = putc_by-Keeps ((dev d).console_putc) ch (by d)

  pub putc-Keeps : (ch : ℕ) → Keeps (putc dev ch)
  unfolding putc
  putc-Keeps ch = bind-Keeps get _ get-Keeps (λ m. putc_to-Keeps m.console_dev ch)

  nputs_loop-Keeps : (len str : ℕ) → Keeps (nputs_loop dev len str)
  unfolding nputs_loop
  nputs_loop-Keeps zero str = pure-Keeps tt
  nputs_loop-Keeps (suc len) str = bind-Keeps get _ get-Keeps (λ m.
      bind-Keeps (putc dev (m.memory str)) _ (putc-Keeps (m.memory str))
        (λ u. nputs_loop-Keeps len (str + 1)))

  nputs_by-Keeps :
      (o : Option (ℕ → ℕ → Cmd (Unit {0}))) (str len : ℕ)
      → KeepsAll o
      → Keeps (nputs_by dev o str len)
  unfolding nputs_by
  nputs_by-Keeps none str len h = nputs_loop-Keeps len str
  nputs_by-Keeps (some out) str len h = h str len

  nputs_to-Keeps : (o : Option Device) (str len : ℕ) → Keeps (nputs_to dev o str len)
  unfolding nputs_to
  nputs_to-Keeps none str len = nputs_loop-Keeps len str
  nputs_to-Keeps (some d) str len = nputs_by-Keeps ((dev d).console_puts) str len (all d)

  pub nputs-Keeps : (str len : ℕ) → Keeps (nputs dev str len)
  unfolding nputs
  nputs-Keeps str len = bind-Keeps get _ get-Keeps (λ m. nputs_to-Keeps m.console_dev str len)
