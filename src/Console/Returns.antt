-- ===== src/Console/Returns.antt =====
-- Console output of firmware/console.c returns where the functions of the device do.
use zstage.Base.{ℕ, zero, suc, ◌+◌, Option, none, some, ◌==◌}
use zstage.Machine.{Device, Cmd, get}
use zstage.Machine.Total.{IsTotal, pure-IsTotal, get-IsTotal, bind-IsTotal, if-IsTotal}
use zstage.Console.{Devices, putc_by, putc_to, putc, nputs_loop, nputs_by, nputs_to, nputs}

-- A function of a device, where it has one.
abbrev pub TotalBy : Option (ℕ → Cmd (Unit {0})) → Type 0
TotalBy none = Unit {0}
TotalBy (some out) = (ch : ℕ) → IsTotal (out ch)

abbrev pub TotalAll : Option (ℕ → ℕ → Cmd (Unit {0})) → Type 0
TotalAll none = Unit {0}
TotalAll (some out) = (str len : ℕ) → IsTotal (out str len)

module _ (dev : Devices) (by : (d : Device) → TotalBy ((dev d).console_putc))
    (all : (d : Device) → TotalAll ((dev d).console_puts)) where
  putc_by-IsTotal :
      (o : Option (ℕ → Cmd (Unit {0}))) (ch : ℕ) → TotalBy o → IsTotal (putc_by dev o ch)
  unfolding putc_by
  putc_by-IsTotal none ch h = pure-IsTotal tt
  putc_by-IsTotal (some out) ch h =
      bind-IsTotal _ (λ u. out ch) (if-IsTotal (ch == b'\n') _ _ (h b'\r') (pure-IsTotal tt))
        (λ u. h ch)

  putc_to-IsTotal : (o : Option Device) (ch : ℕ) → IsTotal (putc_to dev o ch)
  unfolding putc_to
  putc_to-IsTotal none ch = pure-IsTotal tt
  putc_to-IsTotal (some d) ch = putc_by-IsTotal ((dev d).console_putc) ch (by d)

  pub putc-IsTotal : (ch : ℕ) → IsTotal (putc dev ch)
  unfolding putc
  putc-IsTotal ch = bind-IsTotal get _ get-IsTotal (λ m. putc_to-IsTotal m.console_dev ch)

  nputs_loop-IsTotal : (len str : ℕ) → IsTotal (nputs_loop dev len str)
  unfolding nputs_loop
  nputs_loop-IsTotal zero str = pure-IsTotal tt
  nputs_loop-IsTotal (suc len) str = bind-IsTotal get _ get-IsTotal (λ m.
      bind-IsTotal (putc dev (m.memory str)) _ (putc-IsTotal (m.memory str))
        (λ u. nputs_loop-IsTotal len (str + 1)))

  nputs_by-IsTotal :
      (o : Option (ℕ → ℕ → Cmd (Unit {0}))) (str len : ℕ)
      → TotalAll o
      → IsTotal (nputs_by dev o str len)
  unfolding nputs_by
  nputs_by-IsTotal none str len h = nputs_loop-IsTotal len str
  nputs_by-IsTotal (some out) str len h = h str len

  nputs_to-IsTotal : (o : Option Device) (str len : ℕ) → IsTotal (nputs_to dev o str len)
  unfolding nputs_to
  nputs_to-IsTotal none str len = nputs_loop-IsTotal len str
  nputs_to-IsTotal (some d) str len = nputs_by-IsTotal ((dev d).console_puts) str len (all d)

  pub nputs-IsTotal : (str len : ℕ) → IsTotal (nputs dev str len)
  unfolding nputs
  nputs-IsTotal str len =
      bind-IsTotal get _ get-IsTotal (λ m. nputs_to-IsTotal m.console_dev str len)
