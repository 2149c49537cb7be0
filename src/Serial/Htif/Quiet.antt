-- ===== src/Serial/Htif/Quiet.antt =====
-- The putc of firmware/serial/htif.c leaves the memory and the console device alone.
use zstage.Base.{ℕ, zero, suc, ◌==◌, not, refl}
use zstage.Machine.{Outside, get, trapped, waiting}
use zstage.Machine.Keeps.{
  Keeps, pure-Keeps, halt-Keeps, get-Keeps, modify-Keeps, bind-Keeps, if-Keeps,
}
use zstage.Serial.Mmio.Quiet.{raw_readq-Keeps, raw_writeq-Keeps}
use zstage.Serial.Htif.{
  fromhost_dev, fromhost_cmd, set_console_buf, handle_fromhost, check_fromhost, drain, htif_putc,
}

set_console_buf-Keeps : (value : ℕ) → Keeps (set_console_buf value)
unfolding set_console_buf
set_console_buf-Keeps value = modify-Keeps _ (λ m. (refl, refl))

module _ (env : Outside) (tohost fromhost : ℕ) where
  handle_fromhost-Keeps : (fh : ℕ) → Keeps (handle_fromhost env tohost fromhost fh)
  unfolding handle_fromhost
  handle_fromhost-Keeps fh =
      bind-Keeps _ _ (bind-Keeps get _ get-Keeps (λ m. raw_writeq-Keeps 0 _)) (λ u.
        if-Keeps (not (fromhost_dev fh == 1)) _ _ (halt-Keeps trapped) (
          if-Keeps (fromhost_cmd fh == 0) _ _ (set_console_buf-Keeps _)
            (if-Keeps (fromhost_cmd fh == 1) _ _ (pure-Keeps tt) (halt-Keeps trapped))))

  check_fromhost-Keeps : Keeps (check_fromhost env tohost fromhost)
  unfolding check_fromhost
  check_fromhost-Keeps =
      bind-Keeps _ _ (bind-Keeps get _ get-Keeps (λ m. raw_readq-Keeps env _))
        (λ fh. if-Keeps (fh == 0) _ _ (pure-Keeps tt) (handle_fromhost-Keeps fh))

  drain-Keeps : (rounds : ℕ) → Keeps (drain env tohost fromhost rounds)
  unfolding drain
  drain-Keeps zero = halt-Keeps waiting
  drain-Keeps (suc rounds) =
      bind-Keeps _ _ (bind-Keeps get _ get-Keeps (λ m. raw_readq-Keeps env _)) (λ th.
        if-Keeps (th == 0) _ _ (pure-Keeps tt)
          (bind-Keeps _ _ check_fromhost-Keeps (λ u. drain-Keeps rounds)))

  pub htif_putc-Keeps : (ch : ℕ) → Keeps (htif_putc env tohost fromhost ch)
  unfolding htif_putc
  htif_putc-Keeps ch =
      bind-Keeps _ _ (drain-Keeps env.patience)
        (λ u. bind-Keeps get _ get-Keeps (λ m. raw_writeq-Keeps _ _))
