-- ===== src/Format/Print/Frame.antt =====
-- printf of firmware/console.c writes into its own buffer of 128 bytes only.
use zstage.Base.{
  ℕ, zero, suc, ◌+◌, ◌-◌, refl, Bool, true, ◌&&◌, ◌==◌, none, some, List, [], ◌∷◌, arith, ltb,
  length,
}
use zstage.Machine.{undefined, waiting}
use zstage.Machine.Keeps.{Keeps}
use zstage.Console.{Devices, Sink, print_tbuf_max, printc, nputs}
use zstage.Console.Frame.{
  Stays, HasRoom, HasRoomBeside, pure-Stays, halt-Stays, bind-Stays, if-Stays, elim-Stays,
  Keeps-Stays, printc-Stays, prints-Stays, printi-Stays,
}
use zstage.Format.{Conversion, text, number, letter, nothing, round}
use zstage.Format.Print.{perform, flush, print_loop, print, printf}

abbrev fresh : (tbuf : ℕ) → Sink
fresh tbuf = record { out = some tbuf; out_len = some print_tbuf_max }

fresh-HasRoom : (tbuf : ℕ) → HasRoom tbuf (fresh tbuf)
fresh-HasRoom tbuf = record {
  out = tbuf;
  out_len = 128;
  is_sink = refl;
  low = omega arith;
  high = omega arith;
}

-- Nothing is said of a value.
abbrev pub Any : {A : Type 0} → A → Type 0
Any a = Unit {0}

module _ (dev : Devices) (tbuf : ℕ) (kept : (str len : ℕ) → Keeps (nputs dev str len)) where
  perform-Stays :
      (sink : Sink) (conversion : Conversion)
      → HasRoom tbuf sink
      → Stays tbuf (HasRoomBeside tbuf) (perform dev sink conversion)
  unfolding perform
  perform-Stays sink (text string width flags) room =
      prints-Stays dev tbuf sink string width flags room
  perform-Stays sink (number i b sg width flags letbase) room =
      printi-Stays dev tbuf sink i b sg width flags letbase room
  perform-Stays sink (letter c) room =
      bind-Stays tbuf (HasRoom tbuf) (HasRoomBeside tbuf) (printc dev sink c) _
        (printc-Stays dev tbuf sink c room)
        (λ sink' room'. pure-Stays tbuf (HasRoomBeside tbuf) (sink', 1) room')
  perform-Stays sink nothing room = pure-Stays tbuf (HasRoomBeside tbuf) (sink, 0) room

  flush_at :
      (use_tbuf : Bool) (out out_len : ℕ)
      → HasRoom tbuf (record { out = some out; out_len = some out_len })
      → Stays tbuf
          (HasRoom tbuf)
          (flush dev tbuf use_tbuf (record { out = some out; out_len = some out_len }))
  unfolding flush
  flush_at use_tbuf out out_len room =
      if-Stays tbuf (HasRoom tbuf) (use_tbuf && (out_len == 0)) _ _
        (bind-Stays tbuf Any (HasRoom tbuf) (nputs dev tbuf print_tbuf_max) _
          (Keeps-Stays tbuf Any (nputs dev tbuf print_tbuf_max) (kept tbuf print_tbuf_max)
            (λ u. tt))
          (λ u p. pure-Stays tbuf (HasRoom tbuf) (fresh tbuf) (fresh-HasRoom tbuf)))
        (pure-Stays tbuf (HasRoom tbuf) _ room)

  flush-Stays :
      (use_tbuf : Bool) (sink : Sink)
      → HasRoom tbuf sink
      → Stays tbuf (HasRoom tbuf) (flush dev tbuf use_tbuf sink)
  flush-Stays use_tbuf sink room =
      rw room.is_sink (flush_at use_tbuf room.out room.out_len (rw room.is_sink at room))

  module _ (string_at : ℕ → List ℕ) where
    print_loop-Stays :
        (fuel : ℕ) (use_tbuf : Bool) (sink : Sink) (format args : List ℕ) (acnt pc : ℕ)
        → HasRoom tbuf sink
        → Stays tbuf
            (HasRoomBeside tbuf)
            (print_loop string_at dev tbuf fuel use_tbuf sink format args acnt pc)
    unfolding print_loop
    print_loop-Stays zero use_tbuf sink format args acnt pc room =
        halt-Stays tbuf (HasRoomBeside tbuf) waiting
    print_loop-Stays (suc fuel) use_tbuf sink [] args acnt pc room =
        pure-Stays tbuf (HasRoomBeside tbuf) (sink, pc) room
    print_loop-Stays (suc fuel) use_tbuf sink (c ∷ format) args acnt pc room =
        bind-Stays tbuf (HasRoom tbuf) (HasRoomBeside tbuf) (flush dev tbuf use_tbuf sink) _
          (flush-Stays use_tbuf sink room)
          (λ sink1 room1.
            elim-Stays tbuf (HasRoomBeside tbuf) (round string_at c format args acnt) _ _
              (halt-Stays tbuf (HasRoomBeside tbuf) undefined)
              (λ o.
                elim-Stays tbuf (HasRoomBeside tbuf) o _ _
                  (pure-Stays tbuf (HasRoomBeside tbuf) (sink1, pc) room1)
                  (λ step.
                    bind-Stays tbuf (HasRoomBeside tbuf) (HasRoomBeside tbuf)
                      (perform dev sink1 step.conversion) _
                      (perform-Stays sink1 step.conversion room1)
                      (λ (sink2, n) room2.
                        print_loop-Stays fuel use_tbuf sink2 step.format step.args step.acnt
                          (pc + n) room2))))

    print-Stays :
        (format args : List ℕ)
        → Stays tbuf Any
            (print string_at dev tbuf (record { out = none; out_len = none }) format args)
    unfolding print
    print-Stays format args =
        bind-Stays tbuf (HasRoomBeside tbuf) Any
          (print_loop string_at dev tbuf (length format + 1) true (fresh tbuf) format args 0 0) _
          (print_loop-Stays (length format + 1) true (fresh tbuf) format args 0 0
            (fresh-HasRoom tbuf))
          (λ (sink, pc) room.
            elim-Stays tbuf Any sink.out_len _ _ (pure-Stays tbuf Any (sink, pc) tt) (λ tbuf_len.
              if-Stays tbuf Any (ltb tbuf_len print_tbuf_max) _ _
                (bind-Stays tbuf Any Any (nputs dev tbuf (print_tbuf_max - tbuf_len)) _
                  (Keeps-Stays tbuf Any _ (kept tbuf (print_tbuf_max - tbuf_len)) (λ u. tt))
                  (λ u p. pure-Stays tbuf Any (sink, pc) tt))
                (pure-Stays tbuf Any (sink, pc) tt)))

    pub printf-Stays :
        (format args : List ℕ) → Stays tbuf Any (printf string_at dev tbuf format args)
    unfolding printf
    printf-Stays format args =
        bind-Stays tbuf Any Any
          (print string_at dev tbuf (record { out = none; out_len = none }) format args) _
          (print-Stays format args) (λ (sink, pc) p. pure-Stays tbuf Any pc tt)
