-- ===== src/Format/Print/Ends.antt =====
-- print of firmware/console.c comes to its end.
use zstage.Base.{ℕ, ◌≡◌, ◌≢◌, Bool, some, List}
use zstage.Machine.{Machine, Run, Stop, ok, stop, undefined, waiting}
use zstage.Console.{Devices, Sink, nputs}
use zstage.Format.Print.{print_loop}

-- A run that returns with `Q`, or stops otherwise than by waiting.
abbrev Ends : {A : Type 0} → (A → Type 0) → Run A → Type 0
Ends Q (ok a m) = Q a
Ends Q (stop s m) = s ≢ waiting

abbrev Any : {A : Type 0} → A → Type 0
Any a = Unit {0}

stop_of : {A : Type 0} → Run A → Stop
stop_of (ok a m) = undefined
stop_of (stop s m) = s

-- The characters go to memory.
abbrev HasOut : Sink → Type 0
HasOut sink = (p : ℕ) × (sink.out ≡ some p)

abbrev HasOutBeside : Sink × ℕ → Type 0
HasOutBeside (sink, pc) = HasOut sink

-- Every call of `nputs` ends otherwise than by waiting.
abbrev pub NputsEnds : Devices → Type 0
NputsEnds dev = (str len : ℕ) (m m' : Machine) → nputs dev str len m ≢ stop waiting m'

module _ (dev : Devices) where
  module _ (tbuf : ℕ) (ends : NputsEnds dev) where
    module _ (string_at : ℕ → List ℕ) (use_tbuf : Bool) where
      -- From any sink in memory, with `fuel` rounds left.
      abbrev LoopEnds : (fuel : ℕ) → (format args : List ℕ) → ℕ → Type 0
      LoopEnds fuel format args acnt =
          (sink : Sink) (pc : ℕ) (m : Machine)
          → HasOut sink
          → Ends HasOutBeside
              (print_loop string_at dev tbuf fuel use_tbuf sink format args acnt pc m)
