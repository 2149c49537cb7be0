-- ===== src/Console/Fits.antt =====
-- Where print of firmware/console.c has its own buffer: when there is room left in it.
use zstage.Base.{
  ℕ, ◌+◌, ◌-◌, ◌<◌, ◌≡◌, Bool, false, some, List, take, ap, sym, ◌∙◌, length, arith, inl, inr, ◌⊎◌,
}
use zstage.Machine.{Machine, Run, ok, stop}
use zstage.Console.Buffer.{printc_each-bounded}
use zstage.Console.{Devices, Sink, printc_each}

-- The buffer from `*out` on, with `*out_len` at `k`.
abbrev pub buffer : (p k : ℕ) → Sink
buffer p k = record { out = some p; out_len = some k }

-- No flush is due within the next `n` characters.
abbrev pub Fits : (use_tbuf : Bool) → Sink → ℕ → Type 0
Fits use_tbuf sink n = (use_tbuf ≡ false) ⊎ ((p : ℕ) × (k : ℕ) × (sink ≡ buffer p k) × (n < k))

abbrev sink_of : Run (Sink × ℕ) → Sink
sink_of (ok (sink, pc) m) = sink
sink_of (stop s m) = buffer 0 0

-- Characters take their number from the room.
pub printc_each-Fits :
    (dev : Devices) (use_tbuf : Bool) (cs : List ℕ) (sink sink' : Sink) (pc pc' n : ℕ)
    (m m' : Machine)
    → printc_each dev cs sink pc m ≡ ok (sink', pc') m'
    → Fits use_tbuf sink (length cs + n)
    → Fits use_tbuf sink' n
printc_each-Fits dev use_tbuf cs sink sink' pc pc' n m m' e (inl unused) = inl unused
printc_each-Fits dev use_tbuf cs sink sink' pc pc' n m m' e (inr (p, k, s, h)) =
    let run = rw s at e in
    inr (
      p + length (take (k - 1) cs),
      k - length cs,
      sym (ap sink_of run) ∙ ap sink_of (printc_each-bounded dev cs p k pc m),
      omega arith,
    )
