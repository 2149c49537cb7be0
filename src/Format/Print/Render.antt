-- ===== src/Format/Print/Render.antt =====
-- print of firmware/console.c against a renderer: what a format and its arguments stand for.
use zstage.Base.{
  ℕ, zero, suc, ◌+◌, ◌≡◌, refl, ap, sym, ◌∙◌, Bool, Option, none, some, List, [], ◌∷◌, ◌++◌, length,
  arith, Option-cases, inl, inr, length-append,
}
use mathlib.Core.Option
use zstage.Machine.{Machine, pure, ok, and_then}
use zstage.Machine.Laws.{and_then_assoc, and_then_cong_at}
use zstage.Console.{Devices, Sink, printc_each}
use zstage.Console.Fits.{Fits, printc_each-Fits}
use zstage.Console.Emit.{padded, prints-padded, printc_each-append, printc_each-count}
use zstage.Console.Number.{number_text, printi-number_text}
use zstage.Format.{Conversion, text, number, letter, nothing, Step, round}
use zstage.Format.Progress.{AreWords, IsPrintable, IsRound, round_good}
use zstage.Format.Print.{perform, flush, print_loop}

-- The characters that one conversion stands for.
unfoldable pub conversion_text : Conversion → List ℕ
conversion_text (text string width flags) = padded string width flags
conversion_text (number i b sg width flags letbase) = number_text i b sg width flags letbase
conversion_text (letter c) = c ∷ []
conversion_text nothing = []

-- The characters that a format stands for; `none` where the program reads past the format or
-- past the arguments. One round more than the format has characters is enough.
unfoldable pub render_loop :
    (fuel : ℕ) (string_at : ℕ → List ℕ) (format args : List ℕ) (acnt : ℕ) → Option (List ℕ)
render_loop zero string_at format args acnt = none
render_loop (suc fuel) string_at [] args acnt = some []
render_loop (suc fuel) string_at (c ∷ format) args acnt =
    elim (round string_at c format args acnt) [
      | none ↦ none
      | some none ↦ some []
      | some (some step) ↦
          Option.map (λ cs. conversion_text step.conversion ++ cs)
            (render_loop fuel string_at step.format step.args step.acnt)
    ]

unfoldable pub render : (string_at : ℕ → List ℕ) (format args : List ℕ) → Option (List ℕ)
unfolding render_loop
render string_at format args = render_loop (length format + 1) string_at format args 0

module _ (dev : Devices) where
  pub perform-conversion_text :
      (conversion : Conversion) (sink : Sink) (m : Machine)
      → IsPrintable conversion
      → perform dev sink conversion m ≡ printc_each dev (conversion_text conversion) sink 0 m
  unfolding perform conversion_text printc_each
  perform-conversion_text (text string width flags) sink m p =
      prints-padded dev string width flags sink m
  perform-conversion_text (number i b sg width flags letbase) sink m (base, l) =
      printi-number_text dev sink i b sg width flags letbase m base l
  perform-conversion_text (letter c) sink m p = refl
  perform-conversion_text nothing sink m p = refl

  -- Two runs of `printc`, the second counting on from the first.
  pub printc_each-then :
      (xs ys : List ℕ) (sink : Sink) (pc : ℕ) (m : Machine)
      → and_then (printc_each dev xs sink 0 m) (λ (sink', n). printc_each dev ys sink' (pc + n))
        ≡ printc_each dev (xs ++ ys) sink pc m
  printc_each-then xs ys sink pc m =
      sym (
        and_then_assoc (printc_each dev xs sink 0 m) (λ (sink', k). pure (sink', pc + k))
          (λ (sink', n). printc_each dev ys sink' n))
      ∙ ap (λ r. and_then r (λ (sink', n). printc_each dev ys sink' n))
          (printc_each-count dev xs sink pc 0 m
            ∙ ap (λ k. printc_each dev xs sink k m) (omega arith))
      ∙ sym (printc_each-append dev xs ys sink pc m)

module _ (string_at : ℕ → List ℕ) (dev : Devices) (tbuf : ℕ) (use_tbuf : Bool) where
  flush_not_due :
      (sink : Sink) (n : ℕ) (m : Machine)
      → Fits use_tbuf sink n
      → flush dev tbuf use_tbuf sink m ≡ ok sink m
  unfolding flush
  flush_not_due sink n m (inl unused) = ground arith
  flush_not_due sink n m (inr (p, k, s, h)) = rw s (ground arith)

  -- What the loop does from a step on, with `fuel` rounds left.
  abbrev FromStep : ℕ → Type 0
  FromStep fuel =
      (sink : Sink) (step : Step) (pc : ℕ) (cs : List ℕ) (m : Machine)
      → AreWords step.args
      → render_loop fuel string_at step.format step.args step.acnt ≡ some cs
      → Fits use_tbuf sink (length cs)
      → print_loop string_at dev tbuf fuel use_tbuf sink step.format step.args step.acnt pc m
        ≡ printc_each dev cs sink pc m

  one_round :
      (fuel : ℕ) (sink : Sink) (c : ℕ) (format args : List ℕ) (acnt pc : ℕ) (cs : List ℕ)
      (m : Machine) (o : Option (Option Step))
      → round string_at c format args acnt ≡ o
      → IsRound (length format) o
      → FromStep fuel
      → render_loop (suc fuel) string_at (c ∷ format) args acnt ≡ some cs
      → Fits use_tbuf sink (length cs)
      → print_loop string_at dev tbuf (suc fuel) use_tbuf sink (c ∷ format) args acnt pc m
        ≡ printc_each dev cs sink pc m
  unfolding print_loop render_loop printc_each
  one_round fuel sink c format args acnt pc cs m none e g ih r fits =
      let bad : none ≡ some cs = rw (render_loop, e) at r in cc
  one_round fuel sink c format args acnt pc cs m (some none) e g ih r fits =
      let empty : some [] ≡ some cs = rw (render_loop, e) at r in
      let empty : [] ≡ cs = cc in rw (print_loop, flush_not_due sink (length cs) m fits, e, ← empty)
  one_round fuel sink c format args acnt pc cs m (some (some step)) e g ih r fits =
      elim (Option-cases (render_loop fuel string_at step.format step.args step.acnt)) [
        | inl none_e ↦ let bad : none ≡ some cs = rw (render_loop, e, none_e) at r in cc
        | inr (left, left_e) ↦
            let now = conversion_text step.conversion in
            let all : some (now ++ left) ≡ some cs = rw (render_loop, e, left_e) at r in
            let all : now ++ left ≡ cs = ground arith in
            let room : Fits use_tbuf sink (length now + length left) =
              rw (← length-append now left, all) fits in
            rw
              (
                print_loop,
                flush_not_due sink (length cs) m fits,
                e,
                ← all,
                perform-conversion_text dev step.conversion sink m g.printable,
              )
              (and_then_cong_at (printc_each dev now sink 0 m) _ _ (λ (sink', n) m' run.
                  ih sink' step (pc + n) left m' g.words left_e
                    (printc_each-Fits dev use_tbuf now sink sink' 0 n (length left) m m' run room))
                ∙ printc_each-then dev now left sink pc m)
      ]

  -- While no flush is due, the loop is one run of `printc` over what the format stands for.
  pub print_loop-render_loop :
      (fuel : ℕ) (sink : Sink) (format args : List ℕ) (acnt pc : ℕ) (cs : List ℕ) (m : Machine)
      → AreWords args
      → render_loop fuel string_at format args acnt ≡ some cs
      → Fits use_tbuf sink (length cs)
      → print_loop string_at dev tbuf fuel use_tbuf sink format args acnt pc m
        ≡ printc_each dev cs sink pc m
  unfolding print_loop render_loop printc_each
  print_loop-render_loop zero sink format args acnt pc cs m w e fits = cc
  print_loop-render_loop (suc fuel) sink [] args acnt pc cs m w e fits =
      let empty : [] ≡ cs = ground arith in rw (← empty)
  print_loop-render_loop (suc fuel) sink (c ∷ format) args acnt pc cs m w e fits =
      one_round fuel sink c format args acnt pc cs m _ refl
        (round_good string_at c format args acnt w)
        (λ sink' step pc' cs' m' w' e' fits'.
          print_loop-render_loop fuel sink' step.format step.args step.acnt pc' cs' m' w' e' fits')
        e fits
