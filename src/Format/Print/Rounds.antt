-- ===== src/Format/Print/Rounds.antt =====
-- The rounds that the loop of print is given are enough.
use zstage.Base.{
  ℕ, zero, suc, ◌+◌, ◌<◌, ◌≤◌, ◌≡◌, refl, Bool, Option, none, some, List, [], ◌∷◌, length, arith,
}
use zstage.Machine.{Machine}
use zstage.Machine.Laws.{and_then_cong}
use zstage.Console.{Devices, Sink}
use zstage.Format.{Step, round}
use zstage.Format.Progress.{AreWords, IsRound, round_good}
use zstage.Format.Print.{perform, flush, print_loop}

module _ (string_at : ℕ → List ℕ) (dev : Devices) (tbuf : ℕ) (use_tbuf : Bool) where
  one_round_alike :
      (f g c : ℕ) (format args : List ℕ) (acnt pc : ℕ) (sink : Sink) (m : Machine)
      (o : Option (Option Step))
      → round string_at c format args acnt ≡ o
      → IsRound (length format) o
      → ((sink' : Sink) (step : Step) (pc' : ℕ) (m' : Machine)
          → AreWords step.args
          → length step.format ≤ length format
          → print_loop string_at dev tbuf f use_tbuf sink' step.format step.args step.acnt pc' m'
            ≡ print_loop string_at dev tbuf g use_tbuf sink' step.format step.args step.acnt pc' m')
      → print_loop string_at dev tbuf (suc f) use_tbuf sink (c ∷ format) args acnt pc m
        ≡ print_loop string_at dev tbuf (suc g) use_tbuf sink (c ∷ format) args acnt pc m
  unfolding print_loop
  one_round_alike f g c format args acnt pc sink m none e r ih = rw (print_loop, e) refl
  one_round_alike f g c format args acnt pc sink m (some none) e r ih = rw (print_loop, e) refl
  one_round_alike f g c format args acnt pc sink m (some (some step)) e r ih =
      rw (print_loop, e)
        (and_then_cong (flush dev tbuf use_tbuf sink m) _ _ (λ sink' m'.
          and_then_cong (perform dev sink' step.conversion m') _ _
            (λ (sink'', n) m''. ih sink'' step (pc + n) m'' r.words r.shorter)))

  -- From 64-bit arguments, any number of rounds above the length of the format gives the same run:
  -- the loop over the format never ends for want of rounds.
  pub print_loop_rounds :
      (f g : ℕ) (format args : List ℕ) (acnt pc : ℕ) (sink : Sink) (m : Machine)
      → AreWords args
      → length format < f
      → length format < g
      → print_loop string_at dev tbuf f use_tbuf sink format args acnt pc m
        ≡ print_loop string_at dev tbuf g use_tbuf sink format args acnt pc m
  unfolding print_loop
  print_loop_rounds zero g format args acnt pc sink m w h k = absurd (omega arith)
  print_loop_rounds (suc f) zero format args acnt pc sink m w h k = absurd (omega arith)
  print_loop_rounds (suc f) (suc g) [] args acnt pc sink m w h k = refl
  print_loop_rounds (suc f) (suc g) (c ∷ format) args acnt pc sink m w h k =
      one_round_alike f g c format args acnt pc sink m _ refl
        (round_good string_at c format args acnt w)
        (λ sink' step pc' m' w' s.
          print_loop_rounds f g step.format step.args step.acnt pc' sink' m' w' (omega arith)
            (omega arith))
