-- ===== src/Format/Progress.antt =====
-- What reading a conversion gives: a call that printi and prints can serve, arguments that are
-- still words, and no more format than there was.
use zstage.Base.{
  ℕ, ◌+◌, ◌-◌, ◌*◌, ◌%◌, ◌^◌, ◌<◌, ◌≤◌, Bool, true, false, ◌||◌, Option, none, some, List, [], ◌∷◌,
  ◌==◌, leb, if◌then◌else◌, length, arith,
}
use mathlib.Core.Option
use zstage.Console.{Flags}
use zstage.Console.Digits.{IsBase}
use zstage.Format.{
  Conversion, text, number, letter, nothing, Step, next_is, rest, zeros, digits_of_width,
  align_args, take_arg, decode_long_long, decode_long, decode_letter, decode, round,
}

-- Every argument is a 64-bit word.
abbrev pub AreWords : List ℕ → Type 0
AreWords [] = Unit {0}
AreWords (a ∷ args) = (a < 2 ^ 64) × AreWords args

-- A number has a base that `printi` has digits for, and 64 bits.
abbrev pub IsPrintable : Conversion → Type 0
IsPrintable (text string width flags) = Unit {0}
IsPrintable (number i b sg width flags letbase) = IsBase b letbase × (i < 2 ^ 64)
IsPrintable (letter c) = Unit {0}
IsPrintable nothing = Unit {0}

pub record IsGood (n : ℕ) (step : Step) : Type 0 where
  pub printable : IsPrintable step.conversion
  pub words : AreWords step.args
  pub shorter : length step.format ≤ n

abbrev IsGood? : ℕ → Option Step → Type 0
IsGood? n none = Unit {0}
IsGood? n (some step) = IsGood n step

if_good :
    (n : ℕ) (b : Bool) (x y : Option Step)
    → IsGood? n x
    → IsGood? n y
    → IsGood? n (if b then x else y)
if_good n true x y h k = h
if_good n false x y h k = k

if_some-IsGood :
    (n : ℕ) (b : Bool) (x y : Step) → IsGood n x → IsGood n y → IsGood n (if b then x else y)
if_some-IsGood n true x y h k = h
if_some-IsGood n false x y h k = k

take_arg_good :
    (n : ℕ) (args : List ℕ) (use_arg : ℕ → List ℕ → Option Step)
    → AreWords args
    → ((a : ℕ) (left : List ℕ) → a < 2 ^ 64 → AreWords left → IsGood? n (use_arg a left))
    → IsGood? n (take_arg args use_arg)
take_arg_good n [] use_arg w h = tt
take_arg_good n (a ∷ args) use_arg w h = h a args w.0 w.1

abbrev AreAligned : Option (List ℕ × ℕ) → Type 0
AreAligned none = Unit {0}
AreAligned (some (args, acnt)) = AreWords args

if_aligned :
    (b : Bool) (x y : Option (List ℕ × ℕ))
    → AreAligned x
    → AreAligned y
    → AreAligned (if b then x else y)
if_aligned true x y h k = h
if_aligned false x y h k = k

align_args_words : (args : List ℕ) (acnt : ℕ) → AreWords args → AreAligned (align_args args acnt)
unfolding align_args
align_args_words [] acnt w = if_aligned (acnt % 8 == 0) _ none w tt
align_args_words (a ∷ args) acnt w =
    if_aligned (acnt % 8 == 0) _ _ w (align_args_words args (acnt + 4) w.1)

length-rest : (cs : List ℕ) → length (rest cs) ≤ length cs
length-rest [] = omega arith
length-rest (c ∷ cs) = omega arith

length-zeros : (cs : List ℕ) (seen : Bool) → length (zeros cs seen).0 ≤ length cs
unfolding zeros
length-zeros [] seen = omega arith
length-zeros (c ∷ cs) seen = ground (arith, length-zeros cs true)

length-digits_of_width : (cs : List ℕ) (w : ℕ) → length (digits_of_width cs w).0 ≤ length cs
unfolding digits_of_width
length-digits_of_width [] w = omega arith
length-digits_of_width (c ∷ cs) w = ground (arith, length-digits_of_width cs (w * 10 + (c - b'0')))

lower16 : IsBase 16 b'a'
lower16 = omega arith

upper16 : IsBase 16 b'A'
upper16 = omega arith

base10 : (letbase : ℕ) → IsBase 10 letbase
base10 letbase = omega arith

-- A number that a step prints, with the arguments and the format that it leaves.
number-IsGood :
    (n i b : ℕ) (sg : Bool) (width : ℕ) (flags : Flags) (letbase : ℕ) (format args : List ℕ)
    (acnt : ℕ)
    → IsBase b letbase
    → i < 2 ^ 64
    → AreWords args
    → length format ≤ n
    → IsGood n (record {
      conversion = number i b sg width flags letbase;
      format = format;
      args = args;
      acnt = acnt;
    })
number-IsGood n i b sg width flags letbase format args acnt base l w s = record {
  printable = (base, l);
  words = w;
  shorter = s;
}

decode_long_good :
    (n : ℕ) (format args : List ℕ) (acnt width : ℕ) (flags : Flags)
    → AreWords args
    → length format ≤ n
    → IsGood? n (decode_long format args acnt width flags)
unfolding decode_long
decode_long_good n format args acnt width flags w s =
    let shorter : length (rest format) ≤ n = omega (arith, length-rest format) in
    take_arg_good n args _ w (λ a left l lw.
      if_some-IsGood n (next_is b'u' format) _ _
        (number-IsGood n a 10 _ _ _ _ _ _ _ (base10 _) l lw shorter)
        (if_some-IsGood n (next_is b'x' format) _ _
          (number-IsGood n a 16 _ _ _ _ _ _ _ lower16 l lw shorter)
          (if_some-IsGood n (next_is b'X' format) _ _
            (number-IsGood n a 16 _ _ _ _ _ _ _ upper16 l lw shorter)
            (number-IsGood n a 10 _ _ _ _ _ _ _ (base10 _) l lw s))))

aligned_good :
    (n : ℕ) (o : Option (List ℕ × ℕ))
    → AreAligned o
    → (k : List ℕ → ℕ → Option Step)
    → ((args : List ℕ) (acnt : ℕ) → AreWords args → IsGood? n (k args acnt))
    → IsGood? n (elim o [ none ↦ none | some (args', acnt') ↦ k args' acnt' ])
aligned_good n none w k h = tt
aligned_good n (some (args, acnt)) w k h = h args acnt w

decode_long_long_good :
    (n : ℕ) (format args : List ℕ) (acnt width : ℕ) (flags : Flags)
    → AreWords args
    → length format ≤ n
    → IsGood? n (decode_long_long format args acnt width flags)
unfolding decode_long_long
decode_long_long_good n format args acnt width flags w s =
    let shorter : length (rest format) ≤ n = omega (arith, length-rest format) in
    aligned_good n (align_args args acnt) (align_args_words args acnt w) _ (λ args' acnt' w'.
      take_arg_good n args' _ w' (λ a left l lw.
        if_some-IsGood n (next_is b'u' format) _ _
          (number-IsGood n a 10 _ _ _ _ _ _ _ (base10 _) l lw shorter)
          (if_some-IsGood n (next_is b'x' format) _ _
            (number-IsGood n a 16 _ _ _ _ _ _ _ lower16 l lw shorter)
            (if_some-IsGood n (next_is b'X' format) _ _
              (number-IsGood n a 16 _ _ _ _ _ _ _ upper16 l lw shorter)
              (number-IsGood n a 10 _ _ _ _ _ _ _ (base10 _) l lw s)))))

module _ (string_at : ℕ → List ℕ) (n : ℕ) where
  -- A conversion that takes one argument and leaves the format as it is.
  one_arg_good :
      (format args : List ℕ) (acnt size : ℕ) (conversion : ℕ → Conversion)
      → AreWords args
      → length format ≤ n
      → ((a : ℕ) → a < 2 ^ 64 → IsPrintable (conversion a))
      → IsGood? n (
          take_arg args λ a left. some (record {
            conversion = conversion a;
            format = format;
            args = left;
            acnt = acnt + size;
          }))
  one_arg_good format args acnt size conversion w s h =
      take_arg_good n args _ w
        (λ a left l lw. record { printable = h a l; words = lw; shorter = s })

  decode_letter_good :
      (c : ℕ) (format args : List ℕ) (acnt width : ℕ) (flags : Flags)
      → AreWords args
      → length format ≤ n
      → IsGood? n (decode_letter string_at c format args acnt width flags)
  unfolding decode_letter
  decode_letter_good c format args acnt width flags w s =
      let one = one_arg_good format args acnt in
      let shorter : length (rest format) ≤ n = omega (arith, length-rest format) in
      if_good n (c == b's') _ _ (one 8 _ w s (λ a l. tt)) (
        if_good n ((c == b'd') || (c == b'i')) _ _ (one 4 _ w s (λ a l. (base10 _, ground arith))) (
          if_good n (c == b'x') _ _ (one 4 _ w s (λ a l. (lower16, omega arith))) (
            if_good n (c == b'X') _ _ (one 4 _ w s (λ a l. (upper16, omega arith))) (
              if_good n (c == b'u') _ _ (one 4 _ w s (λ a l. (base10 _, omega arith))) (
                if_good n (c == b'p') _ _ (one 8 _ w s (λ a l. (lower16, l))) (
                  if_good n (c == b'P') _ _ (one 8 _ w s (λ a l. (upper16, l))) (
                    if_good n (c == b'l') _ _
                      (if_good n (next_is b'l' format) _ _
                        (decode_long_long_good n (rest format) args acnt width flags w shorter)
                        (decode_long_good n format args acnt width flags w s))
                      (if_good n (c == b'c') _ _ (one 4 _ w s (λ a l. tt))
                        (record { printable = tt; words = w; shorter = s })))))))))

  behind_flags_good :
      (format args : List ℕ) (acnt width : ℕ) (flags : Flags)
      → AreWords args
      → length format ≤ n
      → IsGood? n
          (elim format [ [] ↦ none | c ∷ cs ↦ decode_letter string_at c cs args acnt width flags ])
  behind_flags_good [] args acnt width flags w s = tt
  behind_flags_good (c ∷ cs) args acnt width flags w s =
      decode_letter_good c cs args acnt width flags w (omega arith)

  decode_good :
      (format args : List ℕ) (acnt : ℕ)
      → AreWords args
      → length format ≤ n
      → IsGood? n (decode string_at format args acnt)
  unfolding decode
  decode_good format args acnt w s =
      let f1 = if next_is b'-' format then rest format else format in
      let f2 = if next_is b'#' f1 then rest f1 else f1 in
      behind_flags_good (digits_of_width (zeros f2 false).0 0).0 args acnt _ _ w (
        ground (
          arith,
          length-digits_of_width (zeros f2 false).0 0,
          length-zeros f2 false,
          length-rest f1,
          length-rest format,
        ))

-- The step of a round leaves less of the format than the round began with.
abbrev pub IsRound : ℕ → Option (Option Step) → Type 0
IsRound n none = Unit {0}
IsRound n (some none) = Unit {0}
IsRound n (some (some step)) = IsGood n step

if-IsRound :
    (n : ℕ) (b : Bool) (x y : Option (Option Step))
    → IsRound n x
    → IsRound n y
    → IsRound n (if b then x else y)
if-IsRound n true x y h k = h
if-IsRound n false x y h k = k

map-IsRound : (n : ℕ) (o : Option Step) → IsGood? n o → IsRound n (Option.map some o)
map-IsRound n none h = tt
map-IsRound n (some step) h = h

-- From words a round makes a call that `printi` and `prints` can serve, and it leaves words and
-- no more of the format than stood behind its character.
pub round_good :
    (string_at : ℕ → List ℕ) (c : ℕ) (format args : List ℕ) (acnt : ℕ)
    → AreWords args
    → IsRound (length format) (round string_at c format args acnt)
unfolding round
round_good string_at c format args acnt w =
    let n = length format in
    if-IsRound n (c == b'%') _ _
      (if-IsRound n (next_is b'%' format) _ _
        (record { printable = tt; words = w; shorter = length-rest format })
        (if-IsRound n (leb n 0) _ _ tt
          (map-IsRound n _ (decode_good string_at n format args acnt w (omega arith)))))
      (record { printable = tt; words = w; shorter = omega arith })
