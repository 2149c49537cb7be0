-- ===== src/Format.antt =====
-- How print of firmware/console.c reads its format, one conversion at a time.
-- The format is given by its characters. The `va_list` is the list of its 64-bit slots, as RV64
-- passes variadic arguments; a `char *` in a slot points at the string that `string_at` tells.
-- `decode` reads one conversion, from behind its `%` to its last character, and `round` is the
-- loop's body up to the call that prints; the calls are in Format/Print.antt.
pub mod Print
pub mod Progress
use zstage.Base.{
  ℕ, zero, suc, ◌+◌, ◌-◌, ◌*◌, ◌/◌, ◌%◌, ◌^◌, Bool, true, false, not, ◌&&◌, ◌||◌, Option, none,
  some, List, [], ◌∷◌, ◌==◌, ltb, leb, if◌then◌else◌, length,
}
use mathlib.Core.Option
use zstage.Machine.{
  Device, Machine, Cmd, pure, halt, undefined, hung, waiting, ◌>>=◌, ◌>>◌, get, put, and_then,
}
use zstage.Console.{Devices, Flags, Sink, print_tbuf_max, printc, prints, printi, nputs}

-- What a conversion calls, and where it leaves the format, the arguments and `acnt`.
pub data Conversion : Type 0 where
  text : (string : List ℕ) (width : ℕ) → Flags → Conversion
  number : (i b : ℕ) (sg : Bool) (width : ℕ) → Flags → (letbase : ℕ) → Conversion
  letter : (c : ℕ) → Conversion
  nothing : Conversion

pub record Step : Type 0 where
  pub conversion : Conversion
  pub format : List ℕ
  pub args : List ℕ
  pub acnt : ℕ

abbrev next_is : ℕ → List ℕ → Bool
next_is c [] = false
next_is c (d ∷ ds) = d == c

abbrev rest : List ℕ → List ℕ
rest [] = []
rest (d ∷ ds) = ds

-- `while (*format == '0')`: the characters left and whether there was one.
zeros : List ℕ → Bool → List ℕ × Bool
zeros [] seen = ([], seen)
zeros (c ∷ cs) seen = let more = zeros cs true in if c == b'0' then more else (c ∷ cs, seen)

digits_of_width : List ℕ → ℕ → List ℕ × ℕ
digits_of_width [] width = ([], width)
digits_of_width (c ∷ cs) width =
    let more = digits_of_width cs (width * 10 + (c - b'0')) in
    if leb b'0' c && leb c b'9' then more else (c ∷ cs, width)

-- `va_arg(args, int)`, widened to `long long`.
abbrev sign_extend : ℕ → ℕ
sign_extend a = let w = a % 2 ^ 32 in if ltb w (2 ^ 31) then w else w + 2 ^ 64 - 2 ^ 32

-- `while (acnt & (sizeof(unsigned long long) - 1)) { va_arg(args, int); acnt += sizeof(int); }`
align_args : List ℕ → ℕ → Option (List ℕ × ℕ)
align_args [] acnt = if acnt % 8 == 0 then some ([], acnt) else none
align_args (a ∷ args) acnt =
    let more = align_args args (acnt + 4) in if acnt % 8 == 0 then some (a ∷ args, acnt) else more

-- An argument is taken, with `acnt` raised by the size that the source adds.
abbrev take_arg : List ℕ → (ℕ → List ℕ → Option Step) → Option Step
take_arg [] use_arg = none
take_arg (a ∷ args) use_arg = use_arg a args

-- `%ll`, with the format behind the two letters.
decode_long_long : (format args : List ℕ) (acnt : ℕ) (width : ℕ) → Flags → Option Step
unfolding align_args
decode_long_long format args acnt width flags = elim (align_args args acnt) [
  | none ↦ none
  | some (args', acnt') ↦ take_arg args' λ tmp left. some (
      if next_is b'u' format
      then record {
        conversion = number tmp 10 false width flags b'a';
        format = rest format;
        args = left;
        acnt = acnt' + 8;
      }
      else if next_is b'x' format
      then record {
        conversion = number tmp 16 false width flags b'a';
        format = rest format;
        args = left;
        acnt = acnt' + 8;
      }
      else if next_is b'X' format
      then record {
        conversion = number tmp 16 false width flags b'A';
        format = rest format;
        args = left;
        acnt = acnt' + 8;
      }
      else record {
        conversion = number tmp 10 true width flags b'0';
        format = format;
        args = left;
        acnt = acnt' + 8;
      })
]

-- `%l`, with the format behind the letter. `%lu` leaves `acnt` alone. The test for `%c` that
-- follows in the source never holds here, since `*format` is `l`, `u`, `x` or `X`.
decode_long : (format args : List ℕ) (acnt : ℕ) (width : ℕ) → Flags → Option Step
decode_long format args acnt width flags = take_arg args λ a left. some (
    if next_is b'u' format
    then record {
      conversion = number a 10 false width flags b'a';
      format = rest format;
      args = left;
      acnt = acnt;
    }
    else if next_is b'x' format
    then record {
      conversion = number a 16 false width flags b'a';
      format = rest format;
      args = left;
      acnt = acnt + 8;
    }
    else if next_is b'X' format
    then record {
      conversion = number a 16 false width flags b'A';
      format = rest format;
      args = left;
      acnt = acnt + 8;
    }
    else record {
      conversion = number a 10 true width flags b'0';
      format = format;
      args = left;
      acnt = acnt + 8;
    })

-- `printc(out, out_len, *format); ++pc;` at the character `c`.
abbrev letter_step : (c : ℕ) (format args : List ℕ) (acnt : ℕ) → Step
letter_step c format args acnt = record {
  conversion = letter c;
  format = format;
  args = args;
  acnt = acnt;
}

module _ (string_at : ℕ → List ℕ) where
  -- `s ? s : "(null)"`
  abbrev string_of : ℕ → List ℕ
  string_of a = if a == 0 then b'(' ∷ b'n' ∷ b'u' ∷ b'l' ∷ b'l' ∷ b')' ∷ [] else string_at a

  -- `scr`: an empty string where the character is NUL.
  abbrev scr : ℕ → List ℕ
  scr a = if a % 2 ^ 8 == 0 then [] else (a % 2 ^ 8) ∷ []

  -- The conversion by its letter `c`, with the format behind it.
  decode_letter : (c : ℕ) (format args : List ℕ) (acnt : ℕ) (width : ℕ) → Flags → Option Step
  unfolding decode_long_long decode_long
  decode_letter c format args acnt width flags =
      let step = λ (n : ℕ) (conversion : ℕ → Conversion). take_arg args λ a left.
        some
          (record { conversion = conversion a; format = format; args = left; acnt = acnt + n }) in
      if c == b's'
      then step 8 (λ a. text (string_of a) width flags)
      else if (c == b'd') || (c == b'i')
      then step 4 (λ a. number (sign_extend a) 10 true width flags b'0')
      else if c == b'x'
      then step 4 (λ a. number (a % 2 ^ 32) 16 false width flags b'a')
      else if c == b'X'
      then step 4 (λ a. number (a % 2 ^ 32) 16 false width flags b'A')
      else if c == b'u'
      then step 4 (λ a. number (a % 2 ^ 32) 10 false width flags b'a')
      else if c == b'p'
      then step 8 (λ a. number a 16 false width flags b'a')
      else if c == b'P'
      then step 8 (λ a. number a 16 false width flags b'A')
      else if c == b'l'
      then (if next_is b'l' format
          then decode_long_long (rest format) args acnt width flags
          else decode_long format args acnt width flags)
      else if c == b'c'
      then step 4 (λ a. text (scr a) width flags)
      else some (record { conversion = nothing; format = format; args = args; acnt = acnt })

  -- A format that ends inside a conversion is read past its NUL: `none`, as for an argument that
  -- was not passed.
  pub decode : (format args : List ℕ) (acnt : ℕ) → Option Step
  unfolding zeros digits_of_width decode_letter
  decode format args acnt =
      let right = next_is b'-' format in
      let format' = if right then rest format else format in
      let alternate = next_is b'#' format' in
      let (format', zero') = zeros (if alternate then rest format' else format') false in
      let (format', width) = digits_of_width format' 0 in
      let flags : Flags = record { right = right; zero = zero'; alternate = alternate } in
      elim format' [ [] ↦ none | c ∷ cs ↦ decode_letter c cs args acnt width flags ]

  -- One round of the loop, at the character `c`: `some none` is the `break` at a `%` that ends
  -- the format, and a `letter` is what the label `out` prints, `%%` included.
  unfoldable pub round : (c : ℕ) (format args : List ℕ) (acnt : ℕ) → Option (Option Step)
  unfolding decode
  round c format args acnt =
      let found = decode format args acnt in
      if c == b'%'
      then (if next_is b'%' format
          then some (some (letter_step b'%' (rest format) args acnt))
          else if leb (length format) 0
          then some none
          else Option.map some found)
      else some (some (letter_step c format args acnt))
