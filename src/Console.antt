-- ===== src/Console.antt =====
-- firmware/console.c but print and its callers: putc, nputs, puts, printc, prints, printi, and the
-- console device.
-- A string that is only read is given by its characters. A `char **out` with its `u32 *out_len`
-- is a `Sink` that is passed on; a `long long` is its 64-bit pattern; the bits of `flags` are a
-- record. `int` counts are numbers, since their overflow is undefined.
pub mod Emit
pub mod Digits
pub mod Spelled
pub mod Number
pub mod Buffer
pub mod Fits
pub mod Wire
pub mod Silent
pub mod Returns
pub mod Frame
use zstage.Base.{
  ℕ, zero, suc, ◌+◌, ◌-◌, ◌*◌, ◌/◌, ◌%◌, ◌^◌, Bool, true, false, not, ◌&&◌, ◌||◌, Option, none,
  some, List, [], ◌∷◌, ◌==◌, ltb, leb, if◌then◌else◌, length,
}
use zstage.Memory.{store}
use zstage.CString.{strlen}
use zstage.Machine.{
  Device, Machine, Cmd, pure, halt, undefined, waiting, ◌>>=◌, ◌>>◌, get, put, and_then,
}

-- `struct zstage_console_device`; a function that is NULL is `none`.
pub record ConsoleDevice : Type 0 where
  pub name : List ℕ
  pub console_putc : Option (ℕ → Cmd (Unit {0}))
  pub console_puts : Option (ℕ → ℕ → Cmd (Unit {0}))

-- The structure that each pointer to a console device leads to.
abbrev pub Devices : Type 0
Devices = Device → ConsoleDevice

pub isprintable : ℕ → Bool
isprintable c =
    (ltb 31 c && ltb c 127) || (c == 0x0c) || (c == b'\r') || (c == b'\n') || (c == b'\t')

abbrev pub print_buf_len : ℕ
print_buf_len = 64

abbrev pub print_tbuf_max : ℕ
print_tbuf_max = 128

pub record Flags : Type 0 where
  pub right : Bool
  pub zero : Bool
  pub alternate : Bool

-- `out` is `*out` where the caller gave an `out`, and `out_len` likewise.
pub record Sink : Type 0 where
  pub out : Option ℕ
  pub out_len : Option ℕ

-- What `prints` writes to the left and to the right of the string.
abbrev pub field_width : List ℕ → ℕ → ℕ
field_width string width =
    if ltb 0 width then (if leb width (length string) then 0 else width - length string) else width

abbrev pub pad_char : ℕ → Flags → ℕ
pad_char width flags = if ltb 0 width && flags.zero then b'0' else b' '

-- `while (u) { … *--s = t + '0'; }`: the buffer fills from its end, so a digit goes in front.
-- The rounds are the slots left in `print_buf`; past them the store would miss the buffer.
unfoldable pub digits : (slots u b letbase : ℕ) → List ℕ → Option (List ℕ)
digits zero u b letbase s = if u == 0 then some s else none
digits (suc slots) u b letbase s =
    let t = u % b in
    let t' = if leb 10 t then t + letbase - b'0' - 10 else t in
    let rest = digits slots (u / b) b letbase (((t' + b'0') % 2 ^ 8) ∷ s) in
    if u == 0 then some s else rest

abbrev pub is_negative64 : ℕ → Bool
is_negative64 i = leb (2 ^ 63) i

-- `*--s = c;`: the characters up to the NUL at the end of `print_buf` grow by one at the front;
-- `none` where the store would miss the buffer.
unfoldable pub store_front : (c : ℕ) → List ℕ → Option (List ℕ)
store_front c s = if ltb (length s + 1) print_buf_len then some (c ∷ s) else none

-- `if (!u) *--s = '0'; else while (u) …`
unfoldable pub store_digits : (u b letbase : ℕ) → Option (List ℕ)
unfolding digits store_front
store_digits u b letbase =
    let s = digits (print_buf_len - 1) u b letbase [] in if u == 0 then store_front b'0' [] else s

-- `PAD_ALTERNATE`: the base's letter, then a 0 in front of it.
unfoldable pub alternate_prefix : Bool → (b letbase : ℕ) → List ℕ → Option (List ℕ)
unfolding store_front
alternate_prefix alternate b letbase s =
    let with_letter =
      if (b == 16) && (letbase == b'A')
      then store_front b'X' s
      else if (b == 16) && (letbase == b'a')
      then store_front b'x' s
      else some s in
    if alternate then elim with_letter [ none ↦ none | some s' ↦ store_front b'0' s' ] else some s

-- What `printi` stores before the sign.
unfoldable pub store_number : (alternate : Bool) (u b letbase : ℕ) → Option (List ℕ)
unfolding store_digits alternate_prefix
store_number alternate u b letbase = elim (store_digits u b letbase) [
  | none ↦ none
  | some s ↦ alternate_prefix alternate b letbase s
]

module _ (dev : Devices) where
  -- `putc` with `console_dev`, NULL or a device, and then with its `console_putc`.
  putc_by : Option (ℕ → Cmd (Unit {0})) → ℕ → Cmd (Unit {0})
  putc_by none ch = pure tt
  putc_by (some out) ch = (if ch == b'\n' then out b'\r' else pure tt) >> out ch

  putc_to : Option Device → ℕ → Cmd (Unit {0})
  unfolding putc_by
  putc_to none ch = pure tt
  putc_to (some d) ch = putc_by ((dev d).console_putc) ch

  pub putc : ℕ → Cmd (Unit {0})
  unfolding putc_to
  putc ch = do m ← get; putc_to m.console_dev ch

  -- `for (i = 0; i < len; i++) putc(str[i]);`
  nputs_loop : (len str : ℕ) → Cmd (Unit {0})
  nputs_loop zero str = pure tt
  nputs_loop (suc len) str = do m ← get; putc (m.memory str); nputs_loop len (str + 1)

  -- `nputs` likewise.
  nputs_by : Option (ℕ → ℕ → Cmd (Unit {0})) → (str len : ℕ) → Cmd (Unit {0})
  unfolding nputs_loop
  nputs_by none str len = nputs_loop len str
  nputs_by (some out) str len = out str len

  nputs_to : Option Device → (str len : ℕ) → Cmd (Unit {0})
  unfolding nputs_by nputs_loop
  nputs_to none str len = nputs_loop len str
  nputs_to (some d) str len = nputs_by ((dev d).console_puts) str len

  pub nputs : (str len : ℕ) → Cmd (Unit {0})
  unfolding nputs_to
  nputs str len = do m ← get; nputs_to m.console_dev str len

  pub puts : (fuel str : ℕ) → Cmd (Unit {0})
  puts fuel str = do
    m ← get
    elim (strlen fuel m.memory str) [ none ↦ halt waiting | some len ↦ nputs str len ]

  pub printc : Sink → (ch : ℕ) → Cmd Sink
  printc sink ch = elim sink.out [
    | none ↦ putc ch >> pure sink
    | some out ↦ elim sink.out_len [
      | none ↦ do
        m ← get
        put (record m { memory = store (store m.memory out ch) (out + 1) 0 })
        pure (record sink { out = some (out + 1) })
      | some n ↦
          if ltb 1 n
          then (do
            m ← get
            put (record m { memory = store (store m.memory out ch) (out + 1) 0 })
            pure (record { out = some (out + 1); out_len = some (n - 1) }))
          else pure (record sink { out_len = some (n - 1) })
    ]
  ]

  -- `for (; n > 0; --n) { printc(out, out_len, ch); ++pc; }`
  printc_times : (n ch : ℕ) → Sink → (pc : ℕ) → Cmd (Sink × ℕ)
  printc_times zero ch sink pc = pure (sink, pc)
  printc_times (suc n) ch sink pc = do sink' ← printc sink ch; printc_times n ch sink' (pc + 1)

  -- `for (; *string; ++string) { printc(out, out_len, *string); ++pc; }`
  unfoldable pub printc_each : List ℕ → Sink → (pc : ℕ) → Cmd (Sink × ℕ)
  printc_each [] sink pc = pure (sink, pc)
  printc_each (c ∷ string) sink pc = do sink' ← printc sink c; printc_each string sink' (pc + 1)

  pub prints : Sink → (string : List ℕ) → (width : ℕ) → Flags → Cmd (Sink × ℕ)
  unfolding printc_times printc_each
  prints sink string width flags = do
    let wide = field_width string width
    let padchar = pad_char width flags
    (sink, pc) ← printc_times (if flags.right then 0 else wide) padchar sink 0
    (sink, pc) ← printc_each string sink pc
    printc_times (if flags.right then wide else 0) padchar sink pc

  -- The end of `printi`: the sign, where there is one, and the field.
  pub print_signed : Sink → (neg : Bool) (s : List ℕ) (width : ℕ) → Flags → Cmd (Sink × ℕ)
  unfolding store_front
  print_signed sink neg s width flags =
      if neg && ltb 0 width && flags.zero
      then (do
        sink ← printc sink b'-'
        (sink, pc) ← prints sink s (width - 1) flags
        pure (sink, 1 + pc))
      else elim (if neg then store_front b'-' s else some s) [
        | none ↦ halt undefined
        | some s' ↦ prints sink s' width flags
      ]

  pub printi : Sink → (i b : ℕ) (sg : Bool) (width : ℕ) → Flags → (letbase : ℕ) → Cmd (Sink × ℕ)
  unfolding store_number print_signed
  printi sink i b sg width flags letbase =
      let neg = sg && (b == 10) && is_negative64 i in
      let u = if neg then (2 ^ 64 - i) % 2 ^ 64 else i in
      elim (store_number flags.alternate u b letbase) [
        | none ↦ halt undefined
        | some s ↦ print_signed sink neg s width flags
      ]

unfoldable pub console_get_device : Cmd (Option Device)
console_get_device = do m ← get; pure m.console_dev

-- The first device stays; NULL is `none`.
pub console_set_device : Option Device → Cmd (Unit {0})
console_set_device dev = do
  m ← get
  elim dev [
    | none ↦ pure tt
    | some d ↦ elim m.console_dev [
      | none ↦ put (record m { console_dev = some d })
      | some e ↦ pure tt
    ]
  ]
