-- ===== src/Console/Emit.antt =====
-- What prints and printi print, as lists of characters that go through printc one by one.
use zstage.Base.{
  ℕ, zero, suc, ◌+◌, ◌-◌, ◌≡◌, refl, ap, sym, ◌∙◌, List, [], ◌∷◌, ◌++◌, if◌then◌else◌, length,
  length-append, length-replicate, replicate, arith, max, Bool-cases, inl, inr,
}
use mathlib.Core.List.{append-nil}
use zstage.Machine.{Machine, pure, and_then}
use zstage.Machine.Laws.{and_then_assoc, and_then_cong}
use zstage.Console.{
  Devices, Flags, Sink, field_width, pad_char, printc, printc_times, printc_each, prints,
}

-- The string in its field.
unfoldable pub padded : List ℕ → (width : ℕ) → Flags → List ℕ
padded string width flags =
    let pad = replicate (width - length string) (pad_char width flags) in
    if flags.right then string ++ pad else pad ++ string

-- A field is as wide as its string, and as `width` where that is more.
pub length-padded :
    (string : List ℕ) (width : ℕ) (flags : Flags)
    → length (padded string width flags) ≡ max (length string) width
unfolding padded
length-padded string width flags = ground (
  arith,
  length-append string (replicate (width - length string) (pad_char width flags)),
  length-append (replicate (width - length string) (pad_char width flags)) string,
  length-replicate (width - length string) (pad_char width flags),
)

both_sides :
    (string : List ℕ) (width : ℕ) (flags : Flags)
    → replicate (if flags.right then 0 else field_width string width) (pad_char width flags)
        ++ (string
            ++ replicate
                (if flags.right then field_width string width else 0)
                (pad_char width flags))
      ≡ padded string width flags
unfolding padded
both_sides string width flags =
    let room : field_width string width ≡ width - length string = ground arith in
    elim (Bool-cases flags.right) [ inl r ↦ rw (r, room) | inr l ↦ rw (l, room, append-nil) ]

module _ (dev : Devices) where
  pub printc_each-append :
      (xs ys : List ℕ) (sink : Sink) (pc : ℕ) (m : Machine)
      → printc_each dev (xs ++ ys) sink pc m
        ≡ and_then (printc_each dev xs sink pc m) (λ (sink', n). printc_each dev ys sink' n)
  unfolding printc_each
  printc_each-append [] ys sink pc m = refl
  printc_each-append (c ∷ xs) ys sink pc m =
      and_then_cong (printc dev sink c m) _ _
        (λ sink' m'. printc_each-append xs ys sink' (pc + 1) m')
      ∙ sym (and_then_assoc (printc dev sink c m) _ _)

  -- The count that a call starts from is added to the count that it returns.
  pub printc_each-count :
      (cs : List ℕ) (sink : Sink) (pc n : ℕ) (m : Machine)
      → and_then (printc_each dev cs sink n m) (λ (sink', k). pure (sink', pc + k))
        ≡ printc_each dev cs sink (pc + n) m
  unfolding printc_each
  printc_each-count [] sink pc n m = refl
  printc_each-count (c ∷ cs) sink pc n m =
      and_then_assoc (printc dev sink c m) _ _
      ∙ and_then_cong (printc dev sink c m) _ _ (λ sink' m'.
        printc_each-count cs sink' pc (n + 1) m'
        ∙ ap (λ k. printc_each dev cs sink' k m') (omega arith))

  printc_times-each :
      (n ch : ℕ) (sink : Sink) (pc : ℕ) (m : Machine)
      → printc_times dev n ch sink pc m ≡ printc_each dev (replicate n ch) sink pc m
  unfolding printc_times printc_each
  printc_times-each zero ch sink pc m = refl
  printc_times-each (suc n) ch sink pc m =
      and_then_cong (printc dev sink ch m) _ _
        (λ sink' m'. printc_times-each n ch sink' (pc + 1) m')

  in_parts :
      (l r ch : ℕ) (string : List ℕ) (sink : Sink) (m : Machine)
      → and_then (printc_times dev l ch sink 0 m) (λ (s, n) m'.
        and_then (printc_each dev string s n m') (λ (s', n'). printc_times dev r ch s' n'))
        ≡ printc_each dev (replicate l ch ++ (string ++ replicate r ch)) sink 0 m
  in_parts l r ch string sink m = rw (printc_times-each l ch sink 0 m) (
      and_then_cong (printc_each dev (replicate l ch) sink 0 m) _ _ (λ (s, n) m'.
        and_then_cong (printc_each dev string s n m') _ _
          (λ (s', n') m''. printc_times-each r ch s' n' m'')
        ∙ sym (printc_each-append string (replicate r ch) s n m'))
      ∙ sym (printc_each-append (replicate l ch) (string ++ replicate r ch) sink 0 m))

  -- `prints` prints the string in its field, and counts the characters from 0.
  pub prints-padded :
      (string : List ℕ) (width : ℕ) (flags : Flags) (sink : Sink) (m : Machine)
      → prints dev sink string width flags m ≡ printc_each dev (padded string width flags) sink 0 m
  unfolding prints
  prints-padded string width flags sink m =
      in_parts (if flags.right then 0 else field_width string width)
        (if flags.right then field_width string width else 0) (pad_char width flags) string sink m
      ∙ ap (λ cs. printc_each dev cs sink 0 m) (both_sides string width flags)
