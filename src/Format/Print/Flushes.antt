-- ===== src/Format/Print/Flushes.antt =====
-- printf of firmware/console.c for a text that fills its buffer: what each flush hands to nputs.
use zstage.Base.{
  ℕ, zero, suc, ◌+◌, ◌-◌, ◌≤◌, ◌<◌, ◌≡◌, refl, ap, sym, ◌∙◌, true, false, none, some, List, [], ◌∷◌,
  ◌++◌, ◌==◌, ltb, if◌then◌else◌, length, take, arith, lt→ltb, length-append,
}
use mathlib.Core.List.{append-nil}
use zstage.Machine.{Machine, Cmd, pure, ok, and_then, ◌>>=◌, ◌>>◌}
use zstage.Machine.Laws.{and_then_assoc, and_then_cong}
use zstage.Console.{Devices, Sink, print_tbuf_max, printc_each, nputs}
use zstage.Console.Buffer.{text_memory, printc_each-bounded, printc-counts}
use zstage.Format.{letter_step, round}
use zstage.Format.Print.{perform, flush, print_loop, print, printf}

-- A format without conversions.
unfoldable pub IsPlain : List ℕ → Type 0
IsPlain [] = Unit {0}
IsPlain (c ∷ format) = ((c == b'%') ≡ false) × IsPlain format

IsPlain-append : (xs ys : List ℕ) → IsPlain (xs ++ ys) → IsPlain xs × IsPlain ys
unfolding IsPlain
IsPlain-append [] ys h = (tt, h)
IsPlain-append (x ∷ xs) ys (now, later) =
    let (left, right) = IsPlain-append xs ys later in ((now, left), right)

-- The pieces of 128 characters, and what is behind them.
unfoldable pub AreFull : List (List ℕ) → Type 0
AreFull [] = Unit {0}
AreFull (piece ∷ pieces) = (length piece ≡ 128) × AreFull pieces

unfoldable pub joined : List (List ℕ) → List ℕ → List ℕ
joined [] end = end
joined (piece ∷ pieces) end = piece ++ joined pieces end

joined-some :
    (pieces : List (List ℕ)) (end : List ℕ) → 0 < length end → 0 < length (joined pieces end)
unfolding joined
joined-some [] end h = h
joined-some (piece ∷ pieces) end h =
    let more = joined-some pieces end h in
    rw (length-append piece (joined pieces end)) (omega arith)

round-plain :
    (string_at : ℕ → List ℕ) (c : ℕ) (format args : List ℕ) (acnt : ℕ)
    → (c == b'%') ≡ false
    → round string_at c format args acnt ≡ some (some (letter_step c format args acnt))
unfolding round
round-plain string_at c format args acnt h = rw h refl

taken : (n : ℕ) → n ≤ 128 → 128 - (128 - n) ≡ n
taken n h = omega arith

abbrev sink_at : (p n : ℕ) → Sink
sink_at p n = record { out = some p; out_len = some n }

module _ (dev : Devices) (tbuf : ℕ) where
  -- A piece of up to 128 characters: the buffer holds 127 of them with a NUL behind them, and
  -- `nputs` gets as many bytes as the piece has characters.
  unfoldable pub hand_over : List ℕ → Cmd (Unit {0})
  hand_over piece m =
      nputs dev tbuf (length piece)
        (record m { memory = text_memory m.memory tbuf (take 127 piece) })

  unfoldable pub hand_all : List (List ℕ) → List ℕ → Cmd (Unit {0})
  unfolding hand_over
  hand_all [] end = hand_over end
  hand_all (piece ∷ pieces) end = hand_over piece >> hand_all pieces end

  flush_not_due :
      (p n : ℕ) (m : Machine) → flush dev tbuf true (sink_at p (suc n)) m ≡ ok (sink_at p (suc n)) m
  unfolding flush
  flush_not_due p n m = ground arith

  module _ (string_at : ℕ → List ℕ) (args : List ℕ) where
    abbrev loop : (fuel : ℕ) → Sink → List ℕ → (pc : ℕ) → Cmd (Sink × ℕ)
    loop fuel sink format pc = print_loop string_at dev tbuf fuel true sink format args 0 pc

    -- Plain characters that the buffer has room for.
    loop-printc_each :
        (xs ys : List ℕ) (fuel p n pc : ℕ) (m : Machine)
        → IsPlain xs
        → length xs ≤ n
        → loop (length xs + fuel) (sink_at p n) (xs ++ ys) pc m
          ≡ and_then (printc_each dev xs (sink_at p n) pc m) (λ (sink, pc'). loop fuel sink ys pc')
    unfolding IsPlain printc_each print_loop perform
    loop-printc_each [] ys fuel p n pc m plain room =
        ap (λ k. loop k (sink_at p n) ys pc m) (omega arith)
    loop-printc_each (x ∷ xs) ys fuel p zero pc m plain room = absurd (omega arith)
    loop-printc_each (x ∷ xs) ys fuel p (suc n) pc m (now, later) room =
        let (q, m', one) = printc-counts dev x p n m in
        let more : suc (length xs) + fuel ≡ suc (length xs + fuel) = omega arith in
        rw
          (
            more,
            print_loop,
            round-plain string_at x (xs ++ ys) args 0 now,
            flush_not_due p n m,
            one,
          )
          (loop-printc_each xs ys fuel q n (pc + 1) m' later (omega arith))

    -- A flush that is due at the next character.
    loop-flush :
        (fuel p c : ℕ) (format : List ℕ) (pc : ℕ) (m : Machine)
        → loop (suc fuel) (sink_at p 0) (c ∷ format) pc m
          ≡ and_then
              (nputs dev tbuf 128 m)
              (λ _. loop (suc fuel) (sink_at tbuf 128) (c ∷ format) pc)
    unfolding print_loop flush
    loop-flush fuel p c format pc m = and_then_assoc (nputs dev tbuf 128 m) _ _

    loop-piece :
        (piece rest : List ℕ) (fuel pc : ℕ) (m : Machine)
        → length piece ≡ 128
        → IsPlain piece
        → 0 < length rest
        → loop (length piece + suc fuel) (sink_at tbuf 128) (piece ++ rest) pc m
          ≡ and_then (hand_over piece m) (λ _. loop (suc fuel) (sink_at tbuf 128) rest (pc + 128))
    unfolding hand_over
    loop-piece piece [] fuel pc m full plain more = absurd (omega arith)
    loop-piece piece (c ∷ format) fuel pc m full plain more =
        loop-printc_each piece (c ∷ format) (suc fuel) tbuf 128 pc m plain (omega arith)
        ∙ rw (printc_each-bounded dev piece tbuf 128 pc m, full)
            (loop-flush fuel (tbuf + length (take 127 piece)) c format (pc + 128)
              (record m { memory = text_memory m.memory tbuf (take 127 piece) }))

    -- What print does behind its loop, and printf behind print.
    abbrev finish : Sink × ℕ → Cmd ℕ
    finish (sink, pc) =
        elim sink.out_len [
          | none ↦ pure (sink, pc)
          | some n ↦
              if ltb n print_tbuf_max
              then nputs dev tbuf (print_tbuf_max - n) >> pure (sink, pc)
              else pure (sink, pc)
        ]
        >>= λ (sink', pc'). pure pc'

    loop-end :
        (end : List ℕ) (pc : ℕ) (m : Machine)
        → IsPlain end
        → 0 < length end
        → length end ≤ 128
        → and_then (loop (length end + 1) (sink_at tbuf 128) end pc m) finish
          ≡ and_then (hand_over end m) (λ _. pure (pc + length end))
    unfolding hand_over print_loop
    loop-end end pc m plain some_char few =
        ap (λ format. and_then (loop (length end + 1) (sink_at tbuf 128) format pc m) finish)
          (sym (append-nil end))
        ∙ rw
            (
              loop-printc_each end [] 1 tbuf 128 pc m plain few,
              printc_each-bounded dev end tbuf 128 pc m,
              lt→ltb (128 - length end) 128 (omega arith),
              taken (length end) few,
            )
            (and_then_assoc (nputs dev tbuf (length end) _) _ _)

    loop-joined :
        (pieces : List (List ℕ)) (end : List ℕ) (fuel pc : ℕ) (m : Machine)
        → AreFull pieces
        → IsPlain (joined pieces end)
        → 0 < length end
        → length end ≤ 128
        → fuel ≡ length (joined pieces end) + 1
        → and_then (loop fuel (sink_at tbuf 128) (joined pieces end) pc m) finish
          ≡ and_then (hand_all pieces end m) (λ _. pure (pc + length (joined pieces end)))
    unfolding AreFull joined hand_all
    loop-joined [] end fuel pc m full plain some_char few enough =
        rw enough (loop-end end pc m plain some_char few)
    loop-joined (piece ∷ pieces) end fuel pc m (now, full) plain some_char few enough =
        let rest = joined pieces end in
        let (here, later) = IsPlain-append piece rest plain in
        let all : length (piece ++ rest) ≡ 128 + length rest =
          rw (length-append piece rest, now) refl in
        let rounds : fuel ≡ length piece + suc (length rest) = omega arith in
        let more : 0 < length rest = joined-some pieces end some_char in
        rw (rounds, loop-piece piece rest (length rest) pc m now here more)
          (and_then_assoc (hand_over piece m) _ _
            ∙ and_then_cong (hand_over piece m) _ _ (λ u m'.
              loop-joined pieces end (suc (length rest)) (pc + 128) m' full later some_char few
                (omega arith)
              ∙ ap (λ n. and_then (hand_all pieces end m') (λ _. pure n)) (omega arith))
            ∙ sym (and_then_assoc (hand_over piece m) _ _))

    -- For a format without conversions, of at least one character, cut into pieces of 128
    -- characters and a last one of at most 128, `printf` hands the pieces to `nputs` one after the
    -- other, each from its buffer, and returns the length of the format where they return. Of a
    -- piece of 128 characters the buffer holds the first 127 and a NUL, so the last is lost.
    pub printf-hand_all :
        (pieces : List (List ℕ)) (end : List ℕ) (m : Machine)
        → AreFull pieces
        → IsPlain (joined pieces end)
        → 0 < length end
        → length end ≤ 128
        → printf string_at dev tbuf (joined pieces end) args m
          ≡ (hand_all pieces end >> pure (length (joined pieces end))) m
    unfolding printf print
    printf-hand_all pieces end m full plain some_char few =
        and_then_assoc (loop (length (joined pieces end) + 1) (sink_at tbuf 128) _ 0 m) _ _
        ∙ loop-joined pieces end _ 0 m full plain some_char few refl
        ∙ ap (λ n. and_then (hand_all pieces end m) (λ _. pure n)) (omega arith)
