-- ===== src/Subprocess/Control/Delivery.antt =====
-- A child is given the proxy's standard input in order, the end of it, and every signal.
use remote_adapter.Prelude.{
  ℕ, suc, ◌+◌, ◌-◌, ◌^◌, ◌≤◌, ◌<◌, ◌≡◌, ◌∙◌, refl, sym, ap, Bool, true, false, List, [], ◌∷◌, ◌++◌,
  Bytes, length, length-append, All, arith, append-nil, append_assoc, map,
}
use remote_adapter.Prelude.Int.{ℤ, Fits}
use remote_adapter.Subprocess.Interleaving.{Interleaved, none_left, from_left, from_right, concat}
use remote_adapter.Subprocess.Frames.{tag_stdin, write_chunk, write_signal, read_frame}
use remote_adapter.Subprocess.Frames.RoundTrip.{read_frame-write_chunk, read_frame-write_signal}
use remote_adapter.Subprocess.Proxy.Delivery.{Buffered}
use remote_adapter.Subprocess.Control.{
  Event, signalled, typed, input_ended, stdin_pump, event_frame, control_stream, Given,
  nothing_given, shut_input, give_input, control_loop, control,
}

control_loop-signal :
    (fuel : ℕ) (n : ℤ) (rest : Bytes) (g : Given)
    → Fits (2 ^ 31) n
    → control_loop (suc fuel) (write_signal n ++ rest) g
      ≡ control_loop fuel rest (record g { signals = g.signals ++ (n ∷ []) })
unfolding control_loop
control_loop-signal fuel n rest g f =
    let (frame, back, tagged, same) = read_frame-write_signal n rest f in
    rw back (rw tagged (rw same))

control_loop-input :
    (fuel : ℕ) (b rest : Bytes) (g : Given)
    → length b ≤ 32_768
    → control_loop (suc fuel) (write_chunk tag_stdin b ++ rest) g
      ≡ control_loop fuel rest (give_input b g)
unfolding control_loop
control_loop-input fuel b rest g small = rw (read_frame-write_chunk tag_stdin b rest (omega arith))

control_loop-end : (fuel : ℕ) (g : Given) → control_loop (suc fuel) [] g ≡ shut_input g
unfolding control_loop read_frame remote_adapter.Protocol.Frame.read_full
control_loop-end fuel g = refl

abbrev give : Event → Given → Given
give (signalled n) g = record g { signals = g.signals ++ (n ∷ []) }
give (typed b) g = give_input b g
give input_ended g = shut_input g

give_all : List Event → Given → Given
give_all [] g = g
give_all (e ∷ events) g = give_all events (give e g)

-- A number that a signal frame carries, or a read that the pump's buffer holds.
abbrev Sendable : Event → Type 0
Sendable (signalled n) = Fits (2 ^ 31) n
Sendable (typed b) = Buffered b
Sendable input_ended = Unit {0}

control_loop-event :
    (fuel : ℕ) (e : Event) (rest : Bytes) (g : Given)
    → Sendable e
    → control_loop (suc fuel) (event_frame e ++ rest) g ≡ control_loop fuel rest (give e g)
control_loop-event fuel (signalled n) rest g h = control_loop-signal fuel n rest g h
control_loop-event fuel (typed b) rest g h = control_loop-input fuel b rest g h
control_loop-event fuel input_ended rest g h = control_loop-input fuel [] rest g (omega arith)

-- A round for each event, whatever comes behind them.
control_loop-events :
    (fuel : ℕ) (events : List Event) (rest : Bytes) (g : Given)
    → All Sendable events
    → control_loop (length events + fuel) (control_stream events ++ rest) g
      ≡ control_loop fuel rest (give_all events g)
unfolding control_stream give_all
control_loop-events fuel [] rest g h = ap (λ n. control_loop n rest g) (omega arith)
control_loop-events fuel (e ∷ events) rest g h =
    ap (λ n. control_loop n ((event_frame e ++ control_stream events) ++ rest) g) (omega arith)
    ∙ ap (λ s. control_loop (suc (length events + fuel)) s g)
        (append_assoc (event_frame e) (control_stream events) rest)
    ∙ control_loop-event (length events + fuel) e (control_stream events ++ rest) g h.0
    ∙ control_loop-events fuel events rest (give e g) h.1

control_loop_whole :
    (fuel : ℕ) (events : List Event) (g : Given)
    → All Sendable events
    → length events < fuel
    → control_loop fuel (control_stream events) g ≡ shut_input (give_all events g)
control_loop_whole fuel events g h enough =
    ap (λ n. control_loop n (control_stream events) g) counted
    ∙ ap (λ s. control_loop (length events + suc left) s g)
        (sym (append-nil (control_stream events)))
    ∙ control_loop-events (suc left) events [] g h
    ∙ control_loop-end left (give_all events g)
  where
    left : ℕ
    left = fuel - length events - 1

    counted : fuel ≡ length events + suc left
    counted = omega arith

control_stream_long : (events : List Event) → length events ≤ length (control_stream events)
unfolding control_stream write_chunk write_signal
control_stream_long [] = omega arith
control_stream_long (signalled n ∷ events) =
    omega
      (arith, control_stream_long events, length-append (write_signal n) (control_stream events))
control_stream_long (typed b ∷ events) = omega (
  arith,
  control_stream_long events,
  length-append (write_chunk tag_stdin b) (control_stream events),
)
control_stream_long (input_ended ∷ events) = omega (
  arith,
  control_stream_long events,
  length-append (write_chunk tag_stdin []) (control_stream events),
)

-- Standard input alone: what came, and whether it is open.
abbrev feed : Bytes → Bytes × Bool → Bytes × Bool
feed [] (i, b) = (i, false)
feed (c ∷ d) (i, true) = (i ++ (c ∷ d), true)
feed (c ∷ d) (i, false) = (i, false)

-- One goroutine sends nothing but signals, the other nothing but input.
abbrev OnlySignals : List Event → List ℤ → Type 0
OnlySignals [] [] = Unit {0}
OnlySignals (signalled m ∷ xs) (n ∷ ns) = (m ≡ n) × OnlySignals xs ns
OnlySignals _ _ = ⊥

abbrev feed_all : List Event → Bytes × Bool → Bytes × Bool
feed_all [] i = i
feed_all (signalled n ∷ ys) i = feed_all ys i
feed_all (typed b ∷ ys) i = feed_all ys (feed b i)
feed_all (input_ended ∷ ys) i = feed_all ys (feed [] i)

abbrev IsInput : Event → Type 0
IsInput (signalled n) = ⊥
IsInput (typed b) = Unit {0}
IsInput input_ended = Unit {0}

abbrev pack : Bytes × Bool → List ℤ → Given
pack (i, b) ns = record { input = i; open_input = b; signals = ns }

give_input-pack :
    (b : Bytes) (i : Bytes × Bool) (ns : List ℤ) → give_input b (pack i ns) ≡ pack (feed b i) ns
give_input-pack [] (i, b) ns = refl
give_input-pack (c ∷ d) (i, true) ns = refl
give_input-pack (c ∷ d) (i, false) ns = refl

give_all-Interleaved :
    {xs ys zs : List Event} (i : Bytes × Bool) (ms ns : List ℤ)
    → Interleaved xs ys zs
    → OnlySignals xs ns
    → All IsInput ys
    → give_all zs (pack i ms) ≡ pack (feed_all ys i) (ms ++ ns)
unfolding give_all
give_all-Interleaved i ms [] none_left p q = ap (pack i) (sym (append-nil ms))
give_all-Interleaved i ms (n ∷ ns) none_left p q = absurd p
give_all-Interleaved (i, b) ms (n ∷ ns) (from_left {c = signalled m} {xs} {ys} {zs} t) p q =
    ap (λ k. give_all zs (pack (i, b) (ms ++ (k ∷ [])))) p.0
    ∙ give_all-Interleaved (i, b) (ms ++ (n ∷ [])) ns t p.1 q
    ∙ ap (pack (feed_all ys (i, b))) (append_assoc ms (n ∷ []) ns)
give_all-Interleaved i ms [] (from_left {c = signalled m} t) p q = absurd p
give_all-Interleaved i ms [] (from_left {c = typed b} t) p q = absurd p
give_all-Interleaved i ms [] (from_left {c = input_ended} t) p q = absurd p
give_all-Interleaved i ms (n ∷ ns) (from_left {c = typed b} t) p q = absurd p
give_all-Interleaved i ms (n ∷ ns) (from_left {c = input_ended} t) p q = absurd p
give_all-Interleaved i ms ns (from_right {c = signalled m} t) p q = absurd q.0
give_all-Interleaved i ms ns (from_right {c = typed b} {xs} {ys} {zs} t) p q =
    ap (give_all zs) (give_input-pack b i ms) ∙ give_all-Interleaved (feed b i) ms ns t p q.1
give_all-Interleaved (i, b) ms ns (from_right {c = input_ended} t) p q =
    give_all-Interleaved (i, false) ms ns t p q.1

feed_all-stdin_pump :
    (reads : List Bytes) (i : Bytes)
    → feed_all (stdin_pump reads) (i, true) ≡ (i ++ concat reads, false)
unfolding stdin_pump concat
feed_all-stdin_pump [] i = ap (λ x. (x, false)) (sym (append-nil i))
feed_all-stdin_pump ([] ∷ reads) i = feed_all-stdin_pump reads i
feed_all-stdin_pump ((c ∷ b) ∷ reads) i =
    feed_all-stdin_pump reads (i ++ (c ∷ b))
    ∙ ap (λ x. (x, false)) (append_assoc i (c ∷ b) (concat reads))

stdin_pump-IsInput : (reads : List Bytes) → All IsInput (stdin_pump reads)
unfolding stdin_pump
stdin_pump-IsInput [] = (tt, tt)
stdin_pump-IsInput ([] ∷ reads) = stdin_pump-IsInput reads
stdin_pump-IsInput ((c ∷ b) ∷ reads) = (tt, stdin_pump-IsInput reads)

stdin_pump-Sendable : (reads : List Bytes) → All Buffered reads → All Sendable (stdin_pump reads)
unfolding stdin_pump
stdin_pump-Sendable [] h = (tt, tt)
stdin_pump-Sendable ([] ∷ reads) h = stdin_pump-Sendable reads h.1
stdin_pump-Sendable ((c ∷ b) ∷ reads) h = (h.0, stdin_pump-Sendable reads h.1)

map-OnlySignals : (ns : List ℤ) → OnlySignals (map signalled ns) ns
map-OnlySignals [] = tt
map-OnlySignals (n ∷ ns) = (refl, map-OnlySignals ns)

map-Sendable : (ns : List ℤ) → All (Fits (2 ^ 31)) ns → All Sendable (map signalled ns)
map-Sendable [] h = tt
map-Sendable (n ∷ ns) h = (h.0, map-Sendable ns h.1)

Interleaved-Sendable :
    {xs ys zs : List Event}
    → Interleaved xs ys zs
    → All Sendable xs
    → All Sendable ys
    → All Sendable zs
Interleaved-Sendable none_left p q = tt
Interleaved-Sendable (from_left t) p q = (p.0, Interleaved-Sendable t p.1 q)
Interleaved-Sendable (from_right t) p q = (q.0, Interleaved-Sendable t p q.1)

-- Whatever the order in which the proxy's two goroutines get to write, the child has been given exactly
-- the bytes read off the proxy's standard input, in order, then the end of it, and every signal, in order,
-- by the time the executor has read their frames: while the stream is still open, and whatever
-- comes behind. The reads fill at most the buffer of 32 KiB, and the signal numbers fit 32 bits.
pub control_loop-control_stream :
    (ns : List ℤ) (reads : List Bytes) (events : List Event) (fuel : ℕ) (rest : Bytes)
    → All (Fits (2 ^ 31)) ns
    → All Buffered reads
    → Interleaved (map signalled ns) (stdin_pump reads) events
    → control_loop (length events + fuel) (control_stream events ++ rest) nothing_given
      ≡ control_loop fuel rest (record { input = concat reads; open_input = false; signals = ns })
control_loop-control_stream ns reads events fuel rest p q t =
    control_loop-events fuel events rest nothing_given
      (Interleaved-Sendable t (map-Sendable ns p) (stdin_pump-Sendable reads q))
    ∙ ap (control_loop fuel rest) (
        give_all-Interleaved ([], true) [] ns t (map-OnlySignals ns) (stdin_pump-IsInput reads)
        ∙ ap (λ i. pack i ns) (feed_all-stdin_pump reads []))

-- The same, to the end of the stream.
pub control-control_stream :
    (ns : List ℤ) (reads : List Bytes) (events : List Event)
    → All (Fits (2 ^ 31)) ns
    → All Buffered reads
    → Interleaved (map signalled ns) (stdin_pump reads) events
    → control (control_stream events)
      ≡ record { input = concat reads; open_input = false; signals = ns }
unfolding control
control-control_stream ns reads events p q t =
    control_loop_whole _ events nothing_given
      (Interleaved-Sendable t (map-Sendable ns p) (stdin_pump-Sendable reads q))
      (omega (arith, control_stream_long events))
    ∙ ap shut_input (
        give_all-Interleaved ([], true) [] ns t (map-OnlySignals ns) (stdin_pump-IsInput reads)
        ∙ ap (λ i. pack i ns) (feed_all-stdin_pump reads []))
