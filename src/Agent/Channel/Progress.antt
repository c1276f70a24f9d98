-- ===== src/Agent/Channel/Progress.antt =====
-- The consumer of `astream` is never left waiting (data_agent/services/agent_service.py).
use deep_data_agent.Prelude.{ℕ, ◌+◌, ◌*◌, ◌<◌, ap, length, arith}
use deep_data_agent.Agent.Channel.{
  Producer, producing, ended, Place, empty, finished, holds, Consumer, reading, waiting, closing,
  closed, over, Channel, signal, end_task, put_chunk, yield_chunk, Turn, put, return, get, drained,
  await_chunk, woken, cancelled, cleaned, Step, turn, fail, close, interrupt,
}

abbrev to_read : Consumer → ℕ
to_read reading = 3
to_read waiting = 2
to_read closing = 1
to_read closed = 0
to_read (over e) = 0

-- The consumer has neither returned nor raised.
abbrev pub IsOpen : Consumer → Type 0
IsOpen reading = Unit
IsOpen waiting = Unit
IsOpen closing = Unit
IsOpen closed = ⊥
IsOpen (over e) = ⊥

module _ {A : Type 0} where
  abbrev to_put : Producer A → ℕ
  to_put (producing left) = 2 + 3 * length left
  to_put (ended e left) = 0

  abbrev to_get : Place A → ℕ
  to_get empty = 0
  to_get finished = 1
  to_get (holds c) = 2

  -- A bound on the steps that are left.
  abbrev pub rank : Channel A → ℕ
  rank s = to_put s.producer + to_get s.place + to_read s.consumer

  to_get-signal-le : (place : Place A) → to_get (signal place) < to_get place + 2
  unfolding signal
  to_get-signal-le empty = omega arith
  to_get-signal-le finished = omega arith
  to_get-signal-le (holds c) = omega arith

  turn_lowers : {s t : Channel A} → Turn s t → rank t < rank s
  unfolding put_chunk yield_chunk end_task
  turn_lowers {s} (put c left p q) = omega (arith, ap to_put p, ap to_get q)
  turn_lowers {s} (return p) = omega (arith, ap to_put p, to_get-signal-le s.place)
  turn_lowers {s} (drained e left r q p) = omega (arith, ap to_read r)
  turn_lowers {s} (await_chunk r d) = omega (arith, ap to_read r)
  turn_lowers {s} (get c r q) = omega (arith, ap to_read r, ap to_get q)
  turn_lowers {s} (woken e left r q p) = omega (arith, ap to_read r, ap to_get q)
  turn_lowers {s} (cancelled n left r p) = omega (arith, ap to_put p, to_get-signal-le s.place)
  turn_lowers {s} (cleaned e left r p) = omega (arith, ap to_read r)

  -- Every step lowers the rank: a stream of n chunks takes at most 3 * n + 5 of them.
  pub rank-lt : {s t : Channel A} → Step s t → rank t < rank s
  unfolding end_task
  rank-lt {s} (turn m) = turn_lowers m
  rank-lt {s} (fail n left p) = omega (arith, ap to_put p, to_get-signal-le s.place)
  rank-lt {s} (close r) = omega (arith, ap to_read r)
  rank-lt {s} (interrupt r) = omega (arith, ap to_read r)

  abbrev Moves : Channel A → Type 0
  Moves s = (t : Channel A) × Turn s t
