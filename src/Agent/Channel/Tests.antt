-- ===== src/Agent/Channel/Tests.antt =====
-- A stream of two chunks whose last one is still in the queue when the producer is done.
use deep_data_agent.Prelude.{ℕ, ◌≡◌, refl, List, [], ◌∷◌, ◌++◌}
use deep_data_agent.Agent.Channel.{
  returned, failed, ended, empty, finished, holds, waiting, over, Channel, opened, signal, end_task,
  put_chunk, yield_chunk, is_drained, put, return, get, drained, await_chunk, turn, Reach, here,
  next,
}
use deep_data_agent.Agent.Channel.Delivery.{HasAll, astream_delivers}

abbrev two : List ℕ
two = 4 ∷ 7 ∷ []

-- The producer has returned, and the second chunk waits.
abbrev late_chunk : Channel ℕ
late_chunk = record {
  producer = ended returned [];
  place = holds 7;
  consumer = waiting;
  got = 4 ∷ [];
}

after_first :
    Reach
      (opened two)
      (yield_chunk 4 (put_chunk 4 (7 ∷ []) (record (opened two) { consumer = waiting })))
unfolding opened put_chunk yield_chunk is_drained
after_first =
    next (next (next here (turn (await_chunk refl refl))) (turn (put 4 (7 ∷ []) refl refl)))
      (turn (get 4 refl refl))

to_late_chunk : Reach (opened two) late_chunk
unfolding opened signal end_task put_chunk yield_chunk is_drained
to_late_chunk =
    next (next (next after_first (turn (put 7 [] refl refl))) (turn (await_chunk refl refl)))
      (turn (return refl))

abbrev all_read : Channel ℕ
all_read = record {
  producer = ended returned [];
  place = empty;
  consumer = over returned;
  got = two;
}

to_all_read : Reach (opened two) all_read
unfolding yield_chunk
to_all_read =
    next (next to_late_chunk (turn (get 7 refl refl))) (turn (drained returned [] refl refl refl))

astream_delivers_example : (rest : List ℕ) × (two ++ rest ≡ two) × HasAll (over returned) two two
astream_delivers_example = astream_delivers two all_read to_all_read

-- The producer has failed while the consumer waits, and has told it.
abbrev told_waiting : Channel ℕ
told_waiting = record {
  producer = ended (failed 3) two;
  place = finished;
  consumer = waiting;
  got = [];
}
