-- ===== src/Agent/Channel.antt =====
-- The producer task and the consumer of `ResourceBoundedAgentGraph.astream`
-- (data_agent/services/agent_service.py), which share a queue of one place. A step is what one of them
-- does between two awaits. The chunks are those that the graph's stream would give.
pub mod Delivery
pub mod Progress
mod Tests
use deep_data_agent.Prelude.{ℕ, ◌≡◌, Bool, true, false, List, [], ◌∷◌, ◌++◌}

-- How the producer's task ends: `failed` is any exception, a cancellation among them.
pub data Ending : Type 0 where
  returned : Ending
  failed : ℕ → Ending

-- The task, with the chunks that it has not put.
pub data Producer (A : Type 0) : Type 0 where
  producing : List A → Producer A
  ended : Ending → List A → Producer A

-- The queue; `finished` is the object that tells the consumer.
pub data Place (A : Type 0) : Type 0 where
  empty finished : Place A
  holds : A → Place A

-- The consumer: at the head of its loop, in `queue.get()`, its `finally` after a close or a cancellation, and its end: as the producer
-- ended, or closed.
pub data Consumer : Type 0 where
  reading waiting closing closed : Consumer
  over : Ending → Consumer

pub record Channel (A : Type 0) : Type 0 where
  pub producer : Producer A
  pub place : Place A
  pub consumer : Consumer
  -- what was yielded
  pub got : List A

module _ {A : Type 0} where
  unfoldable pub opened : List A → Channel A
  opened chunks = record {
    producer = producing chunks;
    place = empty;
    consumer = reading;
    got = [];
  }

  -- The `finally` of the producer.
  unfoldable pub signal : Place A → Place A
  signal empty = finished
  signal finished = finished
  signal (holds c) = holds c

  -- The end of the task.
  unfoldable pub end_task : Ending → List A → Channel A → Channel A
  end_task e left s = record s { producer = ended e left; place = signal s.place }

  -- `await queue.put(chunk)`
  unfoldable pub put_chunk : A → List A → Channel A → Channel A
  put_chunk c left s = record s { producer = producing left; place = holds c }

  -- What `await queue.get()` gives, the `yield` and the way back to the head of the loop.
  unfoldable pub yield_chunk : A → Channel A → Channel A
  yield_chunk c s = record s { place = empty; consumer = reading; got = s.got ++ c ∷ [] }

  -- `producer.done() and queue.empty()`
  unfoldable pub is_drained : Producer A → Place A → Bool
  is_drained (ended e left) empty = true
  is_drained _ _ = false

  -- What the tasks do where nothing fails. The graph's stream gives its next chunk or ends.
  pub data Turn (s : Channel A) : Channel A → Type 0 where
    put :
        (c : A) (left : List A)
        → s.producer ≡ producing (c ∷ left)
        → s.place ≡ empty
        → Turn s (put_chunk c left s)
    return : s.producer ≡ producing [] → Turn s (end_task returned [] s)
    -- the test at the head of the loop, and the producer is awaited
    drained :
        (e : Ending) (left : List A)
        → s.consumer ≡ reading
        → s.place ≡ empty
        → s.producer ≡ ended e left
        → Turn s (record s { consumer = over e })
    await_chunk :
        s.consumer ≡ reading
        → is_drained s.producer s.place ≡ false
        → Turn s (record s { consumer = waiting })
    get : (c : A) → s.consumer ≡ waiting → s.place ≡ holds c → Turn s (yield_chunk c s)
    -- `finished` was read, and the producer is awaited
    woken :
        (e : Ending) (left : List A)
        → s.consumer ≡ waiting
        → s.place ≡ finished
        → s.producer ≡ ended e left
        → Turn s (record s { place = empty; consumer = over e })
    -- the `finally` of the consumer: the task is cancelled if it is not done, and awaited
    cancelled :
        (n : ℕ) (left : List A)
        → s.consumer ≡ closing
        → s.producer ≡ producing left
        → Turn s (end_task (failed n) left s)
    cleaned :
        (e : Ending) (left : List A)
        → s.consumer ≡ closing
        → s.producer ≡ ended e left
        → Turn s (record s { consumer = closed })

  -- A turn; an exception in the producer's task; a close, or a cancellation in `queue.get()`.
  pub data Step (s : Channel A) : Channel A → Type 0 where
    turn : {t : Channel A} → Turn s t → Step s t
    fail :
        (n : ℕ) (left : List A) → s.producer ≡ producing left → Step s (end_task (failed n) left s)
    close : s.consumer ≡ reading → Step s (record s { consumer = closing })
    interrupt : s.consumer ≡ waiting → Step s (record s { consumer = closing })

  pub data Reach (s : Channel A) : Channel A → Type 0 where
    here : Reach s s
    next : {u v : Channel A} → Reach s u → Step u v → Reach s v
