-- ===== src/Agent/Channel/Delivery.antt =====
-- What the consumer of `astream` gets, and that it ends (data_agent/services/agent_service.py).
use deep_data_agent.Prelude.{false, arith, ◌≡◌, refl, sym, ap, subst, ◌∙◌, List, [], ◌∷◌, ◌++◌}
use mathlib.Core.List.{append_assoc, append-nil}
use deep_data_agent.Agent.Channel.{
  Ending, returned, failed, Producer, producing, ended, Place, empty, finished, holds, Consumer,
  reading, waiting, closing, closed, over, Channel, opened, signal, end_task, put_chunk,
  yield_chunk, is_drained, Turn, put, return, get, drained, await_chunk, woken, cancelled, cleaned,
  Step, turn, fail, close, interrupt, Reach, here, next,
}

module _ {A : Type 0} where
  abbrev pub held : Place A → List A
  held empty = []
  held finished = []
  held (holds c) = c ∷ []

  abbrev pub left_over : Producer A → List A
  left_over (producing left) = left
  left_over (ended e left) = left

  -- A task that returned has put every chunk.
  abbrev pub HasPut : Producer A → Type 0
  HasPut (producing left) = Unit
  HasPut (ended returned left) = left ≡ []
  HasPut (ended (failed n) left) = Unit

  -- The consumer is told of the end only after it.
  abbrev pub IsTold : Place A → Producer A → Type 0
  IsTold finished (producing left) = ⊥
  IsTold _ _ = Unit

  -- The consumer is over as the producer is, with nothing left in the queue.
  abbrev pub IsOver : Consumer → Place A → Producer A → Type 0
  IsOver (over e) place (ended e' left) = (place ≡ empty) × (e ≡ e')
  IsOver (over e) place (producing left) = ⊥
  IsOver reading place p = Unit
  IsOver waiting place p = Unit
  IsOver closing place p = Unit
  IsOver closed place p = Unit

  -- A consumer in `queue.get()` with an empty queue has a running producer.
  abbrev pub IsFed : Consumer → Place A → Producer A → Type 0
  IsFed waiting empty (ended e left) = ⊥
  IsFed _ _ _ = Unit

  pub record Inv (chunks : List A) (s : Channel A) : Type 0 where
    pub kept : s.got ++ (held s.place ++ left_over s.producer) ≡ chunks
    pub put_all : HasPut s.producer
    pub told : IsTold s.place s.producer
    pub is_over : IsOver s.consumer s.place s.producer
    pub fed : IsFed s.consumer s.place s.producer

  -- While the producer runs, the consumer is not over.
  unsettled :
      (k : Consumer) (place place' : Place A) (left : List A) (p : Producer A)
      → IsOver k place (producing left)
      → IsOver k place' p
  unsettled reading place place' left p h = tt
  unsettled waiting place place' left p h = tt
  unsettled closing place place' left p h = tt
  unsettled closed place place' left p h = tt
  unsettled (over e) place place' left p h = absurd h

  held-signal : (place : Place A) → held (signal place) ≡ held place
  unfolding signal
  held-signal empty = refl
  held-signal finished = refl
  held-signal (holds c) = refl

  IsTold-ended : (place : Place A) (e : Ending) (left : List A) → IsTold place (ended e left)
  IsTold-ended empty e left = tt
  IsTold-ended finished e left = tt
  IsTold-ended (holds c) e left = tt

  IsFed-producing :
      (k : Consumer) (place : Place A) (left : List A) → IsFed k place (producing left)
  IsFed-producing waiting empty left = tt
  IsFed-producing waiting finished left = tt
  IsFed-producing waiting (holds c) left = tt
  IsFed-producing reading place left = tt
  IsFed-producing closing place left = tt
  IsFed-producing closed place left = tt
  IsFed-producing (over e) place left = tt

  IsFed-signal : (k : Consumer) (place : Place A) (p : Producer A) → IsFed k (signal place) p
  unfolding signal
  IsFed-signal waiting empty (ended e left) = tt
  IsFed-signal waiting finished (ended e left) = tt
  IsFed-signal waiting (holds c) (ended e left) = tt
  IsFed-signal waiting place (producing left) = IsFed-producing waiting (signal place) left
  IsFed-signal reading place p = tt
  IsFed-signal closing place p = tt
  IsFed-signal closed place p = tt
  IsFed-signal (over e) place p = tt

  IsFed-await :
      (place : Place A) (p : Producer A) → is_drained p place ≡ false → IsFed waiting place p
  unfolding is_drained
  IsFed-await empty (ended e left) h = absurd (ground arith)
  IsFed-await empty (producing left) h = tt
  IsFed-await finished p h = tt
  IsFed-await (holds c) p h = tt

  IsTold-empty : (p : Producer A) → IsTold empty p
  IsTold-empty p = tt

  end-Inv :
      {chunks : List A} (s : Channel A) (e : Ending) (left : List A)
      → s.producer ≡ producing left
      → HasPut (ended e left)
      → Inv chunks s
      → Inv chunks (end_task e left s)
  unfolding end_task
  end-Inv s e left p h v = record {
    kept = ap (λ xs. s.got ++ (xs ++ left)) (held-signal s.place) ∙ rw p at v.kept;
    put_all = h;
    told = IsTold-ended (signal s.place) e left;
    is_over = unsettled s.consumer s.place _ left _ (rw p at v.is_over);
    fed = IsFed-signal s.consumer s.place _;
  }

  Turn-Inv : {chunks : List A} {s t : Channel A} → Turn s t → Inv chunks s → Inv chunks t
  unfolding put_chunk yield_chunk
  Turn-Inv {s = s} (put c left p q) v = record {
    kept = rw q at (rw p at v.kept);
    put_all = tt;
    told = tt;
    is_over = unsettled s.consumer s.place _ _ _ (rw p at v.is_over);
    fed = IsFed-producing s.consumer _ left;
  }
  Turn-Inv {s = s} (return p) v = end-Inv s returned [] p refl v
  Turn-Inv {s = s} (drained e left r q p) v = record {
    kept = v.kept;
    put_all = v.put_all;
    told = v.told;
    is_over = subst (λ m. IsOver (over e) s.place m) (sym p) (q, refl);
    fed = tt;
  }
  Turn-Inv {s = s} (await_chunk r h) v = record {
    kept = v.kept;
    put_all = v.put_all;
    told = v.told;
    is_over = tt;
    fed = IsFed-await s.place s.producer h;
  }
  Turn-Inv {s = s} (get c r q) v = record {
    kept = append_assoc s.got (c ∷ []) (left_over s.producer) ∙ rw q at v.kept;
    put_all = v.put_all;
    told = tt;
    is_over = tt;
    fed = tt;
  }
  Turn-Inv {s = s} (woken e left r q p) v = record {
    kept = rw q at v.kept;
    put_all = v.put_all;
    told = tt;
    is_over = subst (λ m. IsOver (over e) empty m) (sym p) (refl, refl);
    fed = tt;
  }
  Turn-Inv {s = s} (cancelled n left r p) v = end-Inv s (failed n) left p tt v
  Turn-Inv {s = s} (cleaned e left r p) v = record {
    kept = v.kept;
    put_all = v.put_all;
    told = v.told;
    is_over = tt;
    fed = tt;
  }

  closing-Inv :
      {chunks : List A} (s : Channel A)
      → Inv chunks s
      → Inv chunks (record s { consumer = closing })
  closing-Inv s v = record {
    kept = v.kept;
    put_all = v.put_all;
    told = v.told;
    is_over = tt;
    fed = tt;
  }

  Step-Inv : {chunks : List A} {s t : Channel A} → Step s t → Inv chunks s → Inv chunks t
  Step-Inv (turn h) v = Turn-Inv h v
  Step-Inv {s = s} (fail n left p) v = end-Inv s (failed n) left p tt v
  Step-Inv {s = s} (close r) v = closing-Inv s v
  Step-Inv {s = s} (interrupt r) v = closing-Inv s v

  pub Reach-Inv : {chunks : List A} {s t : Channel A} → Reach s t → Inv chunks s → Inv chunks t
  Reach-Inv here v = v
  Reach-Inv (next r st) v = Step-Inv st (Reach-Inv r v)

  pub opened-Inv : (chunks : List A) → Inv chunks (opened chunks)
  unfolding opened
  opened-Inv chunks = record { kept = refl; put_all = tt; told = tt; is_over = tt; fed = tt }

  -- What an end of the consumer says: after a normal one it has every chunk.
  abbrev pub HasAll : Consumer → List A → List A → Type 0
  HasAll (over returned) got chunks = got ≡ chunks
  HasAll _ got chunks = Unit

  HasAll-over :
      (k : Consumer) (place : Place A) (p : Producer A) (got chunks : List A)
      → got ++ (held place ++ left_over p) ≡ chunks
      → HasPut p
      → IsOver k place p
      → HasAll k got chunks
  HasAll-over reading place p got chunks h a o = tt
  HasAll-over waiting place p got chunks h a o = tt
  HasAll-over closing place p got chunks h a o = tt
  HasAll-over closed place p got chunks h a o = tt
  HasAll-over (over (failed n)) place p got chunks h a o = tt
  HasAll-over (over returned) place (producing left) got chunks h a o = absurd o
  HasAll-over (over returned) place (ended (failed n) left) got chunks h a o = cc o.1
  HasAll-over (over returned) place (ended returned left) got chunks h a o =
      sym (append-nil got) ∙ ap (λ xs. got ++ xs) (rw o.0 (sym a)) ∙ h

  -- However the two tasks interleave, and wherever the graph's stream fails or the consumer closes: what was
  -- yielded is a prefix of the graph's chunks, in order, each one once; and a consumer whose loop ends without
  -- an exception has yielded all of them.
  pub astream_delivers :
      (chunks : List A) (s : Channel A)
      → Reach (opened chunks) s
      → (rest : List A) × (s.got ++ rest ≡ chunks) × HasAll s.consumer s.got chunks
  astream_delivers chunks s r =
      let v = Reach-Inv r (opened-Inv chunks) in
      (
        held s.place ++ left_over s.producer,
        v.kept,
        HasAll-over s.consumer s.place s.producer s.got chunks v.kept v.put_all v.is_over,
      )
