-- ===== src/Lowlevel/Written.antt =====
-- What reaches a client's connection of what is queued for it (src/network/rtsp_lowlevel.c).
use mathlib.Core.Path.{subst}
use feng.Base.{
  ℕ, ◌≡◌, ◌≢◌, refl, sym, ap, ◌∙◌, true, false, Option, none, some, List, [], ◌∷◌, ◌++◌, take,
}
use feng.Lowlevel.{
  Output, rtsp_write_data_queue, pop_tail, taken_of, write_packet, rtsp_tcp_write_cb,
}

-- What happens to the output: a packet is queued, or the connection can be written, and `send`
-- answers.
pub data OutputEvent : Type 0 where
  queued : List ℕ → OutputEvent
  writable : Option ℕ → OutputEvent

unfoldable pub output_step : Output → OutputEvent → Output
output_step o (queued packet) = rtsp_write_data_queue o packet
output_step o (writable answer) = rtsp_tcp_write_cb o answer

unfoldable pub output_run : Output → List OutputEvent → Output
unfolding output_step
output_run o [] = o
output_run o (e ∷ es) = output_run (output_step o e) es

-- The packets of a queue, the first in first.
abbrev pub oldest_first : List (List ℕ) → List (List ℕ)
oldest_first [] = []
oldest_first (p ∷ ps) = oldest_first ps ++ p ∷ []

-- What a connection promises: the packets that wait, the oldest first, and the bytes that left.
pub record Fifo : Type 0 where
  pub waiting : List (List ℕ)
  pub sent : List ℕ

-- What leaves of a packet: what `send` took of it, nothing where it failed.
abbrev pub accepted : Option ℕ → List ℕ → List ℕ
accepted none packet = []
accepted (some n) packet = take n packet

abbrev pub send_oldest : Fifo → Option ℕ → List (List ℕ) → Fifo
send_oldest f answer [] = f
send_oldest f answer (packet ∷ rest) = record {
  waiting = rest;
  sent = f.sent ++ accepted answer packet;
}

abbrev pub fifo_step : Fifo → OutputEvent → Fifo
fifo_step f (queued packet) = record f { waiting = f.waiting ++ packet ∷ [] }
fifo_step f (writable answer) = send_oldest f answer f.waiting

abbrev pub fifo_run : Fifo → List OutputEvent → Fifo
fifo_run f [] = f
fifo_run f (e ∷ es) = fifo_run (fifo_step f e) es

-- The output implements the queue, and the callback is watched for while packets wait.
pub record Implements (o : Output) (f : Fifo) : Type 0 where
  pub waiting : oldest_first o.out_queue ≡ f.waiting
  pub sent : o.stream ≡ f.sent
  pub watched : o.out_queue ≢ [] → o.watching ≡ true

record Popped (ps : List (List ℕ)) : Type 0 where
  rest : List (List ℕ)
  packet : List ℕ
  pops : pop_tail ps ≡ some (rest, packet)
  oldest : oldest_first ps ≡ packet ∷ oldest_first rest

pop_tail-oldest : (p : List ℕ) (ps : List (List ℕ)) → Popped (p ∷ ps)
unfolding pop_tail
pop_tail-oldest p [] = record { rest = []; packet = p; pops = refl; oldest = refl }
pop_tail-oldest p (q ∷ ps) =
    let r = pop_tail-oldest q ps in
    record {
      rest = p ∷ r.rest;
      packet = r.packet;
      pops = rw r.pops refl;
      oldest = ap (λ l. l ++ p ∷ []) r.oldest;
    }

queue-Implements :
    (o : Output) (f : Fifo) (packet : List ℕ)
    → Implements o f
    → Implements (rtsp_write_data_queue o packet) (fifo_step f (queued packet))
unfolding rtsp_write_data_queue
queue-Implements o f packet i = record {
  waiting = ap (λ l. l ++ packet ∷ []) i.waiting;
  sent = i.sent;
  watched = λ n. refl;
}

take-taken_of : (answer : Option ℕ) (p : List ℕ) → take (taken_of answer) p ≡ accepted answer p
take-taken_of none [] = refl
take-taken_of none (x ∷ p) = refl
take-taken_of (some n) p = refl

write-Implements :
    (o : Output) (f : Fifo) (answer : Option ℕ) (q : List (List ℕ))
    → o.out_queue ≡ q
    → Implements o f
    → Implements (write_packet o answer (pop_tail q)) (send_oldest f answer (oldest_first q))
unfolding write_packet pop_tail
write-Implements o f answer [] e i = record {
  waiting = i.waiting;
  sent = i.sent;
  watched = λ n. absurd (n e);
}
write-Implements o f answer (p ∷ ps) e i =
    let r = pop_tail-oldest p ps in
    rw (r.pops, r.oldest)
      (record {
        waiting = refl;
        sent =
            ap (λ l. l ++ take (taken_of answer) r.packet) i.sent
            ∙ ap (λ l. f.sent ++ l) (take-taken_of answer r.packet);
        watched = λ n. i.watched (λ z. cc (sym e ∙ z));
      })

output_run-Implements :
    (es : List OutputEvent) (o : Output) (f : Fifo)
    → Implements o f
    → Implements (output_run o es) (fifo_run f es)
unfolding output_run output_step rtsp_tcp_write_cb
output_run-Implements [] o f i = i
output_run-Implements (queued p ∷ es) o f i =
    output_run-Implements es (rtsp_write_data_queue o p) (fifo_step f (queued p))
      (queue-Implements o f p i)
output_run-Implements (writable answer ∷ es) o f i =
    output_run-Implements es (rtsp_tcp_write_cb o answer) (fifo_step f (writable answer)) (
      subst (λ ps. Implements (rtsp_tcp_write_cb o answer) (send_oldest f answer ps)) i.waiting
        (write-Implements o f answer o.out_queue refl i))

abbrev pub no_output : Output
no_output = record { out_queue = []; watching = false; stream = []; accounted = 0 }

-- Whatever is queued for a new connection, and whenever it can be written, the output implements a
-- queue in which the first packet in is the first out: the packets that wait are those of the queue,
-- in its order; and the kernel has, byte for byte and in order, of each packet that left the queue
-- what `send` answered that it took, which is nothing where `send` failed; the rest of such a packet
-- is never sent. While packets wait, the callback is watched for.
pub output_run_lem :
    (es : List OutputEvent)
    → Implements (output_run no_output es) (fifo_run (record { waiting = []; sent = [] }) es)
output_run_lem es =
    output_run-Implements es no_output (record { waiting = []; sent = [] })
      (record { waiting = refl; sent = refl; watched = λ n. absurd (n refl) })
