-- ===== src/Track/System/Runs.antt =====
-- The runs of a track from `track_new` on.
use mathlib.Core.Path.{subst}
use feng.Base.{ℕ, ◌+◌, ◌≤◌, ◌<◌, ◌≡◌, refl, List, [], ◌∷◌, arith, ok, length, All}
use feng.Track.{track_new, bq_producer_reset_queue_internal}
use feng.Track.System.{System, Call, write, reset, join, read, move, leave, run}
use feng.Track.System.Safety.{Inv, IsStored, Steps, read-Steps, move-Steps, leave-Steps}
use feng.Track.System.Producer.{write-Steps, reset-Steps, join-Steps}

-- A track that `track_new` made, with no session.
abbrev pub new_system : System
new_system = record { track = track_new; sessions = [] }

new-Inv : Inv 0 new_system
unfolding track_new bq_producer_reset_queue_internal
new-Inv = record {
  good = tt;
  below = tt;
  held = tt;
  registered = refl;
  started = refl;
  serials = omega arith;
  queues = omega arith;
  few = omega arith;
}

-- Every call returns, and keeps the invariant, as long as fewer than 65535 calls were made.
pub step-Inv :
    (k : ℕ) (s : System) (c : Call) → Inv k s → k < 65535 → IsStored c → Steps (k + 1) s c
step-Inv k s (write b) v l f = write-Steps k s b v l f
step-Inv k s reset v l f = reset-Steps k s v l
step-Inv k s join v l f = join-Steps k s v l
step-Inv k s (read i) v l f = read-Steps k s i v l
step-Inv k s (move i) v l f = move-Steps k s i v l
step-Inv k s (leave i) v l f = leave-Steps k s i v l

run_from-Inv :
    (k : ℕ) (s : System) (cs : List Call)
    → Inv k s
    → k + length cs ≤ 65535
    → All IsStored cs
    → (t : System) × (run s cs ≡ ok t) × Inv (k + length cs) t
unfolding run
run_from-Inv k s [] v l a = (s, refl, subst (λ (j : ℕ). Inv j s) (omega arith) v)
run_from-Inv k s (c ∷ cs) v l a =
    let (t, r, w) = step-Inv k s c v (omega arith) a.0 in
    let (u, q, x) = run_from-Inv (k + 1) t cs w (omega arith) a.1 in
    (u, rw r q, subst (λ (j : ℕ). Inv j u) (omega arith) x)

-- From `track_new` on, whatever the producer and any number of sessions do, in whatever order,
-- within 65535 calls and with buffers as the parsers make them: every call returns. No assertion of
-- track.c fails, no freed element is read, no loop goes on for ever and no count underflows; and at
-- the end the invariant of the queue holds: addresses and sequence numbers grow along it, the seen
-- counts fall, each is below the number of sessions (or nothing was counted), and every pointer
-- that a session holds is found by its serial numbers to be old, or is at a live element.
pub run-new_safe :
    (cs : List Call)
    → length cs ≤ 65535
    → All IsStored cs
    → (t : System) × (run new_system cs ≡ ok t) × Inv (length cs) t
run-new_safe cs l a =
    let (t, r, v) = run_from-Inv 0 new_system cs new-Inv (omega arith) a in
    (t, r, subst (λ (j : ℕ). Inv j t) (omega arith) v)
