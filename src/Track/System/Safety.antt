-- ===== src/Track/System/Safety.antt =====
-- No interleaving of at most 65535 calls fails. (The bound is that of the sequence numbers: Wrap.)
use feng.Base.{
  ℕ, ◌+◌, ◌≤◌, ◌<◌, ◌≡◌, sym, ap, ◌∙◌, inl, inr, false, none, some, List, [], ◌∷◌, arith, ok,
  Option-cases, length, get_elem?, if◌then◌else◌, All, max,
}
use feng.Track.{MParserBuffer, Track, Consumer, bq_consumer_move, bq_consumer_move_internal}
use feng.Track.Chain.{Good}
use feng.Track.State.{IsBelow, potential, Held, Evolves}
use feng.Track.Confirm.{Sound}
use feng.Track.Move.{move_internal-Moved}
use feng.Track.Get.{get-Got}
use feng.Track.Session.{Freed, free-Freed}
use feng.Track.System.{
  System, Call, write, read, move, leave, set, remove, step, pointing, pointing-set, length-set,
  length-remove, All-get, All-set, All-remove, Good-split,
}

-- What holds after `k` calls. Without sessions nothing has been counted.
pub record Inv (k : ℕ) (s : System) : Type 0 where
  pub good : Good (pointing s.sessions) none (max 1 s.track.consumers) s.track.queue
  pub below : IsBelow s.track.next_addr s.track.next_serial s.track.queue
  pub held : All (Held s.track) s.sessions
  pub registered : length s.sessions ≡ s.track.consumers
  pub started : s.track.stopped ≡ false
  pub serials : s.track.next_serial ≤ k
  pub queues : potential s.track.queue_serial s.track.queue ≤ k + 1
  pub few : s.track.consumers ≤ k

-- A buffer as the parsers make it: not counted, and with no sequence number of its own.
abbrev pub IsFresh : MParserBuffer → Type 0
IsFresh b = (b.seen ≡ 0) × (b.seq_no ≡ 0)

abbrev pub IsStored : Call → Type 0
IsStored (write b) = IsFresh b
IsStored _ = Unit

length-get : (cs : List Consumer) (i : ℕ) (c : Consumer) → get_elem? cs i ≡ some c → 0 < length cs
length-get [] i c h = cc
length-get (d ∷ cs) i c h = omega arith

module _ (k : ℕ) (s : System) (v : Inv k s) (l : k < 65535) (i : ℕ) (c : Consumer)
    (h : get_elem? s.sessions i ≡ some c) where
  abbrev others : ℕ → ℕ
  others = pointing (remove s.sessions i)

  some_session : 0 < s.track.consumers
  some_session = omega (arith, length-get s.sessions i c h, v.registered)

  session-Sound : Sound others s.track c
  session-Sound = record {
    good =
        Good-split (pointing s.sessions) others none c.current_element_pointer
          (max 1 s.track.consumers) s.track.consumers s.track.queue
          (λ a. omega (arith, (pointing-set s.sessions i c c a h).0)) (omega (arith, some_session))
          v.good;
    below = v.below;
    room = omega (arith, v.queues);
    few = omega (arith, v.few);
    held = All-get (Held s.track) (Held s.track) (λ d x. x) s.sessions i c h v.held;
  }

  -- A step of the session gives a sound state back to all.
  session-Inv :
      (tr : Track) (c' : Consumer)
      → Sound others tr c'
      → Evolves s.track tr
      → Inv (k + 1) (record { track = tr; sessions = set s.sessions i c' })
  session-Inv tr c' u e = record {
    good =
        Good-split others (pointing (set s.sessions i c')) c'.current_element_pointer none
          tr.consumers (max 1 tr.consumers) tr.queue
          (λ a. omega (arith, (pointing-set s.sessions i c c' a h).1)) (omega arith) u.good;
    below = u.below;
    held =
        All-set (Held s.track) (Held tr)
          (λ d x. e.held d.queue_serial d.last_element_serial d.current_element_pointer x)
          s.sessions i c' v.held u.held;
    registered = length-set s.sessions i c' ∙ v.registered ∙ sym e.consumers;
    started = e.stopped ∙ v.started;
    serials = omega (arith, e.next_serial, v.serials);
    queues = omega (arith, e.spent, v.queues);
    few = omega (arith, e.consumers, v.few);
  }

  leave-Inv :
      (f : Freed others s.track c)
      → Inv (k + 1) (record { track = f.track; sessions = remove s.sessions i })
  leave-Inv f = record {
    good =
        Good-split others others none none f.track.consumers (max 1 f.track.consumers) f.track.queue
          (λ a. omega arith) (omega arith) f.good;
    below = f.below;
    held =
        All-remove (Held s.track) (Held f.track)
          (λ d x. f.held d.queue_serial d.last_element_serial d.current_element_pointer x)
          s.sessions i v.held;
    registered = omega (arith, length-remove s.sessions i c h, v.registered, f.consumers);
    started = f.stopped ∙ v.started;
    serials = omega (arith, f.next_serial, v.serials);
    queues = omega (arith, f.spent, v.queues);
    few = omega (arith, f.consumers, v.few);
  }

-- The call returns, and the invariant holds again.
abbrev pub Steps : ℕ → System → Call → Type 0
Steps k s c = (t : System) × (step s c ≡ ok t) × Inv k t

pub Inv-later : (k : ℕ) (s : System) → Inv k s → Inv (k + 1) s
Inv-later k s v = record {
  good = v.good;
  below = v.below;
  held = v.held;
  registered = v.registered;
  started = v.started;
  serials = omega (arith, v.serials);
  queues = omega (arith, v.queues);
  few = omega (arith, v.few);
}

absent :
    (s : System) (i : ℕ)
    → get_elem? s.sessions i ≡ none
    → (step s (read i) ≡ ok s) × (step s (move i) ≡ ok s) × (step s (leave i) ≡ ok s)
unfolding step
absent s i h = (rw h, rw h, rw h)

pub read-Steps : (k : ℕ) (s : System) (i : ℕ) → Inv k s → k < 65535 → Steps (k + 1) s (read i)
unfolding step
read-Steps k s i v l = elim (Option-cases (get_elem? s.sessions i)) [
  | inl h ↦ (s, (absent s i h).0, Inv-later k s v)
  | inr (c, h) ↦
      let g = get-Got (others k s v l i c h) s.track c (session-Sound k s v l i c h) v.started in
      (_, rw (h, g.runs), session-Inv k s v l i c h g.track g.consumer g.sound g.evolves)
]

move-started :
    (tr : Track) (c : Consumer)
    → tr.stopped ≡ false
    → bq_consumer_move tr c ≡ bq_consumer_move_internal tr c
unfolding bq_consumer_move
move-started tr c h = ap (λ b. if b then ok (tr, c, false) else bq_consumer_move_internal tr c) h

pub move-Steps : (k : ℕ) (s : System) (i : ℕ) → Inv k s → k < 65535 → Steps (k + 1) s (move i)
unfolding step
move-Steps k s i v l = elim (Option-cases (get_elem? s.sessions i)) [
  | inl h ↦ (s, (absent s i h).1, Inv-later k s v)
  | inr (c, h) ↦
      let m = move_internal-Moved (others k s v l i c h) s.track c (session-Sound k s v l i c h) in
      (
        _,
        rw (h, move-started s.track c v.started ∙ m.runs),
        session-Inv k s v l i c h m.track m.consumer m.sound m.evolves,
      )
]

pub leave-Steps : (k : ℕ) (s : System) (i : ℕ) → Inv k s → k < 65535 → Steps (k + 1) s (leave i)
unfolding step
leave-Steps k s i v l = elim (Option-cases (get_elem? s.sessions i)) [
  | inl h ↦ (s, (absent s i h).2, Inv-later k s v)
  | inr (c, h) ↦
      let f =
        free-Freed (others k s v l i c h) s.track c (session-Sound k s v l i c h)
          (some_session k s v l i c h) in
      (_, rw (h, f.runs), leave-Inv k s v l i c h f)
]
