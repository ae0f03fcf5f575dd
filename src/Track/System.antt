-- ===== src/Track/System.antt =====
-- Every interleaving of the calls that the server makes on one track: the producer writes and
-- resets, sessions join, read, move and leave.
pub mod Safety
pub mod Producer
pub mod Runs
use mathlib.Core.Path.{subst}
use feng.Base.{
  ℕ, zero, suc, ◌+◌, ◌-◌, ◌*◌, ◌%◌, ◌^◌, ◌≤◌, ◌<◌, ◌≡◌, ◌≢◌, refl, sym, ap, ◌∙◌, ◌⊎◌, inl, inr,
  Bool, true, false, not, Option, none, some, List, [], ◌∷◌, ◌++◌, map, arith, Outcome, ok, ◌>>=◌,
  leb, ltb, ◌==◌, Bool-cases, Option-cases, length, get_elem?, if◌then◌else◌, All, lt→ltb, max,
}
use feng.Track.{
  MParserBuffer, Node, Track, Consumer, bq_consumer_move, bq_consumer_get, bq_consumer_free,
  register_consumer, track_write, track_reset_queue, track_new,
}
use feng.Track.Chain.{Chain, Good, IsLive, IsSeen, points}
use feng.Track.Pointers.{HasAt, Reaches}
use feng.Track.State.{IsBelow, potential, HeldAt, Held, Evolves}
use feng.Track.Confirm.{Sound}
use feng.Track.Move.{Moved, move_internal-Moved}
use feng.Track.Get.{Got, get-Got}
use feng.Track.Session.{Freed, free-Freed}

-- One track with its sessions.
pub record System : Type 0 where
  pub track : Track
  pub sessions : List Consumer

-- A call; a session is named by its place in the list.
pub data Call : Type 0 where
  write : MParserBuffer → Call
  reset : Call
  join : Call
  read : ℕ → Call
  move : ℕ → Call
  leave : ℕ → Call

abbrev pub set : List Consumer → ℕ → Consumer → List Consumer
set [] i c = []
set (d ∷ cs) zero c = c ∷ cs
set (d ∷ cs) (suc i) c = d ∷ set cs i c

abbrev pub remove : List Consumer → ℕ → List Consumer
remove [] i = []
remove (d ∷ cs) zero = cs
remove (d ∷ cs) (suc i) = d ∷ remove cs i

joined : System → Option (Track × Consumer) → System
joined s none = s
joined s (some (tr, c)) = record { track = tr; sessions = c ∷ s.sessions }

-- A call by a session that is not there is no call.
with_session : System → Option Consumer → (Consumer → Outcome System) → Outcome System
with_session s none f = ok s
with_session s (some c) f = f c

unfoldable pub step : System → Call → Outcome System
unfolding joined with_session
step s (write b) = do tr ← track_write s.track b; ok (record s { track = tr })
step s reset = do tr ← track_reset_queue s.track; ok (record s { track = tr })
step s join = ok (joined s (register_consumer s.track))
step s (read i) = with_session s (get_elem? s.sessions i) λ c.
    bq_consumer_get s.track c >>= λ r. ok (record { track = r.0; sessions = set s.sessions i r.1 })
step s (move i) = with_session s (get_elem? s.sessions i) λ c.
    bq_consumer_move s.track c >>= λ r. ok (record { track = r.0; sessions = set s.sessions i r.1 })
step s (leave i) = with_session s (get_elem? s.sessions i) λ c.
    bq_consumer_free s.track c >>= λ tr. ok (record { track = tr; sessions = remove s.sessions i })

unfoldable pub run : System → List Call → Outcome System
run s [] = ok s
run s (c ∷ cs) = step s c >>= λ t. run t cs

-- How many sessions' pointers are at an address.
abbrev pub pointing : List Consumer → ℕ → ℕ
pointing [] a = 0
pointing (c ∷ cs) a = points c.current_element_pointer a + pointing cs a

pub pointing-set :
    (cs : List Consumer) (i : ℕ) (c c' : Consumer) (a : ℕ)
    → get_elem? cs i ≡ some c
    → (pointing cs a ≡ points c.current_element_pointer a + pointing (remove cs i) a)
      × (pointing (set cs i c') a ≡ points c'.current_element_pointer a + pointing (remove cs i) a)
pointing-set [] i c c' a h = cc
pointing-set (d ∷ cs) zero c c' a h =
    let e : d ≡ c = cc in
    (ap (λ (x : Consumer). points x.current_element_pointer a + pointing cs a) e, refl)
pointing-set (d ∷ cs) (suc i) c c' a h = omega (arith, pointing-set cs i c c' a h)

pub length-set : (cs : List Consumer) (i : ℕ) (c : Consumer) → length (set cs i c) ≡ length cs
length-set [] i c = refl
length-set (d ∷ cs) zero c = refl
length-set (d ∷ cs) (suc i) c = ap suc (length-set cs i c)

pub length-remove :
    (cs : List Consumer) (i : ℕ) (c : Consumer)
    → get_elem? cs i ≡ some c
    → length (remove cs i) + 1 ≡ length cs
length-remove [] i c h = cc
length-remove (d ∷ cs) zero c h = omega arith
length-remove (d ∷ cs) (suc i) c h = omega (arith, length-remove cs i c h)

module _ (P Q : Consumer → Type 0) (keep : (c : Consumer) → P c → Q c) where
  pub All-get :
      (cs : List Consumer) (i : ℕ) (c : Consumer) → get_elem? cs i ≡ some c → All P cs → P c
  All-get [] i c h a = cc
  All-get (d ∷ cs) zero c h a = let e : d ≡ c = cc in subst P e a.0
  All-get (d ∷ cs) (suc i) c h a = All-get cs i c h a.1

  pub All-weaken : (cs : List Consumer) → All P cs → All Q cs
  All-weaken [] a = tt
  All-weaken (d ∷ cs) a = (keep d a.0, All-weaken cs a.1)

  pub All-set : (cs : List Consumer) (i : ℕ) (c : Consumer) → All P cs → Q c → All Q (set cs i c)
  All-set [] i c a q = tt
  All-set (d ∷ cs) zero c a q = (q, All-weaken cs a.1)
  All-set (d ∷ cs) (suc i) c a q = (keep d a.0, All-set cs i c a.1 q)

  pub All-remove : (cs : List Consumer) (i : ℕ) → All P cs → All Q (remove cs i)
  All-remove [] i a = tt
  All-remove (d ∷ cs) zero a = All-weaken cs a.1
  All-remove (d ∷ cs) (suc i) a = (keep d a.0, All-remove cs i a.1)

-- A queue is as good for one split of the pointers as for another.
pub Good-split :
    (o o' : ℕ → ℕ) (p p' : Option ℕ) (k k' : ℕ) (q : List Node)
    → ((a : ℕ) → points p' a + o' a ≤ points p a + o a)
    → k ≤ k'
    → Good o p k q
    → Good o' p' k' q
Good-split o o' p p' k k' [] h l g = tt
Good-split o o' p p' k k' (n ∷ q) h l g = (omega (arith, g.0), chain n q g.1)
  where
    chain : (n : Node) (q : List Node) → Chain o p n q → Chain o' p' n q
    chain n [] c = tt
    chain n (m ∷ q) c = (c.0, c.1, omega (arith, c.2, h m.addr), chain m q c.3)
