-- ===== src/Parser/Fragment.antt =====
-- What the loop `fragments` sends.
use native.Mathlib.Decide.{dec_lt}
use feng.Base.{
  ap₂, ℕ, zero, suc, ◌+◌, ◌-◌, ◌≤◌, ◌<◌, ◌≡◌, refl, ap, ◌∙◌, true, false, not, List, [], ◌∷◌, ◌++◌,
  min, arith, ok, ◌>>=◌, assert, leb, length, take, drop, All, concat_map, length-append,
  length-take, length-drop, take-append-drop, take_all, append-nil, le→leb, gt→leb, lt→ltb, ge→ltb,
}
use feng.Track.{MParserBuffer, Track, track_write, enqueue}
use feng.Parser.{new_buffer, memcpy-take, fragments, enqueue_all}

-- The marker is set on the last buffer and on no other.
abbrev pub MarksLast : List MParserBuffer → Type 0
MarksLast [] = ⊥
MarksLast (b ∷ []) = b.marker ≡ true
MarksLast (b ∷ c ∷ bs) = (b.marker ≡ false) × MarksLast (c ∷ bs)

-- A buffer with a header of `h` bytes and at most `max` more, as the track's fields time it.
pub record IsPacket (h max : ℕ) (tr : Track) (b : MParserBuffer) : Type 0 where
  pub size : b.data_size ≡ length b.content
  pub has_header : h ≤ b.data_size
  pub fits : b.data_size ≤ h + max
  pub timestamp : b.timestamp ≡ tr.pts
  pub delivery : b.delivery ≡ tr.dts
  pub duration : b.duration ≡ tr.frame_duration
  pub uncounted : b.seen ≡ 0
  pub unnumbered : b.seq_no ≡ 0

-- The headers, in their order, are those that the loop's state and the bytes left give; the list
-- ends with the round that at most `max` bytes are left to.
abbrev pub Heads : {S : Type 0} → ℕ → ℕ → (S → ℕ → List ℕ × S) → S → ℕ → List MParserBuffer → Type 0
Heads h max header s len [] = ⊥
Heads h max header s len (b ∷ []) = (len ≤ max) × (take h b.content ≡ (header s len).0)
Heads h max header s len (b ∷ c ∷ bs) =
    (max < len)
    × (take h b.content ≡ (header s len).0)
    × Heads h max header (header s len).1 (len - max) (c ∷ bs)

-- The buffers that a parser wrote, one behind the other: without their headers of `h` bytes they
-- are the data, each is a packet, and the last is marked.
pub record Fragmented (h max : ℕ) (tr : Track) (mem : List ℕ) (bs : List MParserBuffer)
    : Type 0 where
  pub payload : concat_map (λ (b : MParserBuffer). drop h b.content) bs ≡ mem
  pub packets : All (IsPacket h max tr) bs
  pub marks : MarksLast bs

take_header : (h : ℕ) (xs ys : List ℕ) → length xs ≡ h → take h (xs ++ ys) ≡ xs
take_header zero [] ys e = refl
take_header zero (x ∷ xs) ys e = absurd (omega arith)
take_header (suc h) [] ys e = absurd (omega arith)
take_header (suc h) (x ∷ xs) ys e = ap (λ t. x ∷ t) (take_header h xs ys (omega arith))

drop_header : (h : ℕ) (xs ys : List ℕ) → length xs ≡ h → drop h (xs ++ ys) ≡ ys
drop_header zero [] ys e = refl
drop_header zero (x ∷ xs) ys e = absurd (omega arith)
drop_header (suc h) [] ys e = absurd (omega arith)
drop_header (suc h) (x ∷ xs) ys e = drop_header h xs ys (omega arith)

-- A track that is not stopped takes the write, and is not stopped behind it.
pub write-ok :
    (tr : Track) (b : MParserBuffer) → tr.stopped ≡ false → track_write tr b ≡ ok (enqueue tr b)
unfolding track_write
write-ok tr b e = ap (λ t. assert (not t) >>= λ _. ok (enqueue tr b)) e

-- A write leaves the fields that the parsers read.
pub IsPacket-enqueue :
    (h max : ℕ) (tr : Track) (b : MParserBuffer) (bs : List MParserBuffer)
    → All (IsPacket h max (enqueue tr b)) bs
    → All (IsPacket h max tr) bs
unfolding enqueue
IsPacket-enqueue h max tr b [] a = tt
IsPacket-enqueue h max tr b (c ∷ bs) (p, a) = (
  record {
    size = p.size;
    has_header = p.has_header;
    fits = p.fits;
    timestamp = p.timestamp;
    delivery = p.delivery;
    duration = p.duration;
    uncounted = p.uncounted;
    unnumbered = p.unnumbered;
  },
  IsPacket-enqueue h max tr b bs a,
)

MarksLast-cons :
    (b : MParserBuffer) (bs : List MParserBuffer)
    → b.marker ≡ false
    → MarksLast bs
    → MarksLast (b ∷ bs)
MarksLast-cons b [] e m = absurd m
MarksLast-cons b (c ∷ bs) e m = (e, m)

pub stopped-enqueue : (tr : Track) (b : MParserBuffer) → (enqueue tr b).stopped ≡ tr.stopped
unfolding enqueue
stopped-enqueue tr b = refl

Heads-cons :
    {S : Type 0} (h max : ℕ) (header : S → ℕ → List ℕ × S) (s : S) (len : ℕ) (b : MParserBuffer)
    (bs : List MParserBuffer)
    → max < len
    → take h b.content ≡ (header s len).0
    → Heads h max header (header s len).1 (len - max) bs
    → Heads h max header s len (b ∷ bs)
Heads-cons h max header s len b [] l e hs = absurd hs
Heads-cons h max header s len b (c ∷ bs) l e hs = (l, e, hs)

module _ {S : Type 0} (h max : ℕ) (header : S → ℕ → List ℕ × S) (pos : 0 < max)
    (size : (s : S) (len : ℕ) → length (header s len).0 ≡ h) where
  abbrev packet_of : Track → S → List ℕ → ℕ → MParserBuffer
  packet_of tr s mem len = new_buffer tr (leb len max) ((header s len).0 ++ take (min max len) mem)

  single-IsPacket :
      (tr : Track) (s : S) (mem : List ℕ) (len : ℕ) → IsPacket h max tr (packet_of tr s mem len)
  single-IsPacket tr s mem len =
      let e = length-append (header s len).0 (take (min max len) mem) in
      let t = length-take (min max len) mem in
      record {
        size = refl;
        has_header = omega (arith, e, size s len);
        fits = omega (arith, e, t, size s len);
        timestamp = refl;
        delivery = refl;
        duration = refl;
        uncounted = refl;
        unnumbered = refl;
      }

  fragments_last :
      (fuel : ℕ) (tr : Track) (s : S) (mem : List ℕ) (len : ℕ)
      → tr.stopped ≡ false
      → len ≡ length mem
      → len ≤ max
      → fragments max header (suc fuel) tr s mem len ≡ ok (enqueue tr (packet_of tr s mem len))
  unfolding fragments
  fragments_last fuel tr s mem len g e l = rw (
    memcpy-take (min max len) mem (omega arith),
    write-ok tr (packet_of tr s mem len) g,
    ge→ltb max len l,
  )

  fragments_more :
      (fuel : ℕ) (tr : Track) (s : S) (mem : List ℕ) (len : ℕ)
      → tr.stopped ≡ false
      → len ≡ length mem
      → max < len
      → fragments max header (suc fuel) tr s mem len
        ≡ fragments max header fuel
            (enqueue tr (packet_of tr s mem len))
            (header s len).1
            (drop max mem)
            (len - max)
  unfolding fragments
  fragments_more fuel tr s mem len g e l = rw (
    memcpy-take (min max len) mem (omega arith),
    write-ok tr (packet_of tr s mem len) g,
    lt→ltb max len l,
  )

  -- What the loop sends, for some list of buffers.
  abbrev pub Sent : ℕ → Track → S → List ℕ → ℕ → Type 0
  Sent fuel tr s mem len =
      (bs : List MParserBuffer) × (fragments max header fuel tr s mem len ≡ ok (enqueue_all tr bs))
      × Fragmented h max tr mem bs
      × Heads h max header s len bs

  Sent-last :
      (fuel : ℕ) (tr : Track) (s : S) (mem : List ℕ) (len : ℕ)
      → tr.stopped ≡ false
      → len ≡ length mem
      → len ≤ max
      → Sent (suc fuel) tr s mem len
  Sent-last fuel tr s mem len g e l =
      let all : take (min max len) mem ≡ mem = take_all (min max len) mem (omega arith) in
      (
        packet_of tr s mem len ∷ [],
        fragments_last fuel tr s mem len g e l,
        record {
          payload =
              append-nil _
              ∙ drop_header h (header s len).0 (take (min max len) mem) (size s len)
              ∙ all;
          packets = (single-IsPacket tr s mem len, tt);
          marks = le→leb len max l;
        },
        (l, take_header h (header s len).0 (take (min max len) mem) (size s len)),
      )

  Sent-more :
      (fuel : ℕ) (tr : Track) (s : S) (mem : List ℕ) (len : ℕ)
      → tr.stopped ≡ false
      → len ≡ length mem
      → max < len
      → Sent fuel (enqueue tr (packet_of tr s mem len)) (header s len).1 (drop max mem) (len - max)
      → Sent (suc fuel) tr s mem len
  Sent-more fuel tr s mem len g e l (bs, r, f, hs) =
      let b = packet_of tr s mem len in
      let cut : take (min max len) mem ≡ take max mem = ap (λ (n : ℕ). take n mem) (omega arith) in
      (
        b ∷ bs,
        fragments_more fuel tr s mem len g e l ∙ r,
        record {
          payload =
              ap₂ ◌++◌ (drop_header h (header s len).0 (take (min max len) mem) (size s len) ∙ cut)
                f.payload
              ∙ take-append-drop max mem;
          packets = (single-IsPacket tr s mem len, IsPacket-enqueue h max tr b bs f.packets);
          marks = MarksLast-cons b bs (gt→leb len max l) f.marks;
        },
        Heads-cons h max header s len b bs l
            (take_header h (header s len).0 (take (min max len) mem) (size s len)) hs,
      )

  -- With more fuel than bytes the loop ends.
  pub fragments-Sent :
      (fuel : ℕ) (tr : Track) (s : S) (mem : List ℕ) (len : ℕ)
      → tr.stopped ≡ false
      → len ≡ length mem
      → len < fuel
      → Sent fuel tr s mem len
  fragments-Sent zero tr s mem len g e l = absurd (omega arith)
  fragments-Sent (suc fuel) tr s mem len g e l = elim (dec_lt max len) [
    | yes more ↦ Sent-more fuel tr s mem len g e more (
        fragments-Sent fuel (enqueue tr (packet_of tr s mem len)) (header s len).1 (drop max mem)
          (len - max) (stopped-enqueue tr _ ∙ g) (omega (arith, length-drop max mem)) (omega arith))
    | no done ↦ Sent-last fuel tr s mem len g e (omega arith)
  ]
