-- ===== src/Parser/Amr/Sent.antt =====
-- The packets that `amr_parse` (src/media/parser_amr.c) sends.
use mathlib.Core.Path.{subst}
use feng.Base.{
  ℕ, zero, suc, ◌+◌, ◌-◌, ◌≤◌, ◌<◌, ◌≡◌, refl, ap, ap₂, ◌∙◌, inl, inr, false, List, [], ◌∷◌, ◌++◌,
  map, Outcome, ok, ltb, ltb→lt, ltb→ge, lt→ltb, ge→ltb, Bool-cases, ◌==◌, length, take, drop, All,
  arith, concat_map, take-append-drop, length-take, length-drop, append_assoc,
}
use feng.Track.{Track, enqueue}
use feng.Parser.{new_buffer, enqueue_all, success}
use feng.Parser.Fragment.{write-ok, stopped-enqueue}
use feng.Parser.Amr.{body_len, count_frames, send_frames, amr_loop, amr_parse}
use feng.Parser.Amr.Frames.{
  Frame, IsFrame, stored, IsCutOff, fitting, count_frames-fitting, copy_frames-stored,
}
use feng.Parser.Amr.Payload.{payload, receive, heard, receive-payload}
use feng.Parser.Amr.Groups.{
  length-payload, fitting-le, fitting-fits, fitting-suc, length-split, All-take-IsFrame,
  All-drop-IsFrame, map-cut,
}

-- Groups of frames, each with the packet that it is sent in.
pub record Packed (tr : Track) (fs : List Frame) (m : Outcome Track) : Type 0 where
  pub groups : List (List Frame)
  pub runs : m ≡ ok (enqueue_all tr (map (λ g. new_buffer tr false (payload g)) groups))
  pub joined : concat_map (λ g. g) groups ≡ fs
  pub fits : All (λ g. length (payload g) ≤ 1440) groups
  pub received : concat_map (λ g. receive (payload g)) groups ≡ map heard fs

group_fits :
    (f : Frame) (fs : List Frame) (k : ℕ)
    → fitting 0 (f ∷ fs) ≡ suc k
    → length (payload (f ∷ take k fs)) ≤ 1440
group_fits f fs k i =
    let a : 0 + length (stored (f ∷ take k fs)) ≤ 1439 =
      subst (λ (j : ℕ). 0 + length (stored (take j (f ∷ fs))) ≤ 1439) i
        (fitting-fits 0 (f ∷ fs) (omega arith)) in
    omega (arith, a, length-payload (f ∷ take k fs))

-- Less than a frame is not sent.
amr_loop-rest :
    (fuel : ℕ) (tr : Track) (tail : List ℕ) (len : ℕ)
    → IsCutOff tail
    → len ≡ length tail
    → amr_loop (suc fuel) tr tail len ≡ ok tr
unfolding amr_loop
amr_loop-rest fuel tr [] len c e = rw (ge→ltb 0 len (omega arith)) refl
amr_loop-rest fuel tr (toc ∷ tail) len c e =
    rw
      (
        lt→ltb 0 len (omega arith),
        count_frames-fitting (len + 1) [] (toc ∷ tail) len 0 0 tt c (omega arith) (omega arith),
      )
      refl

-- One packet, and the loop behind it.
amr_loop-suc :
    (fuel : ℕ) (tr : Track) (f : Frame) (fs : List Frame) (tail : List ℕ) (len k : ℕ)
    → tr.stopped ≡ false
    → All IsFrame (f ∷ fs)
    → IsCutOff tail
    → len ≡ length (stored (f ∷ fs) ++ tail)
    → fitting 0 (f ∷ fs) ≡ suc k
    → amr_loop (suc fuel) tr (stored (f ∷ fs) ++ tail) len
      ≡ amr_loop fuel
          (enqueue tr (new_buffer tr false (payload (f ∷ take k fs))))
          (stored (drop k fs) ++ tail)
          (len - length (stored (f ∷ take k fs)))
unfolding amr_loop send_frames
amr_loop-suc fuel tr f fs tail len k g h c e i =
    let l : suc k ≤ length (f ∷ fs) = omega (arith, fitting-le 0 (f ∷ fs), i) in
    let b = new_buffer tr false (payload (f ∷ take k fs)) in
    let n : count_frames (len + 1) (stored (f ∷ fs) ++ tail) len 0 0 ≡ ok (suc k) =
      count_frames-fitting (len + 1) (f ∷ fs) tail len 0 0 h c (omega (arith, e)) (omega (arith, e))
      ∙ ap ok (omega (arith, i)) in
    let z : (suc k == 0) ≡ false = ground arith in
    rw
      (
        lt→ltb 0 len (omega (arith, e)),
        n,
        z,
        copy_frames-stored (suc k) (f ∷ fs) tail len h l,
        ge→ltb 1440 (length (payload (f ∷ take k fs))) (group_fits f fs k i),
        write-ok tr b g,
      )
      refl

amr_loop-Packed :
    (fuel : ℕ) (tr : Track) (fs : List Frame) (tail : List ℕ) (len : ℕ)
    → tr.stopped ≡ false
    → All IsFrame fs
    → IsCutOff tail
    → len ≡ length (stored fs ++ tail)
    → len < fuel
    → Packed tr fs (amr_loop fuel tr (stored fs ++ tail) len)
unfolding enqueue
amr_loop-Packed zero tr fs tail len g h c e l = absurd (omega arith)
amr_loop-Packed (suc fuel) tr [] tail len g h c e l = record {
  groups = [];
  runs = amr_loop-rest fuel tr tail len c e;
  joined = refl;
  fits = tt;
  received = refl;
}
amr_loop-Packed (suc fuel) tr (f ∷ fs) tail len g (h, hs) c e l =
    let k = fitting (0 + 1 + length f.1) fs in
    let i = fitting-suc f fs h in
    let group = f ∷ take k fs in
    let b = new_buffer tr false (payload group) in
    let n : length (stored (f ∷ fs) ++ tail)
        ≡ length (stored group) + length (stored (drop k fs) ++ tail) =
      length-split (suc k) (f ∷ fs) tail in
    let p =
      amr_loop-Packed fuel (enqueue tr b) (drop k fs) tail (len - length (stored group))
        (stopped-enqueue tr b ∙ g) (All-drop-IsFrame k fs hs) c (omega (arith, n, e))
        (omega (arith, e)) in
    record {
      groups = group ∷ p.groups;
      runs = amr_loop-suc fuel tr f fs tail len k g (h, hs) c e i ∙ p.runs;
      joined =
          ap (λ (xs : List Frame). f ∷ (take k fs ++ xs)) p.joined
          ∙ ap (λ (xs : List Frame). f ∷ xs) (take-append-drop k fs);
      fits = (group_fits f fs k i, p.fits);
      received =
          ap₂ ◌++◌ (receive-payload f (take k fs) (h, All-take-IsFrame k fs hs)) p.received
          ∙ ap (λ (xs : List Frame). heard f ∷ xs) (map-cut k fs);
    }

-- `amr_parse` of frames that lie one behind the other, with less than a frame behind them, returns 0
-- on a track that is not stopped. It puts packets of at most `DEFAULT_MTU` bytes behind the queue,
-- for groups of the frames that are the frames in their order; a receiver of RFC 4867 finds in them
-- the bodies of all frames, in order, and their bytes of the table of contents without the bit F.
pub amr_parse_lem :
    (tr : Track) (fs : List Frame) (tail : List ℕ)
    → tr.stopped ≡ false
    → All IsFrame fs
    → IsCutOff tail
    → (groups : List (List Frame)) × (amr_parse tr (stored fs ++ tail) (length (stored fs ++ tail))
        ≡ ok (success, enqueue_all tr (map (λ g. new_buffer tr false (payload g)) groups)))
      × (concat_map (λ g. g) groups ≡ fs)
      × All (λ g. length (payload g) ≤ 1440) groups
      × (concat_map (λ g. receive (payload g)) groups ≡ map heard fs)
unfolding amr_parse
amr_parse_lem tr fs tail g h c =
    let n = length (stored fs ++ tail) in
    let p = amr_loop-Packed (n + 1) tr fs tail n g h c refl (omega arith) in
    (p.groups, rw p.runs refl, p.joined, p.fits, p.received)

-- Data as frames, with less than a frame behind them.
pub record Cut (mem : List ℕ) : Type 0 where
  pub frames : List Frame
  pub tail : List ℕ
  pub whole : stored frames ++ tail ≡ mem
  pub valid : All IsFrame frames
  pub short : IsCutOff tail

Cut-frames : (fuel : ℕ) (mem : List ℕ) → length mem < fuel → Cut mem
Cut-frames zero mem l = absurd (omega arith)
Cut-frames (suc fuel) [] l = record { frames = []; tail = []; whole = refl; valid = tt; short = tt }
Cut-frames (suc fuel) (toc ∷ mem) l = elim (Bool-cases (ltb (length mem) (body_len toc))) [
  | inl e ↦ record {
    frames = [];
    tail = toc ∷ mem;
    whole = refl;
    valid = tt;
    short = ltb→lt (length mem) (body_len toc) e;
  }
  | inr e ↦
      let n = body_len toc in
      let c = Cut-frames fuel (drop n mem) (omega (arith, length-drop n mem)) in
      record {
        frames = (toc, take n mem) ∷ c.frames;
        tail = c.tail;
        whole =
            ap (λ (xs : List ℕ). toc ∷ xs)
              (append_assoc (take n mem) (stored c.frames) c.tail
                ∙ ap (λ (xs : List ℕ). take n mem ++ xs) c.whole
                ∙ take-append-drop n mem);
        valid = (omega (arith, length-take n mem, ltb→ge (length mem) (body_len toc) e), c.valid);
        short = c.short;
      }
]

-- All data are such frames, so that `amr_parse` returns 0 for all of them.
pub amr_parse-returns :
    (tr : Track) (mem : List ℕ)
    → tr.stopped ≡ false
    → (tr' : Track) × (amr_parse tr mem (length mem) ≡ ok (success, tr'))
amr_parse-returns tr mem g =
    let c = Cut-frames (length mem + 1) mem (omega arith) in
    let p = amr_parse_lem tr c.frames c.tail g c.valid c.short in
    let tr' = enqueue_all tr (map (λ g'. new_buffer tr false (payload g')) p.0) in
    (tr', subst (λ (xs : List ℕ). amr_parse tr xs (length xs) ≡ ok (success, tr')) c.whole p.1)
