-- ===== src/Parser/H264/StartCodes.antt =====
-- The branch of `h264_parse` for packets with start codes.
use feng.Base.{
  ℕ, zero, suc, ◌+◌, ◌-◌, ◌≡◌, ◌<◌, ◌≤◌, refl, ap, ◌∙◌, Bool, true, false, List, [], ◌∷◌, arith,
  inl, inr, ok, running, ◌⊎◌, ◌>>=◌, leb, if◌then◌else◌, length, drop, gt→leb, Bool-cases,
}
use feng.Track.{Track, enqueue}
use feng.Parser.{memcpy-take, new_buffer, success, failure}
use feng.Parser.Fragment.{write-ok, stopped-enqueue}
use feng.Parser.H264.{at_start_code, seek, seek_from, send_nal, annexb_loop, avc_loop, h264_parse}

-- The search stops at a start code, or at its end.
seek_stops :
    (left : ℕ) (mem : List ℕ) (p : ℕ)
    → (seek left mem p ≤ p + left)
      × ((at_start_code (drop (seek left mem p) mem) ≡ true) ⊎ (seek left mem p ≡ p + left))
unfolding seek
seek_stops zero mem p = (omega arith, inr (omega arith))
seek_stops (suc left) mem p = elim (Bool-cases (at_start_code (drop p mem))) [
  | inl e ↦ rw e (omega arith, inl e)
  | inr e ↦
      let r = seek_stops left mem (p + 1) in
      rw e (omega (arith, r.0), elim (r.1) [ inl a ↦ inl a | inr b ↦ inr (omega arith) ])
]

seek_at_code :
    (left : ℕ) (mem : List ℕ) (p : ℕ) → at_start_code (drop p mem) ≡ true → seek left mem p ≡ p
unfolding seek
seek_at_code zero mem p e = refl
seek_at_code (suc left) mem p e = rw e

seek_none_left : (mem : List ℕ) (left p : ℕ) → left ≡ 0 → seek left mem p ≡ p
unfolding seek
seek_none_left mem zero p e = refl
seek_none_left mem (suc left) p e = absurd (omega arith)

-- The second search begins where the first one stopped, and finds the same place.
seek_again :
    (mem : List ℕ) (len : ℕ) → seek_from mem len (seek_from mem len 0) ≡ seek_from mem len 0
seek_again mem len =
    let p = seek_from mem len 0 in
    let r = seek_stops (len - 3 - 0) mem 0 in
    elim (r.1) [
      | inl e ↦ seek_at_code (len - 3 - p) mem p e
      | inr e ↦ seek_none_left mem (len - 3 - p) p (omega arith)
    ]

-- A NAL unit of no bytes goes into a packet of no bytes.
send_nothing :
    (mem : List ℕ) (tr : Track)
    → tr.stopped ≡ false
    → send_nal mem 0 tr ≡ ok (enqueue tr (new_buffer tr true []))
unfolding send_nal
send_nothing mem tr g = rw (memcpy-take 0 mem (omega arith), write-ok tr (new_buffer tr true []) g)

annexb_loop-runs :
    (fuel : ℕ) (mem : List ℕ) (len p : ℕ) (tr : Track)
    → tr.stopped ≡ false
    → seek_from mem len p ≡ p
    → p < len
    → annexb_loop fuel mem len p tr ≡ running
unfolding annexb_loop
annexb_loop-runs zero mem len p tr g e l = refl
annexb_loop-runs (suc fuel) mem len p tr g e l =
    let z : p - p ≡ 0 = omega arith in
    rw (e, gt→leb len p l, z, send_nothing (drop p mem) tr g)
      (annexb_loop-runs fuel mem len p (enqueue tr (new_buffer tr true []))
        (stopped-enqueue tr (new_buffer tr true []) ∙ g) e l)

-- `h264_parse` of a packet that is not empty, on a track that is neither stopped nor AVC, never returns: however
-- many rounds are allowed, it is still in the loop, where each round finds the start code (or the
-- place near the end) that it begins at, and writes a packet of no bytes.
pub h264_parse-never_returns :
    (fuel : ℕ) (tr : Track) (d : ℕ) (mem : List ℕ)
    → tr.stopped ≡ false
    → tr.is_avc ≡ false
    → h264_parse fuel tr (d ∷ mem) (length (d ∷ mem)) ≡ running
unfolding h264_parse
h264_parse-never_returns fuel tr d mem g a =
    let m = d ∷ mem in
    let p = seek_from m (length m) 0 in
    let l : p < length m = omega (arith, seek_stops (length m - 3 - 0) m 0) in
    ap
      (λ (b : Bool).
        if b
        then avc_loop fuel m (length m) 0 tr
        else (if leb (length m) p
            then ok (failure, tr)
            else annexb_loop fuel m (length m) p tr >>= λ r.
                send_nal (drop r.0 m) (length m - r.0) r.1 >>= λ tr'. ok (success, tr')))
      a
    ∙ rw (gt→leb (length m) p l) (
        ap (λ r. r >>= λ r. send_nal (drop r.0 m) (length m - r.0) r.1 >>= λ tr'. ok (success, tr'))
          (annexb_loop-runs fuel m (length m) p tr g (seek_again m (length m)) l))
