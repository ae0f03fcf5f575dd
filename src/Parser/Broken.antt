-- ===== src/Parser/Broken.antt =====
-- src/media/parser_mp4ves.c and parser_h263.c, which do not do what they are for: their loops, and
-- what comes of them.
use feng.Base.{
  ℕ, zero, suc, ◌+◌, ◌-◌, ◌≡◌, ◌<◌, refl, Bool, true, false, ◌&&◌, List, [], ◌∷◌, ◌++◌, arith,
  Outcome, ok, crash, running, ◌>>=◌, ◌==◌, leb, ltb, if◌then◌else◌, length, take, drop, min,
  lt→ltb, ge→ltb, ne→==, length-drop, length-take,
}
use native.Mathlib.Decide.{dec_lt}
use feng.Track.{Track, track_write}
use feng.Parser.{default_mtu, memcpy, memcpy-take, new_buffer, Status, success}

-- `mp4ves_parse`: the loop makes a buffer each time, and does not write it.
mp4ves_loop : ℕ → Track → List ℕ → ℕ → Outcome (Status × Track)
mp4ves_loop zero tr mem len = running
mp4ves_loop (suc fuel) tr mem len = memcpy (min default_mtu len) mem >>= λ content.
    let buffer = new_buffer tr (leb len default_mtu) content in
    let rest = mp4ves_loop fuel tr (drop default_mtu mem) (len - default_mtu) in
    if ltb default_mtu len then rest else ok (success, tr)

pub mp4ves_parse : Track → List ℕ → ℕ → Outcome (Status × Track)
unfolding mp4ves_loop
mp4ves_parse tr mem len = mp4ves_loop (len + 1) tr mem len

mp4ves_loop-eq :
    (fuel : ℕ) (tr : Track) (mem : List ℕ) (len : ℕ)
    → len ≡ length mem
    → len < fuel
    → mp4ves_loop fuel tr mem len ≡ ok (success, tr)
unfolding mp4ves_loop
mp4ves_loop-eq zero tr mem len e l = absurd (omega arith)
mp4ves_loop-eq (suc fuel) tr mem len e l = elim (dec_lt default_mtu len) [
  | yes more ↦
      rw (memcpy-take (min default_mtu len) mem (omega arith), lt→ltb default_mtu len more)
        (mp4ves_loop-eq fuel tr (drop default_mtu mem) (len - default_mtu)
          (omega (arith, length-drop default_mtu mem)) (omega arith))
  | no done ↦
      rw (memcpy-take (min default_mtu len) mem (omega arith), ge→ltb default_mtu len (omega arith))
]

-- `mp4ves_parse` returns 0 for every frame, and writes nothing of it to the track.
pub mp4ves_parse-sends_nothing :
    (tr : Track) (mem : List ℕ) → mp4ves_parse tr mem (length mem) ≡ ok (success, tr)
unfolding mp4ves_parse
mp4ves_parse-sends_nothing tr mem =
    mp4ves_loop-eq (length mem + 1) tr mem (length mem) refl (omega arith)

-- Bytes stored in a block of `size` bytes that `g_malloc` gave (NULL for none).
store : ℕ → List ℕ → Outcome (List ℕ)
store size content = if ltb size (length content) then crash else ok content

-- `gob_start_code`.
abbrev gob_start_code : List ℕ
gob_start_code = 0x04 ∷ 0x00 ∷ []

abbrev found_gob : List ℕ → Bool
found_gob (a ∷ b ∷ c ∷ _) = (a == 0) && ((b == 0) && leb 0x80 c)
found_gob _ = false

-- One round of `h263_parse` stores behind `buffer->data`, which is allocated with the size that
-- `g_slice_new0` left in `data_size`, 0, before the size is set. The flag is `cur == 0 && found_gob`.
h263_content : Bool → List ℕ → ℕ → Outcome (List ℕ × ℕ)
h263_content true mem left = memcpy (min default_mtu left) mem >>= λ p.
    store 0 p >>= λ q. ok (gob_start_code ++ drop 2 q, min default_mtu left)
h263_content false mem left = memcpy (min (default_mtu - 2) left) mem >>= λ p.
    store 0 (0 ∷ 0 ∷ p) >>= λ q. ok (q, min (default_mtu - 2) left)

-- `mem` is the memory from `data + cur` on, and `left` is `len - cur`.
h263_loop : ℕ → Bool → Track → List ℕ → ℕ → Outcome (Status × Track)
unfolding h263_content store
h263_loop zero gob tr mem left = running
h263_loop (suc fuel) gob tr mem left =
    let round = h263_content gob mem left >>= λ r.
    track_write tr (new_buffer tr (leb left r.1) r.0) >>= λ tr'.
    h263_loop fuel false tr' (drop r.1 mem) (left - r.1) in
    if left == 0 then ok (success, tr) else round

pub h263_parse : Track → List ℕ → ℕ → Outcome (Status × Track)
unfolding h263_loop
h263_parse tr mem len = h263_loop (len + 1) (found_gob mem && leb 3 len) tr mem len

store-crash : (content : List ℕ) → 0 < length content → store 0 content ≡ crash
unfolding store
store-crash content h = rw (lt→ltb 0 (length content) h)

h263_content-crash :
    (gob : Bool) (mem : List ℕ) (left : ℕ)
    → left ≡ length mem
    → 0 < left
    → h263_content gob mem left ≡ crash
unfolding h263_content
h263_content-crash true mem left e l =
    let p = take (min default_mtu left) mem in
    rw (memcpy-take (min default_mtu left) mem (omega arith))
      (rw (store-crash p (omega (arith, length-take (min default_mtu left) mem))))
h263_content-crash false mem left e l =
    rw (memcpy-take (min (default_mtu - 2) left) mem (omega arith))
      (rw (store-crash (0 ∷ 0 ∷ take (min (default_mtu - 2) left) mem) (omega arith)))

h263_loop-crash :
    (fuel : ℕ) (gob : Bool) (tr : Track) (mem : List ℕ) (left : ℕ)
    → 0 < fuel
    → left ≡ length mem
    → 0 < left
    → h263_loop fuel gob tr mem left ≡ crash
unfolding h263_loop
h263_loop-crash zero gob tr mem left f e l = absurd (omega arith)
h263_loop-crash (suc fuel) gob tr mem left f e l =
    rw (h263_content-crash gob mem left e l, ne→== left 0 (omega arith))

-- `h263_parse` of any frame that is not empty writes to memory that was not allocated.
pub h263_parse-crashes :
    (tr : Track) (d : ℕ) (mem : List ℕ) → h263_parse tr (d ∷ mem) (length (d ∷ mem)) ≡ crash
unfolding h263_parse
h263_parse-crashes tr d mem =
    h263_loop-crash (length (d ∷ mem) + 1) (found_gob (d ∷ mem) && leb 3 (length (d ∷ mem))) tr
      (d ∷ mem) (length (d ∷ mem)) (omega arith) refl (omega arith)
