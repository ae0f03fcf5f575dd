-- ===== src/Parser.antt =====
-- src/media/parser_*.c: the functions that cut one packet of a demuxer into RTP payloads. This file
-- holds what they share; each parser is a child.
--
-- `data` is the memory from the pointer on, and `len` is passed beside it, as in the source. A read
-- behind the end of that memory is a `crash`.
pub mod Fragment
pub mod Aac
pub mod Vp8
pub mod Xiph
pub mod Single
pub mod Amr
pub mod Mpeg12
pub mod H264
pub mod Broken
pub mod Mpegaudio
mod Tests
use feng.Base.{
  ℕ, zero, suc, ◌+◌, ◌-◌, ◌≤◌, ◌<◌, ◌≡◌, refl, ap, Bool, true, false, List, [], ◌∷◌, ◌++◌, min,
  arith, Outcome, ok, crash, running, ◌>>=◌, ltb, leb, if◌then◌else◌, length, take, drop,
}
use feng.Track.{MParserBuffer, Track, track_write, enqueue}

-- `DEFAULT_MTU`.
abbrev pub default_mtu : ℕ
default_mtu = 1440

-- What a parser returns: 0, or -1.
pub data Status : Type 0 where
  success failure : Status

-- `g_slice_new0`, the assignments that every parser makes, and the content with its size.
abbrev pub new_buffer : Track → Bool → List ℕ → MParserBuffer
new_buffer tr marker content = record {
  seen = 0;
  timestamp = tr.pts;
  delivery = tr.dts;
  duration = tr.frame_duration;
  marker = marker;
  rtp_timestamp = 0;
  seq_no = 0;
  data_size = length content;
  content = content;
}

-- `memcpy` of `n` bytes from the memory at a pointer.
pub memcpy : ℕ → List ℕ → Outcome (List ℕ)
memcpy zero mem = ok []
memcpy (suc n) [] = crash
memcpy (suc n) (x ∷ mem) = memcpy n mem >>= λ r. ok (x ∷ r)

pub memcpy-take : (n : ℕ) (mem : List ℕ) → n ≤ length mem → memcpy n mem ≡ ok (take n mem)
unfolding memcpy
memcpy-take zero mem h = refl
memcpy-take (suc n) [] h = absurd (omega arith)
memcpy-take (suc n) (x ∷ mem) h = ap (λ r. r >>= λ t. ok (x ∷ t)) (memcpy-take n mem (omega arith))

pub memcpy-crash : (n : ℕ) (mem : List ℕ) → length mem < n → memcpy n mem ≡ crash
unfolding memcpy
memcpy-crash zero mem h = absurd (omega arith)
memcpy-crash (suc n) [] h = refl
memcpy-crash (suc n) (x ∷ mem) h =
    ap (λ r. r >>= λ t. ok (x ∷ t)) (memcpy-crash n mem (omega arith))

-- The loop of aac_parse, vp8_parse and xiph_parse, which differ in the header: a `do` loop that
-- sends a header and at most `max` bytes each time, with `len -= max; data += max;` and
-- `while (len > 0)`. `header` takes the loop's own state and `len`. `fuel` bounds the rounds.
pub fragments : {S : Type 0} → ℕ → (S → ℕ → List ℕ × S) → ℕ → Track → S → List ℕ → ℕ → Outcome Track
fragments max header zero tr s mem len = running
fragments max header (suc fuel) tr s mem len = memcpy (min max len) mem >>= λ payload.
    track_write tr (new_buffer tr (leb len max) ((header s len).0 ++ payload)) >>= λ tr'.
    let rest = fragments max header fuel tr' (header s len).1 (drop max mem) (len - max) in
    if ltb max len then rest else ok tr'

-- The track after a list of writes.
abbrev pub enqueue_all : Track → List MParserBuffer → Track
enqueue_all tr [] = tr
enqueue_all tr (b ∷ bs) = enqueue_all (enqueue tr b) bs
