-- ===== src/Parser/Mpeg12.antt =====
-- src/media/parser_mpeg12.c. A pointer into the frame is its distance from the start; `data` may be
-- followed by memory that `len` does not count.
pub mod StartCode
pub mod Found
pub mod Slices
pub mod Sent
use feng.Base.{
  ℕ, zero, suc, ◌+◌, ◌-◌, ◌*◌, ◌/◌, ◌%◌, ◌^◌, Bool, true, false, not, ◌&&◌, ◌||◌, Option, none,
  some, List, [], ◌∷◌, ◌++◌, min, Outcome, ok, crash, running, ◌>>=◌, ltb, leb, ◌==◌, if◌then◌else◌,
  length, drop,
}
use feng.Base.Bytes.{be32}
use feng.Track.{Track, track_write}
use feng.Parser.{default_mtu, memcpy, new_buffer, Status, success}

-- A byte of the memory.
abbrev pub byte_at : List ℕ → ℕ → Outcome ℕ
byte_at [] i = crash
byte_at (x ∷ mem) zero = ok x
byte_at (x ∷ mem) (suc i) = byte_at mem i

-- The rounds of the first loop of `find_start_code`: whether it returned, `p`, and `*state`.
unfoldable pub first_bytes : ℕ → List ℕ → ℕ → ℕ → ℕ → Outcome (Bool × ℕ × ℕ)
first_bytes zero mem p end state = ok (false, p, state)
first_bytes (suc n) mem p end state = byte_at mem p >>= λ x.
    let tmp = state * 2 ^ 8 % 2 ^ 32 in
    let state' = (tmp + x) % 2 ^ 32 in
    let rest = first_bytes n mem (p + 1) end state' in
    if tmp == 256 || p + 1 == end then ok (true, p + 1, state') else rest

-- How far the second loop goes on; none where it breaks.
unfoldable pub skip : List ℕ → ℕ → Outcome (Option ℕ)
skip mem p = byte_at mem (p - 1) >>= λ a.
    if ltb 1 a
    then ok (some 3)
    else byte_at mem (p - 2) >>= λ b.
        if not (b == 0)
        then ok (some 2)
        else byte_at mem (p - 3) >>= λ c. if c == 0 && a == 1 then ok none else ok (some 1)

-- The second loop.
unfoldable pub scan : ℕ → List ℕ → ℕ → ℕ → Outcome ℕ
unfolding skip
scan zero mem p end = running
scan (suc fuel) mem p end =
    if ltb p end
    then (skip mem p >>= λ s. elim s [ none ↦ ok (p + 1) | some n ↦ scan fuel mem (p + n) end ])
    else ok p

abbrev pub word_at : List ℕ → ℕ → Outcome ℕ
word_at mem i = byte_at mem i >>= λ a. byte_at mem (i + 1) >>= λ b. byte_at mem (i + 2) >>= λ c.
    byte_at mem (i + 3) >>= λ d. ok (a * 2 ^ 24 + b * 2 ^ 16 + c * 2 ^ 8 + d)

-- The end of `find_start_code`.
unfoldable pub last_word : List ℕ → ℕ → ℕ → Outcome (ℕ × ℕ)
last_word mem end q = word_at mem (min q end - 4) >>= λ state. ok (min q end - 4 + 4, state)

-- `find_start_code`: what it returns, and `*state`.
unfoldable pub find_start_code : List ℕ → ℕ → ℕ → ℕ → Outcome (ℕ × ℕ)
unfolding first_bytes scan last_word
find_start_code mem p end state =
    if leb end p
    then ok (end, state)
    else first_bytes 3 mem p end state >>= λ t.
        if t.0 then ok (t.1, t.2) else scan (end + 1) mem t.1 end >>= λ q. last_word mem end q

-- `(start_code & 0xffffff00) == 0x100`.
abbrev pub is_code : ℕ → Bool
is_code state = state / 2 ^ 8 == 1

-- The variables of `mpv_parse` that the headers set.
pub record Picture : Type 0 where
  pub frame_type : ℕ
  pub temporal_reference : ℕ
  pub begin_of_sequence : ℕ
  pub ffv : ℕ
  pub ffc : ℕ
  pub fbv : ℕ
  pub bfc : ℕ

abbrev forward : List ℕ → ℕ → Picture → Outcome Picture
forward mem r pic =
    if pic.frame_type == 2 || pic.frame_type == 3
    then (byte_at mem (r + 3) >>= λ x. byte_at mem (r + 4) >>= λ y.
        ok (record pic { ffv = x / 2 ^ 2 % 2; ffc = x % 2 ^ 2 * 2 + y / 2 ^ 7 }))
    else ok pic

abbrev backward : List ℕ → ℕ → Picture → Outcome Picture
backward mem r pic =
    if pic.frame_type == 3
    then (byte_at mem (r + 4) >>= λ y.
        ok (record pic { fbv = y / 2 ^ 6 % 2; bfc = y / 2 ^ 3 % 2 ^ 3 }))
    else ok pic

-- What a start code sets.
unfoldable pub read_header : List ℕ → ℕ → ℕ → Picture → Outcome Picture
read_header mem r code pic =
    if code == 0x100
    then (byte_at mem (r + 1) >>= λ y. byte_at mem r >>= λ x.
        forward mem r (record pic {
          frame_type = y / 2 ^ 3 % 2 ^ 3;
          temporal_reference = x * 2 ^ 2 + y / 2 ^ 6;
        })
        >>= λ pic'. backward mem r pic')
    else if code == 0x1b3
    then ok (record pic { begin_of_sequence = 1 })
    else ok pic

abbrev pub no_state : ℕ
no_state = 2 ^ 32 - 1

-- The loop over all start codes of the frame.
unfoldable pub read_headers : ℕ → List ℕ → ℕ → ℕ → Picture → Outcome Picture
unfolding find_start_code read_header
read_headers zero mem r1 end pic = running
read_headers (suc fuel) mem r1 end pic = find_start_code mem r1 end no_state >>= λ f.
    let rest = read_header mem f.0 f.1 pic >>= λ pic'. read_headers fuel mem f.0 end pic' in
    if is_code f.1 then rest else ok pic

abbrev max_payload : ℕ
max_payload = default_mtu - 4

-- The loop over the slices behind `data`, here `start`: `payload`, where 0 stands for -4, too, and `e`.
unfoldable pub pick_slices : ℕ → List ℕ → ℕ → ℕ → ℕ → Bool → Outcome (ℕ × Bool)
unfolding find_start_code
pick_slices zero mem start r1 end b = running
pick_slices (suc fuel) mem start r1 end b = find_start_code mem r1 end no_state >>= λ f.
    let rest = pick_slices fuel mem start f.0 end b in
    if is_code f.1
    then (if ltb (f.0 - start) max_payload
        then (if b then rest else ok (f.0 - start - 4, true))
        else if ltb (f.0 - r1) default_mtu
        then ok (r1 - start - 4, true)
        else ok (max_payload, false))
    else ok (max_payload, false)

abbrev bit : Bool → ℕ
bit b = if b then 1 else 0

-- `header_n`, as its bytes.
abbrev pub mpv_header : Picture → Bool → Bool → List ℕ
mpv_header pic b e = be32 (
    pic.temporal_reference * 2 ^ 16
    + pic.begin_of_sequence * 2 ^ 13
    + bit b * 2 ^ 12
    + bit e * 2 ^ 11
    + pic.frame_type * 2 ^ 8
    + pic.fbv * 2 ^ 7
    + pic.bfc * 2 ^ 4
    + pic.ffv * 2 ^ 3
    + pic.ffc)

-- `payload` and `e` of one packet.
unfoldable pub choose_payload : List ℕ → ℕ → ℕ → ℕ → Bool → Outcome (ℕ × Bool)
unfolding pick_slices
choose_payload mem start end rem b =
    if leb rem max_payload then ok (rem, true) else pick_slices (end + 1) mem start start end b

-- The loop over the packets.
unfoldable pub mpv_loop : ℕ → Track → List ℕ → ℕ → ℕ → ℕ → Bool → Picture → Outcome Track
unfolding choose_payload
mpv_loop zero tr mem start end rem b pic = running
mpv_loop (suc fuel) tr mem start end rem b pic =
    let packet = choose_payload mem start end rem b >>= λ c.
    (let rest = memcpy c.0 (drop start mem) >>= λ content.
    track_write tr (new_buffer tr (c.0 == rem) (mpv_header pic b c.1 ++ content)) >>= λ tr'.
    mpv_loop fuel tr' mem (start + c.0) end (rem - c.0) c.1
      (record pic { begin_of_sequence = 0 }) in
      if ltb 0 c.0 then rest else ok tr) in
    if ltb 0 rem then packet else ok tr

abbrev pub no_picture : Picture
no_picture = record {
  frame_type = 0;
  temporal_reference = 0;
  begin_of_sequence = 0;
  ffv = 0;
  ffc = 0;
  fbv = 0;
  bfc = 0;
}

-- `mpv_parse`.
unfoldable pub mpv_parse : Track → List ℕ → ℕ → Outcome (Status × Track)
unfolding read_headers mpv_loop
mpv_parse tr mem len = read_headers (len + 1) mem 0 len no_picture >>= λ pic.
    mpv_loop (len + 1) tr mem 0 len len true pic >>= λ tr'. ok (success, tr')
