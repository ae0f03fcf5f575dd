-- ===== src/Parser/Amr.antt =====
-- src/media/parser_amr.c
pub mod Frames
pub mod Payload
pub mod Groups
pub mod Sent
use feng.Base.{
  ℕ, zero, suc, ◌+◌, ◌-◌, ◌*◌, ◌/◌, ◌%◌, ◌^◌, Bool, true, false, List, [], ◌∷◌, ◌++◌, Outcome, ok,
  crash, running, ◌>>=◌, ltb, ◌==◌, if◌then◌else◌, length, drop,
}
use feng.Track.{Track, track_write}
use feng.Parser.{default_mtu, memcpy, new_buffer, Status, success}

abbrev pub packet_size : List ℕ
packet_size = 12 ∷ 13 ∷ 15 ∷ 17 ∷ 19 ∷ 20 ∷ 26 ∷ 31 ∷ 5 ∷ 0 ∷ 0 ∷ 0 ∷ 0 ∷ 0 ∷ 0 ∷ 0 ∷ []

-- An element of the table; the index has four bits.
abbrev pub sized : List ℕ → ℕ → ℕ
sized [] ft = 0
sized (n ∷ sizes) zero = n
sized (n ∷ sizes) (suc ft) = sized sizes ft

-- `packet_size[tocv.ft]`.
unfoldable pub body_len : ℕ → ℕ
body_len toc = sized packet_size (toc / 2 ^ 3 % 2 ^ 4)

-- The first loop: the frames that fit, from `&data[read_offset]` on.
unfoldable pub count_frames : ℕ → List ℕ → ℕ → ℕ → ℕ → Outcome ℕ
count_frames zero mem len read_offset frames = running
count_frames (suc fuel) [] len read_offset frames = if ltb read_offset len then crash else ok frames
count_frames (suc fuel) (toc ∷ mem) len read_offset frames =
    let end = read_offset + 1 + body_len toc in
    let rest = count_frames fuel (drop (body_len toc) mem) len end (frames + 1) in
    if ltb read_offset len
    then (if ltb len end then ok frames else if ltb (default_mtu - 1) end then ok frames else rest)
    else ok frames

-- `tocv.f = i < frames - 1`, by the frames that are left.
abbrev pub set_f : ℕ → ℕ → ℕ
set_f zero toc = toc % 2 ^ 7
set_f (suc left) toc = 2 ^ 7 + toc % 2 ^ 7

-- The second loop: the tables of contents, which it writes from `data + 1` on; the bodies, which it
-- writes behind them; and `data` and `len` after it.
unfoldable pub copy_frames : ℕ → List ℕ → ℕ → Outcome ((List ℕ × List ℕ) × List ℕ × ℕ)
copy_frames zero mem len = ok (([], []), mem, len)
copy_frames (suc left) [] len = crash
copy_frames (suc left) (toc ∷ mem) len = memcpy (body_len toc) mem >>= λ body.
    copy_frames left (drop (body_len toc) mem) (len - (1 + body_len toc)) >>= λ r.
    ok ((set_f left toc ∷ r.0.0, body ++ r.0.1), r.1, r.2)

-- The buffer, which was allocated with `DEFAULT_MTU` bytes.
unfoldable pub send_frames : Track → List ℕ → Outcome Track
send_frames tr content =
    if ltb default_mtu (length content) then crash else track_write tr (new_buffer tr false content)

abbrev amr_cmr : ℕ
amr_cmr = 240

unfoldable pub amr_loop : ℕ → Track → List ℕ → ℕ → Outcome Track
unfolding count_frames copy_frames send_frames
amr_loop zero tr mem len = running
amr_loop (suc fuel) tr mem len =
    let packet = count_frames (len + 1) mem len 0 0 >>= λ frames.
    (let rest = copy_frames frames mem len >>= λ r.
    send_frames tr (amr_cmr ∷ (r.0.0 ++ r.0.1)) >>= λ tr'. amr_loop fuel tr' r.1 r.2 in
      if frames == 0 then ok tr else rest) in
    if ltb 0 len then packet else ok tr

-- `amr_parse`.
unfoldable pub amr_parse : Track → List ℕ → ℕ → Outcome (Status × Track)
unfolding amr_loop
amr_parse tr mem len = amr_loop (len + 1) tr mem len >>= λ tr'. ok (success, tr')
