-- ===== src/Parser/H264.antt =====
-- src/media/parser_h264.c: fragmentation units, length-prefixed (AVC) packets, and packets with
-- start codes. The parts that write the SDP description are not here.
pub mod FuA
pub mod StartCodes
use feng.Base.{
  ℕ, zero, suc, ◌+◌, ◌-◌, ◌*◌, ◌/◌, ◌%◌, ◌^◌, Bool, true, false, ◌&&◌, ◌||◌, List, [], ◌∷◌, ◌++◌,
  min, Outcome, ok, crash, running, ◌>>=◌, ltb, leb, ◌==◌, if◌then◌else◌, length, take, drop,
}
use feng.Track.{MParserBuffer, Track, track_write}
use feng.Parser.{default_mtu, memcpy, fragments, new_buffer, Status, success, failure}

abbrev pub max_fragment : ℕ
max_fragment = default_mtu - 2

-- The FU indicator, `(nal[0] & 0xe0) | 28`, and the FU header: `nal[0] & 0x1f`, with the start bit
-- while `start` is set, and the end bit if the fragment takes all that is left.
abbrev pub fu_header : ℕ → Bool → ℕ → List ℕ × Bool
fu_header nal0 start left = (
  (nal0 / 2 ^ 5 * 2 ^ 5 + 28)
      ∷ (nal0 % 2 ^ 5 + (if start then 2 ^ 7 else 0) + (if leb left max_fragment then 2 ^ 6 else 0))
      ∷ [],
  false,
)

-- The `while (fragsize > 0)` is the shared `do` loop behind a first test. (All buffers but the last
-- are unmarked, as `g_slice_new0` leaves them.)
frag_rest : List ℕ → List ℕ → ℕ → Track → Outcome Track
frag_rest [] mem size tr = crash
frag_rest (nal0 ∷ _) mem size tr =
    if ltb 0 size
    then fragments max_fragment (fu_header nal0) (size + 1) tr true mem size
    else ok tr

pub frag_fu_a : List ℕ → ℕ → Track → Outcome Track
unfolding frag_rest
frag_fu_a nal fragsize tr = frag_rest nal (drop 1 nal) (fragsize - 1) tr

-- A NAL unit that fits a packet goes in one, and is marked; another one in fragments.
pub send_nal : List ℕ → ℕ → Track → Outcome Track
send_nal nal size tr =
    if leb size default_mtu
    then (memcpy size nal >>= λ content. track_write tr (new_buffer tr true content))
    else frag_fu_a nal size tr

-- `nalsize = (nalsize << 8) | data[index++]`, as many times as the track says. (A `size_t` holds
-- the at most four bytes.)
pub read_size : ℕ → ℕ → List ℕ → Outcome ℕ
read_size zero acc mem = ok acc
read_size (suc n) acc [] = crash
read_size (suc n) acc (x ∷ mem) = read_size n (acc * 2 ^ 8 + x) mem

-- The `while (1)` of the AVC branch. `data` is the whole packet, and `len` its length.
pub avc_loop : ℕ → List ℕ → ℕ → ℕ → Track → Outcome (Status × Track)
avc_loop zero mem len index tr = running
avc_loop (suc fuel) mem len index tr =
    let n = tr.nal_length_size in
    let round = read_size n 0 (drop index mem) >>= λ size.
    let skip = avc_loop fuel mem len (index + n + 1) tr in
    let send = send_nal (drop (index + n) mem) size tr >>= λ tr'.
    avc_loop fuel mem len (index + n + size) tr' in
    if leb size 1 || ltb len size then (if size == 1 then skip else ok (success, tr)) else send in
    if leb len index then ok (success, tr) else round

-- The three bytes of a start code.
abbrev pub at_start_code : List ℕ → Bool
at_start_code (a ∷ b ∷ c ∷ _) = (a == 0) && ((b == 0) && (c == 1))
at_start_code _ = false

-- `for (; p < data + len - 3; p++) if (start code at p) break;`, as the offset that `p` has at the
-- end. `left` counts the offsets below `len - 3`.
pub seek : ℕ → List ℕ → ℕ → ℕ
seek zero mem p = p
seek (suc left) mem p =
    let next = seek left mem (p + 1) in if at_start_code (drop p mem) then p else next

abbrev pub seek_from : List ℕ → ℕ → ℕ → ℕ
seek_from mem len p = seek (len - 3 - p) mem p

-- The `while (1)` of the other branch: up to the next start code `q`, the NAL unit from `p` on.
pub annexb_loop : ℕ → List ℕ → ℕ → ℕ → Track → Outcome (ℕ × Track)
annexb_loop zero mem len p tr = running
annexb_loop (suc fuel) mem len p tr =
    let q = seek_from mem len p in
    let round = send_nal (drop p mem) (q - p) tr >>= λ tr'. annexb_loop fuel mem len q tr' in
    if leb len q then ok (p, tr) else round

-- `h264_parse`. The bound `data + len - 3` lies before `data` for fewer than three bytes, and then
-- no byte is looked at, as with the truncated difference.
pub h264_parse : ℕ → Track → List ℕ → ℕ → Outcome (Status × Track)
unfolding avc_loop annexb_loop
h264_parse fuel tr mem len =
    if tr.is_avc
    then avc_loop fuel mem len 0 tr
    else (let p = seek_from mem len 0 in
        if leb len p
        then ok (failure, tr)
        else annexb_loop fuel mem len p tr >>= λ r.
            send_nal (drop r.0 mem) (len - r.0) r.1 >>= λ tr'. ok (success, tr'))
