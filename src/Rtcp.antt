-- ===== src/Rtcp.antt =====
-- src/network/rtcp.c: the compound packets that feng sends, and the walk over those it gets.
--
-- The clock, and the conversion of the elapsed seconds (a `double`) to `unsigned int`, are inputs.
-- The machine is little-endian; a packet is the list of its bytes.
pub mod Compound
pub mod Reading
mod Tests
use feng.Base.{
  ℕ, zero, suc, ◌+◌, ◌-◌, ◌*◌, ◌/◌, ◌%◌, ◌^◌, Bool, true, false, ◌||◌, List, [], ◌∷◌, ◌++◌, Outcome,
  ok, crash, running, ◌>>=◌, ltb, ◌==◌, if◌then◌else◌, length, drop, replicate,
}
use feng.Base.Bytes.{be16, be32, of_be16}

-- What `rtcp_set_sr` reads: the session, the clock, and `(now - playback_time) * clock_rate`.
pub record SrInput : Type 0 where
  pub ssrc : ℕ
  pub start_rtptime : ℕ
  pub pkt_count : ℕ
  pub octet_count : ℕ
  pub tv_sec : ℕ
  pub tv_nsec : ℕ
  pub elapsed : ℕ

-- `rtcp_pkt_type`.
pub data RtcpType : Type 0 where
  sr rr sdes bye app : RtcpType

abbrev pub pt : RtcpType → ℕ
pt sr = 200
pt rr = 201
pt sdes = 202
pt bye = 203
pt app = 204

-- `RTCP_header`: version 2 in the upper two bits, no padding, the count in the lower five.
abbrev pub rtcp_header : ℕ → ℕ → ℕ → List ℕ
rtcp_header count type size = (2 * 2 ^ 6 + count) ∷ type ∷ be16 (size / 4 - 1)

-- `rtcp_set_sr`, whose size is that of its two structures: 4 and 24 bytes.
pub rtcp_set_sr : SrInput → List ℕ
rtcp_set_sr s =
    rtcp_header 0 (pt sr) 28
    ++ be32 s.ssrc
    ++ be32 ((s.tv_sec + 2208988800) % 2 ^ 32)
    ++ be32 (s.tv_nsec * 2 ^ 32 / 1000000000 % 2 ^ 32)
    ++ be32 ((s.elapsed + s.start_rtptime) % 2 ^ 32)
    ++ be32 s.pkt_count
    ++ be32 s.octet_count

-- `if ( outpkt_size%4 != 0 ) padding = 4-(outpkt_size%4)`.
abbrev pub padding : ℕ → ℕ
padding size = if size % 4 == 0 then 0 else 4 - size % 4

-- `CNAME`.
abbrev cname : ℕ
cname = 1

-- `rtcp_pkt_sr_sdes`; `RTCP_header_SDES` has 6 bytes before the name. The buffer is cleared first, so
-- that the padding is zero.
pub rtcp_pkt_sr_sdes : SrInput → List ℕ → List ℕ
rtcp_pkt_sr_sdes s name =
    let pad = padding (4 + 24 + (4 + 6 + length name)) in
    rtcp_set_sr s
    ++ (rtcp_header 1 (pt sdes) (4 + 6 + length name + pad)
        ++ (be32 s.ssrc ++ (cname ∷ (length name % 2 ^ 8) ∷ (name ++ replicate pad 0))))

-- "The medium is over." with its terminator.
abbrev pub reason : List ℕ
reason =
    84 ∷ 104 ∷ 101 ∷ 32 ∷ 109 ∷ 101 ∷ 100 ∷ 105 ∷ 117 ∷ 109 ∷ 32 ∷ 105 ∷ 115 ∷ 32 ∷ 111 ∷ 118 ∷ 101
    ∷ 114 ∷ 46 ∷ 0 ∷ []

-- `rtcp_pkt_sr_bye`; `RTCP_header_BYE` has 5 bytes before the reason. Its `length` is one byte, and
-- is given `htonl` of the length: the lowest byte of that is the highest of the length.
pub rtcp_pkt_sr_bye : SrInput → List ℕ
rtcp_pkt_sr_bye s =
    let pad = padding (4 + 24 + (4 + 5 + length reason)) in
    rtcp_set_sr s
    ++ (rtcp_header 1 (pt bye) (4 + 5 + length reason + pad)
        ++ (be32 s.ssrc ++ (((length reason - 1) / 2 ^ 24 % 2 ^ 8) ∷ (reason ++ replicate pad 0))))

-- `rtcp_send_sr`: the packet that is handed to the transport. Another type is not reached.
unfoldable pub rtcp_send_sr : SrInput → List ℕ → RtcpType → Outcome (List ℕ)
unfolding rtcp_pkt_sr_sdes rtcp_pkt_sr_bye
rtcp_send_sr s name sdes = ok (rtcp_pkt_sr_sdes s name)
rtcp_send_sr s name bye = ok (rtcp_pkt_sr_bye s)
rtcp_send_sr s name _ = crash

-- Reading `n` bytes of a packet; what was read is only logged.
pub touch : ℕ → List ℕ → Outcome (Unit {0})
touch zero mem = ok tt
touch (suc n) [] = crash
touch (suc n) (_ ∷ mem) = touch n mem

-- `while (count--)` over the report blocks, 24 bytes each.
pub report_blocks : ℕ → List ℕ → Outcome (Unit {0})
report_blocks zero mem = ok tt
report_blocks (suc count) mem = touch 24 mem >>= λ _. report_blocks count (drop 24 mem)

-- `parse_receiver_report`.
pub parse_receiver_report : List ℕ → ℕ → Outcome (Unit {0})
unfolding touch report_blocks
parse_receiver_report mem count = touch 4 mem >>= λ _. report_blocks count (drop 4 mem)

-- The case labels SR and RR; all others do nothing.
abbrev handle_type : ℕ → ℕ → List ℕ → Outcome (Unit {0})
handle_type type count mem =
    if (type == pt sr) || (type == pt rr) then parse_receiver_report (drop 4 mem) count else ok tt

-- The packets found: their types and sizes, and whether the walk stopped at a malformed one.
abbrev pub Log : Type 0
Log = List (ℕ × ℕ) × Bool

abbrev pub logged : ℕ × ℕ → Outcome Log → Outcome Log
logged p r = r >>= λ l. ok (p ∷ l.0, l.1)

-- `rtcp_handle`; `mem` is the memory from `packet` on. Each round takes at least four bytes.
handle_loop : ℕ → List ℕ → ℕ → Outcome Log
handle_loop zero mem len = running
handle_loop (suc fuel) [] len = if ltb 4 len then crash else ok ([], false)
handle_loop (suc fuel) (_ ∷ []) len = if ltb 4 len then crash else ok ([], false)
handle_loop (suc fuel) (_ ∷ _ ∷ []) len = if ltb 4 len then crash else ok ([], false)
handle_loop (suc fuel) (_ ∷ _ ∷ _ ∷ []) len = if ltb 4 len then crash else ok ([], false)
handle_loop (suc fuel) (a ∷ type ∷ b ∷ c ∷ mem) len =
    let size = (of_be16 b c + 1) * 4 in
    let m = a ∷ type ∷ b ∷ c ∷ mem in
    let round = handle_type type (a % 2 ^ 5) m >>= λ _.
    logged (type, size) (handle_loop fuel (drop size m) (len - size)) in
    if ltb 4 len then (if ltb len size then ok ([], true) else round) else ok ([], false)

pub rtcp_handle : List ℕ → ℕ → Outcome Log
unfolding handle_loop parse_receiver_report
rtcp_handle mem len = handle_loop (len + 1) mem len
