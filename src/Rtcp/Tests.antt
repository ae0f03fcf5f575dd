-- ===== src/Rtcp/Tests.antt =====
-- RTCP at concrete inputs.
use feng.Base.{ℕ, ◌+◌, ◌++◌, length, drop, ◌≡◌, List, [], ◌∷◌, arith, ok, replicate}
use feng.Rtcp.{SrInput, sdes, bye, rtcp_send_sr, Log, rtcp_handle, padding, reason}
use feng.Rtcp.Compound.{
  rtcp_send_sr_lem, IsCompound, cname_of, reason_of, behind_name, length-replicate,
}
use feng.Rtcp.Reading.{rtcp_handle_lem}

abbrev input : SrInput
input = record {
  ssrc = 16909060;
  start_rtptime = 4294967295;
  pkt_count = 30;
  octet_count = 40000;
  tv_sec = 1260000000;
  tv_nsec = 500000000;
  elapsed = 90000;
}

abbrev host : List ℕ
host = 49 ∷ 50 ∷ 55 ∷ 46 ∷ 48 ∷ 46 ∷ 48 ∷ 46 ∷ 49 ∷ []

rtcp_send_sr_example :
    ((p : List ℕ) × (rtcp_send_sr input host sdes ≡ ok p)
      × IsCompound 202 p
      × (cname_of p ≡ host)
      × (behind_name host p ≡ replicate (padding (38 + length host)) 0))
    × ((q : List ℕ) × (rtcp_send_sr input host bye ≡ ok q)
        × IsCompound 203 q
        × (reason_of q ≡ [])
        × (drop 37 q ≡ reason ++ replicate 3 0))
rtcp_send_sr_example = rtcp_send_sr_lem input host (omega arith)

abbrev report : List ℕ
report = 129 ∷ 201 ∷ 0 ∷ 1 ∷ 1 ∷ 2 ∷ 3 ∷ 4 ∷ replicate 752 0

rtcp_handle_example : (l : Log) × (rtcp_handle report 8 ≡ ok l)
rtcp_handle_example = rtcp_handle_lem report 8 (omega (arith, length-replicate 752 0))
