-- ===== src/Parser/Tests.antt =====
-- The parsers' theorems at concrete inputs.
use feng.Base.{
  if◌then◌else◌, leb, ℕ, ◌^◌, ◌≡◌, ◌<◌, ◌≤◌, refl, true, List, [], ◌∷◌, arith, ok, crash, running,
  length, take, All, replicate, false, ◌++◌, map, concat_map, drop, ◌-◌, ◌⊎◌,
}
use feng.Track.{track_new, MParserBuffer, bq_producer_reset_queue_internal, enqueue}
use feng.Parser.{enqueue_all, new_buffer, success}
use feng.Parser.Fragment.{Fragmented, IsPacket}
use feng.Rtcp.Compound.{length-replicate}
use feng.Parser.Aac.{aac_parse, aac_parse_lem, au_size}
use feng.Parser.Vp8.{vp8_parse, vp8_parse_lem, StartsFirst}
use feng.Parser.Xiph.{
  xiph_parse, xiph_parse_lem, AreOf, fragment_bytes, rfc_fragments, size_fields, piece_sizes,
}
use feng.Parser.Mpegaudio.{mpa_parse, mpa_parse_lem}
use feng.Parser.H264.{frag_fu_a, h264_parse}
use feng.Parser.H264.FuA.{frag_fu_a_lem, FuUnits}
use feng.Parser.H264.StartCodes.{h264_parse-never_returns}
use feng.Parser.Amr.{body_len, amr_parse}
use feng.Parser.Amr.Frames.{Frame, stored}
use feng.Parser.Amr.Payload.{payload, receive, heard}
use feng.Parser.Amr.Sent.{amr_parse_lem}
use feng.Parser.Mpeg12.{find_start_code, mpv_parse}
use feng.Parser.Mpeg12.StartCode.{IsBytes}
use feng.Parser.Mpeg12.Found.{IsFound, find_start_code_lem}
use feng.Parser.Mpeg12.Sent.{GivesUp, mpv_parse_lem}

abbrev frame : List ℕ
frame = 0 ∷ 0 ∷ 1 ∷ 101 ∷ 8 ∷ 15 ∷ []

aac_parse_example :
    (bs : List MParserBuffer) × (aac_parse track_new frame (length frame)
      ≡ ok (success, enqueue_all track_new bs))
    × Fragmented 4 1436 track_new frame bs
    × (length frame < 2 ^ 13
        → All (λ (b : MParserBuffer). au_size (take 4 b.content) ≡ length frame) bs)
unfolding track_new bq_producer_reset_queue_internal
aac_parse_example = aac_parse_lem track_new frame refl

vp8_parse_example :
    (bs : List MParserBuffer) × (vp8_parse track_new frame (length frame)
      ≡ ok (success, enqueue_all track_new bs))
    × Fragmented 1 1439 track_new frame bs
    × StartsFirst 1 bs
unfolding track_new bq_producer_reset_queue_internal
vp8_parse_example = vp8_parse_lem track_new 0 (0 ∷ 1 ∷ 101 ∷ 8 ∷ 15 ∷ []) refl

xiph_parse_example :
    (bs : List MParserBuffer) × (xiph_parse track_new frame (length frame)
      ≡ ok (success, enqueue_all track_new bs))
    × Fragmented 6 1434 track_new frame bs
    × AreOf track_new.xiph_ident bs
    × (fragment_bytes bs ≡ rfc_fragments (length bs))
    × (size_fields bs ≡ piece_sizes (length bs) (length frame))
unfolding track_new bq_producer_reset_queue_internal
xiph_parse_example = xiph_parse_lem track_new frame refl

abbrev long_frame : List ℕ
long_frame = replicate 1437 7

mpa_parse_example : mpa_parse track_new long_frame (length long_frame) ≡ (
    if leb (length long_frame) 1436
    then ok (success, enqueue track_new (new_buffer track_new true (0 ∷ 0 ∷ 0 ∷ 0 ∷ long_frame)))
    else crash)
unfolding track_new bq_producer_reset_queue_internal
mpa_parse_example = mpa_parse_lem track_new long_frame refl

frag_fu_a_example :
    let nal : List ℕ = 101 ∷ 8 ∷ replicate 1500 15 in
    (bs : List MParserBuffer) × (frag_fu_a nal (length nal) track_new
      ≡ ok (enqueue_all track_new bs))
    × Fragmented 2 1438 track_new (8 ∷ replicate 1500 15) bs
    × FuUnits 101 1 bs
unfolding track_new bq_producer_reset_queue_internal
frag_fu_a_example =
    frag_fu_a_lem track_new 101 8 (replicate 1500 15) refl (omega arith)
      (omega (arith, length-replicate 1500 15))

h264_parse-never_returns_example : h264_parse 1000 track_new frame (length frame) ≡ running
unfolding track_new bq_producer_reset_queue_internal
h264_parse-never_returns_example =
    h264_parse-never_returns 1000 track_new 0 (0 ∷ 1 ∷ 101 ∷ 8 ∷ 15 ∷ []) refl refl

-- Frames of 5 bytes and of 12, and a byte that announces 12 more.
abbrev speech : List Frame
speech = (68, 1 ∷ 2 ∷ 3 ∷ 4 ∷ 5 ∷ []) ∷ (4, replicate 12 9) ∷ []

amr_parse_example :
    (groups : List (List Frame)) × (amr_parse track_new
        (stored speech ++ 4 ∷ [])
        (length (stored speech ++ 4 ∷ []))
      ≡ ok (
        success,
        enqueue_all track_new (map (λ g. new_buffer track_new false (payload g)) groups),
      ))
    × (concat_map (λ g. g) groups ≡ speech)
    × All (λ g. length (payload g) ≤ 1440) groups
    × (concat_map (λ g. receive (payload g)) groups ≡ map heard speech)
unfolding body_len track_new
amr_parse_example = amr_parse_lem track_new speech (4 ∷ []) refl (refl, (refl, tt)) (omega arith)

-- A sequence header code, one byte, and five bytes behind them.
abbrev sequence : List ℕ
sequence = 0 ∷ 0 ∷ 1 ∷ 179 ∷ 7 ∷ 0 ∷ 0 ∷ 0 ∷ 0 ∷ 0 ∷ []

sequence-IsBytes : IsBytes sequence
sequence-IsBytes = ground arith

find_start_code_example :
    (f : ℕ × ℕ) × (find_start_code sequence 0 5 (2 ^ 32 - 1) ≡ ok f) × IsFound sequence 0 5 f
find_start_code_example = find_start_code_lem sequence 0 5 sequence-IsBytes (omega arith)

mpv_parse_example :
    (bs : List MParserBuffer) × (n : ℕ) × (mpv_parse track_new sequence 5
      ≡ ok (success, enqueue_all track_new bs))
    × (concat_map (λ (b : MParserBuffer). drop 4 b.content) bs ≡ take n sequence)
    × ((n ≡ 5) ⊎ ((n < 5) × GivesUp sequence n 5 (5 - n)))
    × (5 ≤ 1436 → n ≡ 5)
    × All (IsPacket 4 1436 track_new) bs
unfolding track_new
mpv_parse_example = mpv_parse_lem track_new sequence 5 refl sequence-IsBytes (omega arith)
