-- ===== src/Rtp/Writing.antt =====
-- The write callback of src/network/rtp.c returns.
use feng.Base.{ℕ, ◌≤◌, ◌≡◌, Option, some, Outcome, ok, length}
use feng.Track.{Track, Consumer, MParserBuffer}
use feng.Track.Confirm.{Sound}
use feng.Rtcp.{RtcpType, bye, sdes}
use feng.Rtp.{PlayRange, RtpSession, Written}

-- The buffer that a call of `bq_consumer_get` gives has `data_size` bytes.
abbrev pub IsWhole : Outcome (Track × Consumer × Option MParserBuffer) → Type 0
IsWhole (ok (_, _, some b)) = b.data_size ≤ length b.content
IsWhole _ = Unit

-- A call of one of the callback's parts: it returns, and leaves the queue sound.
abbrev pub Returns : (ℕ → ℕ) → Outcome Written → Type 0
Returns o m = (w : Written) × (m ≡ ok w) × Sound o w.track w.session.consumer

-- The session's range is there.
abbrev pub HasRange : RtpSession → Type 0
HasRange s = (range : PlayRange) × (s.range ≡ some range)

-- The reports that the callback asks for.
abbrev IsReport : RtcpType → Type 0
IsReport sdes = Unit
IsReport bye = Unit
IsReport _ = ⊥
