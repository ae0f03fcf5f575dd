-- ===== src/Parser/Single.antt =====
-- src/media/parser_speex.c: one packet, or none.
use feng.Base.{
  ℕ, ◌≡◌, ◌<◌, ◌≤◌, true, false, List, arith, Outcome, ok, ◌>>=◌, ltb, if◌then◌else◌, length,
  lt→ltb, ge→ltb, take_all,
}
use feng.Track.{Track, track_write, enqueue}
use feng.Parser.{default_mtu, memcpy, memcpy-take, new_buffer, Status, success, failure}
use feng.Parser.Fragment.{write-ok}

pub speex_parse : Track → List ℕ → ℕ → Outcome (Status × Track)
speex_parse tr mem len =
    if ltb default_mtu len
    then ok (failure, tr)
    else memcpy len mem >>= λ content.
        track_write tr (new_buffer tr true content) >>= λ tr'. ok (success, tr')

-- `speex_parse` on a track that is not stopped sends a packet that fits `DEFAULT_MTU` as it is, marked; a longer one it refuses
-- with -1, and leaves the track alone.
pub speex_parse_lem :
    (tr : Track) (mem : List ℕ)
    → tr.stopped ≡ false
    → (length mem ≤ 1440
        → speex_parse tr mem (length mem) ≡ ok (success, enqueue tr (new_buffer tr true mem)))
      × (1440 < length mem → speex_parse tr mem (length mem) ≡ ok (failure, tr))
unfolding speex_parse
speex_parse_lem tr mem g = (
  λ h. rw (
    ge→ltb 1440 (length mem) h,
    memcpy-take (length mem) mem (omega arith),
    take_all (length mem) mem (omega arith),
    write-ok tr (new_buffer tr true mem) g,
  ),
  λ h. rw (lt→ltb 1440 (length mem) h),
)
