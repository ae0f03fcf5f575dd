-- ===== src/Rtsp/Timeout.antt =====
-- The timer that runs while a client plays: src/network/rtsp_client.c.
use feng.Base.{
  ℕ, ◌+◌, ◌≤◌, ◌≡◌, refl, inl, inr, Bool, true, false, ◌&&◌, Option, none, some, List, [], ◌∷◌,
  ◌++◌, Outcome, ok, crash, ◌>>=◌, if◌then◌else◌, Bool-cases, All, leb, le→leb,
}
use feng.Rtsp.{
  Range, Opened, Stream, RtspSession, RtspClient, World, Effect, send_bye, unloop, Handled,
  deref_range, ServerState,
}
use feng.Rtsp.Valid.{IsServed, IsValidOption}

-- `LIVE_STREAM_BYE_TIMEOUT` and `STREAM_TIMEOUT`.
abbrev pub live_stream_bye_timeout : ℕ
live_stream_bye_timeout = 6

abbrev pub stream_timeout : ℕ
stream_timeout = 12

-- Whether the stream's track is of a live resource, the one of its session.
abbrev pub is_live_source : Option Opened → Bool
is_live_source none = false
is_live_source (some resource) = resource.is_live

-- `rtcp_send_sr(session, BYE)`, whose report reads the stream's range.
abbrev pub say_bye : Bool → Option ℕ → List (ℕ × Range) → Outcome (List Effect)
say_bye true range ranges = deref_range range ranges >>= λ r. ok (send_bye ∷ [])
say_bye false range ranges = ok []

abbrev pub is_silent : World → Stream → ℕ → Bool
is_silent w stream time = leb (stream.last_packet_send_time + time) w.seconds

-- `check_if_any_rtp_session_timedout`.
unfoldable pub check_if_any_rtp_session_timedout :
    World → Bool → List (ℕ × Range) → Stream → Outcome (List Effect)
check_if_any_rtp_session_timedout w live ranges stream =
    say_bye (live && is_silent w stream live_stream_bye_timeout) stream.range ranges >>= λ bye.
    ok (bye ++ (if is_silent w stream stream_timeout then unloop ∷ [] else []))

unfoldable pub check_all : World → Bool → List (ℕ × Range) → List Stream → Outcome (List Effect)
unfolding check_if_any_rtp_session_timedout
check_all w live ranges [] = ok []
check_all w live ranges (s ∷ streams) = check_if_any_rtp_session_timedout w live ranges s >>= λ a.
    check_all w live ranges streams >>= λ b. ok (a ++ b)

abbrev pub check_session : World → Option RtspSession → Outcome (List Effect)
check_session w none = ok []
check_session w (some session) =
    check_all w (is_live_source session.resource) session.play_requests session.rtp_sessions

-- `client_ev_timeout`; the timer runs again.
unfoldable pub client_ev_timeout : World → RtspClient → Handled
unfolding check_all
client_ev_timeout w client = check_session w client.session >>= λ effects. ok (client, effects)

-- What the timer does for a stream, by the time since its last packet.
abbrev pub timeout_effects : World → Bool → Stream → List Effect
timeout_effects w live stream =
    (if live && leb (stream.last_packet_send_time + 6) w.seconds then send_bye ∷ [] else [])
    ++ (if leb (stream.last_packet_send_time + 12) w.seconds then unloop ∷ [] else [])

abbrev pub all_timeouts : World → Bool → List Stream → List Effect
all_timeouts w live [] = []
all_timeouts w live (s ∷ streams) = timeout_effects w live s ++ all_timeouts w live streams

abbrev pub session_timeouts : World → Option RtspSession → List Effect
session_timeouts w none = []
session_timeouts w (some session) =
    all_timeouts w (is_live_source session.resource) session.rtp_sessions

abbrev pub AllWriting : Option RtspSession → Type 0
AllWriting none = Unit
AllWriting (some session) = All (λ s. s.writing ≡ true) session.rtp_sessions

checked_stream :
    (w : World) (live : Bool) (state : ServerState) (ranges : List (ℕ × Range)) (s : Stream)
    → IsServed state ranges s
    → s.writing ≡ true
    → check_if_any_rtp_session_timedout w live ranges s ≡ ok (timeout_effects w live s)
unfolding check_if_any_rtp_session_timedout
checked_stream w live state ranges s h e =
    elim (Bool-cases (live && is_silent w s live_stream_bye_timeout)) [
      | inl t ↦ let (r, k) = (h e).1 in rw (t, k) refl
      | inr t ↦ rw t refl
    ]

checked_streams :
    (w : World) (live : Bool) (state : ServerState) (ranges : List (ℕ × Range))
    (streams : List Stream)
    → All (IsServed state ranges) streams
    → All (λ s. s.writing ≡ true) streams
    → check_all w live ranges streams ≡ ok (all_timeouts w live streams)
unfolding check_all
checked_streams w live state ranges [] h e = refl
checked_streams w live state ranges (s ∷ streams) (h, hs) (e, es) =
    rw (checked_stream w live state ranges s h e, checked_streams w live state ranges streams hs es)
      refl

checked_session :
    (w : World) (session : Option RtspSession)
    → IsValidOption session
    → AllWriting session
    → check_session w session ≡ ok (session_timeouts w session)
checked_session w none v h = refl
checked_session w (some s) v h =
    checked_streams w (is_live_source s.resource) s.cur_state s.play_requests s.rtp_sessions
      v.streams h

-- While every stream of a valid client writes, the timer returns and leaves the client as it was:
-- for each stream in turn, a BYE goes out if the resource is live and no packet was sent for 6
-- seconds or longer, and the client's loop is left if none was sent for 12 seconds or longer.
pub client_ev_timeout_lem :
    (w : World) (client : RtspClient)
    → IsValidOption client.session
    → AllWriting client.session
    → client_ev_timeout w client ≡ ok (client, session_timeouts w client.session)
unfolding client_ev_timeout
client_ev_timeout_lem w client v h = rw (checked_session w client.session v h) refl

-- A session of a live resource whose first stream was set up and never played makes the timer crash,
-- if that is 6 seconds or more past the stream's last packet (which is 0 for a stream without one):
-- the BYE reads the start of a range that the stream does not have.
pub client_ev_timeout-crashes :
    (w : World) (client : RtspClient) (session : RtspSession) (resource : Opened) (s : Stream)
    (streams : List Stream)
    → client.session ≡ some session
    → session.resource ≡ some resource
    → session.rtp_sessions ≡ s ∷ streams
    → resource.is_live ≡ true
    → s.range ≡ none
    → s.last_packet_send_time + 6 ≤ w.seconds
    → client_ev_timeout w client ≡ crash
unfolding client_ev_timeout check_all check_if_any_rtp_session_timedout
client_ev_timeout-crashes w client session resource s streams e r q l n t =
    rw (e, r, q, l, n, le→leb _ _ t) refl
