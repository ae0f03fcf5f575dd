-- ===== src/Rtsp/Sctp.antt =====
-- Requests over SCTP: `rtsp_process_complete` (src/network/rtsp_state_machine.c) and
-- `rtsp_sctp_read_cb` (src/network/rtsp_sctp.c).
--
-- What `sctp_recvmsg` gave, and `poll` after it, is an argument. The loop around it ends after one
-- round: its `continue` goes to the condition, which is 0.
use feng.Base.{
  ℕ, ◌≡◌, refl, sym, ap, ◌∙◌, Bool, true, false, ◌&&◌, Option, none, some, List, [], ◌∷◌, ◌++◌,
  Outcome, ok, crash, running, ◌>>=◌, ltb, ◌==◌, if◌then◌else◌, drop, length,
}
use feng.Base.Text.{Text}
use feng.Rtcp.{Log}
use feng.Interleaved.{
  State, begin, interleaved, rtsp_headers, rtsp_content, http_headers, http_content, http_idle,
  rtsp_interleaved_receive,
}
use feng.Rtsp.{Method, RtspClient, Request, World, Effect, rtcp_received, unloop}
use feng.Rtsp.Requests.{rtsp_handle_request}
use feng.Rtsp.Reader.{
  line, rtsp10, Wire, Connection, Step, new_request, rtsp_handle_new, rtsp_connection_limit,
  rtsp_handle_headers, rtsp_handle_content, handle_state, rtsp_handler,
}
use feng.Rtsp.Reading.{with_uri, behind, bind_assoc, rtsp_handler-request}

abbrev pub same_state : State → State → Bool
same_state begin begin = true
same_state interleaved interleaved = true
same_state rtsp_headers rtsp_headers = true
same_state rtsp_content rtsp_content = true
same_state http_headers http_headers = true
same_state http_content http_content = true
same_state http_idle http_idle = true
same_state _ _ = false

abbrev succeed : Connection → List Effect → Step
succeed c effects = ok (true, c, effects)

abbrev behind_effects : List Effect → Bool × Connection × List Effect → Step
behind_effects effects q = ok (q.0, q.1, effects ++ q.2)

-- `&& rtsp->status == state && step(rtsp)`, after a handler.
unfoldable pub then_in : State → (Connection → Step) → Bool × Connection × List Effect → Step
then_in state step r =
    let next = step r.1 >>= behind_effects r.2 in
    if r.0 && same_state r.1.stream.status state then next else ok (false, r.1, r.2)

-- `rtsp_process_complete`.
unfoldable pub rtsp_process_complete : World → Wire → Connection → Step
unfolding then_in
rtsp_process_complete w wire c =
    then_in begin (λ c0. rtsp_handle_new wire c0 c0.stream.input) (true, c, [])
    >>= then_in rtsp_headers (λ c1. rtsp_handle_headers wire c1 c1.pending_request)
    >>= then_in rtsp_content (λ c2. rtsp_handle_content w wire c2 c2.pending_request)
    >>= then_in begin (λ c3. succeed c3 [])

-- What one `sctp_recvmsg` came to: an error, or the client's end; nothing, with what the memory
-- of `sctp_info` happens to hold; or bytes, whether they end the message, and their stream.
pub data SctpRead : Type 0 where
  read_end : SctpRead
  read_nothing : ℕ → SctpRead
  read_bytes : List ℕ → Bool → ℕ → SctpRead

abbrev pub received_on : ℕ → Option (ℕ × Log) → List Effect
received_on stream none = []
received_on stream (some (session, log)) = rtcp_received session log ∷ []

abbrev pub with_input : Connection → List ℕ → Connection
with_input c input = record c { stream = record (c.stream) { input = input } }

-- What is done with the bytes; the input is NULL again behind it.
unfoldable pub sctp_handle :
    World → Wire → Connection → List ℕ → ℕ → Outcome (Connection × List Effect)
unfolding rtsp_process_complete
sctp_handle w wire c bytes stream =
    let control = rtsp_process_complete w wire (with_input c bytes) >>= λ r.
    ok (with_input r.1 [], r.2 ++ (if r.0 then [] else unloop ∷ [])) in
    let media = rtsp_interleaved_receive c.stream stream bytes (length bytes) >>= λ o.
    ok (with_input c [], received_on stream o) in
    if stream == 0 then control else media

-- `rtsp_sctp_read_cb`.
unfoldable pub rtsp_sctp_read_cb :
    World → Wire → Connection → SctpRead → Outcome (Connection × List Effect)
unfolding sctp_handle
rtsp_sctp_read_cb w wire c read_end = ok (with_input c [], unloop ∷ [])
rtsp_sctp_read_cb w wire c (read_nothing stream) = sctp_handle w wire c [] stream
rtsp_sctp_read_cb w wire c (read_bytes bytes last stream) = sctp_handle w wire c bytes stream

bind_same {ℓ κ} :
    {A : Type ℓ} {B : Type κ} (m : Outcome A) (f g : A → Outcome B)
    → ((a : A) → f a ≡ g a)
    → (m >>= f) ≡ (m >>= g)
bind_same (ok a) f g h = h a
bind_same crash f g h = refl
bind_same running f g h = refl

-- The last check, behind the handling of the request.
last_check :
    (handled : Outcome (RtspClient × List Effect)) (after : RtspClient → Connection)
    → ((client : RtspClient) → (after client).stream.status ≡ begin)
    → (((handled >>= λ r. succeed (after r.0) r.1) >>= λ q. behind_effects [] (q.0, q.1, [] ++ q.2))
        >>= then_in begin (λ c. succeed c []))
      ≡ (handled >>= λ r. succeed (after r.0) (r.1 ++ []))
unfolding then_in
last_check (ok r) after h = rw (h r.0) refl
last_check crash after h = refl
last_check running after h = refl

-- The handlers of one whole request, one after the other.
complete_lem :
    (w : World) (wire : Wire) (c : Connection) (b : ℕ) (input : List ℕ) (n m : ℕ) (method : Method)
    (object : Text) (req : Request)
    → c.stream.status ≡ begin
    → c.stream.input ≡ b ∷ input
    → (b == 36) ≡ false
    → wire.ragel_parse_request_line (b ∷ input) ≡ line n rtsp10 (some method) object
    → wire.ragel_read_rtsp_headers (new_request method object) (drop n (b ∷ input))
      ≡ some (true, req, m)
    → ltb wire.max_connections wire.connection_count ≡ false
    → wire.content_length (with_uri wire req) ≡ false
    → rtsp_process_complete w wire c ≡ (
        rtsp_handle_request w c.rtsp (with_uri wire req) >>= λ r.
        succeed (behind c n m r.0) (r.1 ++ []))
unfolding rtsp_process_complete then_in rtsp_handle_new rtsp_handle_headers rtsp_connection_limit
    rtsp_handle_content
complete_lem w wire c b input n m method object req s i d l h k e =
    rw (s, i, d, l, h, k, e)
      (last_check (rtsp_handle_request w c.rtsp (with_uri wire req))
        (λ client. record c {
          stream = record (c.stream) { input = drop m (drop n (b ∷ input)); status = begin };
          pending_request = none;
          rtsp = client;
        })
        (λ client. refl))

nothing_left :
    (w : World) (wire : Wire) (http : Connection → Step) (c : Connection)
    → c.stream.status ≡ begin
    → c.stream.input ≡ []
    → rtsp_handler 1 w wire http c ≡ ok (c, [])
unfolding rtsp_handler handle_state rtsp_handle_new
nothing_left w wire http c s i =
    ap (λ st. handle_state w wire http c st >>= λ r. stop r) s
    ∙ ap (λ (xs : List ℕ). rtsp_handle_new wire c xs >>= λ r. stop r) i
  where
    stop : Bool × Connection × List Effect → Outcome (Connection × List Effect)
    stop r = if r.0 then running else ok (r.1, r.2)

-- Over SCTP, where each message is one request, `rtsp_process_complete` does without the loop and the
-- states of the reader what `RTSP_handler` does over TCP with the same bytes: the same response and
-- effects, and the same connection behind it, with success. The conditions: the message is a whole
-- RTSP request with a supported method and without a Content-Length header, and nothing else; and
-- there are not too many connections.
pub rtsp_process_complete_lem :
    (w : World) (wire : Wire) (http : Connection → Step) (c : Connection) (b : ℕ) (input : List ℕ)
    (n m : ℕ) (method : Method) (object : Text) (req : Request)
    → c.stream.status ≡ begin
    → c.stream.input ≡ b ∷ input
    → (b == 36) ≡ false
    → wire.ragel_parse_request_line (b ∷ input) ≡ line n rtsp10 (some method) object
    → wire.ragel_read_rtsp_headers (new_request method object) (drop n (b ∷ input))
      ≡ some (true, req, m)
    → drop m (drop n (b ∷ input)) ≡ []
    → ltb wire.max_connections wire.connection_count ≡ false
    → wire.content_length (with_uri wire req) ≡ false
    → rtsp_process_complete w wire c ≡ (rtsp_handler 4 w wire http c >>= λ q. succeed q.0 q.1)
rtsp_process_complete_lem w wire http c b input n m method object req s i d l h a k e =
    complete_lem w wire c b input n m method object req s i d l h k e
    ∙ sym (
        ap (λ o. o >>= λ q. succeed q.0 q.1)
          (rtsp_handler-request 1 w wire http c b input n m method object req s i d l h k e)
        ∙ (bind_assoc (rtsp_handle_request w c.rtsp (with_uri wire req)) _ _
            ∙ bind_same (rtsp_handle_request w c.rtsp (with_uri wire req)) _ _ (λ r.
              rw
                (nothing_left w wire http (behind c n m r.0) refl
                  (ap (λ (xs : List ℕ). drop m (drop n xs)) i ∙ a))
                refl)))
