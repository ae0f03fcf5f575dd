-- ===== src/Rtsp/Reader.antt =====
-- The reader of a connection: `RTSP_handler` and its states (src/network/rtsp_state_machine.c).
--
-- The parsers that ragel generates and the settings of the virtual host are the `Wire`; the handlers
-- of the HTTP states (src/network/http_tunnelling.c) are an argument.
use feng.Base.{
  ℕ, zero, suc, ◌+◌, Bool, true, false, Option, none, some, List, [], ◌∷◌, ◌++◌, Outcome, ok, crash,
  running, ◌>>=◌, ltb, ◌==◌, if◌then◌else◌, drop, length,
}
use feng.Base.Text.{Text}
use feng.Rtcp.{Log}
use feng.Interleaved.{
  State, begin, interleaved, rtsp_headers, rtsp_content, http_headers, http_content, http_idle,
  Client, rtsp_handle_interleaved,
}
use feng.Rtsp.{
  ResponseCode, bad_request, not_implemented, version_not_supported, http_version_not_supported,
  redirected, not_enough_bandwidth, Method, RtspClient, Request, World, Effect, respond,
  rtcp_received, unloop,
}
use feng.Rtsp.Requests.{rtsp_handle_request}

-- `RFC822_Protocol`, as the reader tells its values apart.
pub data Protocol : Type 0 where
  rtsp10 http1 http_unsupported other_protocol : Protocol

-- What `ragel_parse_request_line` gives: -1, 0, or how many bytes it took and the request, without
-- a method if that is not a known or not a supported one.
pub data RequestLine : Type 0 where
  bad_line short_line : RequestLine
  line : ℕ → Protocol → Option Method → Text → RequestLine

-- What the code outside gives. What headers that are refused leave in the request is left out.
pub record Wire : Type 0 where
  pub ragel_parse_request_line : Text → RequestLine
  pub ragel_read_rtsp_headers : Request → Text → Option (Bool × Request × ℕ)
  pub uri_parse : Text → Option (Option Text)
  pub content_length : Request → Bool  -- whether there is a Content-Length header
  pub connection_count : ℕ
  pub max_connections : ℕ
  pub twin : Bool  -- whether the host has one

-- What of `RTSP_Client` the reader uses, next to what the methods use.
pub record Connection : Type 0 where
  pub stream : Client
  pub pending_request : Option Request
  pub rtsp : RtspClient

-- A handler's result: whether the loop goes on, the connection, and the effects.
abbrev pub Step : Type 0
Step = Outcome (Bool × Connection × List Effect)

abbrev pub with_status : Connection → State → Connection
with_status c status = record c { stream = record (c.stream) { status = status } }

-- `g_byte_array_remove_range(rtsp->input, 0, n)`.
abbrev pub consumed : Connection → ℕ → Connection
consumed c n = record c { stream = record (c.stream) { input = drop n c.stream.input } }

abbrev stop_with : Connection → ResponseCode → Step
stop_with c code = ok (false, c, respond code ∷ [])

abbrev received : Option (ℕ × Log) → List Effect
received none = []
received (some (channel, log)) = rtcp_received channel log ∷ []

abbrev pub handle_interleaved : Connection → Step
handle_interleaved c =
    rtsp_handle_interleaved c.stream >>= λ r. ok (r.0, record c { stream = r.1 }, received r.2)

-- A request before its headers are read.
abbrev pub new_request : Method → Text → Request
new_request method object = record {
  method = method;
  object = object;
  uri = none;
  cseq = none;
  session = none;
  require = none;
  proxy_require = none;
  range = none;
  transport = none;
  user_agent = none;
}

-- The end of `RTSP_handle_new`, where the status was set already.
abbrev take_line : Connection → ℕ → Option Method → Text → Step
take_line c n none object = stop_with c not_implemented
take_line c n (some method) object =
    ok (true, consumed (record c { pending_request = some (new_request method object) }) n, [])

abbrev by_protocol : Connection → ℕ → Protocol → Option Method → Text → Step
by_protocol c n rtsp10 method object = take_line (with_status c rtsp_headers) n method object
by_protocol c n http1 method object = take_line (with_status c http_headers) n method object
by_protocol c n http_unsupported method object = stop_with c http_version_not_supported
by_protocol c n other_protocol method object = stop_with c version_not_supported

abbrev pub by_line : Connection → RequestLine → Step
by_line c bad_line = stop_with c bad_request
by_line c short_line = ok (false, c, [])
by_line c (line n protocol method object) = by_protocol c n protocol method object

-- `RTSP_handle_new`.
unfoldable pub rtsp_handle_new : Wire → Connection → List ℕ → Step
rtsp_handle_new wire c [] = ok (false, c, [])
rtsp_handle_new wire c (b ∷ input) =
    if b == 36
    then handle_interleaved (with_status c interleaved)
    else by_line c (wire.ragel_parse_request_line (b ∷ input))

abbrev pub redirect : Connection → Option (Option Text) → Step
redirect c none = crash
redirect c (some path) = stop_with c redirected

-- `rtsp_connection_limit`.
unfoldable pub rtsp_connection_limit : Wire → Connection → Request → Step
rtsp_connection_limit wire c req =
    if ltb wire.max_connections wire.connection_count
    then (if wire.twin then redirect c req.uri else stop_with c not_enough_bandwidth)
    else ok (true, c, [])

-- `RTSP_handle_headers`, with the request as far as it was read.
abbrev pub read_on : Wire → Connection → Option (Bool × Request × ℕ) → Step
read_on wire c none = stop_with c bad_request
read_on wire c (some (false, req, n)) =
    ok (false, consumed (record c { pending_request = some req }) n, [])
read_on wire c (some (true, req, n)) =
    let req' : Request = record req { uri = wire.uri_parse req.object } in
    rtsp_connection_limit wire
      (with_status (consumed (record c { pending_request = some req' }) n) rtsp_content) req'

unfoldable pub rtsp_handle_headers : Wire → Connection → Option Request → Step
unfolding rtsp_connection_limit
rtsp_handle_headers wire c none = crash
rtsp_handle_headers wire c (some req) =
    read_on wire c (wire.ragel_read_rtsp_headers req c.stream.input)

-- `RTSP_handle_content`; a Content-Length header fails an assertion.
unfoldable pub rtsp_handle_content : World → Wire → Connection → Option Request → Step
rtsp_handle_content w wire c none = crash
rtsp_handle_content w wire c (some req) =
    let handled = rtsp_handle_request w c.rtsp req >>= λ r.
    ok (true, with_status (record c { rtsp = r.0; pending_request = none }) begin, r.1) in
    if wire.content_length req then crash else handled

-- The handler of the state.
unfoldable pub handle_state : World → Wire → (Connection → Step) → Connection → State → Step
unfolding rtsp_handle_new rtsp_handle_headers rtsp_handle_content
handle_state w wire http c begin = rtsp_handle_new wire c c.stream.input
handle_state w wire http c rtsp_headers = rtsp_handle_headers wire c c.pending_request
handle_state w wire http c rtsp_content = rtsp_handle_content w wire c c.pending_request
handle_state w wire http c interleaved = handle_interleaved c
handle_state w wire http c http_headers = http c
handle_state w wire http c http_content = http c
handle_state w wire http c http_idle = http c

-- `RTSP_handler`.
unfoldable pub rtsp_handler :
    ℕ → World → Wire → (Connection → Step) → Connection → Outcome (Connection × List Effect)
unfolding handle_state
rtsp_handler zero w wire http c = running
rtsp_handler (suc fuel) w wire http c = handle_state w wire http c c.stream.status >>= λ r.
    let rest = rtsp_handler fuel w wire http r.1 >>= λ q. ok (q.0, r.2 ++ q.1) in
    if r.0 then rest else ok (r.1, r.2)

-- `RTSP_BUFFERSIZE`.
abbrev rtsp_buffersize : ℕ
rtsp_buffersize = 65536 + 4096

-- `rtsp_tcp_read_cb` with what `recv` gave, on a connection without a tunnel.
unfoldable pub rtsp_tcp_read_cb :
    ℕ
    → World
    → Wire
    → (Connection → Step)
    → Connection
    → List ℕ
    → Outcome (Connection × List Effect)
unfolding rtsp_handler
rtsp_tcp_read_cb fuel w wire http c [] = ok (c, unloop ∷ [])
rtsp_tcp_read_cb fuel w wire http c (b ∷ read) =
    if ltb rtsp_buffersize (length c.stream.input + length (b ∷ read))
    then ok (c, unloop ∷ [])
    else rtsp_handler fuel w wire http
        (record c { stream = record (c.stream) { input = c.stream.input ++ b ∷ read } })
