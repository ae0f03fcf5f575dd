-- ===== src/Rtsp/Reading.antt =====
-- What the reader does with whole requests, and with unknown methods
-- (src/network/rtsp_state_machine.c).
use feng.Base.{
  ℕ, suc, ◌+◌, ◌≤◌, ◌≡◌, refl, ap, ◌∙◌, Bool, true, false, none, some, List, [], ◌∷◌, ◌++◌, Outcome,
  ok, crash, running, ◌>>=◌, ltb, ge→ltb, ◌==◌, if◌then◌else◌, drop, length,
}
use feng.Base.Text.{Text}
use feng.Interleaved.{begin, rtsp_headers, rtsp_content}
use feng.Rtsp.{Method, RtspClient, Request, World, Effect, respond, not_implemented}
use feng.Rtsp.Requests.{rtsp_handle_request}
use feng.Rtsp.Reader.{
  line, rtsp10, Wire, Connection, Step, with_status, consumed, new_request, rtsp_handle_new,
  rtsp_connection_limit, rtsp_handle_headers, rtsp_handle_content, handle_state, rtsp_handler,
  rtsp_tcp_read_cb,
}

-- The request with its URI.
abbrev pub with_uri : Wire → Request → Request
with_uri wire req = record req { uri = wire.uri_parse req.object }

-- The connection behind a request whose bytes were taken.
abbrev pub behind : Connection → ℕ → ℕ → RtspClient → Connection
behind c n m client =
    with_status (consumed (consumed (record c { rtsp = client; pending_request = none }) n) m) begin

pub bind_assoc {ℓ κ μ} :
    {A : Type ℓ} {B : Type κ} {C : Type μ} (m : Outcome A) (f : A → Outcome B) (g : B → Outcome C)
    → (m >>= f >>= g) ≡ (m >>= λ a. f a >>= g)
bind_assoc (ok a) f g = refl
bind_assoc crash f g = refl
bind_assoc running f g = refl

empty_bind : (m : Outcome (Connection × List Effect)) → (m >>= λ q. ok (q.0, [] ++ q.1)) ≡ m
empty_bind (ok q) = refl
empty_bind crash = refl
empty_bind running = refl

content_read :
    (fuel : ℕ) (w : World) (wire : Wire) (http : Connection → Step) (c : Connection) (req : Request)
    → c.stream.status ≡ rtsp_content
    → c.pending_request ≡ some req
    → wire.content_length req ≡ false
    → rtsp_handler (suc fuel) w wire http c ≡ (
        rtsp_handle_request w c.rtsp req >>= λ r.
        rtsp_handler fuel w wire http
          (with_status (record c { rtsp = r.0; pending_request = none }) begin)
        >>= λ q. ok (q.0, r.1 ++ q.1))
unfolding rtsp_handler handle_state rtsp_handle_content
content_read fuel w wire http c req s p n =
    ap (λ st. handle_state w wire http c st >>= λ r. go r) s
    ∙ ap (λ pe. rtsp_handle_content w wire c pe >>= λ r. go r) p
    ∙ ap (λ b. (if b then crash else handled) >>= λ r. go r) n
    ∙ bind_assoc (rtsp_handle_request w c.rtsp req) _ _
  where
    handled : Step
    handled = rtsp_handle_request w c.rtsp req >>= λ r.
        ok (true, with_status (record c { rtsp = r.0; pending_request = none }) begin, r.1)

    go : Bool × Connection × List Effect → Outcome (Connection × List Effect)
    go r =
        let rest = rtsp_handler fuel w wire http r.1 >>= λ q. ok (q.0, r.2 ++ q.1) in
        if r.0 then rest else ok (r.1, r.2)

line_read :
    (fuel : ℕ) (w : World) (wire : Wire) (http : Connection → Step) (c : Connection) (b : ℕ)
    (input : List ℕ) (n : ℕ) (method : Method) (object : Text)
    → c.stream.status ≡ begin
    → c.stream.input ≡ b ∷ input
    → (b == 36) ≡ false
    → wire.ragel_parse_request_line (b ∷ input) ≡ line n rtsp10 (some method) object
    → rtsp_handler (suc fuel) w wire http c
      ≡ rtsp_handler fuel w wire http (
          consumed
            (record (with_status c rtsp_headers) {
              pending_request = some (new_request method object);
            })
            n)
unfolding rtsp_handler handle_state rtsp_handle_new
line_read fuel w wire http c b input n method object s i d l = rw (s, i, d, l) (empty_bind _)

headers_read :
    (fuel : ℕ) (w : World) (wire : Wire) (http : Connection → Step) (c : Connection)
    (req req' : Request) (n : ℕ)
    → c.stream.status ≡ rtsp_headers
    → c.pending_request ≡ some req
    → wire.ragel_read_rtsp_headers req c.stream.input ≡ some (true, req', n)
    → ltb wire.max_connections wire.connection_count ≡ false
    → rtsp_handler (suc fuel) w wire http c
      ≡ rtsp_handler fuel w wire http (
          with_status
            (consumed (record c { pending_request = some (with_uri wire req') }) n)
            rtsp_content)
unfolding rtsp_handler handle_state rtsp_handle_headers rtsp_connection_limit
headers_read fuel w wire http c req req' n s p h l = rw (s, p, h, l) (empty_bind _)

-- A whole RTSP request at the start of the input, with a supported method and without a
-- Content-Length header, while there are not too many connections: the reader takes the bytes of its
-- line and of its headers, has `rtsp_handle_request` handle it, and goes on with the rest.
pub rtsp_handler-request :
    (fuel : ℕ) (w : World) (wire : Wire) (http : Connection → Step) (c : Connection) (b : ℕ)
    (input : List ℕ) (n m : ℕ) (method : Method) (object : Text) (req : Request)
    → c.stream.status ≡ begin
    → c.stream.input ≡ b ∷ input
    → (b == 36) ≡ false
    → wire.ragel_parse_request_line (b ∷ input) ≡ line n rtsp10 (some method) object
    → wire.ragel_read_rtsp_headers (new_request method object) (drop n (b ∷ input))
      ≡ some (true, req, m)
    → ltb wire.max_connections wire.connection_count ≡ false
    → wire.content_length (with_uri wire req) ≡ false
    → rtsp_handler (suc (suc (suc fuel))) w wire http c ≡ (
        rtsp_handle_request w c.rtsp (with_uri wire req) >>= λ r.
        rtsp_handler fuel w wire http (behind c n m r.0) >>= λ q. ok (q.0, r.1 ++ q.1))
rtsp_handler-request fuel w wire http c b input n m method object req s i d l h k e =
    line_read (suc (suc fuel)) w wire http c b input n method object s i d l
    ∙ headers_read (suc fuel) w wire http _ (new_request method object) req m refl refl
        (ap (λ (xs : List ℕ). wire.ragel_read_rtsp_headers (new_request method object) (drop n xs))
            i
          ∙ h)
        k
    ∙ content_read fuel w wire http _ (with_uri wire req) refl refl e

-- A request whose method is not known or not supported is answered, and its line stays in the input;
-- but the reader waits for its headers, so that the next bytes, whatever they are, crash the server.
pub rtsp_tcp_read_cb-unknown_method :
    (fuel : ℕ) (w : World) (wire : Wire) (http : Connection → Step) (c : Connection) (b : ℕ)
    (input : List ℕ) (n : ℕ) (object : Text) (a : ℕ) (read : List ℕ)
    → c.stream.status ≡ begin
    → c.pending_request ≡ none
    → c.stream.input ≡ b ∷ input
    → (b == 36) ≡ false
    → wire.ragel_parse_request_line (b ∷ input) ≡ line n rtsp10 none object
    → length c.stream.input + length (a ∷ read) ≤ 69632
    → (rtsp_handler (suc fuel) w wire http c
        ≡ ok (with_status c rtsp_headers, respond not_implemented ∷ []))
      × (rtsp_tcp_read_cb (suc fuel) w wire http (with_status c rtsp_headers) (a ∷ read) ≡ crash)
unfolding rtsp_handler handle_state rtsp_handle_new rtsp_handle_headers rtsp_tcp_read_cb
rtsp_tcp_read_cb-unknown_method fuel w wire http c b input n object a read s p i d l e =
    (rw (s, i, d, l) refl, rw (ge→ltb 69632 (length c.stream.input + length (a ∷ read)) e, p) refl)
