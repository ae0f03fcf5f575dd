-- ===== src/Tunnel.antt =====
-- RTSP over HTTP: src/network/http_tunnelling.c.
--
-- A client has an address, which is never given again; `clients` holds those that were not freed, so
-- that a pointer to one that was freed finds nothing there, and reading through it is a `crash`. A
-- pair has the cookie that it was inserted for as its address, since no pair is ever removed.
-- `RTSP_handler`, the parser of headers that ragel generates and GLib's base64 are arguments.
pub mod Closing
pub mod Pairing
pub mod Reused
mod Tests
use feng.Base.{
  ℕ, zero, suc, ◌+◌, Bool, true, false, not, ◌&&◌, ◌||◌, Option, none, some, List, [], ◌∷◌, ◌++◌,
  Outcome, ok, crash, ◌>>=◌, ◌==◌, if◌then◌else◌, drop, length, ltb, ◌/◌, ◌*◌,
}
use feng.Base.Text.{Text, text_eq}
use feng.Interleaved.{State, begin, interleaved, http_content, http_idle}

-- `gint base64_state` and `guint base64_save`.
abbrev pub Base64 : Type 0
Base64 = ℕ × ℕ

-- What of `RTSP_Client` the tunnel uses; `pair` is a pointer.
pub record TunnelClient : Type 0 where
  pub status : State
  pub input : List ℕ
  pub pair : Option Text
  pub out_queue : List (List ℕ)
  pub through_http : Bool  -- `write_data` is `rtsp_write_data_http`

-- `HTTP_Tunnel_Pair`.
pub record TunnelPair : Type 0 where
  pub rtsp_client : Option ℕ
  pub http_client : ℕ
  pub base64 : Base64

pub record TunnelWorld : Type 0 where
  pub clients : List (ℕ × TunnelClient)
  pub pairs : List (Text × TunnelPair)  -- `http_tunnel_pairs`

-- What a request is answered with.
pub data HttpAnswer : Type 0 where
  http_ok http_bad_request : HttpAnswer

unfoldable pub find_client : ℕ → List (ℕ × TunnelClient) → Outcome TunnelClient
find_client a [] = crash
find_client a ((b, c) ∷ cs) = let rest = find_client a cs in if b == a then ok c else rest

unfoldable pub set_client : ℕ → TunnelClient → List (ℕ × TunnelClient) → List (ℕ × TunnelClient)
set_client a c [] = []
set_client a c ((b, d) ∷ cs) =
    let rest = set_client a c cs in if b == a then (b, c) ∷ cs else (b, d) ∷ rest

unfoldable pub find_pair : Text → List (Text × TunnelPair) → Option TunnelPair
find_pair cookie [] = none
find_pair cookie ((k, p) ∷ ps) =
    let rest = find_pair cookie ps in if text_eq k cookie then some p else rest

unfoldable pub set_pair : Text → TunnelPair → List (Text × TunnelPair) → List (Text × TunnelPair)
set_pair cookie p [] = (cookie, p) ∷ []
set_pair cookie p ((k, q) ∷ ps) =
    let rest = set_pair cookie p ps in if text_eq k cookie then (k, p) ∷ ps else (k, q) ∷ rest

-- A read of a client through its address.
abbrev pub with_client : TunnelWorld → ℕ → TunnelClient → TunnelWorld
with_client w a c = record w { clients = set_client a c w.clients }

abbrev pub deref_pair : Option TunnelPair → Outcome TunnelPair
deref_pair none = crash
deref_pair (some p) = ok p

abbrev pub pointed : Option Text → TunnelWorld → Outcome TunnelPair
pointed none w = crash
pointed (some cookie) w = deref_pair (find_pair cookie w.pairs)

-- `rtsp_write_data_http`: the packet goes to the queue of the other connection.
unfoldable pub rtsp_write_data_http : TunnelWorld → ℕ → List ℕ → Outcome TunnelWorld
unfolding find_client set_client
rtsp_write_data_http w client packet = do
  c ← find_client client w.clients
  p ← pointed c.pair w
  h ← find_client p.http_client w.clients
  ok (with_client w p.http_client (record h { out_queue = packet ∷ h.out_queue }))

unfoldable pub create_pair :
    TunnelWorld → ℕ → Text → Option TunnelPair → Outcome (TunnelWorld × HttpAnswer)
unfolding find_client set_client set_pair
create_pair w client cookie (some p) = ok (w, http_bad_request)
create_pair w client cookie none = find_client client w.clients >>= λ c.
    let fresh : TunnelPair = record { rtsp_client = none; http_client = client; base64 = (0, 0) } in
    let paired = with_client w client (record c { pair = some cookie }) in
    ok (record paired { pairs = set_pair cookie fresh w.pairs }, http_ok)

-- `http_tunnel_create_pair`, for the header `x-sessioncookie`; TRUE is `http_ok`.
unfoldable pub http_tunnel_create_pair :
    TunnelWorld → ℕ → Option Text → Outcome (TunnelWorld × HttpAnswer)
unfolding create_pair find_pair
http_tunnel_create_pair w client none = ok (w, http_bad_request)
http_tunnel_create_pair w client (some cookie) =
    create_pair w client cookie (find_pair cookie w.pairs)

-- The swap of the two connections' input, with their new states, at the end of a POST.
unfoldable pub join_tunnel :
    TunnelWorld → ℕ → ℕ → Text → TunnelPair → TunnelClient → TunnelClient → TunnelWorld
unfolding set_client set_pair
join_tunnel w rtsp http cookie p r h =
    let r' : TunnelClient = record r { status = begin; input = h.input; through_http = true } in
    let h' : TunnelClient = record h { status = http_content; input = r.input } in
    record w {
      clients = set_client http h' (set_client rtsp r' w.clients);
      pairs = set_pair cookie (record p { rtsp_client = some rtsp }) w.pairs;
    }

abbrev pub is_idle : State → Bool
is_idle http_idle = true
is_idle _ = false

abbrev pub is_empty_input : List ℕ → Bool
is_empty_input [] = true
is_empty_input (_ ∷ _) = false

module _ (handler : TunnelWorld → ℕ → Outcome TunnelWorld) where
  -- `rtsp->pair` is set before the tests.
  unfoldable pub post_pair :
      TunnelWorld → ℕ → Text → Option TunnelPair → Outcome (TunnelWorld × Option HttpAnswer)
  unfolding find_client set_client join_tunnel
  post_pair w client cookie none = find_client client w.clients >>= λ c.
      ok (with_client w client (record c { pair = none }), some http_bad_request)
  post_pair w client cookie (some p) = find_client client w.clients >>= λ c.
      let r : TunnelClient = record c { pair = some cookie } in
      let w1 = with_client w client r in
      find_client p.http_client w1.clients >>= λ h.
      let joined_run =
        handler (join_tunnel w1 client p.http_client cookie p r h) p.http_client >>= λ w2.
        ok (w2, none) in
      if is_idle h.status && is_empty_input h.input
      then joined_run
      else ok (w1, some http_bad_request)

  -- The branch of `HTTP_handle_headers` for POST.
  unfoldable pub http_post :
      TunnelWorld → ℕ → Option Text → Outcome (TunnelWorld × Option HttpAnswer)
  unfolding post_pair find_pair
  http_post w client none = ok (w, some http_bad_request)
  http_post w client (some cookie) = post_pair w client cookie (find_pair cookie w.pairs)

module _ (handler : TunnelWorld → ℕ → Outcome TunnelWorld)
    (decode_step : Base64 → List ℕ → List ℕ × Base64) where
  -- The decoded bytes, in the room that was made for them.
  unfoldable pub decode_input :
      TunnelWorld → ℕ → TunnelClient → Text → TunnelPair → Option ℕ → Outcome TunnelWorld
  unfolding find_client set_client set_pair
  decode_input w http h cookie p none = crash
  decode_input w http h cookie p (some rtsp) = find_client rtsp w.clients >>= λ r.
      let d = decode_step p.base64 h.input in
      let clients =
        set_client http (record h { input = [] })
          (set_client rtsp (record r { input = r.input ++ d.0 }) w.clients) in
      let pairs = set_pair cookie (record p { base64 = d.1 }) w.pairs in
      if ltb (length h.input / 4 * 3 + 6) (length d.0)
      then crash
      else handler (record { clients = clients; pairs = pairs }) rtsp

  unfoldable pub content_of : TunnelWorld → ℕ → TunnelClient → Option Text → Outcome TunnelWorld
  unfolding find_pair decode_input
  content_of w http h none = crash
  content_of w http h (some cookie) =
      deref_pair (find_pair cookie w.pairs) >>= λ p. decode_input w http h cookie p p.rtsp_client

  -- `HTTP_handle_content`: what was posted goes, decoded, behind the input of the other client.
  unfoldable pub http_handle_content : TunnelWorld → ℕ → Outcome TunnelWorld
  unfolding content_of
  http_handle_content w http = find_client http w.clients >>= λ h. content_of w http h h.pair

-- What `ragel_read_http_headers` gives: -1, 0 and how many bytes it took, or all headers: whether the
-- method is POST, whether the statistics are asked for, and the cookie.
pub data HttpHeaders : Type 0 where
  bad_headers : HttpHeaders
  short_headers : ℕ → HttpHeaders
  all_headers : ℕ → Bool → Bool → Option Text → HttpHeaders

abbrev pub take_input : TunnelWorld → ℕ → ℕ → Outcome TunnelWorld
take_input w client n = find_client client w.clients >>= λ c.
    ok (with_client w client (record c { input = drop n c.input }))

unfoldable pub after_create :
    ℕ → TunnelWorld → HttpAnswer → Outcome (Bool × TunnelWorld × Option HttpAnswer)
unfolding find_client set_client
after_create client w http_bad_request = ok (true, w, some http_bad_request)
after_create client w http_ok = find_client client w.clients >>= λ c.
    ok (true, with_client w client (record c { status = http_idle }), some http_ok)

-- A request that is not a POST makes a pair, and the connection idle.
unfoldable pub http_get :
    TunnelWorld → ℕ → Option Text → Outcome (Bool × TunnelWorld × Option HttpAnswer)
unfolding http_tunnel_create_pair after_create
http_get w client cookie =
    http_tunnel_create_pair w client cookie >>= λ r. after_create client r.0 r.1

-- `HTTP_handle_headers`; `allowed` is what `rtsp_connection_limit` returns.
unfoldable pub http_handle_headers :
    (TunnelWorld → ℕ → Outcome TunnelWorld)
    → Bool
    → TunnelWorld
    → ℕ
    → HttpHeaders
    → Outcome (Bool × TunnelWorld × Option HttpAnswer)
unfolding http_post http_get
http_handle_headers handler allowed w client bad_headers = ok (false, w, some http_bad_request)
http_handle_headers handler allowed w client (short_headers n) =
    take_input w client n >>= λ w'. ok (false, w', none)
http_handle_headers handler allowed w client (all_headers n is_post wants_stats cookie) =
    take_input w client n >>= λ w'.
    let post = http_post handler w' client cookie >>= λ r. ok (false, r.0, r.1) in
    let get = http_get w' client cookie in
    if not allowed || wants_stats then ok (false, w', none) else if is_post then post else get
