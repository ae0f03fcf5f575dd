-- ===== src/Tunnel/Tests.antt =====
-- A tunnel at concrete inputs.
use feng.Base.{ℕ, ◌≡◌, refl, true, false, none, some, [], ◌∷◌, Outcome, ok, crash, ◌>>=◌, arith}
use feng.Base.Text.{Text}
use feng.Interleaved.{http_headers}
use feng.Tunnel.{
  TunnelClient, TunnelWorld, find_client, find_pair, http_post, http_get, http_ok,
  rtsp_write_data_http,
}
use feng.Tunnel.Closing.{client_loop_end}
use feng.Tunnel.Pairing.{IsTunnel, for_requests, for_responses, http_post-IsTunnel}
use feng.Tunnel.Reused.{http_post-reused}

abbrev getter : TunnelClient
getter = record {
  status = http_headers;
  input = [];
  pair = none;
  out_queue = [];
  through_http = false;
}

abbrev poster : TunnelClient
poster = record getter { input = 7 ∷ [] }

abbrev two_clients : TunnelWorld
two_clients = record { clients = (1, getter) ∷ (2, poster) ∷ []; pairs = [] }

abbrev cookie : Text
cookie = 99 ∷ []

abbrev no_handler : TunnelWorld → ℕ → Outcome TunnelWorld
no_handler w client = ok w

http_post-IsTunnel_example :
    (w1 : TunnelWorld) × (w2 : TunnelWorld) × (w3 : TunnelWorld) × ((http_get two_clients 1
          (some cookie)
        ≡ ok (true, w1, some http_ok))
      × ((http_post no_handler w1 2 (some cookie) ≡ (no_handler w2 1 >>= λ x. ok (x, none)))
          × (IsTunnel w2 cookie 2 1
                (0, 0)
                (for_requests cookie poster)
                (for_responses cookie getter (7 ∷ []))
              × ((rtsp_write_data_http w2 2 (5 ∷ []) ≡ ok w3)
                  × (find_client 1 w3.clients
                      ≡ ok (record (for_responses cookie getter (7 ∷ [])) {
                        out_queue = (5 ∷ []) ∷ [];
                      }))))))
unfolding find_client find_pair
http_post-IsTunnel_example =
    http_post-IsTunnel no_handler two_clients 1 2 cookie getter poster (5 ∷ []) refl refl
      (omega arith) refl refl

-- A tunnel of the clients 1 and 2, and a newcomer.
abbrev tunnelled : TunnelWorld
tunnelled = record {
  clients =
      (1, record getter { pair = some cookie })
      ∷ (2, record poster { pair = some cookie })
      ∷ (3, getter)
      ∷ [];
  pairs = (cookie, record { rtsp_client = some 2; http_client = 1; base64 = (0, 0) }) ∷ [];
}

http_post-reused_example :
    (w' : TunnelWorld) × ((client_loop_end tunnelled 2 ≡ ok w')
      × ((find_client 3 w'.clients ≡ ok getter)
          × (http_post no_handler w' 3 (some cookie) ≡ crash)))
unfolding find_client find_pair
http_post-reused_example =
    http_post-reused no_handler tunnelled 2 1 3 cookie (record poster { pair = some cookie }) getter
      (record { rtsp_client = some 2; http_client = 1; base64 = (0, 0) }) refl refl refl refl refl
      refl (omega arith) (omega arith)
