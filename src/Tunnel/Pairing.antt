-- ===== src/Tunnel/Pairing.antt =====
-- How a tunnel comes about, and what goes through it (src/network/http_tunnelling.c).
use feng.Base.{
  ℕ, ◌≡◌, ◌≢◌, refl, sym, ap, ◌∙◌, inl, inr, true, none, some, List, [], ◌∷◌, Outcome, ok, ◌>>=◌,
  Bool-cases,
}
use feng.Base.Text.{Text, text_eq, text_eq_refl}
use feng.Interleaved.{begin, http_content, http_idle}
use feng.Tunnel.{
  Base64, TunnelClient, TunnelPair, TunnelWorld, find_client, set_client, find_pair, set_pair,
  create_pair, http_tunnel_create_pair, post_pair, http_post, http_get, after_create, join_tunnel,
  http_ok, rtsp_write_data_http,
}
use feng.Tunnel.Reused.{find-set_same, find-set_other}

find-set_pair :
    (cookie : Text) (p : TunnelPair) (ps : List (Text × TunnelPair))
    → find_pair cookie (set_pair cookie p ps) ≡ some p
unfolding find_pair set_pair
find-set_pair cookie p [] = rw (text_eq_refl cookie) refl
find-set_pair cookie p ((k, q) ∷ ps) = elim (Bool-cases (text_eq k cookie)) [
  | inl e ↦ rw (e, e) refl
  | inr e ↦ rw (e, e) (find-set_pair cookie p ps)
]

-- A tunnel: `p` is the connection for requests, `g` the one for responses, and `input` what was
-- posted so far.
pub record IsTunnel (w : TunnelWorld) (cookie : Text) (p g : ℕ) (base64 : Base64)
    (cp cg : TunnelClient) : Type 0 where
  pub requests : find_client p w.clients ≡ ok cp
  pub responses : find_client g w.clients ≡ ok cg
  pub to_pair : cp.pair ≡ some cookie
  pub from_pair : cg.pair ≡ some cookie
  pub pair :
      find_pair cookie w.pairs
      ≡ some (record { rtsp_client = some p; http_client = g; base64 = base64 })

-- The state after the GET.
abbrev got : TunnelWorld → ℕ → Text → TunnelClient → TunnelWorld
got w g cookie c = record {
  clients =
      set_client g (record c { pair = some cookie; status = http_idle })
        (set_client g (record c { pair = some cookie }) w.clients);
  pairs = set_pair cookie (record { rtsp_client = none; http_client = g; base64 = (0, 0) }) w.pairs;
}

http_get-pairs :
    (w : TunnelWorld) (g : ℕ) (cookie : Text) (c : TunnelClient)
    → find_client g w.clients ≡ ok c
    → find_pair cookie w.pairs ≡ none
    → http_get w g (some cookie) ≡ ok (true, got w g cookie c, some http_ok)
unfolding http_get http_tunnel_create_pair create_pair after_create
http_get-pairs w g cookie c f n =
    rw (n, f, find-set_same g (record c { pair = some cookie }) c w.clients f) refl

-- The clients of the tunnel, at its start.
abbrev pub for_requests : Text → TunnelClient → TunnelClient
for_requests cookie c = record c {
  pair = some cookie;
  status = begin;
  input = [];
  through_http = true;
}

abbrev pub for_responses : Text → TunnelClient → List ℕ → TunnelClient
for_responses cookie c posted = record c {
  pair = some cookie;
  status = http_content;
  input = posted;
}

-- The client for responses, between the GET and the POST.
abbrev waiting_client : Text → TunnelClient → TunnelClient
waiting_client cookie c = record c { pair = some cookie; status = http_idle; input = [] }

abbrev fresh_pair : ℕ → TunnelPair
fresh_pair g = record { rtsp_client = none; http_client = g; base64 = (0, 0) }

-- The state after the POST.
abbrev posted : TunnelWorld → ℕ → ℕ → Text → TunnelClient → TunnelClient → TunnelWorld
posted w g p cookie cg cp = record {
  clients = set_client g (for_responses cookie cg cp.input) (
      set_client p (for_requests cookie cp)
        (set_client p (record cp { pair = some cookie }) w.clients));
  pairs = set_pair cookie (record (fresh_pair g) { rtsp_client = some p }) w.pairs;
}

http_post-joins :
    (handler : TunnelWorld → ℕ → Outcome TunnelWorld) (w : TunnelWorld) (g p : ℕ) (cookie : Text)
    (cg cp : TunnelClient)
    → find_client g w.clients ≡ ok (waiting_client cookie cg)
    → find_client p w.clients ≡ ok cp
    → p ≢ g
    → find_pair cookie w.pairs ≡ some (fresh_pair g)
    → http_post handler w p (some cookie)
      ≡ (handler (posted w g p cookie cg cp) g >>= λ x. ok (x, none))
unfolding http_post post_pair join_tunnel
http_post-joins handler w g p cookie cg cp fg fp ne fc =
    let r : TunnelClient = record cp { pair = some cookie } in
    let still : find_client g (set_client p r w.clients) ≡ ok (waiting_client cookie cg) =
      find-set_other g p r w.clients (λ e. ne (sym e)) ∙ fg in
    rw (fc, fp, still) refl

posted-IsTunnel :
    (w : TunnelWorld) (g p : ℕ) (cookie : Text) (cg cp : TunnelClient)
    → find_client g w.clients ≡ ok (waiting_client cookie cg)
    → find_client p w.clients ≡ ok cp
    → p ≢ g
    → IsTunnel
        (posted w g p cookie cg cp)
        cookie
        p
        g
        (0, 0)
        (for_requests cookie cp)
        (for_responses cookie cg cp.input)
posted-IsTunnel w g p cookie cg cp fg fp ne =
    let r : TunnelClient = record cp { pair = some cookie } in
    let cs = set_client p r w.clients in
    let cs' = set_client p (for_requests cookie cp) cs in
    let fp1 : find_client p cs ≡ ok r = find-set_same p r cp w.clients fp in
    let fp2 : find_client p cs' ≡ ok (for_requests cookie cp) =
      find-set_same p (for_requests cookie cp) r cs fp1 in
    let fg2 : find_client g cs' ≡ ok (waiting_client cookie cg) =
      find-set_other g p (for_requests cookie cp) cs (λ e. ne (sym e))
      ∙ (find-set_other g p r w.clients (λ e. ne (sym e)) ∙ fg) in
    record {
      requests = find-set_other p g (for_responses cookie cg cp.input) cs' ne ∙ fp2;
      responses =
          find-set_same g (for_responses cookie cg cp.input) (waiting_client cookie cg) cs' fg2;
      to_pair = refl;
      from_pair = refl;
      pair = find-set_pair cookie (record (fresh_pair g) { rtsp_client = some p }) w.pairs;
    }

-- What is written for the client of a tunnel.
write-queues :
    (w : TunnelWorld) (g p : ℕ) (cookie : Text) (b : Base64) (cp cg : TunnelClient)
    (packet : List ℕ)
    → IsTunnel w cookie p g b cp cg
    → (w' : TunnelWorld) × ((rtsp_write_data_http w p packet ≡ ok w')
        × (find_client g w'.clients ≡ ok (record cg { out_queue = packet ∷ cg.out_queue })))
unfolding rtsp_write_data_http
write-queues w g p cookie b cp cg packet t =
    let c : TunnelClient = record cg { out_queue = packet ∷ cg.out_queue } in
    (
      record w { clients = set_client g c w.clients },
      (
        rw (t.requests, t.to_pair, t.pair, t.responses) refl,
        find-set_same g c cg w.clients t.responses,
      ),
    )

-- A GET with a cookie that is not in use, from a client whose input is read, and then a POST with the
-- cookie from another client, make a tunnel of the two. What the second one sent behind its headers
-- is the posted input, the other input is empty, and `RTSP_handler` goes on with the posted one.
-- After that, what `rtsp_write_data_http` is given for the second client is queued for the first.
pub http_post-IsTunnel :
    (handler : TunnelWorld → ℕ → Outcome TunnelWorld) (w : TunnelWorld) (g p : ℕ) (cookie : Text)
    (cg cp : TunnelClient) (packet : List ℕ)
    → find_client g w.clients ≡ ok cg
    → find_client p w.clients ≡ ok cp
    → p ≢ g
    → cg.input ≡ []
    → find_pair cookie w.pairs ≡ none
    → (w1 : TunnelWorld) × (w2 : TunnelWorld) × (w3 : TunnelWorld) × ((http_get w g (some cookie)
          ≡ ok (true, w1, some http_ok))
        × ((http_post handler w1 p (some cookie) ≡ (handler w2 g >>= λ x. ok (x, none)))
            × (IsTunnel w2 cookie p g
                  (0, 0)
                  (for_requests cookie cp)
                  (for_responses cookie cg cp.input)
                × ((rtsp_write_data_http w2 p packet ≡ ok w3)
                    × (find_client g w3.clients
                        ≡ ok (record (for_responses cookie cg cp.input) {
                          out_queue = packet ∷ cg.out_queue;
                        }))))))
http_post-IsTunnel handler w g p cookie cg cp packet fg fp ne ei np =
    let w1 = got w g cookie cg in
    let c : TunnelClient = record cg { pair = some cookie } in
    let c' : TunnelClient = record cg { pair = some cookie; status = http_idle } in
    let fg1 : find_client g w1.clients ≡ ok (waiting_client cookie cg) =
      find-set_same g c' c (set_client g c w.clients) (find-set_same g c cg w.clients fg)
      ∙ ap (λ (i : List ℕ). ok (record cg { pair = some cookie; status = http_idle; input = i }))
          ei in
    let fp1 : find_client p w1.clients ≡ ok cp =
      find-set_other p g c' (set_client g c w.clients) ne
      ∙ (find-set_other p g c w.clients ne ∙ fp) in
    let fc = find-set_pair cookie (fresh_pair g) w.pairs in
    let tunnel = posted-IsTunnel w1 g p cookie cg cp fg1 fp1 ne in
    let (w3, written) =
      write-queues (posted w1 g p cookie cg cp) g p cookie (0, 0) (for_requests cookie cp)
        (for_responses cookie cg cp.input) packet tunnel in
    (
      w1,
      posted w1 g p cookie cg cp,
      w3,
      (
        http_get-pairs w g cookie cg fg np,
        (http_post-joins handler w1 g p cookie cg cp fg1 fp1 ne fc, (tunnel, written)),
      ),
    )
