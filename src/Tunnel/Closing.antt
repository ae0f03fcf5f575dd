-- ===== src/Tunnel/Closing.antt =====
-- The end of `client_loop` (src/network/rtsp_client.c), for the clients of a tunnel.
use feng.Base.{
  ℕ, Bool, false, Option, none, some, List, [], ◌∷◌, Outcome, ok, ◌>>=◌, ◌==◌, if◌then◌else◌,
}
use feng.Base.Text.{Text}
use feng.Tunnel.{TunnelClient, TunnelWorld, find_client, find_pair, deref_pair}

unfoldable pub free_client : ℕ → List (ℕ × TunnelClient) → List (ℕ × TunnelClient)
free_client a [] = []
free_client a ((b, c) ∷ cs) = let rest = free_client a cs in if b == a then rest else (b, c) ∷ rest

abbrev pub is_client : ℕ → Option ℕ → Bool
is_client a none = false
is_client a (some b) = b == a

-- The end of `client_loop`: which clients are freed. The pair stays in the table.
unfoldable pub close_pair : TunnelWorld → ℕ → Option Text → Outcome TunnelWorld
unfolding free_client find_pair
close_pair w client none = ok (record w { clients = free_client client w.clients })
close_pair w client (some cookie) = deref_pair (find_pair cookie w.pairs) >>= λ p.
    if is_client client p.rtsp_client
    then ok (record w { clients = free_client client (free_client p.http_client w.clients) })
    else ok w

unfoldable pub client_loop_end : TunnelWorld → ℕ → Outcome TunnelWorld
unfolding close_pair
client_loop_end w client = find_client client w.clients >>= λ c. close_pair w client c.pair
