-- ===== src/Tunnel/Reused.antt =====
-- A tunnel's cookie that is used again (src/network/http_tunnelling.c).
use feng.Base.{
  ℕ, ◌≡◌, ◌≢◌, refl, sym, ap, ◌∙◌, inl, inr, true, false, some, List, [], ◌∷◌, Outcome, ok, crash,
  ◌==◌, Bool-cases, eq→==, arith,
}
use feng.Base.Text.{Text}
use feng.Tunnel.Closing.{free_client, close_pair, client_loop_end}
use feng.Tunnel.{
  TunnelClient, TunnelPair, TunnelWorld, find_client, set_client, find_pair, post_pair, http_post,
}

pub find-set_same :
    (a : ℕ) (c d : TunnelClient) (cs : List (ℕ × TunnelClient))
    → find_client a cs ≡ ok d
    → find_client a (set_client a c cs) ≡ ok c
unfolding find_client set_client
find-set_same a c d [] h = absurd (cc h)
find-set_same a c d ((b, e) ∷ cs) h = elim (Bool-cases (b == a)) [
  | inl t ↦ rw (t, t) refl
  | inr t ↦ rw (t, t) (find-set_same a c d cs (rw t at h))
]

pub find-set_other :
    (a b : ℕ) (c : TunnelClient) (cs : List (ℕ × TunnelClient))
    → a ≢ b
    → find_client a (set_client b c cs) ≡ find_client a cs
unfolding find_client set_client
find-set_other a b c [] h = refl
find-set_other a b c ((k, e) ∷ cs) h = elim (Bool-cases (k == b)) [
  | inl t ↦ let u : (k == a) ≡ false = ground arith in rw (t, u) refl
  | inr t ↦
      rw t (elim (Bool-cases (k == a)) [
        | inl u ↦ rw u refl
        | inr u ↦ rw u (find-set_other a b c cs h)
      ])
]

find-free : (a : ℕ) (cs : List (ℕ × TunnelClient)) → find_client a (free_client a cs) ≡ crash
unfolding find_client free_client
find-free a [] = refl
find-free a ((b, e) ∷ cs) = elim (Bool-cases (b == a)) [
  | inl t ↦ rw t (find-free a cs)
  | inr t ↦ rw (t, t) (find-free a cs)
]

pub find-free_other :
    (a b : ℕ) (cs : List (ℕ × TunnelClient))
    → a ≢ b
    → find_client a (free_client b cs) ≡ find_client a cs
unfolding find_client free_client
find-free_other a b [] h = refl
find-free_other a b ((k, e) ∷ cs) h = elim (Bool-cases (k == b)) [
  | inl t ↦ let u : (k == a) ≡ false = ground arith in rw (t, u) (find-free_other a b cs h)
  | inr t ↦
      rw t
        (elim (Bool-cases (k == a)) [ inl u ↦ rw u refl | inr u ↦ rw u (find-free_other a b cs h) ])
]

freed_twice :
    (a b : ℕ) (cs : List (ℕ × TunnelClient))
    → find_client a (free_client b (free_client a cs)) ≡ crash
freed_twice a b cs = elim (Bool-cases (a == b)) [
  | inl e ↦
      let s : a ≡ b = ground arith in
      ap (λ k. find_client k (free_client b (free_client a cs))) s ∙ find-free b (free_client a cs)
  | inr e ↦
      find-free_other a b (free_client a cs) (λ z. absurd (cc (sym e ∙ eq→== a b z)))
      ∙ find-free a cs
]

-- A pair outlives its tunnel: when the connection for requests of a tunnel ends, both clients are
-- freed, and the pair stays in the table with the address of the one that was freed. The next client
-- that sends a POST with the same cookie makes the server read it.
pub http_post-reused :
    (handler : TunnelWorld → ℕ → Outcome TunnelWorld) (w : TunnelWorld) (p g q : ℕ) (cookie : Text)
    (c d : TunnelClient) (pair : TunnelPair)
    → find_client p w.clients ≡ ok c
    → c.pair ≡ some cookie
    → find_pair cookie w.pairs ≡ some pair
    → pair.rtsp_client ≡ some p
    → pair.http_client ≡ g
    → find_client q w.clients ≡ ok d
    → q ≢ p
    → q ≢ g
    → (w' : TunnelWorld) × ((client_loop_end w p ≡ ok w')
        × ((find_client q w'.clients ≡ ok d) × (http_post handler w' q (some cookie) ≡ crash)))
unfolding client_loop_end close_pair http_post post_pair
http_post-reused handler w p g q cookie c d pair fp cp pp rp hp fq qp qg =
    let same : (p == p) ≡ true = ground arith in
    let rest = free_client p (free_client g w.clients) in
    let q' : TunnelClient = record d { pair = some cookie } in
    let gone : find_client g (set_client q q' rest) ≡ crash =
      find-set_other g q q' rest (λ e. qg (sym e)) ∙ freed_twice g p w.clients in
    let alive : find_client q rest ≡ ok d =
      find-free_other q p (free_client g w.clients) qp ∙ (find-free_other q g w.clients qg ∙ fq) in
    let w' : TunnelWorld = record { clients = rest; pairs = w.pairs } in
    (w', (rw (fp, cp, pp, rp, hp, same) refl, (alive, rw (pp, alive, hp, gone) refl)))
