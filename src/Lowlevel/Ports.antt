-- ===== src/Lowlevel/Ports.antt =====
-- The sockets of a session over UDP: what `rtp_udp_transport` opens, serves and closes
-- (src/network/rtsp_lowlevel.c).
use mathlib.Core.Path.{subst}
use feng.Base.{
  ℕ, ◌≡◌, ◌+◌, ◌-◌, ◌%◌, refl, sym, ◌∙◌, ◌⊎◌, inl, inr, Bool, true, false, Option, none, some, List,
  [], ◌∷◌, ◌++◌, ◌==◌, if◌then◌else◌, Bool-cases, Option-cases, arith,
}
use feng.Base.Int.{ℤ, pos}
use feng.Interleaved.{ParsedTransport}
use feng.Lowlevel.Udp.{
  SystemCalls, UdpSession, new_udp, UdpResult, served, failed, udp_error, port_of, connect_udp,
  bind_beside, first_is_rtp, first_is_rtcp, with_port, close_open,
}

-- The second socket has a port: that beside the first, or, where that is taken, the kernel's.
abbrev pub SecondBound : SystemCalls → ℕ → ℕ → Type 0
SecondBound os beside port =
    ((os.bind_second beside ≡ true) × (port ≡ beside))
    ⊎ ((os.bind_second 0 ≡ true) × (os.second_port ≡ some port))

-- A session that is served: its sockets are the two that were opened, and each has the port that
-- the client is told; the even port of the first socket is for RTP, and an odd one for RTCP.
pub record Serves (os : SystemCalls) (parsed : ParsedTransport) (u : UdpSession) (p q : ℕ)
    : Type 0 where
  pub a : ℕ
  pub b : ℕ
  pub first : os.first_socket ≡ some a
  pub second : os.second_socket ≡ some b
  pub ports :
      ((p % 2 ≡ 0)
        × (os.first_port ≡ some p)
        × (u.rtp_sd ≡ pos a)
        × (u.rtcp_sd ≡ pos b)
        × SecondBound os (p + 1) q)
      ⊎ ((q % 2 ≡ 1)
          × (os.first_port ≡ some q)
          × (u.rtp_sd ≡ pos b)
          × (u.rtcp_sd ≡ pos a)
          × SecondBound os (q - 1) p)
  pub peer :
      (u.rtp_sa ≡ some (port_of parsed.rtp_channel))
      × (u.rtcp_sa ≡ some (port_of parsed.rtcp_channel))
  pub reader : u.rtcp_reader ≡ some u.rtcp_sd
  pub idle : u.rtcp_active ≡ false

-- The descriptors of the sockets that were opened.
abbrev pub opened_sockets : Option ℕ → List ℤ
opened_sockets none = []
opened_sockets (some sd) = pos sd ∷ []

abbrev pub knows_port : SystemCalls → Bool
knows_port os = elim os.first_socket as (λ s. Bool) [
  | none ↦ false
  | some a ↦
      if os.bind_first
      then (elim os.first_port as (λ s. Bool) [ none ↦ false | some p ↦ true ])
      else false
]

-- What is closed where the transport fails: the sockets that were opened, each once; but where the
-- first of them never got a port, the descriptor 0 as well, and that twice.
pub record Fails (os : SystemCalls) (closed : List ℤ) : Type 0 where
  pub clean :
      knows_port os ≡ true
      → (closed ≡ opened_sockets os.first_socket ++ opened_sockets os.second_socket)
        ⊎ (closed ≡ opened_sockets os.second_socket ++ opened_sockets os.first_socket)
  pub unclean :
      knows_port os ≡ false → closed ≡ opened_sockets os.first_socket ++ pos 0 ∷ pos 0 ∷ []

abbrev pub UdpOutcome : SystemCalls → ParsedTransport → UdpResult → Type 0
UdpOutcome os parsed (served u p q) = Serves os parsed u p q
UdpOutcome os parsed (failed closed) = Fails os closed

some_value : {a b : ℕ} → some a ≡ some b → b ≡ a
some_value h = cc h

either_port :
    (a b : Bool) (x port : ℕ) (other : Option ℕ)
    → (if a then some x else if b then other else none) ≡ some port
    → ((a ≡ true) × (port ≡ x)) ⊎ ((b ≡ true) × (other ≡ some port))
either_port true b x port other h = inl (refl, some_value h)
either_port false true x port other h = inr (refl, h)
either_port false false x port other h = absurd (cc h)

bind_beside-SecondBound :
    (os : SystemCalls) (parsed : ParsedTransport) (beside port : ℕ)
    → bind_beside os parsed beside ≡ some port
    → SecondBound os beside port
unfolding bind_beside
bind_beside-SecondBound os parsed beside port h =
    either_port (os.bind_second beside) (os.bind_second 0) beside port os.second_port h

module _ (os : SystemCalls) (parsed : ParsedTransport) where
  pub failed_by :
      (closed : List ℤ) {r : UdpResult}
      → Fails os closed
      → r ≡ failed closed
      → UdpOutcome os parsed r
  failed_by closed h e = subst (UdpOutcome os parsed) (sym e) h

  served_by :
      (u : UdpSession) (p q : ℕ) {r : UdpResult}
      → Serves os parsed u p q
      → r ≡ served u p q
      → UdpOutcome os parsed r
  served_by u p q h e = subst (UdpOutcome os parsed) (sym e) h

  -- A session with its sockets that is served.
  abbrev full_session : UdpSession → UdpSession
  full_session u = record u {
    rtp_sa = some (port_of parsed.rtp_channel);
    rtcp_sa = some (port_of parsed.rtcp_channel);
    rtcp_reader = some u.rtcp_sd;
  }

  connected :
      (u : UdpSession) (p q : ℕ)
      → Fails os (close_open u.rtp_sd ++ close_open u.rtcp_sd)
      → Serves os parsed (full_session u) p q
      → UdpOutcome os parsed (connect_udp os parsed u p q)
  unfolding connect_udp udp_error
  connected u p q f s =
      let closed = close_open u.rtp_sd ++ close_open u.rtcp_sd in
      elim (Bool-cases os.connect_rtp) [
        | inr e ↦ failed_by closed f (rw e refl)
        | inl e ↦ elim (Bool-cases os.connect_rtcp) [
          | inr g ↦ failed_by closed f (rw (e, g) refl)
          | inl g ↦ served_by (full_session u) p q s (rw (e, g) refl)
        ]
      ]

  -- The sockets that were opened, in the order in which `error:` closes them.
  known-Fails :
      (closed : List ℤ)
      → knows_port os ≡ true
      → (closed ≡ opened_sockets os.first_socket ++ opened_sockets os.second_socket)
        ⊎ (closed ≡ opened_sockets os.second_socket ++ opened_sockets os.first_socket)
      → Fails os closed
  known-Fails closed k h = record { clean = λ _. h; unclean = λ z. absurd (cc (sym k ∙ z)) }

  even_port :
      (a p : ℕ)
      → os.first_socket ≡ some a
      → os.first_port ≡ some p
      → knows_port os ≡ true
      → p % 2 ≡ 0
      → UdpOutcome os parsed (first_is_rtp os parsed a p new_udp)
  unfolding first_is_rtp udp_error
  even_port a p e f k m = elim (Option-cases os.second_socket) [
    | inl n ↦ failed_by (pos a ∷ []) (known-Fails (pos a ∷ []) k (inl (rw (e, n) refl))) (rw n refl)
    | inr (b, n) ↦
        let u : UdpSession = record new_udp { rtp_sd = pos a; rtcp_sd = pos b } in
        let fails = known-Fails (pos a ∷ pos b ∷ []) k (inl (rw (e, n) refl)) in
        elim (Option-cases (bind_beside os parsed (p + 1))) [
          | inl g ↦ failed_by (pos a ∷ pos b ∷ []) fails (rw (n, g) refl)
          | inr (q, g) ↦
              let same : first_is_rtp os parsed a p new_udp ≡ connect_udp os parsed u p q =
                rw (n, g) refl in
              let s : Serves os parsed (full_session u) p q = record {
                a = a;
                b = b;
                first = e;
                second = n;
                ports = inl (m, f, refl, refl, bind_beside-SecondBound os parsed (p + 1) q g);
                peer = (refl, refl);
                reader = refl;
                idle = refl;
              } in
              subst (UdpOutcome os parsed) (sym same) (connected u p q fails s)
        ]
  ]

  odd_port :
      (a q : ℕ)
      → os.first_socket ≡ some a
      → os.first_port ≡ some q
      → knows_port os ≡ true
      → q % 2 ≡ 1
      → UdpOutcome os parsed (first_is_rtcp os parsed a q new_udp)
  unfolding first_is_rtcp udp_error
  odd_port a q e f k m = elim (Option-cases os.second_socket) [
    | inl n ↦ failed_by (pos a ∷ []) (known-Fails (pos a ∷ []) k (inl (rw (e, n) refl))) (rw n refl)
    | inr (b, n) ↦
        let u : UdpSession = record new_udp { rtp_sd = pos b; rtcp_sd = pos a } in
        let fails = known-Fails (pos b ∷ pos a ∷ []) k (inr (rw (e, n) refl)) in
        elim (Option-cases (bind_beside os parsed (q - 1))) [
          | inl g ↦ failed_by (pos b ∷ pos a ∷ []) fails (rw (n, g) refl)
          | inr (p, g) ↦
              let same : first_is_rtcp os parsed a q new_udp ≡ connect_udp os parsed u p q =
                rw (n, g) refl in
              let s : Serves os parsed (full_session u) p q = record {
                a = a;
                b = b;
                first = e;
                second = n;
                ports = inr (m, f, refl, refl, bind_beside-SecondBound os parsed (q - 1) p g);
                peer = (refl, refl);
                reader = refl;
                idle = refl;
              } in
              subst (UdpOutcome os parsed) (sym same) (connected u p q fails s)
        ]
  ]

  pub known_port :
      (a p : ℕ)
      → os.first_socket ≡ some a
      → os.first_port ≡ some p
      → knows_port os ≡ true
      → UdpOutcome os parsed (with_port os parsed a new_udp (some p))
  unfolding with_port
  known_port a p e f k = elim (Bool-cases (p % 2 == 0)) [
    | inl h ↦ rw h (even_port a p e f k (ground arith))
    | inr h ↦ rw h (odd_port a p e f k (ground arith))
  ]
