-- ===== src/Lowlevel/Sockets.antt =====
-- All ends of `rtp_udp_transport` (src/network/rtsp_lowlevel.c).
use mathlib.Core.Path.{subst}
use feng.Base.{
  ◌≡◌, refl, sym, ◌∙◌, inl, inr, false, some, List, [], ◌∷◌, ◌++◌, Bool-cases, Option-cases,
}
use feng.Base.Int.{ℤ, pos}
use feng.Interleaved.{ParsedTransport}
use feng.Lowlevel.Udp.{SystemCalls, new_udp, udp_error, with_port, with_socket, rtp_udp_transport}
use feng.Lowlevel.Ports.{knows_port, opened_sockets, Fails, UdpOutcome, known_port, failed_by}

module _ (os : SystemCalls) (parsed : ParsedTransport) where
  -- The calls before the port is known.
  unknown-Fails :
      (closed : List ℤ)
      → knows_port os ≡ false
      → closed ≡ opened_sockets os.first_socket ++ pos 0 ∷ pos 0 ∷ []
      → Fails os closed
  unknown-Fails closed k h = record { clean = λ z. absurd (cc (sym k ∙ z)); unclean = λ _. h }

-- `rtp_udp_transport` of a new session either serves it or fails. Served, its two sockets are those
-- that were opened; each is bound to the port that the client is told for it, the one with the even
-- port of the two that were tried together being for RTP; they are connected to the client's
-- ports, and the watcher for RTCP is initialised with the socket for RTCP, though nothing starts it,
-- so that RTCP is not read. Failing, it closes the sockets that it opened,
-- each once; but if the first socket could not be opened, bound or asked for its port, it also
-- closes descriptor 0 two times, which it never opened.
pub rtp_udp_transport-UdpOutcome :
    (os : SystemCalls) (parsed : ParsedTransport)
    → UdpOutcome os parsed (rtp_udp_transport os parsed new_udp)
unfolding rtp_udp_transport with_socket with_port udp_error
rtp_udp_transport-UdpOutcome os parsed = elim (Option-cases os.first_socket) [
  | inl e ↦
      failed_by os parsed (pos 0 ∷ pos 0 ∷ [])
        (unknown-Fails os parsed (pos 0 ∷ pos 0 ∷ []) (rw e refl) (rw e refl)) (rw e refl)
  | inr (a, e) ↦
      let closed = pos a ∷ pos 0 ∷ pos 0 ∷ [] in
      elim (Bool-cases os.bind_first) [
        | inr f ↦
            failed_by os parsed closed (unknown-Fails os parsed closed (rw (e, f) refl) (rw e refl))
              (rw (e, f) refl)
        | inl f ↦ elim (Option-cases os.first_port) [
          | inl g ↦
              failed_by os parsed closed
                (unknown-Fails os parsed closed (rw (e, f, g) refl) (rw e refl)) (rw (e, f, g) refl)
          | inr (p, g) ↦
              let same : rtp_udp_transport os parsed new_udp
                  ≡ with_port os parsed a new_udp (some p) =
                rw (e, f, g) refl in
              subst (UdpOutcome os parsed) (sym same)
                (known_port os parsed a p e g (rw (e, f, g) refl))
        ]
      ]
]
