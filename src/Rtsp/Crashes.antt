-- ===== src/Rtsp/Crashes.antt =====
-- Requests that crash the server: src/network/rtsp_utils.c, src/network/rtsp_method_setup.c.
use feng.Base.{
  ℕ, ◌-◌, ◌^◌, ◌<◌, ◌≡◌, refl, ◌∙◌, ◌⊎◌, inl, inr, true, Option, none, some, List, ◌∷◌, crash, ◌==◌,
  Bool-cases, gt→leb, ltb, length,
}
use feng.Base.Text.{Text, split_last_slash}
use feng.Interleaved.{ParsedTransport}
use feng.Rtsp.{
  Method, describe, setup, teardown, RtspClient, Request, World, rfc822_request_check_url,
  check_forbidden_path,
}
use feng.Rtsp.Setup.{
  rtsp_setup, rtsp_teardown, setup_with, select_requested_track, select_new, open_path,
  transports_of,
}
use feng.Rtsp.Requests.{
  rtsp_describe, dispatch, rtsp_check_session, rtsp_check_required_options, accept_request,
  with_cseq, rtsp_handle_request,
}
use feng.Rtsp.Served.{cseq_of}

with_cseq-accepts :
    (w : World) (client : RtspClient) (req : Request) (header : Option Text) (n : ℕ)
    → cseq_of w header ≡ some n
    → client.last_cseq < n
    → with_cseq w client req header ≡ accept_request w (record client { last_cseq = n }) req
unfolding with_cseq
with_cseq-accepts w client req none n e h = cc
with_cseq-accepts w client req (some header) n e h =
    elim (Bool-cases ((w.strtoull header).0 == 2 ^ 64 - 1)) [
      | inl t ↦ cc (rw t at e)
      | inr t ↦ elim (Bool-cases (ltb (w.strtoull header).1 (length header))) [
        | inl k ↦ cc (rw (t, k) at e)
        | inr k ↦
            let i : (w.strtoull header).0 ≡ n = some_inj (rw (t, k) at e) in
            rw (t, k, i, gt→leb n client.last_cseq h) refl
      ]
    ]
  where
    some_inj : {a b : ℕ} → some a ≡ some b → a ≡ b
    some_inj e = cc

abbrev pub IsChecked : Method → Type 0
IsChecked m = (m ≡ describe) ⊎ ((m ≡ setup) ⊎ (m ≡ teardown))

dispatch-pathless :
    (w : World) (client : RtspClient) (req : Request) (method : Method)
    → IsChecked method
    → req.uri ≡ some none
    → dispatch w client req method ≡ crash
unfolding dispatch rtsp_describe rtsp_setup rtsp_teardown rfc822_request_check_url
dispatch-pathless w client req method (inl e) u = rw (e, u) refl
dispatch-pathless w client req method (inr (inl e)) u = rw (e, u) refl
dispatch-pathless w client req method (inr (inr e)) u = rw (e, u) refl

same_session :
    (client : RtspClient) (n : ℕ) (header : Option Text)
    → rtsp_check_session (record client { last_cseq = n }) header ≡ rtsp_check_session client header
unfolding rtsp_check_session
same_session client n none = refl
same_session client n (some header) = refl

-- A DESCRIBE, SETUP or TEARDOWN whose URI was parsed but has no path crashes the server in every
-- state, if its number is a new one, and the checks on its session and the required options pass.
pub rtsp_handle_request-pathless :
    (w : World) (client : RtspClient) (req : Request) (n : ℕ)
    → cseq_of w req.cseq ≡ some n
    → client.last_cseq < n
    → rtsp_check_session client req.session ≡ true
    → rtsp_check_required_options req ≡ true
    → IsChecked req.method
    → req.uri ≡ some none
    → rtsp_handle_request w client req ≡ crash
unfolding rtsp_handle_request accept_request
rtsp_handle_request-pathless w client req n e h s r m u =
    with_cseq-accepts w client req req.cseq n e h
    ∙ rw (same_session client n req.session, s, r)
        (dispatch-pathless w (record client { last_cseq = n }) req req.method m u)

-- A SETUP on a client without a session crashes the server if its path passes the check and cannot
-- be unescaped, and its object has a slash and its Transport header a transport.
pub rtsp_setup-crashes :
    (w : World) (client : RtspClient) (req : Request) (path : Text) (t : ParsedTransport)
    (transports : List ParsedTransport) (cut : Text × Text)
    → client.session ≡ none
    → req.uri ≡ some (some path)
    → check_forbidden_path path ≡ true
    → w.g_uri_unescape_string path ≡ none
    → transports_of w req.transport ≡ t ∷ transports
    → split_last_slash req.object ≡ some cut
    → rtsp_setup w client req ≡ crash
unfolding rtsp_setup rfc822_request_check_url setup_with select_requested_track select_new open_path
    feng.Rtsp.rtsp_session_new
rtsp_setup-crashes w client req path t transports cut s u f g r o = rw (u, f, r, s, o, g) refl
