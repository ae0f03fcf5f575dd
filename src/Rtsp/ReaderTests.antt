-- ===== src/Rtsp/ReaderTests.antt =====
-- Runs of the reader on concrete input.
use feng.Base.{◌≡◌, refl, true, false, Option, none, some, [], ◌∷◌, ok, crash, if◌then◌else◌, arith}
use feng.Rtsp.{Method}
use feng.Interleaved.{begin, rtsp_headers}
use feng.Rtsp.{options, respond, not_implemented}
use feng.Rtsp.Reader.{
  line, rtsp10, Wire, Connection, Step, new_request, with_status, rtsp_handler, rtsp_tcp_read_cb,
}
use feng.Rtsp.Reader.{short_line}
use feng.Base.{length, ltb}
use feng.Rtsp.Reading.{behind, rtsp_handler-request, rtsp_tcp_read_cb-unknown_method}
use feng.Base.{◌>>=◌, ◌++◌}
use feng.Rtsp.Requests.{rtsp_handle_request}
use feng.Rtsp.Sctp.{rtsp_process_complete, rtsp_process_complete_lem}
use feng.Rtsp.Tests.{world, path, newcomer}

abbrev wire : Option Method → Wire
wire method = record {
  ragel_parse_request_line =
      λ text. if ltb (length text) 3 then short_line else line 3 rtsp10 method path;
  ragel_read_rtsp_headers = λ req text.
      if ltb (length text) 2
      then some (false, req, 0)
      else some (true, record req { cseq = some (49 ∷ []) }, 2);
  uri_parse = λ text. some (some text);
  content_length = λ req. false;
  connection_count = 1;
  max_connections = 2;
  twin = false;
}

abbrev connected : Connection
connected = record {
  stream = record {
    channels = [];
    first_free_channel = 0;
    input = 79 ∷ 13 ∷ 10 ∷ 13 ∷ 10 ∷ [];
    status = begin;
  };
  pending_request = none;
  rtsp = newcomer;
}

-- The HTTP states are not met.
abbrev no_http : Connection → Step
no_http c = ok (false, c, [])

rtsp_handler-request_example : rtsp_handler 4 world (wire (some options)) no_http connected ≡ (
    rtsp_handle_request world newcomer
      (record (new_request options path) { cseq = some (49 ∷ []); uri = some (some path) })
    >>= λ r. rtsp_handler 1 world (wire (some options)) no_http (behind connected 3 2 r.0) >>= λ q.
        ok (q.0, r.1 ++ q.1))
rtsp_handler-request_example =
    rtsp_handler-request 1 world (wire (some options)) no_http connected 79 (13 ∷ 10 ∷ 13 ∷ 10 ∷ [])
      3 2 options path (record (new_request options path) { cseq = some (49 ∷ []) }) refl refl refl
      refl refl refl refl

rtsp_process_complete_example :
    rtsp_process_complete world (wire (some options)) connected
    ≡ (rtsp_handler 4 world (wire (some options)) no_http connected >>= λ q. ok (true, q.0, q.1))
rtsp_process_complete_example =
    rtsp_process_complete_lem world (wire (some options)) no_http connected 79
      (13 ∷ 10 ∷ 13 ∷ 10 ∷ []) 3 2 options path
      (record (new_request options path) { cseq = some (49 ∷ []) }) refl refl refl refl refl refl
      refl refl

rtsp_tcp_read_cb-unknown_method_example :
    (rtsp_handler 1 world (wire none) no_http connected
      ≡ ok (with_status connected rtsp_headers, respond not_implemented ∷ []))
    × (rtsp_tcp_read_cb 1 world (wire none) no_http (with_status connected rtsp_headers) (13 ∷ [])
        ≡ crash)
rtsp_tcp_read_cb-unknown_method_example =
    rtsp_tcp_read_cb-unknown_method 0 world (wire none) no_http connected 79
      (13 ∷ 10 ∷ 13 ∷ 10 ∷ []) 3 path 13 [] refl refl refl refl refl (omega arith)
