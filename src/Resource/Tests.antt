-- ===== src/Resource/Tests.antt =====
-- A resource at concrete inputs.
use feng.Base.{true, false, some, [], ◌∷◌}
use feng.Track.{Node, track_new}
use feng.Resource.{Resource, stored_source, Demuxer, resource_eof, Pushed}

-- A demuxer at its end, which seeks anywhere.
abbrev at_end : Demuxer
at_end = record {
  read_packet = λ r. (resource_eof, r);
  seek = λ r time. (0, record r { eor = false });
}

abbrev node : Node
node = record {
  addr = 0;
  elem = record {
    seen = 0;
    timestamp = 0;
    delivery = 0;
    duration = 0;
    marker = true;
    rtp_timestamp = 0;
    seq_no = 5;
    data_size = 1;
    content = 7 ∷ [];
  };
}

abbrev film : Resource
film = record {
  eor = true;
  source = stored_source;
  tracks = record track_new { queue = node ∷ []; stopped = false } ∷ [];
  count = 0;
  fill_pool = some [];
  reads = true;
}

abbrev someone : Pushed
someone =
    (0, record { queue_serial = 7; current_element_pointer = some 0; last_element_serial = 5 })
