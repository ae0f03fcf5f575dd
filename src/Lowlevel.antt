-- ===== src/Lowlevel.antt =====
-- src/network/rtsp_lowlevel.c: what is written to a client's TCP connection.
--
-- What `send` answers is an argument of each write, `none` for -1. The kernel's side is the list of
-- the bytes that it took. A packet that is popped is freed, or leaked where the call returns early;
-- no later call finds it in either case.
pub mod Written
pub mod Udp
pub mod Ports
pub mod Sockets
mod Tests
use feng.Base.{
  ℕ, zero, suc, ◌+◌, ◌-◌, ◌%◌, ◌^◌, Bool, true, false, not, Option, none, some, List, [], ◌∷◌, ◌++◌,
  ltb, if◌then◌else◌, take, length,
}

-- What the output path of an `RTSP_Client` keeps. The head of `out_queue` is the last packet in.
pub record Output : Type 0 where
  pub out_queue : List (List ℕ)
  pub watching : Bool  -- `ev_io_write` is started
  pub stream : List ℕ  -- what the kernel took
  pub accounted : ℕ  -- what `stats_account_sent` was told, in all, less multiples of 2^64

-- `rtsp_write_data_queue`.
unfoldable pub rtsp_write_data_queue : Output → List ℕ → Output
rtsp_write_data_queue o packet = record o { out_queue = packet ∷ o.out_queue; watching = true }

-- `g_queue_pop_tail`.
unfoldable pub pop_tail : List (List ℕ) → Option (List (List ℕ) × List ℕ)
pop_tail [] = none
pop_tail (p ∷ []) = some ([], p)
pop_tail (p ∷ q ∷ ps) = elim (pop_tail (q ∷ ps)) [ none ↦ none | some r ↦ some (p ∷ r.0, r.1) ]

-- How much `send` took of a packet, and the `size_t` that its answer becomes.
abbrev pub taken_of : Option ℕ → ℕ
taken_of none = 0
taken_of (some n) = n

abbrev pub written_of : Option ℕ → ℕ
written_of none = 2 ^ 64 - 1
written_of (some n) = n

unfoldable pub write_packet : Output → Option ℕ → Option (List (List ℕ) × List ℕ) → Output
write_packet o answer none = record o { watching = false }
write_packet o answer (some (rest, packet)) = record o {
  out_queue = rest;
  stream = o.stream ++ take (taken_of answer) packet;
  accounted =
      if ltb (written_of answer) (length packet)
      then o.accounted
      else (o.accounted + written_of answer) % 2 ^ 64;
}

-- `rtsp_tcp_write_cb`.
unfoldable pub rtsp_tcp_write_cb : Output → Option ℕ → Output
unfolding write_packet pop_tail
rtsp_tcp_write_cb o answer = write_packet o answer (pop_tail o.out_queue)
