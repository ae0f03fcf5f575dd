-- ===== src/Resource/Locking.antt =====
-- `r_pause` and `r_read_cb` of src/media/resource.c as the two threads that they run in, with the lock
-- of the resource. A step is what a thread does up to the next point at which the other one can see
-- it or be waited for; a thread that has to wait leaves the state as it is.
use feng.Base.{
  ℕ, Bool, true, false, not, ◌||◌, Option, none, some, List, [], ◌∷◌, Outcome, ok, ◌>>=◌, ◌>>◌,
  assert, leb, if◌then◌else◌, get_elem?,
}
use feng.Resource.{Resource, Pushed, Demuxer, is_live, has_pool, unseen, after_read}

pub data Thread : Type 0 where
  pauser filler : Thread

-- What `r_pause` is about to do.
pub data PausePoint : Type 0 where
  pause_enter take_lock take_pool free_pool drop_lock pause_left : PausePoint

-- What `r_read_cb` is about to do: the assertion, the tests of a round, `g_mutex_lock`,
-- `read_packet`, `g_mutex_unlock` with the condition of the loop, and nothing.
pub data FillPoint : Type 0 where
  fill_enter fill_tests fill_lock fill_read fill_unlock fill_left : FillPoint

pub record Threads : Type 0 where
  pub resource : Resource
  pub lock : Option Thread
  pub pausing : PausePoint
  pub filling : FillPoint

abbrev pub is_free : Option Thread → Bool
is_free none = true
is_free (some _) = false

abbrev pub is_left : FillPoint → Bool
is_left fill_left = true
is_left _ = false

-- `r_pause`. `g_thread_pool_free(pool, true, true)` waits for the callback that runs.
unfoldable pub pause_step : PausePoint → Threads → Threads
pause_step pause_enter s =
    if is_live s.resource || not (has_pool s.resource.fill_pool)
    then record s { pausing = pause_left }
    else record s { pausing = take_lock }
pause_step take_lock s =
    if is_free s.lock then record s { lock = some pauser; pausing = take_pool } else s
pause_step take_pool s = record s {
  resource = record (s.resource) { fill_pool = none };
  pausing = free_pool;
}
pause_step free_pool s = if is_left s.filling then record s { pausing = drop_lock } else s
pause_step drop_lock s = record s { lock = none; pausing = pause_left }
pause_step pause_left s = s

-- `r_read_cb`, with `feng_srv.buffered_frames`.
unfoldable pub fill_step : Demuxer → ℕ → Pushed → FillPoint → Threads → Outcome Threads
fill_step demuxer buffered_frames consumer fill_enter s =
    assert (not (is_live s.resource)) >> ok (record s { filling = fill_tests })
fill_step demuxer buffered_frames consumer fill_tests s =
    if not (has_pool s.resource.fill_pool)
    then ok (record s { filling = fill_left })
    else (unseen (get_elem? s.resource.tracks consumer.0) consumer.1 >>= λ n.
        ok (record s { filling = if leb buffered_frames n then fill_left else fill_lock }))
fill_step demuxer buffered_frames consumer fill_lock s =
    ok (if is_free s.lock then record s { lock = some filler; filling = fill_read } else s)
fill_step demuxer buffered_frames consumer fill_read s =
    ok (record s { resource = after_read (demuxer.read_packet s.resource); filling = fill_unlock })
fill_step demuxer buffered_frames consumer fill_unlock s =
    ok (record s { lock = none; filling = if s.resource.eor then fill_left else fill_tests })
fill_step demuxer buffered_frames consumer fill_left s = ok s

-- A schedule says which thread takes the next step.
unfoldable pub run_threads : Demuxer → ℕ → Pushed → List Thread → Threads → Outcome Threads
unfolding pause_step fill_step
run_threads demuxer buffered_frames consumer [] s = ok s
run_threads demuxer buffered_frames consumer (pauser ∷ ts) s =
    run_threads demuxer buffered_frames consumer ts (pause_step s.pausing s)
run_threads demuxer buffered_frames consumer (filler ∷ ts) s =
    fill_step demuxer buffered_frames consumer s.filling s >>= λ s'.
    run_threads demuxer buffered_frames consumer ts s'
