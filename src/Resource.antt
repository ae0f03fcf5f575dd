-- ===== src/Resource.antt =====
-- src/media/resource.c: seeking, filling, pausing, resuming and closing a resource.
--
-- The demuxer's functions, which call libavformat, are arguments. A pool of one thread is the list of
-- the sessions that were pushed to it. `r_pause` and the fill callback, which run in two threads, are
-- in Locking.
pub mod Control
pub mod Locking
pub mod Stuck
mod Tests
use feng.Base.{
  ℕ, zero, suc, ◌+◌, ◌-◌, ◌%◌, ◌^◌, Bool, true, false, not, Option, none, some, List, [], ◌∷◌, ◌++◌,
  Outcome, ok, crash, running, ◌>>=◌, ◌>>◌, assert, leb, if◌then◌else◌, get_elem?,
}
use feng.Track.{Track, Consumer, Double, track_reset_queue, bq_consumer_unseen}

pub data MediaSource : Type 0 where
  stored_source live_source : MediaSource

-- A session as the pool knows it: the place of its track in the resource, and what it keeps of it.
abbrev pub Pushed : Type 0
Pushed = ℕ × Consumer

-- `struct Resource`: what these functions use.
pub record Resource : Type 0 where
  pub eor : Bool
  pub source : MediaSource
  pub tracks : List Track
  pub count : ℕ  -- gint
  pub fill_pool : Option (List Pushed)
  pub reads : Bool  -- `read_packet` is not NULL

-- What `read_packet` returns.
pub data ReadResult : Type 0 where
  resource_ok resource_eof resource_err : ReadResult

pub record Demuxer : Type 0 where
  pub read_packet : Resource → ReadResult × Resource
  pub seek : Resource → Double → ℕ × Resource

-- `g_list_foreach(resource->tracks, r_track_producer_reset_queue, NULL)`.
unfoldable pub r_track_producer_reset_queue : List Track → Outcome (List Track)
r_track_producer_reset_queue [] = ok []
r_track_producer_reset_queue (t ∷ ts) =
    track_reset_queue t >>= λ t'. r_track_producer_reset_queue ts >>= λ ts'. ok (t' ∷ ts')

-- `r_seek`.
unfoldable pub r_seek : Demuxer → Resource → Double → Outcome (ℕ × Resource)
r_seek demuxer resource time =
    let (res, resource') = demuxer.seek resource time in
    r_track_producer_reset_queue resource'.tracks >>= λ ts.
    ok (res, record resource' { tracks = ts })

abbrev pub is_live_kind : MediaSource → Bool
is_live_kind stored_source = false
is_live_kind live_source = true

abbrev pub is_live : Resource → Bool
is_live r = is_live_kind r.source

abbrev pub has_pool : Option (List Pushed) → Bool
has_pool none = false
has_pool (some _) = true

-- `bq_consumer_unseen` of the session's track.
abbrev pub unseen : Option Track → Consumer → Outcome ℕ
unseen none consumer = crash
unseen (some t) consumer = ok (bq_consumer_unseen t consumer)

-- The switch on what `read_packet` returned: anything but OK ends the resource.
unfoldable pub after_read : ReadResult × Resource → Resource
after_read (resource_ok, r) = r
after_read (_, r) = record r { eor = true }

-- `r_resume`.
unfoldable pub r_resume : Resource → Resource
r_resume r =
    let started : Resource = if r.reads then record r { fill_pool = some [] } else r in
    if is_live r then r else (if has_pool r.fill_pool then r else started)

abbrev push : Pushed → Option (List Pushed) → Option (List Pushed)
push consumer none = none
push consumer (some waiting) = some (waiting ++ consumer ∷ [])

-- `r_fill`.
unfoldable pub r_fill : Resource → Pushed → Resource
r_fill r consumer = if is_live r then r else record r { fill_pool = push consumer r.fill_pool }

-- `r_close`: a live resource stays, with its count one lower; another one is freed.
pub r_close : Option Resource → Option Resource
r_close none = none
r_close (some r) =
    if is_live r then some (record r { count = (r.count + 2 ^ 32 - 1) % 2 ^ 32 }) else none
