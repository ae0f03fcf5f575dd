-- ===== src/Resource/Stuck.antt =====
-- `r_pause` waits for the fill callback with the lock that the callback takes
-- (src/media/resource.c).
use feng.Base.{none, some}
use feng.Track.{Track}
use feng.Resource.{Resource}
use feng.Resource.Locking.{
  pauser, free_pool, pause_enter, pause_left, fill_enter, fill_lock, fill_left, Threads,
}

-- `r_pause` is called while the callback begins.
abbrev pub both_begin : Resource → Threads
both_begin r = record { resource = r; lock = none; pausing = pause_enter; filling = fill_enter }

-- `r_pause` waits for the callback, and the callback for the lock.
abbrev pub both_wait : Resource → Threads
both_wait r = record {
  resource = record r { fill_pool = none };
  lock = some pauser;
  pausing = free_pool;
  filling = fill_lock;
}

abbrev pub both_left : Resource → Threads
both_left r = record {
  resource = record r { fill_pool = none };
  lock = none;
  pausing = pause_left;
  filling = fill_left;
}
