-- ===== src/Resource/Control.antt =====
-- What seeking does to the sessions of a resource (src/media/resource.c).
use feng.Base.{
  ℕ, ◌+◌, ◌≡◌, refl, ap, Bool, true, false, List, [], ◌∷◌, ok, All, if◌then◌else◌, not, map, ◌==◌,
}
use feng.Track.{
  Track, Consumer, Double, track_reset_queue, bq_consumer_unseen, bq_producer_reset_queue_internal,
  bq_consumer_stopped, gulong,
}
use feng.Resource.{Resource, Demuxer, r_track_producer_reset_queue, r_seek}

-- A track that was reset: nothing is queued, its numbers go on, and whatever a session keeps of it,
-- nothing is unseen.
abbrev pub IsEmptied : Track → Type 0
IsEmptied t = (t.queue ≡ []) × ((c : Consumer) → bq_consumer_unseen t c ≡ 0)

same_zero : (b c : Bool) → ◌≡◌ {A = ℕ} (if b then 0 else (if c then 0 else 0)) 0
same_zero true c = refl
same_zero false true = refl
same_zero false false = refl

unseen_reset :
    (t : Track) (c : Consumer) → bq_consumer_unseen (bq_producer_reset_queue_internal t) c ≡ 0
unfolding bq_consumer_unseen bq_producer_reset_queue_internal bq_consumer_stopped
unseen_reset t c = same_zero t.stopped (not (c.queue_serial == gulong (t.queue_serial + 1)))

reset-ok :
    (t : Track) → t.stopped ≡ false → track_reset_queue t ≡ ok (bq_producer_reset_queue_internal t)
unfolding track_reset_queue
reset-ok t h = rw h

reset_each :
    (ts : List Track)
    → All (λ (t : Track). t.stopped ≡ false) ts
    → (us : List Track) × (r_track_producer_reset_queue ts ≡ ok us)
      × (us ≡ map bq_producer_reset_queue_internal ts)
      × All IsEmptied us
unfolding r_track_producer_reset_queue bq_producer_reset_queue_internal
reset_each [] a = ([], refl, refl, tt)
reset_each (t ∷ ts) (h, a) =
    let (us, r, e, p) = reset_each ts a in
    (
      bq_producer_reset_queue_internal t ∷ us,
      rw (reset-ok t h, r),
      ap (λ vs. bq_producer_reset_queue_internal t ∷ vs) e,
      ((refl, unseen_reset t), p),
    )

-- `r_seek`, where no track is stopped after the demuxer's own seek, returns the demuxer's result;
-- it changes nothing but the queues that the demuxer left, each of which is a new one; and for
-- every session, whatever it keeps of a track, nothing is unseen there.
pub r_seek_lem :
    (demuxer : Demuxer) (r : Resource) (time : Double)
    → All (λ (t : Track). t.stopped ≡ false) (demuxer.seek r time).1.tracks
    → (us : List Track) × (r_seek demuxer r time
        ≡ ok ((demuxer.seek r time).0, record ((demuxer.seek r time).1) { tracks = us }))
      × (us ≡ map bq_producer_reset_queue_internal (demuxer.seek r time).1.tracks)
      × All IsEmptied us
unfolding r_seek
r_seek_lem demuxer r time a =
    let (us, e, m, p) = reset_each (demuxer.seek r time).1.tracks a in (us, rw e, m, p)
