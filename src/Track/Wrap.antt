-- ===== src/Track/Wrap.antt =====
-- The sequence numbers of track.c are `uint16_t`, and a session skips every element whose number is
-- not above the last one that it had.
use feng.Base.{
  ℕ, ◌+◌, ◌^◌, ◌≤◌, ◌<◌, ◌≡◌, refl, ◌∙◌, inl, inr, false, none, List, [], ◌∷◌, arith, ok,
  Bool-cases, ap,
}
use feng.Track.{Node, Track, Consumer, bq_consumer_move_internal}
use feng.Track.State.{IsBelow, later}
use feng.Track.Confirm.{Sound}
use feng.Track.Move.{move_internal-Moved}

later-last : (a s last : ℕ) (q : List Node) → IsBelow a s q → s ≤ last + 1 → later last q ≡ 0
later-last a s last [] b l = refl
later-last a s last (n ∷ q) b l = ground (arith, later-last a s last q b.1 l)

-- A session that had the element with the number 65535 gets no other one, whatever the (sound)
-- queue holds and however many elements are written to it: each move returns false, leaves the
-- session's number at 65535 and its pointer NULL, and keeps the state sound.
pub move_internal-stalls :
    (o : ℕ → ℕ) (tr : Track) (c : Consumer)
    → Sound o tr c
    → tr.next_serial < 2 ^ 16
    → c.last_element_serial ≡ 65535
    → (tr' : Track) × (c' : Consumer) × (bq_consumer_move_internal tr c ≡ ok (tr', c', false))
      × (c'.last_element_serial ≡ 65535)
      × (c'.current_element_pointer ≡ none)
      × Sound o tr' c'
move_internal-stalls o tr c s l e =
    let m = move_internal-Moved o tr c s in
    let none_left : later c.last_element_serial tr.queue ≡ 0 =
      later-last tr.next_addr tr.next_serial c.last_element_serial tr.queue s.below (omega arith) in
    elim (Bool-cases m.more) [
      | inl more ↦ absurd (omega (arith, m.forward more, none_left))
      | inr done ↦ (
        m.track,
        m.consumer,
        m.runs ∙ ap (λ b. ok (m.track, m.consumer, b)) done,
        (m.finished done).1 ∙ e,
        (m.finished done).0,
        m.sound,
      )
    ]
