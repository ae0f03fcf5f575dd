-- ===== src/Interleaved/Framing.antt =====
-- What `rtp_interleaved_send_pkt` frames is what `RTSP_handle_interleaved` takes apart
-- (src/network/rtsp_interleaved.c, src/network/rtsp_state_machine.c), and the channels of a session.
use feng.Base.{
  ℕ, suc, ◌+◌, ◌/◌, ◌%◌, ◌^◌, ◌<◌, ◌≡◌, ◌≢◌, refl, ap, ◌∙◌, Bool, true, false, Option, none, some,
  List, [], ◌∷◌, ◌++◌, ◌||◌, Outcome, ok, crash, running, ◌>>=◌, leb, length, drop, arith, lt→ltb,
  ge→ltb, eq→==, ne→==, leb→gt, length-append, Bool-cases, ◌⊎◌, inl, inr,
}
use feng.Base.Bytes.{be16, of_be16}
use feng.Interleaved.{
  Client, begin, ParsedTransport, choose, lookup, rtsp_interleaved_register, receive_for,
  rtsp_interleaved_receive, rtp_interleaved_send_pkt, rtp_interleaved_transport,
  rtsp_handle_interleaved, consume, read_frame,
}
use feng.Rtcp.{Log, rtcp_handle}

drop_append : (xs ys : List ℕ) → drop (length xs) (xs ++ ys) ≡ ys
drop_append [] ys = refl
drop_append (x ∷ xs) ys = drop_append xs ys

length_field : (n : ℕ) → n < 2 ^ 16 → of_be16 (n % 2 ^ 16 / 2 ^ 8 % 2 ^ 8) (n % 2 ^ 16 % 2 ^ 8) ≡ n
length_field n h = omega arith

drop_frame :
    (a b c d : ℕ) (m more : List ℕ) → drop (length m + 4) (a ∷ b ∷ c ∷ d ∷ m ++ more) ≡ more
drop_frame a b c d m more =
    ap (λ k. drop k (a ∷ b ∷ c ∷ d ∷ m ++ more)) {y = suc (suc (suc (suc (length m))))}
      (omega arith)
    ∙ drop_append m more

abbrev tag : ℕ → Log → Outcome (Option (ℕ × Log))
tag session l = ok (some (session, l))

abbrev framed_answer : Client → Option (ℕ × Log) → Outcome (Bool × Client × Option (ℕ × Log))
framed_answer rtsp r = ok (true, rtsp, r)

rest_of_read :
    (m : Outcome Log) (session : ℕ) (before after : Client)
    → before ≡ after
    → ((m >>= tag session) >>= framed_answer before)
      ≡ (m >>= λ l. framed_answer after (some (session, l)))
rest_of_read (ok l) session before after e = ap (λ c. framed_answer c (some (session, l))) e
rest_of_read crash session before after e = refl
rest_of_read running session before after e = refl

-- A packet of fewer than 65536 bytes that `rtp_interleaved_send_pkt` wrote for a channel below 256,
-- with anything behind it, is taken apart by `RTSP_handle_interleaved`: `rtcp_handle` of the session
-- of that channel gets the packet, exactly the bytes behind it stay in the input, and the reader
-- begins anew.
pub handle_interleaved-send :
    (rtsp : Client) (channel session : ℕ) (buffer more : List ℕ)
    → channel < 2 ^ 8
    → length buffer < 2 ^ 16
    → lookup rtsp.channels channel ≡ some session
    → rtsp_handle_interleaved
        (record rtsp { input = rtp_interleaved_send_pkt buffer channel ++ more })
      ≡ (rtcp_handle (buffer ++ more) (length buffer) >>= λ l.
          ok (true, record rtsp { input = more; status = begin }, some (session, l)))
unfolding rtsp_handle_interleaved rtp_interleaved_send_pkt rtsp_interleaved_receive read_frame
    consume receive_for
handle_interleaved-send rtsp channel session buffer more c l k =
    let mod_channel : channel % 2 ^ 8 ≡ channel = omega arith in
    rw
      (
        length_field (length buffer) l,
        ge→ltb (suc (suc (suc (suc (length (buffer ++ more)))))) (length buffer + 4)
            (omega (arith, length-append buffer more)),
        mod_channel,
        k,
      )
      (rest_of_read (rtcp_handle (buffer ++ more) (length buffer)) session
        (record rtsp {
          input =
              drop (length buffer + 4)
                (36 ∷ channel ∷ (be16 (length buffer % 2 ^ 16) ++ buffer ++ more));
          status = begin;
        })
        (record rtsp { input = more; status = begin })
        (ap (λ (i : List ℕ). record rtsp { input = i; status = begin })
          (drop_frame 36 channel (length buffer % 2 ^ 16 / 2 ^ 8 % 2 ^ 8)
            (length buffer % 2 ^ 16 % 2 ^ 8) buffer more)))

-- While less than a whole packet is in the input, after its `$`, `RTSP_handle_interleaved` returns
-- FALSE and changes nothing; it loses no byte and calls no session.
pub handle_interleaved-waits :
    (rtsp : Client) (channel a b : ℕ) (mem : List ℕ)
    → rtsp.input ≡ 36 ∷ channel ∷ a ∷ b ∷ mem
    → length mem < of_be16 a b
    → rtsp_handle_interleaved rtsp ≡ ok (false, rtsp, none)
unfolding rtsp_handle_interleaved read_frame
handle_interleaved-waits rtsp channel a b mem e l =
    rw (e, lt→ltb (suc (suc (suc (suc (length mem))))) (of_be16 a b + 4) (omega arith))

lookup-same : (ks : List (ℕ × ℕ)) (k session : ℕ) → lookup ((k, session) ∷ ks) k ≡ some session
unfolding lookup
lookup-same ks k session = rw (eq→== k k refl)

lookup-other :
    (ks : List (ℕ × ℕ)) (k session other : ℕ)
    → k ≢ other
    → lookup ((k, session) ∷ ks) other ≡ lookup ks other
unfolding lookup
lookup-other ks k session other h = rw (ne→== k other h)

or_left : (x y : Bool) → (x || y) ≡ false → x ≡ false
or_left true y h = h
or_left false y h = refl

or_right : (x y : Bool) → (x || y) ≡ false → y ≡ false
or_right true true h = h
or_right true false h = refl
or_right false y h = h

-- What a session that `rtp_interleaved_transport` accepts has.
abbrev pub Accepted : Client → ℕ → ParsedTransport → Type 0
Accepted rtsp session parsed =
    (rtsp' : Client) × (a : ℕ) × (b : ℕ) × (rtp_interleaved_transport rtsp session parsed
      ≡ (rtsp', some (a, b)))
    × (a < 2 ^ 8)
    × (b < 2 ^ 8)
    × (lookup rtsp'.channels b ≡ some session)
    × ((other : ℕ) → b ≢ other → lookup rtsp'.channels other ≡ lookup rtsp.channels other)

abbrev pub Refused : Client → ℕ → ParsedTransport → Type 0
Refused rtsp session parsed =
    (rtsp' : Client) × (rtp_interleaved_transport rtsp session parsed ≡ (rtsp', none))
    × (rtsp'.channels ≡ rtsp.channels)

-- `rtp_interleaved_transport` either accepts a session, and then both channels fit the byte of the
-- preamble, what is received on the RTCP channel is the session's, and the other channels have the
-- sessions that they had; or it refuses it and leaves the table alone.
pub rtp_interleaved_transport_lem :
    (rtsp : Client) (session : ℕ) (parsed : ParsedTransport)
    → Accepted rtsp session parsed ⊎ Refused rtsp session parsed
unfolding rtp_interleaved_transport rtsp_interleaved_register
rtp_interleaved_transport_lem rtsp session parsed =
    let a = choose parsed.rtp_channel rtsp.first_free_channel in
    let b = choose parsed.rtcp_channel a.1 in
    let rtsp' : Client = record rtsp { first_free_channel = b.1 } in
    elim (Bool-cases (leb 256 a.0 || leb 256 b.0)) [
      | inl h ↦ inr (rtsp', rw h, refl)
      | inr h ↦ inl (
        rtsp_interleaved_register rtsp' session a.0 b.0,
        a.0,
        b.0,
        rw h,
        leb→gt 256 a.0 (or_left (leb 256 a.0) (leb 256 b.0) h),
        leb→gt 256 b.0 (or_right (leb 256 a.0) (leb 256 b.0) h),
        lookup-same rtsp.channels b.0 session,
        λ other. lookup-other rtsp.channels b.0 session other,
      )
    ]
