-- ===== src/Parser/Mpeg12/Sent.antt =====
-- The packets that `mpv_parse` (src/media/parser_mpeg12.c) sends.
use feng.Base.{
  ℕ, zero, suc, ◌+◌, ◌-◌, ◌≤◌, ◌<◌, ◌≡◌, refl, sym, ap, ◌∙◌, ◌⊎◌, inl, inr, Bool, true, false, List,
  [], ◌∷◌, ◌++◌, Outcome, ok, ltb, leb, ltb→lt, ltb→ge, leb→gt, leb→le, ◌==◌, Bool-cases, length,
  take, drop, All, arith, concat_map, length-append, length-take, length-drop,
}
use feng.Track.{MParserBuffer, Track, enqueue}
use feng.Parser.{memcpy-take, new_buffer, enqueue_all, success}
use feng.Parser.Fragment.{IsPacket, IsPacket-enqueue, write-ok, stopped-enqueue}
use feng.Parser.Mpeg12.{Picture, choose_payload, mpv_header, mpv_loop, no_picture, mpv_parse}
use feng.Parser.Mpeg12.StartCode.{IsBytes}
use feng.Parser.Mpeg12.Slices.{read_headers-ok, pick_slices-fits}

take_nil : (n : ℕ) → take {A = ℕ} n [] ≡ []
take_nil zero = refl
take_nil (suc n) = refl

drop_nil : (n : ℕ) → drop {A = ℕ} n [] ≡ []
drop_nil zero = refl
drop_nil (suc n) = refl

take_split : (a b c : ℕ) (xs : List ℕ) → c ≡ a + b → take c xs ≡ take a xs ++ take b (drop a xs)
take_split zero b c xs e = ap (λ (n : ℕ). take n xs) (omega arith)
take_split (suc a) b zero xs e = absurd (omega arith)
take_split (suc a) b (suc c) [] e = sym (take_nil b)
take_split (suc a) b (suc c) (x ∷ xs) e = ap (λ t. x ∷ t) (take_split a b c xs (omega arith))

drop-drop : (a b c : ℕ) (xs : List ℕ) → c ≡ a + b → drop b (drop a xs) ≡ drop c xs
drop-drop zero b c xs e = ap (λ (n : ℕ). drop n xs) (omega arith)
drop-drop (suc a) b zero xs e = absurd (omega arith)
drop-drop (suc a) b (suc c) [] e = drop_nil b
drop-drop (suc a) b (suc c) (x ∷ xs) e = drop-drop a b c xs (omega arith)

choose_payload-fits :
    (mem : List ℕ) (start end rem : ℕ) (b : Bool)
    → IsBytes mem
    → end ≤ length mem
    → start + rem ≡ end
    → (c : ℕ × Bool) × (choose_payload mem start end rem b ≡ ok c) × (c.0 ≤ 1436) × (c.0 ≤ rem)
unfolding choose_payload
choose_payload-fits mem start end rem b h l e = elim (Bool-cases (leb rem 1436)) [
  | inl t ↦ rw t ((rem, true), refl, leb→le rem 1436 t, omega arith)
  | inr t ↦
      let (c, r, m) =
        pick_slices-fits (end + 1) mem start start end b h l (omega arith) (omega arith)
          (omega arith) in
      rw t (c, r, m, omega (arith, m, leb→gt rem 1436 t))
]

-- The loop over the slices gives up: its payload for a packet from `start` on is 0.
abbrev pub GivesUp : List ℕ → ℕ → ℕ → ℕ → Type 0
GivesUp mem start end rem =
    (0 < rem) × ((b : Bool) × (e : Bool) × (choose_payload mem start end rem b ≡ ok (0, e)))

GivesUp-same :
    (mem : List ℕ) (start start' end rem rem' : ℕ)
    → start' ≡ start
    → rem' ≡ rem
    → GivesUp mem start end rem
    → GivesUp mem start' end rem'
GivesUp-same mem start start' end rem rem' e k u = rw (e, k) u

same_payload : {m n : ℕ} {b c : Bool} → ◌≡◌ {A = Outcome (ℕ × Bool)} (ok (m, b)) (ok (n, c)) → m ≡ n
same_payload e = cc

-- It does so only where the rest does not fit a packet.
GivesUp-far : (mem : List ℕ) (start end rem : ℕ) → GivesUp mem start end rem → 1436 < rem
unfolding choose_payload
GivesUp-far mem start end rem (p, (b, e, c)) = elim (Bool-cases (leb rem 1436)) [
  | inl t ↦ absurd (omega (arith, p, same_payload (rw t at c)))
  | inr t ↦ leb→gt rem 1436 t
]

-- Packets with the first `n` bytes from `start` on.
pub record Prefix (tr : Track) (mem : List ℕ) (start end rem : ℕ) (m : Outcome Track) : Type 0 where
  pub packets : List MParserBuffer
  pub sent : ℕ
  pub runs : m ≡ ok (enqueue_all tr packets)
  pub payload :
      concat_map (λ (b : MParserBuffer). drop 4 b.content) packets ≡ take sent (drop start mem)
  pub part : sent ≤ rem
  pub rest : (sent ≡ rem) ⊎ GivesUp mem (start + sent) end (rem - sent)
  pub sizes : All (IsPacket 4 1436 tr) packets

nothing_sent :
    {tr : Track} {mem : List ℕ} {start end rem : ℕ} {m : Outcome Track}
    → m ≡ ok tr
    → (0 ≡ rem) ⊎ GivesUp mem (start + 0) end (rem - 0)
    → Prefix tr mem start end rem m
nothing_sent e g = record {
  packets = [];
  sent = 0;
  runs = e;
  payload = refl;
  part = omega arith;
  rest = g;
  sizes = tt;
}

content-IsPacket :
    (tr : Track) (marker : Bool) (header content : List ℕ)
    → length header ≡ 4
    → length content ≤ 1436
    → IsPacket 4 1436 tr (new_buffer tr marker (header ++ content))
content-IsPacket tr marker header content e l = record {
  size = refl;
  has_header = omega (arith, length-append header content);
  fits = omega (arith, length-append header content);
  timestamp = refl;
  delivery = refl;
  duration = refl;
  uncounted = refl;
  unnumbered = refl;
}

mpv_loop-Prefix :
    (fuel : ℕ) (tr : Track) (mem : List ℕ) (start end rem : ℕ) (b : Bool) (pic : Picture)
    → tr.stopped ≡ false
    → IsBytes mem
    → end ≤ length mem
    → start + rem ≡ end
    → rem < fuel
    → Prefix tr mem start end rem (mpv_loop fuel tr mem start end rem b pic)
unfolding mpv_loop enqueue
mpv_loop-Prefix zero tr mem start end rem b pic g h l e k = absurd (omega arith)
mpv_loop-Prefix (suc fuel) tr mem start end rem b pic g h l e k =
    let (c, r, m, m') = choose_payload-fits mem start end rem b h l e in
    elim (Bool-cases (ltb 0 rem)) [
      | inr t ↦ nothing_sent (rw t refl) (inl (omega (arith, ltb→ge 0 rem t)))
      | inl t ↦ elim (Bool-cases (ltb 0 c.0)) [
        | inr y ↦ nothing_sent (rw (t, r, y) refl) (inr (gave_up y r (ltb→lt 0 rem t)))
        | inl y ↦
            let content = take c.0 (drop start mem) in
            let buffer = new_buffer tr (c.0 == rem) (mpv_header pic b c.1 ++ content) in
            let p =
              mpv_loop-Prefix fuel (enqueue tr buffer) mem (start + c.0) end (rem - c.0) c.1
                (record pic { begin_of_sequence = 0 }) (stopped-enqueue tr buffer ∙ g) h l
                (omega (arith, m')) (omega (arith, m', ltb→lt 0 c.0 y)) in
            let n : length content ≡ c.0 =
              omega (arith, length-take c.0 (drop start mem), length-drop start mem, m') in
            record {
              packets = buffer ∷ p.packets;
              sent = c.0 + p.sent;
              runs =
                  rw
                    (
                      t,
                      r,
                      y,
                      memcpy-take c.0 (drop start mem) (omega (arith, length-drop start mem, m')),
                      write-ok tr buffer g,
                    )
                    p.runs;
              payload =
                  ap (λ (xs : List ℕ). content ++ xs)
                    (p.payload
                      ∙ ap (λ (xs : List ℕ). take p.sent xs)
                          (sym (drop-drop start c.0 (start + c.0) mem refl)))
                  ∙ sym (take_split c.0 p.sent (c.0 + p.sent) (drop start mem) refl);
              part = omega (arith, p.part, m');
              rest = elim p.rest [
                | inl z ↦ inl (omega (arith, z, m'))
                | inr u ↦ inr (GivesUp-same mem _ _ end _ _ (omega arith) (omega (arith, m')) u)
              ];
              sizes = (
                content-IsPacket tr (c.0 == rem) (mpv_header pic b c.1) content refl
                    (omega (arith, n, m)),
                IsPacket-enqueue 4 1436 tr buffer p.packets p.sizes,
              );
            }
      ]
    ]
  where
    gave_up :
        {c : ℕ × Bool}
        → ltb 0 c.0 ≡ false
        → choose_payload mem start end rem b ≡ ok c
        → 0 < rem
        → GivesUp mem (start + 0) end (rem - 0)
    gave_up {c} y r p =
        let z : c.0 ≡ 0 = omega (arith, ltb→ge 0 c.0 y) in
        GivesUp-same mem start (start + 0) end rem (rem - 0) (omega arith) (omega arith)
          (p, (b, c.1, r ∙ ap (λ (k : ℕ). ok (k, c.1)) z))

-- `mpv_parse` of bytes that at least five more bytes lie behind always returns 0, on a track that is
-- not stopped: no loop runs on, and nothing outside of the memory is read. It puts packets behind
-- the queue, each of a header of 4 bytes and at most 1436 more; without their headers they are the
-- first bytes of the data, in order: all of them, or those up to a place where more than 1436 bytes
-- are left and the loop over the slices has a payload of 0 for the next packet.
pub mpv_parse_lem :
    (tr : Track) (mem : List ℕ) (len : ℕ)
    → tr.stopped ≡ false
    → IsBytes mem
    → len + 5 ≤ length mem
    → (bs : List MParserBuffer) × (n : ℕ) × (mpv_parse tr mem len ≡ ok (success, enqueue_all tr bs))
      × (concat_map (λ (b : MParserBuffer). drop 4 b.content) bs ≡ take n mem)
      × ((n ≡ len) ⊎ ((n < len) × GivesUp mem n len (len - n)))
      × (len ≤ 1436 → n ≡ len)
      × All (IsPacket 4 1436 tr) bs
unfolding mpv_parse
mpv_parse_lem tr mem len g h l =
    let (pic, e) = read_headers-ok (len + 1) mem 0 len no_picture h l (omega arith) (omega arith) in
    let p =
      mpv_loop-Prefix (len + 1) tr mem 0 len len true pic g h (omega arith) (omega arith)
        (omega arith) in
    (p.packets, p.sent, rw (e, p.runs) refl, p.payload, whole p.rest, short p.rest, p.sizes)
  where
    whole :
        {n : ℕ}
        → (n ≡ len) ⊎ GivesUp mem (0 + n) len (len - n)
        → (n ≡ len) ⊎ ((n < len) × GivesUp mem n len (len - n))
    whole (inl e) = inl e
    whole {n} (inr u) = inr (
      omega (arith, u.0),
      GivesUp-same mem (0 + n) n len (len - n) (len - n) (omega arith) refl u,
    )

    short : {n : ℕ} → (n ≡ len) ⊎ GivesUp mem (0 + n) len (len - n) → len ≤ 1436 → n ≡ len
    short (inl e) s = e
    short {n} (inr u) s = absurd (omega (arith, GivesUp-far mem (0 + n) len (len - n) u))
