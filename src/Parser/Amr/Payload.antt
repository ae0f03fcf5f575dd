-- ===== src/Parser/Amr/Payload.antt =====
-- Packets of AMR speech (src/media/parser_amr.c), and how a receiver takes one apart.
use feng.Base.{
  ℕ, zero, suc, ◌==◌, ◌∙◌, ◌/◌, ◌+◌, ◌%◌, ◌^◌, ◌≡◌, refl, sym, ap, List, [], ◌∷◌, ◌++◌, map, leb,
  le→leb, gt→leb, if◌then◌else◌, length, take, drop, All, arith,
}
use feng.Parser.Amr.{sized, packet_size, body_len}
use feng.Parser.Amr.Frames.{Frame, IsFrame, tocs, bodies}

-- A receiver's own sizes: the bytes of speech of each frame type of AMR, and none for the others.
abbrev coded_size : ℕ → ℕ
coded_size ft =
    if ft == 0
    then 12
    else if ft == 1
    then 13
    else if ft == 2
    then 15
    else if ft == 3
    then 17
    else if ft == 4
    then 19
    else if ft == 5
    then 20
    else if ft == 6
    then 26
    else if ft == 7
    then 31
    else if ft == 8
    then 5
    else 0

-- By the four bits of the frame type of a byte of the table of contents.
abbrev heard_size : ℕ → ℕ
heard_size toc = coded_size (toc / 2 ^ 3 % 2 ^ 4)

beyond : (n : ℕ) → sized (0 ∷ 0 ∷ 0 ∷ 0 ∷ 0 ∷ 0 ∷ 0 ∷ []) n ≡ 0
beyond zero = refl
beyond (suc zero) = refl
beyond (suc (suc zero)) = refl
beyond (suc (suc (suc zero))) = refl
beyond (suc (suc (suc (suc zero)))) = refl
beyond (suc (suc (suc (suc (suc zero))))) = refl
beyond (suc (suc (suc (suc (suc (suc zero)))))) = refl
beyond (suc (suc (suc (suc (suc (suc (suc n))))))) = refl

sized-coded_size : (ft : ℕ) → sized packet_size ft ≡ coded_size ft
sized-coded_size zero = refl
sized-coded_size (suc zero) = refl
sized-coded_size (suc (suc zero)) = refl
sized-coded_size (suc (suc (suc zero))) = refl
sized-coded_size (suc (suc (suc (suc zero)))) = refl
sized-coded_size (suc (suc (suc (suc (suc zero))))) = refl
sized-coded_size (suc (suc (suc (suc (suc (suc zero)))))) = refl
sized-coded_size (suc (suc (suc (suc (suc (suc (suc zero))))))) = refl
sized-coded_size (suc (suc (suc (suc (suc (suc (suc (suc zero)))))))) = refl
sized-coded_size (suc (suc (suc (suc (suc (suc (suc (suc (suc n))))))))) = ground (arith, beyond n)

-- A payload of RFC 4867 in the octet-aligned mode: a byte with the codec mode request, the table
-- of contents, the bodies.
abbrev pub payload : List Frame → List ℕ
payload fs = 240 ∷ (tocs fs ++ bodies fs)

-- The table of contents, up to the byte whose bit F is 0, without that bit; and what follows.
abbrev read_tocs : List ℕ → List ℕ × List ℕ
read_tocs [] = ([], [])
read_tocs (toc ∷ xs) =
    let rest = read_tocs xs in
    if leb 128 toc then (toc % 128 ∷ rest.0, rest.1) else (toc % 128 ∷ [], xs)

abbrev read_bodies : List ℕ → List ℕ → List Frame
read_bodies [] xs = []
read_bodies (toc ∷ cs) xs =
    (toc, take (heard_size toc) xs) ∷ read_bodies cs (drop (heard_size toc) xs)

-- The frames that a receiver finds in a payload.
abbrev pub receive : List ℕ → List Frame
receive [] = []
receive (cmr ∷ xs) = read_bodies (read_tocs xs).0 (read_tocs xs).1

-- A frame without its bit F.
abbrev pub heard : Frame → Frame
heard (toc, body) = (toc % 128, body)

low_bits : List Frame → List ℕ
low_bits fs = map (λ f. f.0 % 128) fs

read_tocs-tocs :
    (f : Frame) (fs : List Frame) (xs : List ℕ)
    → read_tocs (tocs (f ∷ fs) ++ xs) ≡ (low_bits (f ∷ fs), xs)
unfolding low_bits
read_tocs-tocs (toc, body) [] xs =
    rw (gt→leb 128 (toc % 2 ^ 7) (omega arith)) (ap (λ (t : ℕ). (t ∷ [], xs)) (omega arith))
read_tocs-tocs (toc, body) (g ∷ fs) xs =
    rw (read_tocs-tocs g fs xs, le→leb 128 (2 ^ 7 + toc % 2 ^ 7) (omega arith))
      (ap (λ (t : ℕ). (t ∷ low_bits (g ∷ fs), xs)) (omega arith))

heard_size-body_len : (toc : ℕ) → heard_size (toc % 128) ≡ body_len toc
unfolding body_len
heard_size-body_len toc =
    ap coded_size {x = toc % 128 / 2 ^ 3 % 2 ^ 4} {y = toc / 2 ^ 3 % 2 ^ 4} (omega arith)
    ∙ sym (sized-coded_size (toc / 2 ^ 3 % 2 ^ 4))

drop_body : (xs ys : List ℕ) → drop (length xs) (xs ++ ys) ≡ ys
drop_body [] ys = refl
drop_body (x ∷ xs) ys = drop_body xs ys

take_body : (xs ys : List ℕ) → take (length xs) (xs ++ ys) ≡ xs
take_body [] ys = refl
take_body (x ∷ xs) ys = ap (λ t. x ∷ t) (take_body xs ys)

read_bodies-bodies :
    (fs : List Frame) → All IsFrame fs → read_bodies (low_bits fs) (bodies fs) ≡ map heard fs
unfolding low_bits
read_bodies-bodies [] h = refl
read_bodies-bodies ((toc, body) ∷ fs) (h, hs) =
    rw
      (
        heard_size-body_len toc,
        sym h,
        take_body body (bodies fs),
        drop_body body (bodies fs),
        read_bodies-bodies fs hs,
      )
      refl

-- A receiver finds the frames of a payload.
pub receive-payload :
    (f : Frame) (fs : List Frame)
    → All IsFrame (f ∷ fs)
    → receive (payload (f ∷ fs)) ≡ map heard (f ∷ fs)
receive-payload f fs h = rw (read_tocs-tocs f fs (bodies (f ∷ fs))) (read_bodies-bodies (f ∷ fs) h)
