-- ===== src/Parser/Amr/Frames.antt =====
-- The frames of AMR speech, and what the loops of src/media/parser_amr.c do with them.
use feng.Base.{
  ℕ, zero, suc, ◌+◌, ◌-◌, ◌/◌, ◌%◌, ◌^◌, ◌≤◌, ◌<◌, ◌≡◌, refl, sym, ap, inl, inr, List, [], ◌∷◌,
  ◌++◌, ok, ltb, lt→ltb, ge→ltb, Bool-cases, if◌then◌else◌, length, take, drop, All, arith,
  length-append, length-take,
}
use feng.Parser.{memcpy-take}
use feng.Parser.Amr.{packet_size, sized, body_len, count_frames, set_f, copy_frames}

-- A frame: its byte in the table of contents, and its body, whose length that byte gives.
abbrev pub Frame : Type 0
Frame = ℕ × List ℕ

abbrev pub IsFrame : Frame → Type 0
IsFrame f = length f.1 ≡ body_len f.0

-- Frames in storage, one behind the other.
abbrev pub stored : List Frame → List ℕ
stored [] = []
stored ((toc, body) ∷ fs) = toc ∷ (body ++ stored fs)

-- What is left is less than a frame.
abbrev pub IsCutOff : List ℕ → Type 0
IsCutOff [] = Unit
IsCutOff (toc ∷ tail) = length tail < body_len toc

-- How many frames fit behind `off` bytes.
abbrev pub fitting : ℕ → List Frame → ℕ
fitting off [] = 0
fitting off ((toc, body) ∷ fs) =
    let rest = suc (fitting (off + 1 + length body) fs) in
    if ltb 1439 (off + 1 + length body) then 0 else rest

-- The tables of contents and the bodies of a packet.
abbrev pub tocs : List Frame → List ℕ
tocs [] = []
tocs ((toc, body) ∷ fs) = set_f (length fs) toc ∷ tocs fs

abbrev pub bodies : List Frame → List ℕ
bodies [] = []
bodies ((toc, body) ∷ fs) = body ++ bodies fs

sized-le : (n : ℕ) (sizes : List ℕ) (ft : ℕ) → All (λ (s : ℕ). s ≤ n) sizes → sized sizes ft ≤ n
sized-le n [] ft h = omega arith
sized-le n (s ∷ sizes) zero (h, t) = h
sized-le n (s ∷ sizes) (suc ft) (h, t) = sized-le n sizes ft t

pub body_len-le : (toc : ℕ) → body_len toc ≤ 31
unfolding body_len
body_len-le toc = sized-le 31 packet_size (toc / 2 ^ 3 % 2 ^ 4) small
  where
    small : All (λ (s : ℕ). s ≤ 31) packet_size
    small = ground arith

pub drop_past : (xs ys zs : List ℕ) → drop (length xs) ((xs ++ ys) ++ zs) ≡ ys ++ zs
drop_past [] ys zs = refl
drop_past (x ∷ xs) ys zs = drop_past xs ys zs

pub take_past : (xs ys zs : List ℕ) → take (length xs) ((xs ++ ys) ++ zs) ≡ xs
take_past [] ys zs = refl
take_past (x ∷ xs) ys zs = ap (λ t. x ∷ t) (take_past xs ys zs)

length-past : (xs ys zs : List ℕ) → length ((xs ++ ys) ++ zs) ≡ length xs + length (ys ++ zs)
length-past [] ys zs = omega arith
length-past (x ∷ xs) ys zs = omega (arith, length-past xs ys zs)

-- The first loop counts the frames that fit.
pub count_frames-fitting :
    (fuel : ℕ) (fs : List Frame) (tail : List ℕ) (len off frames : ℕ)
    → All IsFrame fs
    → IsCutOff tail
    → len ≡ off + length (stored fs ++ tail)
    → length (stored fs ++ tail) < fuel
    → count_frames fuel (stored fs ++ tail) len off frames ≡ ok (frames + fitting off fs)
unfolding count_frames
count_frames-fitting zero fs tail len off frames h c e l = absurd (omega arith)
count_frames-fitting (suc fuel) [] [] len off frames h c e l =
    rw (ge→ltb off len (omega arith)) (ap ok (omega arith))
count_frames-fitting (suc fuel) [] (toc ∷ tail) len off frames h c e l =
    rw (lt→ltb off len (omega arith), lt→ltb len (off + 1 + body_len toc) (omega arith))
      (ap ok (omega arith))
count_frames-fitting (suc fuel) ((toc, body) ∷ fs) tail len off frames (h, hs) c e l =
    let n = length-past body (stored fs) tail in
    rw
      (
        lt→ltb off len (omega (arith, n)),
        sym h,
        ge→ltb len (off + 1 + length body) (omega (arith, n)),
        drop_past body (stored fs) tail,
      )
      (elim (Bool-cases (ltb 1439 (off + 1 + length body))) [
        | inl t ↦ rw t (ap ok (omega arith))
        | inr t ↦
            rw
              (
                t,
                count_frames-fitting fuel fs tail len (off + 1 + length body) (frames + 1) hs c
                    (omega (arith, n)) (omega (arith, n)),
              )
              (ap ok (omega arith))
      ])

-- The second loop takes the first frames apart.
pub copy_frames-stored :
    (k : ℕ) (fs : List Frame) (rest : List ℕ) (len : ℕ)
    → All IsFrame fs
    → k ≤ length fs
    → copy_frames k (stored fs ++ rest) len
      ≡ ok (
        (tocs (take k fs), bodies (take k fs)),
        stored (drop k fs) ++ rest,
        len - length (stored (take k fs)),
      )
unfolding copy_frames
copy_frames-stored zero fs rest len h l =
    ap (λ (m : ℕ). ok (([], []), stored fs ++ rest, m)) (omega arith)
copy_frames-stored (suc k) [] rest len h l = absurd (omega arith)
copy_frames-stored (suc k) ((toc, body) ∷ fs) rest len (h, hs) l =
    let n = length-past body (stored fs) rest in
    let e : length (take k fs) ≡ k = omega (arith, length-take k fs) in
    rw
      (
        sym h,
        memcpy-take (length body) ((body ++ stored fs) ++ rest) (omega (arith, n)),
        take_past body (stored fs) rest,
        drop_past body (stored fs) rest,
        copy_frames-stored k fs rest (len - (1 + length body)) hs (omega arith),
        e,
      )
      (ap
        (λ (m : ℕ). ok (
          (set_f k toc ∷ tocs (take k fs), body ++ bodies (take k fs)),
          stored (drop k fs) ++ rest,
          m,
        ))
        (omega (arith, length-append body (stored (take k fs)))))
