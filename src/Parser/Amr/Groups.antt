-- ===== src/Parser/Amr/Groups.antt =====
-- How the frames of AMR speech fall into packets (src/media/parser_amr.c).
use feng.Base.{
  ℕ, zero, suc, ◌+◌, ◌≤◌, ◌≡◌, refl, ap, inl, inr, List, [], ◌∷◌, ◌++◌, map, ltb, ltb→ge, ge→ltb,
  Bool-cases, length, take, drop, All, arith, length-append,
}
use feng.Parser.Amr.Frames.{Frame, IsFrame, stored, fitting, tocs, bodies, body_len-le}
use feng.Parser.Amr.Payload.{payload, heard}

pub length-tocs : (g : List Frame) → length (tocs g) ≡ length g
length-tocs [] = refl
length-tocs ((toc, body) ∷ g) = ap suc (length-tocs g)

pub length-stored : (g : List Frame) → length (stored g) ≡ length g + length (bodies g)
length-stored [] = refl
length-stored ((toc, body) ∷ g) =
    omega (arith, length-stored g, length-append body (stored g), length-append body (bodies g))

pub length-payload : (g : List Frame) → length (payload g) ≡ suc (length (stored g))
length-payload g = omega (arith, length-append (tocs g) (bodies g), length-tocs g, length-stored g)

pub fitting-le : (off : ℕ) (fs : List Frame) → fitting off fs ≤ length fs
fitting-le off [] = omega arith
fitting-le off ((toc, body) ∷ fs) = elim (Bool-cases (ltb 1439 (off + 1 + length body))) [
  | inl e ↦ rw e (omega arith)
  | inr e ↦ rw e (omega (arith, fitting-le (off + 1 + length body) fs))
]

pub fitting-fits :
    (off : ℕ) (fs : List Frame)
    → off ≤ 1439
    → off + length (stored (take (fitting off fs) fs)) ≤ 1439
fitting-fits off [] h = omega arith
fitting-fits off ((toc, body) ∷ fs) h = elim (Bool-cases (ltb 1439 (off + 1 + length body))) [
  | inl e ↦ rw e (omega arith)
  | inr e ↦
      let l = ltb→ge 1439 (off + 1 + length body) e in
      let k = fitting (off + 1 + length body) fs in
      rw e (
        omega (
          arith,
          fitting-fits (off + 1 + length body) fs l,
          length-append body (stored (take k fs)),
        ))
]

pub fitting-suc :
    (f : Frame) (fs : List Frame)
    → IsFrame f
    → fitting 0 (f ∷ fs) ≡ suc (fitting (0 + 1 + length f.1) fs)
fitting-suc (toc, body) fs h =
    rw (ge→ltb 1439 (0 + 1 + length body) (omega (arith, h, body_len-le toc))) refl

pub length-split :
    (k : ℕ) (fs : List Frame) (tail : List ℕ)
    → length (stored fs ++ tail) ≡ length (stored (take k fs)) + length (stored (drop k fs) ++ tail)
length-split zero fs tail = omega arith
length-split (suc k) [] tail = omega arith
length-split (suc k) ((toc, body) ∷ fs) tail = omega (
  arith,
  length-split k fs tail,
  length-append body (stored (take k fs)),
  length-append (body ++ stored fs) tail,
  length-append body (stored fs),
  length-append (stored fs) tail,
)

pub All-take-IsFrame : (k : ℕ) (fs : List Frame) → All IsFrame fs → All IsFrame (take k fs)
All-take-IsFrame zero fs h = tt
All-take-IsFrame (suc k) [] h = tt
All-take-IsFrame (suc k) (f ∷ fs) (h, hs) = (h, All-take-IsFrame k fs hs)

pub All-drop-IsFrame : (k : ℕ) (fs : List Frame) → All IsFrame fs → All IsFrame (drop k fs)
All-drop-IsFrame zero fs h = h
All-drop-IsFrame (suc k) [] h = tt
All-drop-IsFrame (suc k) (f ∷ fs) (h, hs) = All-drop-IsFrame k fs hs

pub map-cut :
    (k : ℕ) (fs : List Frame) → map heard (take k fs) ++ map heard (drop k fs) ≡ map heard fs
map-cut zero fs = refl
map-cut (suc k) [] = refl
map-cut (suc k) (f ∷ fs) = ap (λ (xs : List Frame). heard f ∷ xs) (map-cut k fs)
