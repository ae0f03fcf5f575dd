-- ===== src/Parser/H264/FuA.antt =====
-- Fragmentation units: what `frag_fu_a` sends, and that a receiver gets the NAL unit back.
use feng.Base.{
  ℕ, suc, ◌+◌, ◌-◌, ◌*◌, ◌/◌, ◌%◌, ◌^◌, ◌≡◌, ◌<◌, refl, ap, ◌∙◌, Bool, true, false, List, [], ◌∷◌,
  arith, ok, leb, if◌then◌else◌, length, take, gt→leb, le→leb, lt→ltb,
}
use feng.Track.{MParserBuffer, Track}
use feng.Parser.{default_mtu, enqueue_all}
use feng.Parser.Fragment.{Fragmented, Heads, fragments-Sent}
use feng.Parser.H264.{fu_header, max_fragment, frag_fu_a}

-- RFC 6184: the fields of the two bytes.
abbrev nal_header : List ℕ → ℕ
nal_header (i ∷ h ∷ _) = i / 2 ^ 5 * 2 ^ 5 + h % 2 ^ 5
nal_header _ = 0

abbrev unit_type : List ℕ → ℕ
unit_type (i ∷ _) = i % 2 ^ 5
unit_type _ = 0

abbrev start_bit : List ℕ → ℕ
start_bit (_ ∷ h ∷ _) = h / 2 ^ 7
start_bit _ = 0

abbrev end_bit : List ℕ → ℕ
end_bit (_ ∷ h ∷ _) = h / 2 ^ 6 % 2
end_bit _ = 0

abbrev reserved_bit : List ℕ → ℕ
reserved_bit (_ ∷ h ∷ _) = h / 2 ^ 5 % 2
reserved_bit _ = 0

-- A fragment of type 28 (FU-A) with a NAL header and the two bits; the reserved bit is zero.
abbrev IsFu : ℕ → ℕ → ℕ → MParserBuffer → Type 0
IsFu nal0 s e b =
    (nal_header (take 2 b.content) ≡ nal0)
    × (unit_type (take 2 b.content) ≡ 28)
    × (start_bit (take 2 b.content) ≡ s)
    × (end_bit (take 2 b.content) ≡ e)
    × (reserved_bit (take 2 b.content) ≡ 0)

-- The start bit is set in the first fragment alone, and the end bit in the last alone, which is not
-- the first.
abbrev pub FuUnits : ℕ → ℕ → List MParserBuffer → Type 0
FuUnits nal0 s [] = ⊥
FuUnits nal0 s (b ∷ []) = (s ≡ 0) × IsFu nal0 s 1 b
FuUnits nal0 s (b ∷ c ∷ bs) = IsFu nal0 s 0 b × FuUnits nal0 0 (c ∷ bs)

abbrev bit : Bool → ℕ
bit b = if b then 1 else 0

header_fields :
    (nal0 left : ℕ) (start : Bool)
    → nal0 < 2 ^ 8
    → let h = (fu_header nal0 start left).0 in
      (nal_header h ≡ nal0)
      × (unit_type h ≡ 28)
      × (start_bit h ≡ bit start)
      × (end_bit h ≡ bit (leb left max_fragment))
      × (reserved_bit h ≡ 0)
header_fields nal0 left true l = ground arith
header_fields nal0 left false l = ground arith

headed :
    (nal0 left e : ℕ) (start : Bool) (b : MParserBuffer)
    → nal0 < 2 ^ 8
    → bit (leb left max_fragment) ≡ e
    → take 2 b.content ≡ (fu_header nal0 start left).0
    → IsFu nal0 (bit start) e b
headed nal0 left e start b l f h =
    let x = header_fields nal0 left start l in
    (
      ap nal_header h ∙ x.0,
      ap unit_type h ∙ x.1,
      ap start_bit h ∙ x.2,
      ap end_bit h ∙ x.3 ∙ f,
      ap reserved_bit h ∙ x.4,
    )

Heads-FuUnits :
    (nal0 left : ℕ) (start : Bool) (bs : List MParserBuffer)
    → nal0 < 2 ^ 8
    → (start ≡ true → max_fragment < left)
    → Heads 2 max_fragment (fu_header nal0) start left bs
    → FuUnits nal0 (bit start) bs
Heads-FuUnits nal0 left start [] l k h = absurd h
Heads-FuUnits nal0 left true (b ∷ []) l k (d, e) = absurd (omega (arith, k refl, d))
Heads-FuUnits nal0 left false (b ∷ []) l k (d, e) =
    (refl, headed nal0 left 1 false b l (ap bit (le→leb left max_fragment d)) e)
Heads-FuUnits nal0 left start (b ∷ c ∷ bs) l k (d, e, h) = (
  headed nal0 left 0 start b l (ap bit (gt→leb left max_fragment d)) e,
  Heads-FuUnits nal0 (left - max_fragment) false (c ∷ bs) l (λ x. cc) h,
)

-- `frag_fu_a` of a NAL unit that does not fit a packet (`send_nal` calls it for no other), on a track
-- that is not stopped, sends at least two fragmentation units, of at most `DEFAULT_MTU` bytes: each
-- has the type 28, gives back the header byte, and has the reserved bit zero; the start bit is set in
-- the first alone, the end bit and the marker in the last alone; and their payloads together are the
-- rest of the NAL unit.
pub frag_fu_a_lem :
    (tr : Track) (nal0 x : ℕ) (rest : List ℕ)
    → tr.stopped ≡ false
    → nal0 < 2 ^ 8
    → default_mtu < length (nal0 ∷ x ∷ rest)
    → let nal = nal0 ∷ x ∷ rest in
      (bs : List MParserBuffer) × (frag_fu_a nal (length nal) tr ≡ ok (enqueue_all tr bs))
      × Fragmented 2 1438 tr (x ∷ rest) bs
      × FuUnits nal0 1 bs
unfolding frag_fu_a
frag_fu_a_lem tr nal0 x rest g l b =
    let m = x ∷ rest in
    let (bs, r, f, h) =
      fragments-Sent 2 1438 (fu_header nal0) (omega arith) (λ s len. refl) (length m + 1) tr true m
        (length m) g refl (omega arith) in
    let e : suc (length m) - 1 ≡ length m = omega arith in
    (
      bs,
      rw (e, lt→ltb 0 (length m) (omega arith)) r,
      f,
      Heads-FuUnits nal0 (length m) true bs l (λ z. omega (arith, b)) h,
    )
