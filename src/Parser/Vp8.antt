-- ===== src/Parser/Vp8.antt =====
-- src/media/parser_vp8.c
use mathlib.Core.Path.{subst}
use feng.Base.{
  ℕ, ◌+◌, ◌-◌, ◌*◌, ◌/◌, ◌%◌, ◌≡◌, refl, ap, ◌∙◌, false, List, [], ◌∷◌, arith, Outcome, ok, ◌>>=◌,
  ◌==◌, if◌then◌else◌, length, take, All,
}
use feng.Track.{MParserBuffer, Track}
use feng.Parser.{default_mtu, fragments, enqueue_all, memcpy, Status, success}
use feng.Parser.Fragment.{Fragmented, Heads, fragments-Sent}

abbrev header_size : ℕ
header_size = 1

abbrev max_payload_size : ℕ
max_payload_size = default_mtu - header_size

-- `(data[0] & 1 ? 0 : 2) | VP8_START_PACKET`, at the first byte.
abbrev pub first_prefix : List ℕ → ℕ
first_prefix [] = 1
first_prefix (d ∷ _) = (if d % 2 == 0 then 2 else 0) + 1

-- The loop's state is `prefix[0]`; behind the first packet `&= ~VP8_START_PACKET` clears its lowest
-- bit.
abbrev vp8_header : ℕ → ℕ → List ℕ × ℕ
vp8_header prefix _ = (prefix ∷ [], prefix / 2 * 2)

-- The first byte is read before the loop, also if there is none.
pub vp8_parse : Track → List ℕ → ℕ → Outcome (Status × Track)
vp8_parse tr mem len = memcpy 1 mem >>= λ first.
    fragments max_payload_size vp8_header (len + 1) tr (first_prefix first) mem len >>= λ tr'.
    ok (success, tr')

-- The K and the S bit of the header, as a receiver reads them.
abbrev pub key_bit : List ℕ → ℕ
key_bit [] = 0
key_bit (p ∷ _) = p / 2 % 2

abbrev pub start_bit : List ℕ → ℕ
start_bit [] = 0
start_bit (p ∷ _) = p % 2

abbrev pub Headed : ℕ → ℕ → MParserBuffer → Type 0
Headed k s b = (key_bit (take 1 b.content) ≡ k) × (start_bit (take 1 b.content) ≡ s)

abbrev pub StartsFirst : ℕ → List MParserBuffer → Type 0
StartsFirst k [] = ⊥
StartsFirst k (b ∷ bs) = Headed k 1 b × All (Headed k 0) bs

Heads-rest :
    (p len : ℕ) (bs : List MParserBuffer)
    → p % 2 ≡ 0
    → Heads 1 max_payload_size vp8_header p len bs
    → All (Headed (p / 2 % 2) 0) bs
Heads-rest p len [] z h = absurd h
Heads-rest p len (b ∷ []) z (d, e) = ((ap key_bit e, ap start_bit e ∙ z), tt)
Heads-rest p len (b ∷ c ∷ bs) z (d, e, h) = (
  (ap key_bit e, ap start_bit e ∙ z),
  subst (λ k. All (Headed k 0) (c ∷ bs)) (omega arith)
      (Heads-rest (p / 2 * 2) (len - max_payload_size) (c ∷ bs) (omega arith) h),
)

Heads-StartsFirst :
    (p len : ℕ) (bs : List MParserBuffer)
    → p % 2 ≡ 1
    → Heads 1 max_payload_size vp8_header p len bs
    → StartsFirst (p / 2 % 2) bs
Heads-StartsFirst p len [] z h = absurd h
Heads-StartsFirst p len (b ∷ []) z (d, e) = ((ap key_bit e, ap start_bit e ∙ z), tt)
Heads-StartsFirst p len (b ∷ c ∷ bs) z (d, e, h) = (
  (ap key_bit e, ap start_bit e ∙ z),
  subst (λ k. All (Headed k 0) (c ∷ bs)) (omega arith)
      (Heads-rest (p / 2 * 2) (len - max_payload_size) (c ∷ bs) (omega arith) h),
)

-- `vp8_parse` of a frame that is not empty, on a track that is not stopped, returns 0, and puts packets of at most `DEFAULT_MTU`
-- bytes behind the queue: without their header byte they are the frame, only the last has the
-- marker, only the first the S bit, and all have the K bit exactly if the frame's lowest bit is 0.
pub vp8_parse_lem :
    (tr : Track) (d : ℕ) (mem : List ℕ)
    → tr.stopped ≡ false
    → (bs : List MParserBuffer) × (vp8_parse tr (d ∷ mem) (length (d ∷ mem))
        ≡ ok (success, enqueue_all tr bs))
      × Fragmented 1 1439 tr (d ∷ mem) bs
      × StartsFirst (if d % 2 == 0 then 1 else 0) bs
unfolding vp8_parse memcpy
vp8_parse_lem tr d mem g =
    let p = first_prefix (d ∷ []) in
    let (bs, r, f, h) =
      fragments-Sent 1 1439 vp8_header (omega arith) (λ s len. refl) (length (d ∷ mem) + 1) tr p
        (d ∷ mem) (length (d ∷ mem)) g refl (omega arith) in
    (
      bs,
      rw r,
      f,
      subst (λ k. StartsFirst k bs) (ground arith)
          (Heads-StartsFirst p (length (d ∷ mem)) bs (ground arith) h),
    )
