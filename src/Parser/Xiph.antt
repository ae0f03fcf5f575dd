-- ===== src/Parser/Xiph.antt =====
-- xiph_parse of src/media/parser_xiph.c
use feng.Base.{
  ℕ, zero, suc, ◌+◌, ◌-◌, ◌*◌, ◌/◌, ◌%◌, ◌^◌, ◌≡◌, ◌<◌, refl, ap, ap₂, ◌∙◌, false, ◌&&◌, List, [],
  ◌∷◌, ◌++◌, map, replicate, arith, Outcome, ok, ◌>>=◌, ◌==◌, leb, ltb, if◌then◌else◌, length, take,
  min, All,
}
use feng.Track.{MParserBuffer, Track}
use feng.Parser.{default_mtu, fragments, enqueue_all, Status, success}
use feng.Parser.Fragment.{Fragmented, Heads, fragments-Sent}

abbrev header_size : ℕ
header_size = 6

abbrev max_payload_size : ℕ
max_payload_size = default_mtu - header_size

-- The four tests on `fragment`, the loop's state, and `len`.
abbrev pub next_fragment : ℕ → ℕ → ℕ
next_fragment fragment len =
    if (fragment == 0) && leb len max_payload_size
    then 1
    else if fragment == 0
    then 64
    else if ltb max_payload_size len
    then 128
    else 192

-- The ident bytes of the track, the fragment byte, and the payload's size in network order.
abbrev xiph_header : ℕ × ℕ × ℕ → ℕ → ℕ → List ℕ × ℕ
xiph_header (i, j, k) fragment len =
    let f = next_fragment fragment len in
    let n = min max_payload_size len in (i ∷ j ∷ k ∷ f ∷ (n / 2 ^ 8 % 2 ^ 8) ∷ (n % 2 ^ 8) ∷ [], f)

pub xiph_parse : Track → List ℕ → ℕ → Outcome (Status × Track)
xiph_parse tr mem len =
    fragments max_payload_size (xiph_header tr.xiph_ident) (len + 1) tr 0 mem len >>= λ tr'.
    ok (success, tr')

-- A receiver's view of a header: the fragment byte, and the size that the last two bytes give.
abbrev pub fragment_byte : List ℕ → ℕ
fragment_byte (_ ∷ _ ∷ _ ∷ f ∷ _) = f
fragment_byte _ = 0

abbrev pub size_field : List ℕ → ℕ
size_field (_ ∷ _ ∷ _ ∷ _ ∷ a ∷ b ∷ _) = a * 2 ^ 8 + b
size_field _ = 0

abbrev pub ident_of : List ℕ → ℕ × ℕ × ℕ
ident_of (i ∷ j ∷ k ∷ _) = (i, j, k)
ident_of _ = (0, 0, 0)

-- RFC 5215: not fragmented; or a start, continuations and an end.
abbrev pub rfc_fragments : ℕ → List ℕ
rfc_fragments zero = []
rfc_fragments (suc zero) = 1 ∷ []
rfc_fragments (suc (suc n)) = 64 ∷ (replicate n 128 ++ 192 ∷ [])

-- The sizes of the pieces of a packet of `len` bytes, in `n` packets.
abbrev pub piece_sizes : ℕ → ℕ → List ℕ
piece_sizes zero len = []
piece_sizes (suc n) len = min max_payload_size len ∷ piece_sizes n (len - max_payload_size)

abbrev pub fragment_bytes : List MParserBuffer → List ℕ
fragment_bytes = map (λ (b : MParserBuffer). fragment_byte (take 6 b.content))

abbrev pub size_fields : List MParserBuffer → List ℕ
size_fields = map (λ (b : MParserBuffer). size_field (take 6 b.content))

tail_fragments :
    (i : ℕ × ℕ × ℕ) (f len : ℕ) (b : MParserBuffer) (bs : List MParserBuffer)
    → 0 < f
    → Heads 6 max_payload_size (xiph_header i) f len (b ∷ bs)
    → fragment_bytes (b ∷ bs) ≡ replicate (length bs) 128 ++ 192 ∷ []
tail_fragments (i, j, k) f len b [] z (d, e) =
    ap (λ (x : ℕ). x ∷ []) (ap fragment_byte e ∙ ground arith)
tail_fragments (i, j, k) f len b (c ∷ bs) z (d, e, h) =
    ap₂ ◌∷◌ (ap fragment_byte e ∙ ground arith) (
      tail_fragments (i, j, k) (next_fragment f len) (len - max_payload_size) c bs (ground arith) h)

Heads-fragments :
    (i : ℕ × ℕ × ℕ) (len : ℕ) (bs : List MParserBuffer)
    → Heads 6 max_payload_size (xiph_header i) 0 len bs
    → fragment_bytes bs ≡ rfc_fragments (length bs)
Heads-fragments (i, j, k) len [] h = absurd h
Heads-fragments (i, j, k) len (b ∷ []) (d, e) =
    ap (λ (x : ℕ). x ∷ []) (ap fragment_byte e ∙ ground arith)
Heads-fragments (i, j, k) len (b ∷ c ∷ bs) (d, e, h) =
    ap₂ ◌∷◌ (ap fragment_byte e ∙ ground arith) (
      tail_fragments (i, j, k) (next_fragment 0 len) (len - max_payload_size) c bs (ground arith) h)

Heads-sizes :
    (i : ℕ × ℕ × ℕ) (f len : ℕ) (bs : List MParserBuffer)
    → Heads 6 max_payload_size (xiph_header i) f len bs
    → size_fields bs ≡ piece_sizes (length bs) len
Heads-sizes (i, j, k) f len [] h = absurd h
Heads-sizes (i, j, k) f len (b ∷ []) (d, e) = ap (λ (x : ℕ). x ∷ []) (ap size_field e ∙ omega arith)
Heads-sizes (i, j, k) f len (b ∷ c ∷ bs) (d, e, h) =
    ap₂ ◌∷◌ (ap size_field e ∙ omega arith)
      (Heads-sizes (i, j, k) (next_fragment f len) (len - max_payload_size) (c ∷ bs) h)

-- Every packet has the ident bytes of the track.
abbrev pub AreOf : ℕ × ℕ × ℕ → List MParserBuffer → Type 0
AreOf ident = All (λ (b : MParserBuffer). ident_of (take 6 b.content) ≡ ident)

Heads-AreOf :
    (i : ℕ × ℕ × ℕ) (f len : ℕ) (bs : List MParserBuffer)
    → Heads 6 max_payload_size (xiph_header i) f len bs
    → AreOf i bs
Heads-AreOf (i, j, k) f len [] h = absurd h
Heads-AreOf (i, j, k) f len (b ∷ []) (d, e) = (ap ident_of e, tt)
Heads-AreOf (i, j, k) f len (b ∷ c ∷ bs) (d, e, h) =
    (ap ident_of e, Heads-AreOf (i, j, k) (next_fragment f len) (len - max_payload_size) (c ∷ bs) h)

-- `xiph_parse` on a track that is not stopped returns 0, and puts packets of at most `DEFAULT_MTU`
-- bytes behind the queue: without their six header bytes they are the data; each begins with the
-- track's ident bytes; the fragment bytes are those of RFC 5215 for so many packets, and the size
-- fields give the sizes of the pieces. The marker is set on the last packet alone, where RFC 5215
-- has it zero.
pub xiph_parse_lem :
    (tr : Track) (mem : List ℕ)
    → tr.stopped ≡ false
    → (bs : List MParserBuffer) × (xiph_parse tr mem (length mem) ≡ ok (success, enqueue_all tr bs))
      × Fragmented 6 1434 tr mem bs
      × AreOf tr.xiph_ident bs
      × (fragment_bytes bs ≡ rfc_fragments (length bs))
      × (size_fields bs ≡ piece_sizes (length bs) (length mem))
unfolding xiph_parse
xiph_parse_lem tr mem g =
    let (bs, r, f, h) =
      fragments-Sent 6 1434 (xiph_header tr.xiph_ident) (omega arith) (λ s len. refl)
        (length mem + 1) tr 0 mem (length mem) g refl (omega arith) in
    (
      bs,
      rw r,
      f,
      Heads-AreOf tr.xiph_ident 0 (length mem) bs h,
      Heads-fragments tr.xiph_ident (length mem) bs h,
      Heads-sizes tr.xiph_ident 0 (length mem) bs h,
    )
