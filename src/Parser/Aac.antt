-- ===== src/Parser/Aac.antt =====
-- src/media/parser_aac.c
use feng.Base.{
  ℕ, ◌+◌, ◌-◌, ◌*◌, ◌/◌, ◌%◌, ◌^◌, ◌≡◌, ◌<◌, refl, ap, ◌∙◌, false, List, [], ◌∷◌, arith, Outcome,
  ok, ◌>>=◌, length, take, All,
}
use feng.Track.{MParserBuffer, Track}
use feng.Parser.{default_mtu, fragments, enqueue_all, Status, success}
use feng.Parser.Fragment.{Fragmented, Heads, fragments-Sent}

abbrev header_size : ℕ
header_size = 4

abbrev max_payload_size : ℕ
max_payload_size = default_mtu - header_size

-- `prefix`: the AU header section of RFC 3640 in mode AAC-hbr. `(len & 0x1fe0) >> 5` are the bits 5
-- to 12 of `len`, and `(len & 0x1f) << 3` are its five lowest, in the high bits of a byte.
abbrev pub prefix : ℕ → List ℕ
prefix len = 0x00 ∷ 0x10 ∷ (len % 2 ^ 13 / 2 ^ 5) ∷ (len % 2 ^ 5 * 2 ^ 3) ∷ []

-- The same prefix goes before each fragment, so the loop's state is the packet's length.
abbrev aac_header : ℕ → ℕ → List ℕ × ℕ
aac_header whole _ = (prefix whole, whole)

pub aac_parse : Track → List ℕ → ℕ → Outcome (Status × Track)
aac_parse tr mem len =
    fragments max_payload_size aac_header (len + 1) tr len mem len >>= λ tr'. ok (success, tr')

-- The length that a receiver reads in a header: the 13 bits behind the first two bytes.
abbrev pub au_size : List ℕ → ℕ
au_size (_ ∷ _ ∷ a ∷ b ∷ _) = a * 2 ^ 5 + b / 2 ^ 3
au_size _ = 0

Heads-au_size :
    (whole len : ℕ) (bs : List MParserBuffer)
    → whole < 2 ^ 13
    → Heads header_size max_payload_size aac_header whole len bs
    → All (λ (b : MParserBuffer). au_size (take header_size b.content) ≡ whole) bs
Heads-au_size whole len [] l h = absurd h
Heads-au_size whole len (b ∷ []) l (d, e) = (ap au_size e ∙ omega arith, tt)
Heads-au_size whole len (b ∷ c ∷ bs) l (d, e, h) =
    (ap au_size e ∙ omega arith, Heads-au_size whole (len - max_payload_size) (c ∷ bs) l h)

-- `aac_parse` on a track that is not stopped returns 0, and puts packets of at most `DEFAULT_MTU`
-- bytes behind the queue: without their four header bytes they are the data, only the last has the
-- marker, and if the data are shorter than 8192 bytes each header gives the length of the whole.
pub aac_parse_lem :
    (tr : Track) (mem : List ℕ)
    → tr.stopped ≡ false
    → (bs : List MParserBuffer) × (aac_parse tr mem (length mem) ≡ ok (success, enqueue_all tr bs))
      × Fragmented 4 1436 tr mem bs
      × (length mem < 2 ^ 13
          → All (λ (b : MParserBuffer). au_size (take 4 b.content) ≡ length mem) bs)
unfolding aac_parse
aac_parse_lem tr mem g =
    let (bs, r, f, h) =
      fragments-Sent 4 1436 aac_header (omega arith) (λ s len. refl) (length mem + 1) tr
        (length mem) mem (length mem) g refl (omega arith) in
    (bs, rw r, f, λ l. Heads-au_size (length mem) (length mem) bs l h)
