-- ===== src/Parser/Mpegaudio.antt =====
-- src/media/parser_mpegaudio.c: what it sends of a frame, and where it reads.
use feng.Base.{
  ℕ, zero, suc, ◌+◌, ◌-◌, ◌*◌, ◌/◌, ◌%◌, ◌^◌, ◌≡◌, ◌<◌, ◌≤◌, refl, true, false, List, [], ◌∷◌, ◌++◌,
  arith, Outcome, Bool-cases, inl, inr, ok, crash, running, ◌>>=◌, leb, if◌then◌else◌, length, take,
  drop, min, take_all, le→leb, gt→leb, leb→le, leb→gt,
}
use feng.Track.{Track, track_write, enqueue}
use feng.Parser.{default_mtu, memcpy, memcpy-take, new_buffer, Status, success, failure}
use feng.Parser.Fragment.{write-ok}

-- `htonl` on a little-endian machine, of a number of 16 bits.
htonl16 : ℕ → ℕ
htonl16 x = x % 2 ^ 8 * 2 ^ 24 + x / 2 ^ 8 % 2 ^ 8 * 2 ^ 16

-- Reading `n` bytes at `data + offset`, where `offset` is the bit pattern of an `int32_t`: a
-- negative one leads before the data.
read_at : ℕ → ℕ → List ℕ → Outcome (List ℕ)
read_at offset n mem = if leb (2 ^ 31) offset then crash else memcpy n (drop offset mem)

-- The four bytes of a word in a little-endian memory.
abbrev word_bytes : ℕ → List ℕ
word_bytes w = (w % 2 ^ 8) ∷ (w / 2 ^ 8 % 2 ^ 8) ∷ (w / 2 ^ 16 % 2 ^ 8) ∷ (w / 2 ^ 24 % 2 ^ 8) ∷ []

-- The `do` loop of `mpa_parse`: `rem` bytes are left of `len`. The offset is put in network order,
-- and read from in that order.
mpa_loop : ℕ → Track → List ℕ → ℕ → ℕ → Outcome (Status × Track)
unfolding htonl16 read_at
mpa_loop zero tr mem len rem = running
mpa_loop (suc fuel) tr mem len rem =
    let offset = htonl16 (len - rem) in
    let round = read_at offset (min default_mtu (rem + 4) - 4) mem >>= λ p.
    track_write tr (new_buffer tr false (word_bytes offset ++ p)) >>= λ tr'.
    let rest = mpa_loop fuel tr' mem len (rem - (default_mtu - 4)) in
    if leb (default_mtu - 4) rem then rest else ok (success, tr') in
    if leb (2 ^ 16) (len - rem) then ok (failure, tr) else round

pub mpa_parse : Track → List ℕ → ℕ → Outcome (Status × Track)
unfolding mpa_loop
mpa_parse tr mem len =
    if leb (len + 4) default_mtu
    then (memcpy len mem >>= λ p.
        track_write tr (new_buffer tr true (0 ∷ 0 ∷ 0 ∷ 0 ∷ p)) >>= λ tr'. ok (success, tr'))
    else mpa_loop (len + 1) tr mem len len

-- On a track that is not stopped, `mpa_parse` sends a frame that fits a packet in one, behind four
-- zero bytes (RFC 2250), and marked.
mpa_parse-single :
    (tr : Track) (mem : List ℕ)
    → tr.stopped ≡ false
    → length mem ≤ 1436
    → mpa_parse tr mem (length mem)
      ≡ ok (success, enqueue tr (new_buffer tr true (0 ∷ 0 ∷ 0 ∷ 0 ∷ mem)))
unfolding mpa_parse
mpa_parse-single tr mem g l = rw (
  le→leb (length mem + 4) default_mtu (omega arith),
  memcpy-take (length mem) mem (omega arith),
  take_all (length mem) mem (omega arith),
  write-ok tr (new_buffer tr true (0 ∷ 0 ∷ 0 ∷ 0 ∷ mem)) g,
)

-- The round for the second fragment: offset 1436 is 0x059c, and in network order 0x9c050000.
second_round :
    (fuel : ℕ) (tr : Track) (mem : List ℕ) (len rem : ℕ)
    → len - rem ≡ 1436
    → mpa_loop (suc fuel) tr mem len rem ≡ crash
unfolding mpa_loop
second_round fuel tr mem len rem e = rw e

mpa_loop-crash :
    (fuel : ℕ) (tr : Track) (mem : List ℕ) (len : ℕ)
    → tr.stopped ≡ false
    → len ≡ length mem
    → 1436 < len
    → 1 < fuel
    → mpa_loop fuel tr mem len len ≡ crash
unfolding mpa_loop
mpa_loop-crash zero tr mem len g e l f = absurd (omega arith)
mpa_loop-crash (suc zero) tr mem len g e l f = absurd (omega arith)
mpa_loop-crash (suc (suc fuel)) tr mem len g e l f =
    let z : len - len ≡ 0 = omega arith in
    let n : min default_mtu (len + 4) - 4 ≡ 1436 = omega arith in
    rw (z, n, memcpy-take 1436 mem (omega arith))
      (rw
        (
          write-ok tr (new_buffer tr false (word_bytes 0 ++ take 1436 mem)) g,
          le→leb (default_mtu - 4) len (omega arith),
        )
        (second_round fuel (enqueue tr (new_buffer tr false (word_bytes 0 ++ take 1436 mem))) mem
          len (len - 1436) (omega arith)))

-- On a track that is not stopped, a frame longer than 1436 bytes makes `mpa_parse` read outside of
-- the data, for the second fragment.
mpa_parse-crashes :
    (tr : Track) (mem : List ℕ)
    → tr.stopped ≡ false
    → 1436 < length mem
    → mpa_parse tr mem (length mem) ≡ crash
unfolding mpa_parse
mpa_parse-crashes tr mem g l =
    rw (gt→leb (length mem + 4) default_mtu (omega arith))
      (mpa_loop-crash (length mem + 1) tr mem (length mem) g refl l (omega arith))

-- On a track that is not stopped, `mpa_parse` sends a frame of up to 1436 bytes in one packet, behind
-- four zero bytes (RFC 2250), and marked; of a longer one, it reads outside of the data for the
-- second fragment.
pub mpa_parse_lem :
    (tr : Track) (mem : List ℕ)
    → tr.stopped ≡ false
    → mpa_parse tr mem (length mem) ≡ (
        if leb (length mem) 1436
        then ok (success, enqueue tr (new_buffer tr true (0 ∷ 0 ∷ 0 ∷ 0 ∷ mem)))
        else crash)
mpa_parse_lem tr mem g = elim (Bool-cases (leb (length mem) 1436)) [
  | inl e ↦ rw e (mpa_parse-single tr mem g (leb→le (length mem) 1436 e))
  | inr e ↦ rw e (mpa_parse-crashes tr mem g (leb→gt (length mem) 1436 e))
]
