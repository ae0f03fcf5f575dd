-- ===== src/Rtcp/Compound.antt =====
-- The compound packets of src/network/rtcp.c: their sizes, and the walk of `rtcp_handle` over them.
use feng.Base.{
  ℕ, zero, suc, ◌+◌, ◌-◌, ◌*◌, ◌/◌, ◌%◌, ◌^◌, ◌<◌, ◌≤◌, ◌≡◌, refl, sym, ap, ◌∙◌, false, List, [],
  ◌∷◌, ◌++◌, ok, ◌==◌, length, take, drop, replicate, arith, lt→ltb, ge→ltb, length-append, ◌||◌,
}
use feng.Base.Bytes.{be32, of_be16}
use feng.Rtcp.{
  SrInput, sdes, bye, rtcp_header, rtcp_set_sr, padding, rtcp_pkt_sr_sdes, reason, rtcp_pkt_sr_bye,
  rtcp_send_sr, touch, report_blocks, parse_receiver_report, logged, handle_loop, rtcp_handle,
}

pub length-replicate : (n x : ℕ) → length (replicate n x) ≡ n
length-replicate zero x = refl
length-replicate (suc n) x = omega (arith, length-replicate n x)

handle_none : (fuel : ℕ) (mem : List ℕ) → handle_loop (suc fuel) mem 0 ≡ ok ([], false)
unfolding handle_loop
handle_none fuel [] = refl
handle_none fuel (_ ∷ []) = refl
handle_none fuel (_ ∷ _ ∷ []) = refl
handle_none fuel (_ ∷ _ ∷ _ ∷ []) = refl
handle_none fuel (a ∷ type ∷ b ∷ c ∷ mem) = refl

-- The sender report at the head has no report blocks, and is stepped over.
handle-set_sr :
    (s : SrInput) (fuel : ℕ) (rest : List ℕ) (len : ℕ)
    → 28 ≤ len
    → handle_loop (suc fuel) (rtcp_set_sr s ++ rest) len
      ≡ logged (200, 28) (handle_loop fuel rest (len - 28))
unfolding handle_loop rtcp_set_sr parse_receiver_report touch report_blocks
handle-set_sr s fuel rest len h = rw (lt→ltb 4 len (omega arith), ge→ltb len 28 h)

-- The last packet takes what is left.
handle-last :
    (fuel t size : ℕ) (rest : List ℕ)
    → ((t == 200) || (t == 201)) ≡ false
    → size % 4 ≡ 0
    → 4 < size
    → size < 2 ^ 18
    → handle_loop (suc (suc fuel)) (rtcp_header 1 t size ++ rest) size ≡ ok ((t, size) ∷ [], false)
unfolding handle_loop
handle-last fuel t size rest k d h b =
    let whole : (of_be16 ((size / 4 - 1) / 2 ^ 8 % 2 ^ 8) ((size / 4 - 1) % 2 ^ 8) + 1) * 4 ≡ size =
      omega arith in
    let z : size - size ≡ 0 = omega arith in
    rw (
      whole,
      lt→ltb 4 size h,
      ge→ltb size size (omega arith),
      k,
      z,
      handle_none fuel (
          drop size (129 ∷ t ∷ ((size / 4 - 1) / 2 ^ 8 % 2 ^ 8) ∷ ((size / 4 - 1) % 2 ^ 8) ∷ rest)),
    )

handle-pair :
    (s : SrInput) (t size : ℕ) (rest : List ℕ) (n : ℕ)
    → ((t == 200) || (t == 201)) ≡ false
    → size % 4 ≡ 0
    → 4 < size
    → size < 2 ^ 18
    → n ≡ 28 + size
    → rtcp_handle (rtcp_set_sr s ++ (rtcp_header 1 t size ++ rest)) n
      ≡ ok ((200, 28) ∷ (t, size) ∷ [], false)
unfolding rtcp_handle
handle-pair s t size rest n k d h b e =
    let left : n - 28 ≡ size = omega arith in
    let fuel : n ≡ suc (suc (n - 2)) = omega arith in
    ap (λ f. handle_loop f (rtcp_set_sr s ++ (rtcp_header 1 t size ++ rest)) n)
      {y = suc (suc (suc (n - 2)))} (omega arith)
    ∙ handle-set_sr s (suc (suc (n - 2))) (rtcp_header 1 t size ++ rest) n (omega arith)
    ∙ rw (left, handle-last (n - 2) t size rest k d h b)

pad_lem : (n : ℕ) → (n + padding n) % 4 ≡ 0
pad_lem n = ground arith

-- A packet of feng: it is a multiple of four bytes, and the walk finds the sender report of 28 bytes
-- and then one packet of the given type that takes all the rest.
abbrev pub IsCompound : ℕ → List ℕ → Type 0
IsCompound t p =
    (length p % 4 ≡ 0)
    × (rtcp_handle p (length p) ≡ ok ((200, 28) ∷ (t, length p - 28) ∷ [], false))

compound :
    (s : SrInput) (t size : ℕ) (rest : List ℕ)
    → ((t == 200) || (t == 201)) ≡ false
    → size % 4 ≡ 0
    → length rest + 4 ≡ size
    → 4 < size
    → size < 2 ^ 18
    → IsCompound t (rtcp_set_sr s ++ (rtcp_header 1 t size ++ rest))
unfolding rtcp_set_sr
compound s t size rest k d l h b =
    let p = rtcp_set_sr s ++ (rtcp_header 1 t size ++ rest) in
    let n : length p ≡ 28 + size = omega arith in
    let m : length p - 28 ≡ size = omega arith in
    (
      omega arith,
      handle-pair s t size rest (length p) k d h b n
          ∙ ap (λ (x : ℕ). ok ((200, 28) ∷ (t, x) ∷ [], false)) (sym m),
    )

-- The text that a receiver reads behind the 32-bit sources at offset 32: for SDES an item's type and
-- length, for BYE the length alone.
abbrev item_text : List ℕ → List ℕ
item_text (n ∷ rest) = take n rest
item_text [] = []

abbrev tail_of : List ℕ → List ℕ
tail_of [] = []
tail_of (_ ∷ rest) = rest

abbrev pub cname_of : List ℕ → List ℕ
cname_of p = item_text (tail_of (drop 36 p))

abbrev pub reason_of : List ℕ → List ℕ
reason_of p = item_text (drop 36 p)

take_append : (xs ys : List ℕ) → take (length xs) (xs ++ ys) ≡ xs
take_append [] ys = refl
take_append (x ∷ xs) ys = ap (λ zs. x ∷ zs) (take_append xs ys)

drop_append : (xs ys : List ℕ) → drop (length xs) (xs ++ ys) ≡ ys
drop_append [] ys = refl
drop_append (x ∷ xs) ys = drop_append xs ys

-- What follows the CNAME.
abbrev pub behind_name : List ℕ → List ℕ → List ℕ
behind_name name p = drop (length name) (drop 38 p)

-- `rtcp_send_sr` with SDES, for a host name shorter than 256 bytes, sends a packet of whole words;
-- `rtcp_handle` finds in it the sender report of 28 bytes and then one SDES packet of all the rest,
-- without going past its end; and the CNAME that a receiver reads in it is the host name.
rtcp_send_sr-sdes :
    (s : SrInput) (name : List ℕ)
    → length name < 2 ^ 8
    → (p : List ℕ) × (rtcp_send_sr s name sdes ≡ ok p)
      × IsCompound 202 p
      × (cname_of p ≡ name)
      × (behind_name name p ≡ replicate (padding (38 + length name)) 0)
unfolding rtcp_send_sr rtcp_pkt_sr_sdes rtcp_set_sr
rtcp_send_sr-sdes s name h =
    let pad = padding (4 + 24 + (4 + 6 + length name)) in
    let small : pad < 4 = ground arith in
    let size = 4 + 6 + length name + pad in
    let words : size % 4 ≡ 0 = omega (arith, pad_lem (4 + 24 + (4 + 6 + length name))) in
    let body : List ℕ = be32 s.ssrc ++ (1 ∷ (length name % 2 ^ 8) ∷ (name ++ replicate pad 0)) in
    let n : length body + 4 ≡ size =
      omega (arith, length-append name (replicate pad 0), length-replicate pad 0) in
    let byte : length name % 2 ^ 8 ≡ length name = omega arith in
    (
      rtcp_pkt_sr_sdes s name,
      refl,
      compound s 202 size body refl words n (omega arith) (omega arith),
      ap (λ k. take k (name ++ replicate pad 0)) byte ∙ take_append name (replicate pad 0),
      drop_append name (replicate pad 0)
          ∙ ap (λ n. replicate (padding n) 0) {x = 4 + 24 + (4 + 6 + length name)}
              {y = 38 + length name} (omega arith),
    )

-- `rtcp_send_sr` with BYE sends a packet of whole words, in which `rtcp_handle` finds the sender
-- report of 28 bytes and then one BYE packet of all the rest; but the length before the reason is
-- zero, so that a receiver reads no reason.
rtcp_send_sr-bye :
    (s : SrInput) (name : List ℕ)
    → (p : List ℕ) × (rtcp_send_sr s name bye ≡ ok p)
      × IsCompound 203 p
      × (reason_of p ≡ [])
      × (drop 37 p ≡ reason ++ replicate 3 0)
unfolding rtcp_send_sr rtcp_pkt_sr_bye rtcp_set_sr
rtcp_send_sr-bye s name = (
  rtcp_pkt_sr_bye s,
  refl,
  compound s 203 32
      (be32 s.ssrc ++ (((length reason - 1) / 2 ^ 24 % 2 ^ 8) ∷ (reason ++ replicate 3 0))) refl
      refl refl (omega arith) (omega arith),
  refl,
  refl,
)

-- `rtcp_send_sr`, for a host name shorter than 256 bytes, sends a packet of whole words, in which
-- `rtcp_handle` finds the sender report of 28 bytes and then one packet of all the rest, without
-- going past its end. With SDES, the CNAME that a receiver reads there is the host name, and behind it
-- are zeros up to a whole word, so that where the name ends with a word there is none to end the
-- list of items; with BYE, the length before the reason is zero, so that a receiver reads no reason,
-- though the reason and its padding follow.
pub rtcp_send_sr_lem :
    (s : SrInput) (name : List ℕ)
    → length name < 2 ^ 8
    → ((p : List ℕ) × (rtcp_send_sr s name sdes ≡ ok p)
        × IsCompound 202 p
        × (cname_of p ≡ name)
        × (behind_name name p ≡ replicate (padding (38 + length name)) 0))
      × ((q : List ℕ) × (rtcp_send_sr s name bye ≡ ok q)
          × IsCompound 203 q
          × (reason_of q ≡ [])
          × (drop 37 q ≡ reason ++ replicate 3 0))
rtcp_send_sr_lem s name h = (rtcp_send_sr-sdes s name h, rtcp_send_sr-bye s name)
