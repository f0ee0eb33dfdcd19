-- ===== src/Guid/RoundTrip.antt =====
-- `from` reads what `fmt` writes.
use winrt_rs.Base.{
  ℕ, zero, suc, ◌+◌, ◌*◌, ◌/◌, ◌%◌, ◌^◌, ◌≤◌, ◌<◌, ◌≡◌, refl, ap, ◌∙◌, true, List, [], ◌∷◌, ◌++◌,
  arith, ◌==◌, length, get_or, All, length-append, ok, u16_mod, u32_mod, checked, append_nil,
}
use native.Mathlib.Nat.{mod-eq_of_lt}
use winrt_rs.Guid.{
  Guid, hex_digit, hex, byte_of, fmt, digit_value, next_byte, next_u8, add_pair, add_shifted,
  next_word, next_half, next_pair, dash, from,
}

-- The fields fit their types.
pub record Fits (guid : Guid) : Type 0 where
  pub word : guid.data1 < u32_mod
  pub half : guid.data2 < u16_mod
  pub half' : guid.data3 < u16_mod
  pub eight : length guid.data4 ≡ 8
  pub bytes : All (λ b. b < 256) guid.data4

next_u8-hex_digit : (d : ℕ) (rest : List ℕ) → d < 16 → next_u8 (hex_digit d ∷ rest) ≡ ok (d, rest)
unfolding next_u8 next_byte hex_digit digit_value
next_u8-hex_digit d rest h = ground arith

checked-eq-ok : (modulus n : ℕ) → n < modulus → checked modulus n ≡ ok n
unfolding checked
checked-eq-ok modulus n h = ground arith

-- Two digits are a byte.
add_pair-digits :
    (modulus sum h l : ℕ) (rest : List ℕ)
    → sum + 256 ≤ modulus
    → h < 16
    → l < 16
    → add_pair modulus sum (hex_digit h ∷ hex_digit l ∷ rest) ≡ ok (sum + h * 16 + l, rest)
unfolding add_pair
add_pair-digits modulus sum h l rest small p q =
    rw
      (
        next_u8-hex_digit h (hex_digit l ∷ rest) p,
        checked-eq-ok modulus (h * 16) (omega arith),
        checked-eq-ok modulus (sum + h * 16) (omega arith),
        next_u8-hex_digit l rest q,
        checked-eq-ok modulus (sum + h * 16 + l) (omega arith),
      )
      refl

add_shifted-digits :
    (modulus sum bits h l value : ℕ) (rest : List ℕ)
    → 256 ≤ modulus
    → h < 16
    → l < 16
    → (0 + h * 16 + l) * 2 ^ bits ≡ value
    → sum + value < modulus
    → add_shifted modulus sum bits (hex_digit h ∷ hex_digit l ∷ rest) ≡ ok (sum + value, rest)
unfolding add_shifted
add_shifted-digits modulus sum bits h l value rest wide p q e fits =
    let kept : value % modulus ≡ value = mod-eq_of_lt (omega arith) in
    rw
      (
        add_pair-digits modulus 0 h l rest (omega arith) p q,
        e,
        kept,
        checked-eq-ok modulus (sum + value) fits,
      )
      refl

next_pair-hex : (n : ℕ) (rest : List ℕ) → n < 256 → next_pair (hex 2 n ++ rest) ≡ ok (n, rest)
unfolding next_pair hex
next_pair-hex n rest h =
    let whole : 0 + n / 16 % 16 * 16 + n / 1 % 16 ≡ n = omega arith in
    add_pair-digits 256 0 (n / 16 % 16) (n / 1 % 16) rest (omega arith) (omega arith) (omega arith)
    ∙ ap (λ v. ok (v, rest)) whole

next_half-hex : (n : ℕ) (rest : List ℕ) → n < u16_mod → next_half (hex 4 n ++ rest) ≡ ok (n, rest)
unfolding next_half hex
next_half-hex n rest h =
    let high = n / 256 * 256 in
    let whole : 0 + high + n / 16 % 16 * 16 + n / 1 % 16 ≡ n = omega arith in
    rw
      (add_shifted-digits u16_mod 0 8 (n / 4096 % 16) (n / 256 % 16) high _ (omega arith)
        (omega arith) (omega arith) (omega arith) (omega arith))
      (add_pair-digits u16_mod (0 + high) (n / 16 % 16) (n / 1 % 16) rest (omega arith)
          (omega arith) (omega arith)
        ∙ ap (λ v. ok (v, rest)) whole)

next_word-hex : (n : ℕ) (rest : List ℕ) → n < u32_mod → next_word (hex 8 n ++ rest) ≡ ok (n, rest)
unfolding next_word hex
next_word-hex n rest h =
    let v0 = n / 0x100_0000 * 0x100_0000 in
    let v1 = n / 0x1_0000 % 256 * 0x1_0000 in
    let v2 = n / 256 % 256 * 256 in
    let whole : 0 + v0 + v1 + v2 + n / 16 % 16 * 16 + n / 1 % 16 ≡ n = omega arith in
    rw
      (
        add_shifted-digits u32_mod 0 24 (n / 0x1000_0000 % 16) (n / 0x100_0000 % 16) v0 _
            (omega arith) (omega arith) (omega arith) (omega arith) (omega arith),
        add_shifted-digits u32_mod (0 + v0) 16 (n / 0x10_0000 % 16) (n / 0x1_0000 % 16) v1 _
            (omega arith) (omega arith) (omega arith) (omega arith) (omega arith),
        add_shifted-digits u32_mod (0 + v0 + v1) 8 (n / 4096 % 16) (n / 256 % 16) v2 _ (omega arith)
            (omega arith) (omega arith) (omega arith) (omega arith),
      )
      (add_pair-digits u32_mod (0 + v0 + v1 + v2) (n / 16 % 16) (n / 1 % 16) rest (omega arith)
          (omega arith) (omega arith)
        ∙ ap (λ v. ok (v, rest)) whole)

length-hex : (width n : ℕ) → length (hex width n) ≡ width
unfolding hex
length-hex zero n = refl
length-hex (suc width) n = ap suc (length-hex width n)

dash-next : (rest : List ℕ) → dash (0x2D ∷ rest) ≡ ok rest
unfolding dash next_byte
dash-next rest = refl

-- The last field by its bytes.
record Eight (bs : List ℕ) : Type 0 where
  same :
      bs
      ≡ get_or bs 0 0
        ∷ get_or bs 1 0
        ∷ get_or bs 2 0
        ∷ get_or bs 3 0
        ∷ get_or bs 4 0
        ∷ get_or bs 5 0
        ∷ get_or bs 6 0
        ∷ get_or bs 7 0
        ∷ []
  small : (i : ℕ) → get_or bs i 0 < 256

get_or-small : (bs : List ℕ) (i : ℕ) → All (λ b. b < 256) bs → get_or bs i 0 < 256
get_or-small [] i h = omega arith
get_or-small (b ∷ bs) zero (p, h) = p
get_or-small (b ∷ bs) (suc i) (p, h) = get_or-small bs i h

bytes-Eight : (bs : List ℕ) → length bs ≡ 8 → All (λ b. b < 256) bs → Eight bs
bytes-Eight (a ∷ b ∷ c ∷ d ∷ e ∷ f ∷ g ∷ h ∷ []) eight small = record {
  same = refl;
  small = λ i. get_or-small (a ∷ b ∷ c ∷ d ∷ e ∷ f ∷ g ∷ h ∷ []) i small;
}
bytes-Eight _ eight small = absurd (omega arith)

length-fmt : (guid : Guid) → length (fmt guid) ≡ 36
unfolding fmt
length-fmt guid = simp (length-append, length-hex) refl

-- A guid whose fields fit their types is read back from its text form.
pub from-fmt : (guid : Guid) → Fits guid → from (fmt guid) ≡ ok guid
unfolding from fmt
from-fmt guid fits =
    let bytes = bytes-Eight guid.data4 fits.eight fits.bytes in
    let sized : (length (fmt guid) == 36) ≡ true = rw (length-fmt guid) refl in
    let small = bytes.small in
    rw
      (
        sized,
        next_word-hex guid.data1 _ fits.word,
        dash-next,
        next_half-hex guid.data2 _ fits.half,
        dash-next,
        next_half-hex guid.data3 _ fits.half',
        dash-next,
        next_pair-hex (byte_of guid 0) _ (small 0),
        next_pair-hex (byte_of guid 1) _ (small 1),
        dash-next,
        next_pair-hex (byte_of guid 2) _ (small 2),
        next_pair-hex (byte_of guid 3) _ (small 3),
        next_pair-hex (byte_of guid 4) _ (small 4),
        next_pair-hex (byte_of guid 5) _ (small 5),
        next_pair-hex (byte_of guid 6) _ (small 6),
        last_pair,
      )
      (rw (← bytes.same) refl)
  where
    last_pair : next_pair (hex 2 (byte_of guid 7)) ≡ ok (byte_of guid 7, [])
    last_pair =
        rw (append_nil (hex 2 (byte_of guid 7))) at
          (next_pair-hex (byte_of guid 7) [] (get_or-small guid.data4 7 fits.bytes))
