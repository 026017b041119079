-- ===== src/Ids/Shape.antt =====
-- internal/ids/uuid.go: an id that is made has the shape that is checked.
use sparks_effect_api.Prelude.{
  ℕ, zero, suc, ◌+◌, ◌-◌, ◌*◌, ◌/◌, ◌%◌, ◌≤◌, ◌<◌, List, [], ◌∷◌, ◌++◌, length, length-append, Str,
  true, false, drop, All, All-take, All-drop, length-take, length-drop, ◌≡◌, refl, ap, ◌∙◌, sym,
  arith,
}
use mathlib.Core.List.{append-nil}
use sparks_effect_api.Ids.{
  hex_digit, encode_hex, set_byte, slice, new_uuid, is_hex, is_hyphen_at, has_shape, is_uuid,
}

abbrev AllHex : Str → Type 0
AllHex = All (λ c. is_hex c ≡ true)

abbrev pub AreBytes : List ℕ → Type 0
AreBytes = All (λ b. b < 256)

hex_digit-is_hex : (d : ℕ) → d < 16 → is_hex (hex_digit d) ≡ true
unfolding hex_digit is_hex
hex_digit-is_hex d h = ground arith

encode_hex-AllHex : (bs : List ℕ) → AreBytes bs → AllHex (encode_hex bs)
unfolding encode_hex
encode_hex-AllHex [] h = tt
encode_hex-AllHex (b ∷ bs) h = (
  hex_digit-is_hex (b / 16) (omega (arith, h.0)),
  (hex_digit-is_hex (b % 16) (omega arith), encode_hex-AllHex bs h.1),
)

length-encode_hex : (bs : List ℕ) → length (encode_hex bs) ≡ 2 * length bs
unfolding encode_hex
length-encode_hex [] = refl
length-encode_hex (b ∷ bs) = omega (arith, length-encode_hex bs)

length-set_byte : (i : ℕ) (f : ℕ → ℕ) (bs : List ℕ) → length (set_byte i f bs) ≡ length bs
unfolding set_byte
length-set_byte i f [] = refl
length-set_byte zero f (b ∷ bs) = refl
length-set_byte (suc i) f (b ∷ bs) = ap suc (length-set_byte i f bs)

set_byte-AreBytes :
    (i : ℕ) (f : ℕ → ℕ) (bs : List ℕ)
    → ((b : ℕ) → f b < 256)
    → AreBytes bs
    → AreBytes (set_byte i f bs)
unfolding set_byte
set_byte-AreBytes i f [] small h = tt
set_byte-AreBytes zero f (b ∷ bs) small h = (small b, h.1)
set_byte-AreBytes (suc i) f (b ∷ bs) small h = (h.0, set_byte-AreBytes i f bs small h.1)

-- A run of hex digits between two hyphens.
has_shape-run :
    (i : ℕ) (s rest : Str)
    → AllHex s
    → ((j : ℕ) → i ≤ j → j < i + length s → is_hyphen_at j ≡ false)
    → has_shape i (s ++ rest) ≡ has_shape (i + length s) rest
unfolding has_shape
has_shape-run i [] rest h off = ap (λ k. has_shape k rest) (omega arith)
has_shape-run i (c ∷ s) rest h off =
    rw (off i (omega arith) (omega arith), h.0)
      (has_shape-run (suc i) s rest h.1 (λ j le lt. off j (omega arith) (omega arith))
        ∙ ap (λ k. has_shape k rest) (omega arith))

slice-AllHex : (from to : ℕ) (h : Str) → AllHex h → AllHex (slice from to h)
unfolding slice
slice-AllHex from to h all = All-take _ (to - from) (drop from h) (All-drop _ from h all)

length-slice :
    (from to : ℕ) (h : Str) → from ≤ to → to ≤ length h → length (slice from to h) ≡ to - from
unfolding slice
length-slice from to h le lt =
    length-take (to - from) (drop from h) (omega (arith, length-drop from h))

-- One group of the id, and the hyphen behind it.
has_shape-group :
    (i n : ℕ) (s rest : Str)
    → AllHex s
    → length s ≡ n
    → ((j : ℕ) → i ≤ j → j < i + n → is_hyphen_at j ≡ false)
    → is_hyphen_at (i + n) ≡ true
    → has_shape i (s ++ b'-' ∷ rest) ≡ has_shape (suc (i + n)) rest
unfolding has_shape
has_shape-group i n s rest hex len off at =
    has_shape-run i s (b'-' ∷ rest) hex (λ j le lt. off j le (omega arith))
    ∙ ap (λ k. has_shape (i + k) (b'-' ∷ rest)) len
    ∙ rw at refl

module _ (a b c d e : Str) (hex : AllHex a × AllHex b × AllHex c × AllHex d × AllHex e)
    (la : length a ≡ 8) (lb : length b ≡ 4) (lc : length c ≡ 4) (ld : length d ≡ 4)
    (le : length e ≡ 12) where
  whole : Str
  whole = a ++ b'-' ∷ (b ++ b'-' ∷ (c ++ b'-' ∷ (d ++ b'-' ∷ e)))

  length-whole : length whole ≡ 36
  unfolding whole
  length-whole = omega (
    arith,
    length-append a (b'-' ∷ (b ++ b'-' ∷ (c ++ b'-' ∷ (d ++ b'-' ∷ e)))),
    length-append b (b'-' ∷ (c ++ b'-' ∷ (d ++ b'-' ∷ e))),
    length-append c (b'-' ∷ (d ++ b'-' ∷ e)),
    length-append d (b'-' ∷ e),
  )

  last_group : has_shape 24 e ≡ true
  unfolding is_hyphen_at has_shape
  last_group =
      ap (has_shape 24) (sym (append-nil e))
      ∙ has_shape-run 24 e [] hex.4 (λ j low high. ground arith)

  has_shape-whole : has_shape 0 whole ≡ true
  unfolding whole is_hyphen_at
  has_shape-whole =
      has_shape-group 0 8 a (b ++ b'-' ∷ (c ++ b'-' ∷ (d ++ b'-' ∷ e))) hex.0 la
        (λ j low high. ground arith) refl
      ∙ has_shape-group 9 4 b (c ++ b'-' ∷ (d ++ b'-' ∷ e)) hex.1 lb (λ j low high. ground arith)
          refl
      ∙ has_shape-group 14 4 c (d ++ b'-' ∷ e) hex.2 lc (λ j low high. ground arith) refl
      ∙ has_shape-group 19 4 d e hex.3 ld (λ j low high. ground arith) refl
      ∙ last_group

  is_uuid-whole : is_uuid whole ≡ true
  unfolding is_uuid
  is_uuid-whole = rw (is_uuid, length-whole) has_shape-whole

-- The id made of any 16 bytes has the shape of an id.
pub new_uuid-is_uuid :
    (bytes : List ℕ) → length bytes ≡ 16 → AreBytes bytes → is_uuid (new_uuid bytes) ≡ true
unfolding new_uuid whole
new_uuid-is_uuid bytes len small =
    let version = λ (b : ℕ). b % 16 + 64 in
    let variant = λ (b : ℕ). b % 64 + 128 in
    let marked = set_byte 8 variant (set_byte 6 version bytes) in
    let h = encode_hex marked in
    let hex : AllHex h = encode_hex-AllHex marked (
      set_byte-AreBytes 8 variant (set_byte 6 version bytes) (λ b. omega arith)
        (set_byte-AreBytes 6 version bytes (λ b. omega arith) small)) in
    let long : length h ≡ 32 = omega (
      arith,
      length-encode_hex marked,
      length-set_byte 8 variant (set_byte 6 version bytes),
      length-set_byte 6 version bytes,
    ) in
    is_uuid-whole (slice 0 8 h) (slice 8 12 h) (slice 12 16 h) (slice 16 20 h) (slice 20 32 h)
      (
        slice-AllHex 0 8 h hex,
        slice-AllHex 8 12 h hex,
        slice-AllHex 12 16 h hex,
        slice-AllHex 16 20 h hex,
        slice-AllHex 20 32 h hex,
      )
      (length-slice 0 8 h (omega arith) (omega arith))
      (length-slice 8 12 h (omega arith) (omega arith))
      (length-slice 12 16 h (omega arith) (omega arith))
      (length-slice 16 20 h (omega arith) (omega arith))
      (length-slice 20 32 h (omega arith) (omega arith))
