-- ===== src/Ids.antt =====
-- internal/ids/uuid.go: making an id from random bytes, and which strings have an id's shape.
pub mod Shape
use sparks_effect_api.Prelude.{
  ℕ, zero, suc, ◌+◌, ◌-◌, ◌/◌, ◌%◌, List, [], ◌∷◌, ◌++◌, length, Str, Bool, true, false, ◌&&◌, ◌||◌,
  leb, ltb, nat_eq, if◌then◌else◌, take, drop,
}

unfoldable pub hex_digit : ℕ → ℕ
hex_digit d = if ltb d 10 then b'0' + d else b'a' + (d - 10)

-- `hex.EncodeToString`
unfoldable pub encode_hex : List ℕ → Str
unfolding hex_digit
encode_hex [] = []
encode_hex (b ∷ bs) = hex_digit (b / 16) ∷ hex_digit (b % 16) ∷ encode_hex bs

-- `b[i] = f(b[i])`
unfoldable pub set_byte : ℕ → (ℕ → ℕ) → List ℕ → List ℕ
set_byte i f [] = []
set_byte zero f (b ∷ bs) = f b ∷ bs
set_byte (suc i) f (b ∷ bs) = b ∷ set_byte i f bs

-- `s[from:to]`
unfoldable pub slice : ℕ → ℕ → Str → Str
slice from to s = take (to - from) (drop from s)

-- `NewUUID` on the 16 random bytes: `b & 0x0f` is b % 16, and the bits that are set are then free.
unfoldable pub new_uuid : List ℕ → Str
unfolding encode_hex set_byte slice
new_uuid bytes =
    let h = encode_hex (set_byte 8 (λ b. b % 64 + 128) (set_byte 6 (λ b. b % 16 + 64) bytes)) in
    slice 0 8 h
    ++ b'-'
      ∷ (slice 8 12 h ++ b'-' ∷ (slice 12 16 h ++ b'-' ∷ (slice 16 20 h ++ b'-' ∷ slice 20 32 h)))

unfoldable pub is_hex : ℕ → Bool
is_hex c = (leb b'0' c && leb c b'9') || (leb b'a' c && leb c b'f') || (leb b'A' c && leb c b'F')

unfoldable pub is_hyphen_at : ℕ → Bool
is_hyphen_at i = nat_eq i 8 || nat_eq i 13 || nat_eq i 18 || nat_eq i 23

-- The loop of `IsUUID`, from the index `i`.
unfoldable pub has_shape : ℕ → Str → Bool
unfolding is_hex is_hyphen_at
has_shape i [] = true
has_shape i (c ∷ s) = (if is_hyphen_at i then nat_eq c b'-' else is_hex c) && has_shape (suc i) s

unfoldable pub is_uuid : Str → Bool
unfolding has_shape
is_uuid s = if nat_eq (length s) 36 then has_shape 0 s else false
