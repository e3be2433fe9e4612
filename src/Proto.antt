-- ===== src/Proto.antt =====
-- google.golang.org/protobuf/encoding/protowire as lib/ws uses it: a parameter. An append function
-- extends its argument. A consume function answers a value and the number of bytes it took, or a
-- negative number, whose error ParseError gives: here `failed` with the error.
use mezon_go_sdk_turbo.Prelude.{ℕ, ◌≤◌, ◌<◌, ◌^◌, ◌≡◌, ◌++◌, [], Bytes, IsU64, length, String}

pub data Consumed (A : Type 0) : Type 0 where
  failed : String → Consumed A
  took : A → ℕ → Consumed A

-- `VarintType` and `BytesType`.
abbrev pub varint_type : ℕ
varint_type = 0

abbrev pub bytes_type : ℕ
bytes_type = 2

-- AppendString is `append_bytes`, and ConsumeString `consume_bytes`: a string is its bytes.
pub record ProtoWire : Type 0 where
  pub append_tag : Bytes → ℕ → ℕ → Bytes
  pub append_varint : Bytes → ℕ → Bytes
  pub append_bytes : Bytes → Bytes → Bytes
  pub consume_tag : Bytes → Consumed (ℕ × ℕ)
  pub consume_varint : Bytes → Consumed ℕ
  pub consume_bytes : Bytes → Consumed Bytes
  pub consume_field_value : ℕ → ℕ → Bytes → Consumed (Unit {0})

-- A field number is between 1 and 2 ^ 29 - 1.
pub record IsNumber (num : ℕ) : Type 0 where
  pub positive : 1 ≤ num
  pub bounded : num < 2 ^ 29

-- The documented behaviour: an append function appends, a consume function reads back what the
-- append function wrote and leaves what follows, and a tag has at least one byte. A field value is
-- what the function for its type consumes. Types are below 8.
pub record IsProtoWire (w : ProtoWire) : Type 0 where
  pub tag : (b : Bytes) (num typ : ℕ) → w.append_tag b num typ ≡ b ++ w.append_tag [] num typ
  pub varint : (b : Bytes) (v : ℕ) → w.append_varint b v ≡ b ++ w.append_varint [] v
  pub bytes : (b s : Bytes) → w.append_bytes b s ≡ b ++ w.append_bytes [] s
  pub read_tag :
      (num typ : ℕ) (rest : Bytes)
      → IsNumber num
      → typ < 8
      → w.consume_tag (w.append_tag [] num typ ++ rest)
        ≡ took (num, typ) (length (w.append_tag [] num typ))
  pub read_varint :
      (v : ℕ) (rest : Bytes)
      → IsU64 v
      → w.consume_varint (w.append_varint [] v ++ rest) ≡ took v (length (w.append_varint [] v))
  pub read_bytes :
      (s rest : Bytes)
      → w.consume_bytes (w.append_bytes [] s ++ rest) ≡ took s (length (w.append_bytes [] s))
  pub skip_varint :
      (num v n : ℕ) (b : Bytes)
      → w.consume_varint b ≡ took v n
      → w.consume_field_value num varint_type b ≡ took tt n
  pub skip_bytes :
      (num n : ℕ) (s b : Bytes)
      → w.consume_bytes b ≡ took s n
      → w.consume_field_value num bytes_type b ≡ took tt n
  pub tag_takes : (b : Bytes) (num typ n : ℕ) → w.consume_tag b ≡ took (num, typ) n → 1 ≤ n
