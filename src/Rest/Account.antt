-- ===== src/Rest/Account.antt =====
-- lib/rest/account.go: walkFields and accountFromWire, which GetAccount ends with.
use mezon_go_sdk_turbo.Prelude.{
  ℕ, ◌==◌, ◌&&◌, [], Option, none, some, Bytes, drop, length, format_uint, if◌then◌else◌,
}
use mezon_go_sdk_turbo.Proto.{ProtoWire, Consumed, failed, took, varint_type, bytes_type}
use mezon_go_sdk_turbo.Ws.Channel.{Round, goes, returns, rounds}

pub record Account : Type 0 where
  pub user_id : Bytes
  pub username : Bytes
  pub display_name : Bytes

-- The errors of walkFields.
pub data FieldError : Type 0 where
  bad_wire_tag : FieldError
  bad_bytes_field bad_varint_field bad_other_field : ℕ → FieldError

-- `visit(num, typ, v, u)`, where `nil` is the empty slice.
abbrev pub FieldVisitor : Type 0 → Type 0
FieldVisitor S = ℕ → ℕ → Bytes → ℕ → S → S

-- A consume function with the round after it.
abbrev visited :
    {S A : Type 0}
    → FieldError
    → (A → S → S)
    → Bytes
    → S
    → Consumed A
    → Round S (S × Option FieldError)
visited bad change b s (failed err) = returns (s, some bad)
visited bad change b s (took a n) = goes (drop n b) (change a s)

abbrev pub no_account : Account
no_account = record { user_id = []; username = []; display_name = [] }

-- The visitor of a User.
unfoldable pub visit_user : FieldVisitor Account
visit_user num typ v u acc =
    if num == 1 && typ == varint_type
    then record acc { user_id = format_uint u }
    else if num == 2 && typ == bytes_type
    then record acc { username = v }
    else if num == 3 && typ == bytes_type
    then record acc { display_name = v }
    else acc

module _ ⦃w : ProtoWire⦄ where
  module _ {S : Type 0} (visit : FieldVisitor S) where
    unfoldable pub fields_field : ℕ → ℕ → Bytes → S → Round S (S × Option FieldError)
    fields_field num typ b s =
        if typ == bytes_type
        then visited (bad_bytes_field num) (λ v s. visit num typ v 0 s) b s (w.consume_bytes b)
        else if typ == varint_type
        then visited (bad_varint_field num) (λ u s. visit num typ [] u s) b s (w.consume_varint b)
        else visited (bad_other_field num) (λ u s. s) b s (w.consume_field_value num typ b)

    unfoldable pub fields_tagged : Bytes → S → Consumed (ℕ × ℕ) → Round S (S × Option FieldError)
    unfolding fields_field
    fields_tagged b s (failed err) = returns (s, some bad_wire_tag)
    fields_tagged b s (took (num, typ) n) = fields_field num typ (drop n b) s

    unfoldable pub fields_round : Bytes → S → Round S (S × Option FieldError)
    unfolding fields_tagged
    fields_round b s = fields_tagged b s (w.consume_tag b)

    -- `walkFields(b, visit)`: the variables of `visit`, and the error.
    unfoldable pub walk_fields : Bytes → S → S × Option FieldError
    unfolding rounds fields_round
    walk_fields b s = rounds fields_round (λ s. (s, none)) (length b) b s

  -- The visitor of an Account, which passes over an error inside the User.
  unfoldable pub visit_account : FieldVisitor Account
  unfolding walk_fields visit_user
  visit_account num typ v u acc =
      if num == 1 && typ == bytes_type then (walk_fields visit_user v acc).0 else acc

  -- `if err != nil { return Account{}, … }`
  abbrev pub or_no_account : Account × Option FieldError → Account × Option FieldError
  or_no_account (acc, none) = (acc, none)
  or_no_account (acc, some e) = (no_account, some e)

  unfoldable pub account_from_wire : Bytes → Account × Option FieldError
  unfolding walk_fields visit_account
  account_from_wire b = or_no_account (walk_fields visit_account b no_account)
