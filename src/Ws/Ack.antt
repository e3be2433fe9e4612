-- ===== src/Ws/Ack.antt =====
-- lib/ws/ack.go: replies to requests with a cid.
use mezon_go_sdk_turbo.Prelude.{
  ℕ, ◌==◌, Bool, true, false, ◌&&◌, [], ◌++◌, none, some, Bytes, Parsed, parsed, syntax_error,
  range_error, parse_uint, format_uint, if◌then◌else◌,
}
use mezon_go_sdk_turbo.Proto.{ProtoWire}
use mezon_go_sdk_turbo.Ws.Wire.{env_error, append_varint_field}
use mezon_go_sdk_turbo.Ws.Walk.{Visitor, walk_varints}

abbrev pub env_channel_message_ack : ℕ
env_channel_message_ack = 7

pub record Ack : Type 0 where
  pub cid : ℕ
  pub message_id : Bytes
  pub err : Bool

-- The variables of DecodeAck.
pub record Reply : Type 0 where
  pub ack : Ack
  pub has_cid : Bool
  pub has_reply : Bool

abbrev pub no_reply : Reply
no_reply = record {
  ack = record { cid = 0; message_id = []; err = false };
  has_cid = false;
  has_reply = false;
}

unfoldable pub set_cid : ℕ → Reply → Reply
set_cid v r = record { ack = record r.ack { cid = v }; has_cid = true; has_reply = r.has_reply }

-- A cid in a string, which is dropped where it is not a number.
unfoldable pub cid_of_string : Parsed → Reply → Reply
unfolding set_cid
cid_of_string (parsed v) r = set_cid v r
cid_of_string syntax_error r = r
cid_of_string range_error r = r

-- The visitor of the channel_message_ack, on the message id.
unfoldable pub visit_ack : Visitor Bytes
visit_ack f fv none id = if f == 2 then format_uint fv else id
visit_ack f fv (some fs) id = if f == 2 then fs else id

module _ ⦃w : ProtoWire⦄ where
  acked : Bytes → Reply → Reply
  unfolding walk_varints visit_ack
  acked sub r = record {
    ack = record r.ack { message_id = walk_varints sub visit_ack r.ack.message_id };
    has_cid = r.has_cid;
    has_reply = true;
  }

  refused : Reply → Reply
  refused r = record { ack = record r.ack { err = true }; has_cid = r.has_cid; has_reply = true }

  -- The switch of DecodeAck.
  unfoldable pub visit_reply : Visitor Reply
  unfolding set_cid cid_of_string acked refused
  visit_reply num v none r = if num == 1 then set_cid v r else r
  visit_reply num v (some sub) r =
      if num == 1
      then cid_of_string (parse_uint sub) r
      else if num == env_channel_message_ack
      then acked sub r
      else if num == env_error
      then refused r
      else r

  unfoldable pub decode_ack : Bytes → Ack × Bool
  unfolding walk_varints visit_reply
  decode_ack frame =
      let r = walk_varints frame visit_reply no_reply in (r.ack, r.has_cid && r.has_reply)

  unfoldable pub with_cid : ℕ → Bytes → Bytes
  with_cid cid env = append_varint_field [] 1 cid ++ env
