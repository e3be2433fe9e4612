-- ===== src/Rest/User.antt =====
-- lib/rest/account.go: what accountFromWire makes of the answer of GetAccount.
use mezon_go_sdk_turbo.Prelude.{
  ℕ, ◌==◌, ◌≡◌, refl, sym, ap, ◌∙◌, Bool, false, List, [], ◌∷◌, ◌++◌, none, Bytes, IsU64, All,
  All-of_every, All-append, drop-append, length, is_empty, format_uint, arith, if◌then◌else◌,
}
use mathlib.Core.List.{append-nil}
use mezon_go_sdk_turbo.Proto.{ProtoWire, IsProtoWire, varint_type, bytes_type}
use mezon_go_sdk_turbo.Ws.View.{number-IsPart, small-IsNumber, or_empty}
use mezon_go_sdk_turbo.Ws.Fields.{
  Field, varint_field, bytes_field, IsField, encode, encode_all, visit_all, encode-varint,
  encode-bytes,
}
use mezon_go_sdk_turbo.Ws.Parts.{
  Part, number, text, parts_fields, append_parts, append_parts-fields, parts_fields-IsField,
}
use mezon_go_sdk_turbo.Ws.Channel.{goes, rounds}
use mezon_go_sdk_turbo.Ws.Rounds.{and_false, rounds-encode_all, rounds_done}
use mezon_go_sdk_turbo.Rest.Account.{
  Account, FieldVisitor, no_account, visit_user, fields_field, fields_round, walk_fields,
  visit_account, or_no_account, account_from_wire,
}

-- What a visitor of walkFields does at a field.
abbrev pub visit_typed : {S : Type 0} → FieldVisitor S → Field → S → S
visit_typed visit (varint_field num v) s = visit num varint_type [] v s
visit_typed visit (bytes_field num b) s = visit num bytes_type b 0 s

-- What the server tells of a user.
pub record UserDesc : Type 0 where
  pub number : ℕ
  pub username : Bytes
  pub display_name : Bytes
  pub avatar : Bytes

abbrev pub user_parts : UserDesc → List Part
user_parts d = number 1 d.number ∷ text 2 d.username ∷ text 3 d.display_name ∷ text 4 d.avatar ∷ []

abbrev pub account_of : UserDesc → Account
account_of d = record {
  user_id = if d.number == 0 then [] else format_uint d.number;
  username = d.username;
  display_name = d.display_name;
}

-- A field of an Account that is not its user.
abbrev pub IsOther : Field → Type 0
IsOther (varint_field num v) = Unit {0}
IsOther (bytes_field num b) = (num == 1) ≡ false

module _ ⦃w : ProtoWire⦄ where
  -- The answer of GetAccount, with the fields before and after the user.
  unfoldable pub account_answer : List Field → UserDesc → List Field → Bytes
  account_answer before d after =
      encode_all (before ++ (bytes_field 1 (append_parts [] (user_parts d)) ∷ after))

visit_all-append :
    {S : Type 0} (visit : Field → S → S) (fs gs : List Field) (s : S)
    → visit_all visit (fs ++ gs) s ≡ visit_all visit gs (visit_all visit fs s)
visit_all-append visit [] gs s = refl
visit_all-append visit (f ∷ fs) gs s = visit_all-append visit fs gs (visit f s)

visits_user :
    (d : UserDesc) (a b c e : Bool)
    → visit_all
        (visit_typed visit_user)
        ((if a then [] else varint_field 1 d.number ∷ [])
          ++ ((if b then [] else bytes_field 2 d.username ∷ [])
              ++ ((if c then [] else bytes_field 3 d.display_name ∷ [])
                  ++ ((if e then [] else bytes_field 4 d.avatar ∷ []) ++ []))))
        no_account
      ≡ record {
        user_id = if a then [] else format_uint d.number;
        username = if b then [] else d.username;
        display_name = if c then [] else d.display_name;
      }
unfolding visit_user
visits_user d a b c e = ground arith

module _ ⦃w : ProtoWire⦄ (laws : IsProtoWire w) where
  fields_round-encode :
      {S : Type 0} (visit : FieldVisitor S) (f : Field) (rest : Bytes) (s : S)
      → IsField f
      → Unit {0}
      → fields_round visit (encode f ++ rest) s ≡ goes rest (visit_typed visit f s)
  unfolding fields_round fields_field
  fields_round-encode visit (varint_field num v) rest s h u =
      rw
        (
          encode-varint laws num v rest,
          laws.read_tag num varint_type (w.append_varint [] v ++ rest) h.0 (omega arith),
          drop-append (w.append_tag [] num varint_type) (w.append_varint [] v ++ rest),
          laws.read_varint v rest h.1,
          drop-append (w.append_varint [] v) rest,
        )
        refl
  fields_round-encode visit (bytes_field num b) rest s h u =
      rw
        (
          encode-bytes laws num b rest,
          laws.read_tag num bytes_type (w.append_bytes [] b ++ rest) h.0 (omega arith),
          drop-append (w.append_tag [] num bytes_type) (w.append_bytes [] b ++ rest),
          laws.read_bytes b rest,
          drop-append (w.append_bytes [] b) rest,
        )
        refl

  walk_fields-encode_all :
      {S : Type 0} (visit : FieldVisitor S) (fs : List Field) (s : S)
      → All IsField fs
      → walk_fields visit (encode_all fs) s ≡ (visit_all (visit_typed visit) fs s, none)
  unfolding walk_fields
  walk_fields-encode_all visit fs s h =
      let whole = append-nil (encode_all fs) in
      let (left, (enough, e)) =
        rounds-encode_all laws (fields_round visit) (λ s. (s, none)) (visit_typed visit)
          (λ f. Unit {0}) fs [] (length (encode_all fs)) s (fields_round-encode visit) h
          (All-of_every _ (λ f. tt) fs) (omega (arith, ap length whole)) in
      ap (λ b. rounds (fields_round visit) (λ s. (s, none)) (length (encode_all fs)) b s)
        (sym whole)
      ∙ e
      ∙ rounds_done (fields_round visit) (λ s. (s, none)) left (visit_all (visit_typed visit) fs s)

  visit_account-other :
      (fs : List Field) (acc : Account)
      → All IsOther fs
      → visit_all (visit_typed visit_account) fs acc ≡ acc
  unfolding visit_account
  visit_account-other [] acc h = refl
  visit_account-other (varint_field num v ∷ fs) acc h =
      rw (and_false (num == 1)) (visit_account-other fs acc h.1)
  visit_account-other (bytes_field num b ∷ fs) acc h = rw h.0 (visit_account-other fs acc h.1)

  walk_fields-user_parts :
      (d : UserDesc)
      → IsU64 d.number
      → walk_fields visit_user (append_parts [] (user_parts d)) no_account ≡ (account_of d, none)
  walk_fields-user_parts d u =
      ap (λ b. walk_fields visit_user b no_account) (append_parts-fields laws [] (user_parts d))
      ∙ walk_fields-encode_all visit_user (parts_fields (user_parts d)) no_account (
          parts_fields-IsField (user_parts d) (
            number-IsPart 1 d.number (omega arith) (omega arith) u,
            (
              (small-IsNumber 2 (omega arith) (omega arith), tt),
              (
                (small-IsNumber 3 (omega arith) (omega arith), tt),
                ((small-IsNumber 4 (omega arith) (omega arith), tt), tt),
              ),
            ),
          ))
      ∙ ap (λ acc. (acc, none))
          (visits_user d (d.number == 0) (is_empty d.username) (is_empty d.display_name)
            (is_empty d.avatar))
      ∙ rw (or_empty d.username, or_empty d.display_name) refl

  visit_account-user :
      (d : UserDesc)
      → IsU64 d.number
      → visit_typed visit_account (bytes_field 1 (append_parts [] (user_parts d))) no_account
        ≡ account_of d
  unfolding visit_account
  visit_account-user d u = ap (λ r. r.0) (walk_fields-user_parts d u)

  -- With a protowire that keeps its documented laws: GetAccount, on an answer of fields of which
  -- one is the user, gives the id, the username and the display name of that user, with no id where
  -- it is 0, and no error.
  pub account_from_wire-account_answer :
      (before : List Field) (d : UserDesc) (after : List Field)
      → All IsField before
      → All IsField after
      → All IsOther before
      → All IsOther after
      → IsU64 d.number
      → account_from_wire (account_answer before d after) ≡ (account_of d, none)
  unfolding account_from_wire account_answer
  account_from_wire-account_answer before d after hb ha ob oa u =
      let user = bytes_field 1 (append_parts [] (user_parts d)) in
      ap or_no_account (
        walk_fields-encode_all visit_account (before ++ (user ∷ after)) no_account (
          All-append IsField before (user ∷ after) hb
            ((small-IsNumber 1 (omega arith) (omega arith), tt), ha))
        ∙ ap (λ acc. (acc, none))
            (visit_all-append (visit_typed visit_account) before (user ∷ after) no_account
              ∙ ap (visit_all (visit_typed visit_account) (user ∷ after))
                  (visit_account-other before no_account ob)
              ∙ ap (visit_all (visit_typed visit_account) after) (visit_account-user d u)
              ∙ visit_account-other after (account_of d) oa))
