-- ===== src/Rest/Calls.antt =====
-- lib/rest: the calls of clans.go and account.go, from their arguments to their results. A request
-- goes to `post`, which answers a status and at most the first mebibytes of the body, or fails. The
-- headers Content-Type and Accept are the same for all.
use mezon_go_sdk_turbo.Prelude.{
  ℕ, ◌==◌, String, ◌&&◌, List, [], ◌∷◌, ◌++◌, ◌⊎◌, inl, inr, Option, none, some, Bytes, ascii,
  is_empty, Parsed, parsed, syntax_error, range_error, parse_uint, if◌then◌else◌,
}
use mezon_go_sdk_turbo.State.{Result, ok, err}
use mezon_go_sdk_turbo.Proto.{ProtoWire, varint_type}
use mezon_go_sdk_turbo.Rest.{
  Clan, Channel, WireError, channel_type_text, clans_of, channels_of, ids_of,
}
use mezon_go_sdk_turbo.Rest.Session.{Post}
use mezon_go_sdk_turbo.Rest.Account.{Account, FieldError, account_from_wire}

-- An error of the request, an HTTPError, or one of the arguments or the answer.
pub data CallError : Type 0 where
  unsent : String → CallError
  http_error : ℕ → Bytes → CallError
  bad_clan_id : CallError
  bad_answer : WireError → CallError
  bad_account : FieldError → CallError

-- `strings.TrimRight(s, "/")`
unfoldable pub trim_slashes : Bytes → Bytes
trim_slashes [] = []
trim_slashes (c ∷ s) =
    let rest = trim_slashes s in if is_empty rest && c == 47 then [] else c ∷ rest

unfoldable pub base_of : Bytes → Bytes → Bytes
unfolding trim_slashes
base_of base_path base_url =
    let base = trim_slashes base_url in if is_empty base then base_path else base

unfoldable pub rpc_post : Bytes → Bytes → Bytes → Bytes → Bytes → Post
unfolding base_of ascii
rpc_post base_path base_url token method body = record {
  url = base_of base_path base_url ++ (ascii "/mezon.api.Mezon/" ++ method);
  authorization = ascii "Bearer " ++ token;
  body = body;
}

-- What rpc makes of an answer.
unfoldable pub payload_of : Result (ℕ × Bytes) → CallError ⊎ Bytes
payload_of (err e) = inl (unsent e)
payload_of (ok (status, payload)) =
    if status == 200 then inr payload else inl (http_error status payload)

abbrev or_error : {A : Type 0} → A × Option WireError → CallError ⊎ A
or_error (xs, none) = inr xs
or_error (xs, some e) = inl (bad_answer e)

abbrev or_bad_account : Account × Option FieldError → CallError ⊎ Account
or_bad_account (acc, none) = inr acc
or_bad_account (acc, some e) = inl (bad_account e)

-- A payload, or the error of the call.
abbrev pub on_payload : {A : Type 0} → (Bytes → CallError ⊎ A) → CallError ⊎ Bytes → CallError ⊎ A
on_payload read (inl e) = inl e
on_payload read (inr payload) = read payload

module _ ⦃w : ProtoWire⦄ {W : Type 0} (post : Post → W → Result (ℕ × Bytes) × W)
    (base_path : Bytes) where
  unfoldable pub rpc : Bytes → Bytes → Bytes → Bytes → W → (CallError ⊎ Bytes) × W
  unfolding rpc_post payload_of
  rpc base_url token method body s =
      let r = post (rpc_post base_path base_url token method body) s in (payload_of r.0, r.1)

  unfoldable pub list_clans : Bytes → Bytes → W → (CallError ⊎ List Clan) × W
  unfolding rpc clans_of ascii
  list_clans base_url token s =
      let r = rpc base_url token (ascii "ListClanDescs") [] s in
      (on_payload (λ b. or_error (clans_of b)) r.0, r.1)

  abbrev ids : CallError ⊎ List Clan → CallError ⊎ List Bytes
  ids (inl e) = inl e
  ids (inr clans) = inr (ids_of clans)

  unfoldable pub list_clan_ids : Bytes → Bytes → W → (CallError ⊎ List Bytes) × W
  unfolding list_clans ids_of
  list_clan_ids base_url token s = let r = list_clans base_url token s in (ids r.0, r.1)

  -- The request of ListChannels: the clan, and the type of the channels.
  unfoldable pub channels_request : ℕ → Bytes
  channels_request cid =
      let req = w.append_varint (w.append_tag [] 4 varint_type) cid in
      w.append_varint (w.append_tag req 5 varint_type) channel_type_text

  abbrev channels_by_id : Bytes → Bytes → Parsed → W → (CallError ⊎ List Channel) × W
  channels_by_id base_url token syntax_error s = (inl bad_clan_id, s)
  channels_by_id base_url token range_error s = (inl bad_clan_id, s)
  channels_by_id base_url token (parsed cid) s =
      let r = rpc base_url token (ascii "ListChannelDescs") (channels_request cid) s in
      (on_payload (λ b. or_error (channels_of b)) r.0, r.1)

  unfoldable pub list_channels : Bytes → Bytes → Bytes → W → (CallError ⊎ List Channel) × W
  unfolding rpc channels_of channels_request ascii parse_uint
  list_channels base_url token clan_id s = channels_by_id base_url token (parse_uint clan_id) s

  unfoldable pub get_account : Bytes → Bytes → W → (CallError ⊎ Account) × W
  unfolding rpc_post payload_of account_from_wire ascii
  get_account base_url token s =
      let r = post (rpc_post base_path base_url token (ascii "GetAccount") []) s in
      (on_payload (λ b. or_bad_account (account_from_wire b)) (payload_of r.0), r.1)
