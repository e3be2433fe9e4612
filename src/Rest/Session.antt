-- ===== src/Rest/Session.antt =====
-- lib/rest/rest.go: Session and Authenticate. The request, with its body and its header, goes to
-- `post`, which answers a status and at most the first mebibyte of the body, or fails; `unmarshal`
-- is json.Unmarshal into the anonymous struct.
use mezon_go_sdk_turbo.Prelude.{
  ℕ, ◌+◌, ◌-◌, ◌*◌, ◌/◌, ◌%◌, ◌==◌, ltb, [], ◌∷◌, ◌++◌, Bytes, ascii, is_empty, if◌then◌else◌,
}
use mezon_go_sdk_turbo.State.{Result, ok, err}
use mezon_go_sdk_turbo.Ws.Json.{quote}

pub record Session : Type 0 where
  pub token : Bytes
  pub refresh_token : Bytes
  pub user_id : Bytes
  pub api_url : Bytes
  pub ws_url : Bytes

-- The anonymous struct; the fields with a C hold the spelling in camel case.
pub record SessionAnswer : Type 0 where
  pub token : Bytes
  pub refresh_token : Bytes
  pub refresh_token_c : Bytes
  pub user_id : Bytes
  pub user_id_c : Bytes
  pub api_url : Bytes
  pub ws_url : Bytes

-- A request with its URL, the value of its Authorization header, and its body.
pub record Post : Type 0 where
  pub url : Bytes
  pub authorization : Bytes
  pub body : Bytes

-- base64.StdEncoding
abbrev digit : ℕ → ℕ
digit n =
    if ltb n 26
    then 65 + n
    else if ltb n 52
    then 71 + n
    else if ltb n 62
    then n - 4
    else if n == 62
    then 43
    else 47

unfoldable pub base64 : Bytes → Bytes
base64 [] = []
base64 (a ∷ []) = digit (a / 4) ∷ digit ((a % 4) * 16) ∷ 61 ∷ 61 ∷ []
base64 (a ∷ b ∷ []) = digit (a / 4) ∷ digit ((a % 4) * 16 + b / 16) ∷ digit ((b % 16) * 4) ∷ 61 ∷ []
base64 (a ∷ b ∷ c ∷ s) =
    digit (a / 4)
    ∷ digit ((a % 4) * 16 + b / 16)
    ∷ digit ((b % 16) * 4 + c / 64)
    ∷ digit (c % 64)
    ∷ base64 s

unfoldable pub auth_post : Bytes → Bytes → Bytes → Post
unfolding base64 ascii quote
auth_post base_path app_id api_key = record {
  url = base_path ++ ascii "/v2/apps/authenticate/token";
  authorization = ascii "Basic " ++ base64 (app_id ++ (58 ∷ api_key));
  body =
      ascii "{\"account\":{\"appid\":"
      ++ (quote app_id ++ (ascii ",\"token\":" ++ (quote api_key ++ ascii "}}")));
}

-- `if s == "" { s = t }`
abbrev pub or_else : Bytes → Bytes → Bytes
or_else s t = if is_empty s then t else s

-- What Authenticate makes of the struct.
unfoldable pub session_of : SessionAnswer → Result Session
session_of a =
    if is_empty a.token
    then err "authenticate: response carried no session token"
    else ok (record {
      token = a.token;
      refresh_token = or_else a.refresh_token a.refresh_token_c;
      user_id = or_else a.user_id a.user_id_c;
      api_url = a.api_url;
      ws_url = a.ws_url;
    })

abbrev pub unmarshaled : Result SessionAnswer → Result Session
unmarshaled (err e) = err e
unmarshaled (ok a) = session_of a

module _ {W : Type 0} (unmarshal : Bytes → Result SessionAnswer)
    (post : Post → W → Result (ℕ × Bytes) × W) where
  abbrev posted : Result (ℕ × Bytes) × W → Result Session × W
  posted (err e, s) = (err e, s)
  posted (ok (status, payload), s) =
      (if status == 200 then unmarshaled (unmarshal payload) else err "authenticate: HTTP", s)

  unfoldable pub authenticate : Bytes → Bytes → Bytes → W → Result Session × W
  unfolding session_of auth_post
  authenticate base_path app_id api_key s = posted (post (auth_post base_path app_id api_key) s)
