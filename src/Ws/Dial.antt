-- ===== src/Ws/Dial.antt =====
-- lib/ws/conn.go: the address that Dial gives to the dialer, with url.QueryEscape, and Dial. The
-- dialer's handshake is a parameter, which answers the address of a Conn, or an error.
use mezon_go_sdk_turbo.Prelude.{
  ℕ, ◌+◌, ◌/◌, ◌%◌, ◌==◌, leb, ltb, String, Bool, ◌&&◌, ◌||◌, List, [], ◌∷◌, ◌++◌, Option, Bytes,
  ascii, if◌then◌else◌,
}
use mezon_go_sdk_turbo.State.{Result, ok, err}
use mezon_go_sdk_turbo.Proto.{ProtoWire}
use mezon_go_sdk_turbo.Ws.Conn.{Wire, dialed}

-- A letter, a digit, or one of - _ . ~
abbrev pub is_plain : ℕ → Bool
is_plain c =
    (leb 97 c && leb c 122)
    || (leb 65 c && leb c 90)
    || (leb 48 c && leb c 57)
    || (c == 45 || c == 95 || c == 46 || c == 126)

-- A digit of a number below 16, in upper case.
abbrev pub hex_digit : ℕ → ℕ
hex_digit n = if ltb n 10 then 48 + n else 55 + n

-- `url.QueryEscape`: a space is a plus sign, and other bytes are a percent sign and two digits.
unfoldable pub query_escape : Bytes → Bytes
query_escape [] = []
query_escape (c ∷ s) =
    let rest = query_escape s in
    if is_plain c
    then c ∷ rest
    else if c == 32
    then 43 ∷ rest
    else 37 ∷ hex_digit (c / 16) ∷ hex_digit (c % 16) ∷ rest

unfoldable pub endpoint : Bool → Bytes → Bytes → Bytes
unfolding query_escape ascii
endpoint ssl host token =
    (if ssl then ascii "wss" else ascii "ws")
    ++ ascii "://"
    ++ host
    ++ ascii "/ws?lang=en&status=true&token="
    ++ query_escape token
    ++ ascii "&format=protobuf"

module _ ⦃w : ProtoWire⦄ {F : Type 0} (write : ℕ → Bytes → F → Option String × F)
    (handshake : Bytes → F → Result ℕ × F) where
  -- After the handshake: the Conn, under its address, has asked for its clans.
  abbrev pub after_handshake : Bytes → List Bytes → Result ℕ × F → Result (ℕ × Wire F) × F
  after_handshake bot clan_ids (err e, s) = (err e, s)
  after_handshake bot clan_ids (ok c, s) =
      let x = dialed (write c) bot clan_ids s in (ok (c, x), x.far)

  unfoldable pub dial : Bytes → Bool → Bytes → Bytes → List Bytes → F → Result (ℕ × Wire F) × F
  unfolding endpoint dialed
  dial host ssl token bot clan_ids s =
      after_handshake bot clan_ids (handshake (endpoint ssl host token) s)
