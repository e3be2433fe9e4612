-- ===== src/Rest/Tests.antt =====
-- lib/rest on concrete answers, here ones with two clans and one without an id.
use mezon_go_sdk_turbo.Prelude.{◌≡◌, refl, arith, List, [], ◌∷◌, none, ascii}
use mezon_go_sdk_turbo.Ws.Leb.{leb_wire, leb_wire-IsProtoWire}
use mezon_go_sdk_turbo.Rest.{clans_of, channels_of}
use mezon_go_sdk_turbo.Rest.Channels.{
  ChannelDesc, listed_channels, channels_answer, channels_of-channels_answer,
}
use mezon_go_sdk_turbo.Rest.Answers.{ClanDesc, listed, clans_answer, clans_of-clans_answer}
use mezon_go_sdk_turbo.Rest.Account.{account_from_wire}
use mezon_go_sdk_turbo.Rest.User.{
  UserDesc, account_of, account_answer, account_from_wire-account_answer,
}
use mezon_go_sdk_turbo.Ws.View.{small-IsNumber}
use mezon_go_sdk_turbo.Ws.Fields.{Field, varint_field, bytes_field}

abbrev clans : List ClanDesc
clans =
    record { creator = 900; number = 111; name = ascii "one" }
    ∷ record { creator = 900; number = 0; name = ascii "none" }
    ∷ record { creator = 901; number = 222; name = [] }
    ∷ []

clans_of-clans_answer_example : clans_of (clans_answer clans) ≡ (listed clans, none)
clans_of-clans_answer_example =
    clans_of-clans_answer leb_wire-IsProtoWire clans
      ((omega arith, omega arith), ((omega arith, omega arith), ((omega arith, omega arith), tt)))

-- A text channel, one of another type, and one whose type is not sent.
abbrev channels : List ChannelDesc
channels =
    record { number = 7; kind = 1; label = ascii "general" }
    ∷ record { number = 8; kind = 4; label = ascii "voice" }
    ∷ record { number = 9; kind = 0; label = ascii "new" }
    ∷ []

channels_of-channels_answer_example :
    channels_of (channels_answer channels) ≡ (listed_channels channels, none)
channels_of-channels_answer_example =
    channels_of-channels_answer leb_wire-IsProtoWire channels
      ((omega arith, omega arith), ((omega arith, omega arith), ((omega arith, omega arith), tt)))

-- A user between a field 3 and the fields 4 and 1, the last one no message.
abbrev user : UserDesc
user = record { number = 42; username = ascii "bot"; display_name = []; avatar = ascii "a.png" }

abbrev first_fields : List Field
first_fields = bytes_field 3 (ascii "a@b.c") ∷ []

abbrev last_fields : List Field
last_fields = varint_field 4 300 ∷ varint_field 1 5 ∷ []

account_from_wire-account_answer_example :
    account_from_wire (account_answer first_fields user last_fields) ≡ (account_of user, none)
account_from_wire-account_answer_example =
    account_from_wire-account_answer leb_wire-IsProtoWire first_fields user last_fields
      ((small-IsNumber 3 (omega arith) (omega arith), tt), tt)
      (
        (small-IsNumber 4 (omega arith) (omega arith), omega arith),
        ((small-IsNumber 1 (omega arith) (omega arith), omega arith), tt),
      )
      (refl, tt) (tt, (tt, tt)) (omega arith)
