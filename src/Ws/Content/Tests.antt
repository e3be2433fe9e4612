-- ===== src/Ws/Content/Tests.antt =====
-- lib/ws/content.go on concrete texts.
use mezon_go_sdk_turbo.Prelude.{
  ◌≡◌, refl, [], ◌∷◌, some, none, false, true, ascii, format_uint, Bytes,
}
use mezon_go_sdk_turbo.Ws.Content.{markdown_spans, build_content}
use mezon_go_sdk_turbo.Ws.Content.Patterns.{is_fence, inline_code, bold, url}
use mezon_go_sdk_turbo.Ws.Content.Units.{utf16_len}
use mezon_go_sdk_turbo.Ws.Content.Spans.{HasSpans, markdown_spans-HasSpans}
use mezon_go_sdk_turbo.Ws.Leb.{leb_wire, leb_wire-IsProtoWire}
use mezon_go_sdk_turbo.Ws.Wire.{SendOpts}
use mezon_go_sdk_turbo.Ws.View.{IsSent}
use mezon_go_sdk_turbo.Ws.Read.{read_bytes}
use mezon_go_sdk_turbo.Ws.Post.{build_send_envelope, build_update_envelope}
use mezon_go_sdk_turbo.Ws.Posted.{
  IsUpdate, build_send_envelope-IsSent, build_update_envelope-IsUpdate,
}

-- Code inside bold: the bold span is kept, the nested one is dropped.
abbrev nested : Bytes
nested = ascii "ab **see `x` here** `y`"

nested_spans :
    markdown_spans nested
    ≡ some (
      ascii "ab see `x` here `y`",
      record { s = 3; e = 15; kind = ascii "b" } ∷ record { s = 16; e = 19; kind = ascii "s" } ∷ [],
    )
unfolding markdown_spans ascii is_fence inline_code bold
nested_spans = refl

abbrev fenced : Bytes
fenced = ascii "a\n```go\nx *y*\n```\n**b**"

fenced_spans :
    markdown_spans fenced
    ≡ some (
      ascii "a\n```go\nx *y*\n```\nb",
      record { s = 2; e = 17; kind = ascii "t" } ∷ record { s = 18; e = 19; kind = ascii "b" } ∷ [],
    )
unfolding markdown_spans ascii is_fence inline_code bold
fenced_spans = refl

linked :
    build_content (ascii "see https://a.b/c. ok")
    ≡ some (ascii "{\"mk\":[{\"s\":4,\"e\":17,\"type\":\"lk\"}],\"t\":\"see https://a.b/c. ok\"}")
unfolding build_content inline_code bold url format_uint
linked = refl

-- An emoji takes two units.
emoji : utf16_len (240 ∷ 159 ∷ 152 ∷ 128 ∷ ascii "ab") ≡ 4
unfolding utf16_len ascii
emoji = refl

markdown_spans-HasSpans_example : HasSpans nested (markdown_spans nested)
markdown_spans-HasSpans_example = markdown_spans-HasSpans nested

abbrev no_opts : SendOpts
no_opts = record { ref = none; mentions = []; mention_everyone = false }

build_send_envelope-IsSent_example :
    (blob : Bytes) × ((env : Bytes) × ((build_content nested ≡ some blob)
        × (build_send_envelope (ascii "2") (ascii "1") 4 false nested no_opts ≡ some env)
        × IsSent (ascii "2") (ascii "1") 4 false blob no_opts (read_bytes 8 env)))
build_send_envelope-IsSent_example =
    build_send_envelope-IsSent leb_wire-IsProtoWire (ascii "2") (ascii "1") 4 false nested no_opts

build_update_envelope-IsUpdate_example :
    (blob : Bytes) × ((env : Bytes) × ((build_content fenced ≡ some blob)
        × (build_update_envelope (ascii "2") (ascii "1") (ascii "9") 4 true fenced ≡ some env)
        × IsUpdate (ascii "2") (ascii "1") (ascii "9") 4 true blob (read_bytes 9 env)))
build_update_envelope-IsUpdate_example =
    build_update_envelope-IsUpdate leb_wire-IsProtoWire (ascii "2") (ascii "1") (ascii "9") 4 true
      fenced
