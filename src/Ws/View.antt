-- ===== src/Ws/View.antt =====
-- lib/ws/wire.go: a ChannelMessageSend as its parts, and what a reader looks for in it.
use mezon_go_sdk_turbo.Prelude.{
  ℕ, ◌≤◌, ◌==◌, ◌≡◌, refl, Bool, true, false, List, [], ◌∷◌, map, one_if, Option, none, some, arith,
  Bytes, IsU64, is_empty, if◌then◌else◌, parse_uint-IsU64,
}
use mezon_go_sdk_turbo.Proto.{ProtoWire, IsNumber}
use mezon_go_sdk_turbo.Ws.Wire.{
  Mention, Ref, SendOpts, id, uint32, append_message_field, append_mentions, append_ref,
  mention_bytes, ref_bytes, send_bytes,
}
use mezon_go_sdk_turbo.Ws.Parts.{
  Part, number, text, flag, messages, IsPart, append_messages, append_part, append_parts,
}
use mezon_go_sdk_turbo.Ws.Read.{read_varint, read_bytes, read_all}

-- The numbers in use.
pub small-IsNumber : (num : ℕ) → 1 ≤ num → num ≤ 31 → IsNumber num
small-IsNumber num l h = record { positive = l; bounded = omega arith }

pub id-IsU64 : (s : Bytes) → IsU64 (id s)
unfolding id
id-IsU64 s = parse_uint-IsU64 s

pub uint32-IsU64 : (v : ℕ) → IsU64 (uint32 v)
uint32-IsU64 v = omega arith

pub number-IsPart : (num v : ℕ) → 1 ≤ num → num ≤ 31 → IsU64 v → IsPart (number num v)
number-IsPart num v l h u = (small-IsNumber num l h, u)

-- The numbers that a reader finds in a MessageMention: the user, and the span.
abbrev pub mention_view : Mention → ℕ × (ℕ × ℕ)
mention_view m = (id m.user_id, (uint32 m.s, uint32 m.e))

-- What a reader finds in a MessageRef: the ids, and the three strings.
abbrev pub ref_view : Ref → (ℕ × ℕ) × (Bytes × (Bytes × Bytes))
ref_view r =
    ((id r.ref_message_id, id r.sender_id), (r.content, (r.sender_username, r.sender_avatar)))

abbrev pub ref_views : Option Ref → List ((ℕ × ℕ) × (Bytes × (Bytes × Bytes)))
ref_views none = []
ref_views (some r) = ref_view r ∷ []

pub or_zero : (v : ℕ) → (if v == 0 then 0 else v) ≡ v
or_zero v = ground arith

pub or_empty : (b : Bytes) → (if is_empty b then [] else b) ≡ b
or_empty [] = refl
or_empty (x ∷ b) = refl

pub or_unset : (set : Bool) → (if set then 1 else 0) ≡ one_if set
or_unset true = refl
or_unset false = refl

module _ ⦃w : ProtoWire⦄ where
  unfoldable pub read_ref : Bytes → (ℕ × ℕ) × (Bytes × (Bytes × Bytes))
  read_ref b =
      ((read_varint 2 b, read_varint 6 b), (read_bytes 3 b, (read_bytes 7 b, read_bytes 8 b)))

  unfoldable pub read_mention : Bytes → ℕ × (ℕ × ℕ)
  read_mention b = (read_varint 2 b, (read_varint 7 b, read_varint 8 b))

  abbrev pub mention_parts : Mention → List Part
  mention_parts m = number 2 (id m.user_id) ∷ number 7 (uint32 m.s) ∷ number 8 (uint32 m.e) ∷ []

  abbrev pub ref_parts : Ref → List Part
  ref_parts r =
      number 2 (id r.ref_message_id)
      ∷ text 3 r.content
      ∷ number 6 (id r.sender_id)
      ∷ text 7 r.sender_username
      ∷ text 8 r.sender_avatar
      ∷ []

  abbrev pub ref_messages : Option Ref → List Bytes
  ref_messages none = []
  ref_messages (some r) = ref_bytes r ∷ []

  abbrev pub send_parts : Bytes → Bytes → ℕ → Bool → Bytes → SendOpts → List Part
  send_parts channel_id clan_id mode is_public content opts =
      number 1 (id clan_id)
      ∷ number 2 (id channel_id)
      ∷ text 3 content
      ∷ messages 4 (map mention_bytes opts.mentions)
      ∷ messages 6 (ref_messages opts.ref)
      ∷ number 7 (uint32 mode)
      ∷ flag 9 opts.mention_everyone
      ∷ flag 11 is_public
      ∷ []

  pub append_mentions-messages :
      (b : Bytes) (ms : List Mention)
      → append_mentions b ms ≡ append_messages b 4 (map mention_bytes ms)
  unfolding append_mentions append_messages
  append_mentions-messages b [] = refl
  append_mentions-messages b (m ∷ ms) =
      append_mentions-messages (append_message_field b 4 (mention_bytes m)) ms

  pub append_ref-messages :
      (b : Bytes) (r : Option Ref) → append_ref b r ≡ append_messages b 6 (ref_messages r)
  unfolding append_ref append_messages
  append_ref-messages b none = refl
  append_ref-messages b (some r) = refl

  pub send_bytes-append_parts :
      (channel_id clan_id : Bytes) (mode : ℕ) (is_public : Bool) (content : Bytes) (opts : SendOpts)
      → send_bytes channel_id clan_id mode is_public content opts
        ≡ append_parts [] (send_parts channel_id clan_id mode is_public content opts)
  unfolding send_bytes append_parts append_part
  send_bytes-append_parts channel_id clan_id mode is_public content opts =
      rw (append_mentions-messages _ opts.mentions, append_ref-messages _ opts.ref) refl

-- A ChannelMessageSend in which a reader finds the arguments of BuildSendEnvelopeRaw.
pub record IsSent ⦃w : ProtoWire⦄ (channel_id clan_id : Bytes) (mode : ℕ) (is_public : Bool)
    (content : Bytes) (opts : SendOpts) (msg : Bytes) : Type 0 where
  pub clan : read_varint 1 msg ≡ id clan_id
  pub channel : read_varint 2 msg ≡ id channel_id
  pub blob : read_bytes 3 msg ≡ content
  pub mentions : map read_mention (read_all 4 msg) ≡ map mention_view opts.mentions
  pub refs : map read_ref (read_all 6 msg) ≡ ref_views opts.ref
  pub channel_mode : read_varint 7 msg ≡ uint32 mode
  pub everyone : read_varint 9 msg ≡ one_if opts.mention_everyone
  pub public : read_varint 11 msg ≡ one_if is_public
