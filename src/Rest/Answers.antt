-- ===== src/Rest/Answers.antt =====
-- lib/rest/clans.go: the list that ListClans makes of an answer.
use mezon_go_sdk_turbo.Prelude.{
  ℕ, ◌==◌, ◌≡◌, refl, sym, ap, ◌∙◌, inl, inr, Bool, List, [], ◌∷◌, ◌++◌, map, none, Bytes, IsU64,
  All, is_empty, format_uint, arith, if◌then◌else◌, Bool-cases,
}
use mezon_go_sdk_turbo.Ws.View.{number-IsPart, small-IsNumber, or_empty}
use mathlib.Core.List.{append-nil, append_assoc}
use mezon_go_sdk_turbo.Proto.{ProtoWire, IsProtoWire}
use mezon_go_sdk_turbo.Ws.Fields.{varint_field, bytes_field, visit_field, visit_wire, visit_all}
use mezon_go_sdk_turbo.Ws.Parts.{
  Part, number, text, messages, parts_fields, append_parts, append_parts-fields,
  walk_varints-append_parts, parts_fields-IsField,
}
use mezon_go_sdk_turbo.Rest.{
  or_nothing, Clan, visit_clan, each_repeated, walk, no_clan, add_clan, clans_of,
}
use mezon_go_sdk_turbo.Rest.Repeated.{each_repeated-encode_all}
use mezon_go_sdk_turbo.Rest.Ids.{has_id-format_uint}

-- What the server tells of a clan.
pub record ClanDesc : Type 0 where
  pub creator : ℕ
  pub number : ℕ
  pub name : Bytes

abbrev pub IsClanDesc : ClanDesc → Type 0
IsClanDesc d = IsU64 d.creator × IsU64 d.number

-- The clans that have an id, with their names.
abbrev pub listed : List ClanDesc → List Clan
listed [] = []
listed (d ∷ ds) =
    let rest = listed ds in
    if d.number == 0 then rest else record { id = format_uint d.number; name = d.name } ∷ rest

module _ ⦃w : ProtoWire⦄ where
  abbrev pub clan_parts : ClanDesc → List Part
  clan_parts d = number 1 d.creator ∷ text 2 d.name ∷ number 5 d.number ∷ []

  -- The answer of ListClanDescs.
  unfoldable pub clans_answer : List ClanDesc → Bytes
  clans_answer ds = append_parts [] (messages 1 (map (λ d. append_parts [] (clan_parts d)) ds) ∷ [])

module _ ⦃w : ProtoWire⦄ (laws : IsProtoWire w) where
  visits_clan :
      (d : ClanDesc) (a b c : Bool)
      → visit_all
          (visit_field visit_clan)
          ((if a then [] else varint_field 1 d.creator ∷ [])
            ++ ((if b then [] else bytes_field 2 d.name ∷ [])
                ++ ((if c then [] else varint_field 5 d.number ∷ []) ++ [])))
          no_clan
        ≡ record { id = if c then [] else format_uint d.number; name = if b then [] else d.name }
  unfolding visit_clan
  visits_clan d a b c = ground arith

  walk-clan_parts :
      (d : ClanDesc)
      → IsClanDesc d
      → walk (append_parts [] (clan_parts d)) visit_clan no_clan
        ≡ record { id = if d.number == 0 then [] else format_uint d.number; name = d.name }
  unfolding walk
  walk-clan_parts d h =
      walk_varints-append_parts laws (clan_parts d) visit_clan no_clan (
        number-IsPart 1 d.creator (omega arith) (omega arith) h.0,
        (
          (small-IsNumber 2 (omega arith) (omega arith), tt),
          (number-IsPart 5 d.number (omega arith) (omega arith) h.1, tt),
        ),
      )
      ∙ visits_clan d (d.creator == 0) (is_empty d.name) (d.number == 0)
      ∙ ap (λ b. record { id = if d.number == 0 then [] else format_uint d.number; name = b })
          (or_empty d.name)

  add_clan-clan_parts :
      (d : ClanDesc) (clans : List Clan)
      → IsClanDesc d
      → add_clan (append_parts [] (clan_parts d)) clans ≡ (
          if d.number == 0
          then clans
          else clans ++ (record { id = format_uint d.number; name = d.name } ∷ []))
  unfolding add_clan
  add_clan-clan_parts d clans h = rw (walk-clan_parts d h) (elim (Bool-cases (d.number == 0)) [
    | inl nil ↦ rw nil refl
    | inr set ↦ rw (set, has_id-format_uint d.number h.1 (ground (arith, set))) refl
  ])

  add_clans-listed :
      (ds : List ClanDesc) (clans : List Clan)
      → All IsClanDesc ds
      → visit_all
          (visit_wire 1 add_clan)
          (map (bytes_field 1) (map (λ d. append_parts [] (clan_parts d)) ds) ++ [])
          clans
        ≡ clans ++ listed ds
  add_clans-listed [] clans h = sym (append-nil clans)
  add_clans-listed (d ∷ ds) clans h =
      ap
        (visit_all (visit_wire 1 add_clan)
          (map (bytes_field 1) (map (λ d. append_parts [] (clan_parts d)) ds) ++ []))
        (add_clan-clan_parts d clans h.0)
      ∙ (elim (Bool-cases (d.number == 0)) [
        | inl nil ↦ rw nil (add_clans-listed ds clans h.1)
        | inr set ↦ rw set (
            add_clans-listed ds
              (clans ++ (record { id = format_uint d.number; name = d.name } ∷ [])) h.1
            ∙ append_assoc clans (record { id = format_uint d.number; name = d.name } ∷ [])
                (listed ds))
      ])

  -- ListClans, on the answer of a server that lists clans with their creators, names and ids, gives
  -- those whose id is not 0, in their order, each with its own id and name, and no error.
  pub clans_of-clans_answer :
      (ds : List ClanDesc) → All IsClanDesc ds → clans_of (clans_answer ds) ≡ (listed ds, none)
  unfolding clans_of clans_answer
  clans_of-clans_answer ds h =
      let ps = messages 1 (map (λ d. append_parts [] (clan_parts d)) ds) ∷ [] in
      ap or_nothing (
        ap (λ b. each_repeated add_clan b []) (append_parts-fields laws [] ps)
        ∙ each_repeated-encode_all laws add_clan (parts_fields ps) []
            (parts_fields-IsField ps ((small-IsNumber 1 (omega arith) (omega arith), tt), tt))
        ∙ ap (λ clans. (clans, none)) (add_clans-listed ds [] h))
