-- ===== src/Ws/Read.antt =====
-- lib/ws/decode.go: what walkVarints and walkWire read back of the parts that a builder appended.
use mezon_go_sdk_turbo.Prelude.{
  ℕ, ◌≡◌, refl, sym, ap, ◌∙◌, ◌==◌, Bool, true, false, List, [], ◌∷◌, ◌++◌, none, some, arith, All,
  Bytes, is_empty, if◌then◌else◌,
}
use mathlib.Core.List.{append_assoc, append-nil}
use mezon_go_sdk_turbo.Proto.{ProtoWire, IsProtoWire}
use mezon_go_sdk_turbo.Ws.Walk.{Visitor, walk_varints, walk_wire}
use mezon_go_sdk_turbo.Ws.Fields.{Field, visit_field, visit_wire, visit_all}
use mezon_go_sdk_turbo.Ws.Parts.{
  Part, number, text, flag, messages, part_fields, parts_fields, IsPart, append_parts,
  walk_varints-append_parts, walk_wire-append_parts,
}

-- The last varint, and the last string, of the field `n`.
abbrev pub keep_varint : ℕ → Visitor ℕ
keep_varint n num v none s = if num == n then v else s
keep_varint n num v (some b) s = s

abbrev pub keep_bytes : ℕ → Visitor Bytes
keep_bytes n num v none s = s
keep_bytes n num v (some b) s = if num == n then b else s

abbrev pub keep_all : Bytes → List Bytes → List Bytes
keep_all b bs = bs ++ (b ∷ [])

-- The value of a field of a frame, where 0 or the empty string stands for one that is not there.
module _ ⦃w : ProtoWire⦄ where
  unfoldable pub read_varint : ℕ → Bytes → ℕ
  read_varint n b = walk_varints b (keep_varint n) 0

  unfoldable pub read_bytes : ℕ → Bytes → Bytes
  read_bytes n b = walk_varints b (keep_bytes n) []

  -- The strings of a repeated field.
  unfoldable pub read_all : ℕ → Bytes → List Bytes
  read_all n b = walk_wire b n keep_all []

abbrev pub fold_all {ℓ κ} : {A : Type ℓ} {S : Type κ} → (A → S → S) → List A → S → S
fold_all at [] s = s
fold_all at (p ∷ ps) s = fold_all at ps (at p s)

module _ {S : Type 0} (visit : Field → S → S) where
  pub visit_all-append :
      (fs gs : List Field) (s : S)
      → visit_all visit (fs ++ gs) s ≡ visit_all visit gs (visit_all visit fs s)
  visit_all-append [] gs s = refl
  visit_all-append (f ∷ fs) gs s = visit_all-append fs gs (visit f s)

  -- The visits part by part, where `at` is what they come to at a part.
  pub visit_all-parts_fields :
      (at : Part → S → S) (ps : List Part) (s : S)
      → ((p : Part) (s : S) → visit_all visit (part_fields p) s ≡ at p s)
      → visit_all visit (parts_fields ps) s ≡ fold_all at ps s
  visit_all-parts_fields at [] s h = refl
  visit_all-parts_fields at (p ∷ ps) s h =
      visit_all-append (part_fields p) (parts_fields ps) s
      ∙ ap (visit_all visit (parts_fields ps)) (h p s)
      ∙ visit_all-parts_fields at ps (at p s) h

abbrev pub varint_of : ℕ → Part → ℕ → ℕ
varint_of n (number num v) s = if num == n then (if v == 0 then s else v) else s
varint_of n (text num b) s = s
varint_of n (flag num set) s = if num == n then (if set then 1 else s) else s
varint_of n (messages num ms) s = s

abbrev pub bytes_of : ℕ → Part → Bytes → Bytes
bytes_of n (number num v) s = s
bytes_of n (text num b) s = if num == n then (if is_empty b then s else b) else s
bytes_of n (flag num set) s = s
bytes_of n (messages num ms) s = if num == n then fold_all (λ m s. m) ms s else s

abbrev pub all_of : ℕ → Part → List Bytes → List Bytes
all_of n (number num v) s = s
all_of n (text num b) s = if num == n then (if is_empty b then s else s ++ (b ∷ [])) else s
all_of n (flag num set) s = s
all_of n (messages num ms) s = if num == n then s ++ ms else s

visit-varint_of :
    (n : ℕ) (p : Part) (s : ℕ)
    → visit_all (visit_field (keep_varint n)) (part_fields p) s ≡ varint_of n p s
visit-varint_of n (number num v) s = ground arith
visit-varint_of n (text num b) s = ground arith
visit-varint_of n (flag num true) s = refl
visit-varint_of n (flag num false) s = ground arith
visit-varint_of n (messages num []) s = refl
visit-varint_of n (messages num (m ∷ ms)) s = visit-varint_of n (messages num ms) s

twice_if :
    (same : Bool) (m s : Bytes) (ms : List Bytes)
    → (if same then fold_all (λ m s. m) ms (if same then m else s) else (if same then m else s))
      ≡ (if same then fold_all (λ m s. m) ms m else s)
twice_if true m s ms = refl
twice_if false m s ms = refl

twice_append :
    (same : Bool) (m : Bytes) (s ms : List Bytes)
    → (if same
        then (if same then keep_all m s else s) ++ ms
        else (if same then keep_all m s else s))
      ≡ (if same then s ++ (m ∷ ms) else s)
twice_append true m s ms = append_assoc s (m ∷ []) ms
twice_append false m s ms = refl

append_none : (same : Bool) (s : List Bytes) → s ≡ (if same then s ++ [] else s)
append_none true s = sym (append-nil s)
append_none false s = refl

visit-bytes_of :
    (n : ℕ) (p : Part) (s : Bytes)
    → visit_all (visit_field (keep_bytes n)) (part_fields p) s ≡ bytes_of n p s
visit-bytes_of n (number num v) s = ground arith
visit-bytes_of n (text num b) s = ground arith
visit-bytes_of n (flag num set) s = ground arith
visit-bytes_of n (messages num []) s = ground arith
visit-bytes_of n (messages num (m ∷ ms)) s =
    visit-bytes_of n (messages num ms) (if num == n then m else s) ∙ twice_if (num == n) m s ms

visit-all_of :
    (n : ℕ) (p : Part) (s : List Bytes)
    → visit_all (visit_wire n keep_all) (part_fields p) s ≡ all_of n p s
visit-all_of n (number num v) s = ground arith
visit-all_of n (text num b) s = ground arith
visit-all_of n (flag num set) s = ground arith
visit-all_of n (messages num []) s = append_none (num == n) s
visit-all_of n (messages num (m ∷ ms)) s =
    visit-all_of n (messages num ms) (if num == n then keep_all m s else s)
    ∙ twice_append (num == n) m s ms

module _ ⦃w : ProtoWire⦄ (laws : IsProtoWire w) (n : ℕ) (ps : List Part) (h : All IsPart ps) where
  pub read_varint-append_parts : read_varint n (append_parts [] ps) ≡ fold_all (varint_of n) ps 0
  unfolding read_varint
  read_varint-append_parts =
      walk_varints-append_parts laws ps (keep_varint n) 0 h
      ∙ visit_all-parts_fields (visit_field (keep_varint n)) (varint_of n) ps 0 (visit-varint_of n)

  pub read_bytes-append_parts : read_bytes n (append_parts [] ps) ≡ fold_all (bytes_of n) ps []
  unfolding read_bytes
  read_bytes-append_parts =
      walk_varints-append_parts laws ps (keep_bytes n) [] h
      ∙ visit_all-parts_fields (visit_field (keep_bytes n)) (bytes_of n) ps [] (visit-bytes_of n)

  pub read_all-append_parts : read_all n (append_parts [] ps) ≡ fold_all (all_of n) ps []
  unfolding read_all
  read_all-append_parts =
      walk_wire-append_parts laws ps n keep_all [] h
      ∙ visit_all-parts_fields (visit_wire n keep_all) (all_of n) ps [] (visit-all_of n)
