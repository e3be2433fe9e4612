-- ===== src/Ws/Leb.antt =====
-- A protowire of base 128 groups, for runs of lib/ws on concrete frames.
use mezon_go_sdk_turbo.Prelude.{
  ℕ, zero, suc, ◌+◌, ◌-◌, ◌*◌, ◌/◌, ◌%◌, ◌≤◌, ◌<◌, ◌==◌, ◌≡◌, refl, ap, ltb, leb, Bool, true, false,
  [], ◌∷◌, ◌++◌, arith, Bytes, drop, drop-append, length, length-append, if◌then◌else◌,
}
use mathlib.Core.List.{append_assoc}
use mezon_go_sdk_turbo.Proto.{
  Consumed, failed, took, ProtoWire, IsProtoWire, IsNumber, varint_type, bytes_type,
}

-- A byte of 128 or more is followed by another. `suc v` groups are enough.
groups : ℕ → ℕ → Bytes
groups zero v = []
groups (suc fuel) v = elim (ltb v 128) [
  | true ↦ v ∷ []
  | false ↦ (v % 128 + 128) ∷ groups fuel (v / 128)
]

unfoldable pub varint : ℕ → Bytes
unfolding groups
varint v = groups (suc v) v

more : ℕ → Consumed ℕ → Consumed ℕ
more c (failed e) = failed e
more c (took v n) = took (c - 128 + 128 * v) (suc n)

unfoldable pub read_groups : Bytes → Consumed ℕ
unfolding more
read_groups [] = failed "unexpected EOF"
read_groups (c ∷ cs) = let rest = more c (read_groups cs) in if ltb c 128 then took c 1 else rest

unfoldable pub take : ℕ → Bytes → Bytes
take zero bs = []
take (suc n) [] = []
take (suc n) (b ∷ bs) = b ∷ take n bs

unfoldable pub tag_of : Consumed ℕ → Consumed (ℕ × ℕ)
tag_of (failed e) = failed e
tag_of (took v n) = if ltb v 8 then failed "invalid field number" else took (v / 8, v % 8) n

unfoldable pub bytes_after : Bytes → Consumed ℕ → Consumed Bytes
bytes_after b (failed e) = failed e
bytes_after b (took m n) =
    if leb m (length (drop n b)) then took (take m (drop n b)) (n + m) else failed "unexpected EOF"

unfoldable pub skipped : {A : Type 0} → Consumed A → Consumed (Unit {0})
skipped (failed e) = failed e
skipped (took a n) = took tt n

unfoldable pub fixed : ℕ → Bytes → Consumed (Unit {0})
fixed n b = if leb n (length b) then took tt n else failed "unexpected EOF"

instance abbrev pub leb_wire : ProtoWire
leb_wire = record {
  append_tag = λ b num typ. b ++ varint (num * 8 + typ);
  append_varint = λ b v. b ++ varint v;
  append_bytes = λ b s. b ++ (varint (length s) ++ s);
  consume_tag = λ b. tag_of (read_groups b);
  consume_varint = read_groups;
  consume_bytes = λ b. bytes_after b (read_groups b);
  consume_field_value = λ num typ b.
      if typ == varint_type
      then skipped (read_groups b)
      else if typ == bytes_type
      then skipped (bytes_after b (read_groups b))
      else if typ == 1
      then fixed 8 b
      else if typ == 5
      then fixed 4 b
      else failed "groups are not read";
}

large_group :
    (v n : ℕ)
    → (if ltb (v % 128 + 128) 128
        then took (v % 128 + 128) 1
        else more (v % 128 + 128) (took (v / 128) n))
      ≡ took v (suc n)
unfolding more
large_group v n = ground arith

read_groups-groups :
    (k v : ℕ) (rest : Bytes)
    → v < k
    → read_groups (groups k v ++ rest) ≡ took v (length (groups k v))
unfolding read_groups groups
read_groups-groups zero v rest h = absurd (omega arith)
read_groups-groups (suc k) v rest h = go (read_groups-groups k (v / 128) rest) (ltb v 128) refl
  where
    go :
        (v / 128 < k
          → read_groups (groups k (v / 128) ++ rest) ≡ took (v / 128) (length (groups k (v / 128))))
        → (c : Bool) → ltb v 128 ≡ c
        → read_groups
            (elim c [ true ↦ v ∷ [] | false ↦ (v % 128 + 128) ∷ groups k (v / 128) ] ++ rest)
          ≡ took v
              (length (elim c [ true ↦ v ∷ [] | false ↦ (v % 128 + 128) ∷ groups k (v / 128) ]))
    go next true small = rw small refl
    go next false large =
        rw (next (ground (arith, large))) (large_group v (length (groups k (v / 128))))

read_groups-varint :
    (v : ℕ) (rest : Bytes) → read_groups (varint v ++ rest) ≡ took v (length (varint v))
unfolding varint
read_groups-varint v rest = read_groups-groups (suc v) v rest (omega arith)

take-append : (s rest : Bytes) → take (length s) (s ++ rest) ≡ s
unfolding take
take-append [] rest = refl
take-append (x ∷ s) rest = ap (λ t. x ∷ t) (take-append s rest)

tag_of-took :
    (num typ n : ℕ) → IsNumber num → typ < 8 → tag_of (took (num * 8 + typ) n) ≡ took (num, typ) n
unfolding tag_of
tag_of-took num typ n h t =
    let some_number = h.positive in
    let quotient : (num * 8 + typ) / 8 ≡ num = omega arith in
    let remainder : (num * 8 + typ) % 8 ≡ typ = omega arith in
    let large : ltb (num * 8 + typ) 8 ≡ false = ground arith in rw (large, quotient, remainder) refl

bytes_after-varint :
    (s rest : Bytes)
    → bytes_after (varint (length s) ++ (s ++ rest)) (took (length s) (length (varint (length s))))
      ≡ took s (length (varint (length s)) + length s)
unfolding bytes_after
bytes_after-varint s rest =
    let fits : leb (length s) (length (s ++ rest)) ≡ true = ground (arith, length-append s rest) in
    rw (drop-append (varint (length s)) (s ++ rest), fits, take-append s rest) refl

read_groups_takes : (b : Bytes) (v n : ℕ) → read_groups b ≡ took v n → 1 ≤ n
unfolding read_groups more
read_groups_takes [] v n h = ground arith
read_groups_takes (c ∷ cs) v n h = ground arith

tag_of_takes :
    (r : Consumed ℕ) (num typ n : ℕ)
    → ((v n : ℕ) → r ≡ took v n → 1 ≤ n)
    → tag_of r ≡ took (num, typ) n
    → 1 ≤ n
unfolding tag_of
tag_of_takes (failed e) num typ n h t = ground arith
tag_of_takes (took v m) num typ n h t = ground (arith, h v m refl)

skipped-took : {A : Type 0} (r : Consumed A) (a : A) (n : ℕ) → r ≡ took a n → skipped r ≡ took tt n
unfolding skipped
skipped-took r a n h = rw h refl

pub leb_wire-IsProtoWire : IsProtoWire leb_wire
leb_wire-IsProtoWire = record {
  tag = λ b num typ. refl;
  varint = λ b v. refl;
  bytes = λ b s. refl;
  read_tag =
      λ num typ rest h t. rw (read_groups-varint (num * 8 + typ) rest) (tag_of-took num typ _ h t);
  read_varint = λ v rest h. read_groups-varint v rest;
  read_bytes = λ s rest.
      rw
        (
          append_assoc (varint (length s)) s rest,
          read_groups-varint (length s) (s ++ rest),
          length-append (varint (length s)) s,
        )
        (bytes_after-varint s rest);
  skip_varint = λ num v n b h. skipped-took (read_groups b) v n h;
  skip_bytes = λ num n s b h. skipped-took (bytes_after b (read_groups b)) s n h;
  tag_takes = λ b num typ n h. tag_of_takes (read_groups b) num typ n (read_groups_takes b) h;
}
