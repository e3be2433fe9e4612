-- ===== src/Ws/Conn/Requests.antt =====
-- lib/ws/conn.go: the requests of a connection, while other goroutines use it in any order.
use mezon_go_sdk_turbo.Prelude.{
  ℕ, ◌+◌, ◌^◌, ◌≤◌, ◌<◌, ◌==◌, ◌≡◌, refl, sym, subst, ◌∙◌, inl, inr, Bool-cases, ◌&&◌, false, List,
  [], ◌∷◌, Option, none, some, Bytes, arith, if◌then◌else◌,
}
use mezon_go_sdk_turbo.Proto.{ProtoWire}
use mezon_go_sdk_turbo.Ws.Ack.{Ack, decode_ack}
use mezon_go_sdk_turbo.Ws.Conn.{
  Conn, next_cid, pending_of, without_cid, begin_request, end_request, offered, resolved, resolve,
  close, receive, has_pending,
}

module _ ⦃w : ProtoWire⦄ where
  -- What a goroutine does to a connection: it begins a request, ends one, reads a frame, sends a
  -- ping, notes a clan or closes. The cids have not wrapped around.
  pub data Step (c : Conn) : Conn → Type 0 where
    begins : c.ping_cid + 1 < 2 ^ 64 → Step c (begin_request c)
    ends : (k : ℕ) → Step c (end_request k c)
    receives : (frame : Bytes) → Step c (receive frame c).0
    pings : c.ping_cid + 1 < 2 ^ 64 → Step c (record c { ping_cid = next_cid c })
    notes : (id : Bytes) → Step c (record c { joined = id ∷ c.joined })
    shuts : Step c (close c)

  -- A step of another goroutine than the one of the request `cid`.
  abbrev pub IsOther : ℕ → {c d : Conn} → Step c d → Type 0
  IsOther cid (begins l) = Unit {0}
  IsOther cid (ends k) = (k == cid) ≡ false
  IsOther cid (receives frame) = Unit {0}
  IsOther cid (pings l) = Unit {0}
  IsOther cid (notes id) = Unit {0}
  IsOther cid shuts = Unit {0}

  pub data Others (cid : ℕ) (c : Conn) : Conn → Type 0 where
    now : Others cid c c
    then_step : {d e : Conn} → Others cid c d → (st : Step d e) → IsOther cid st → Others cid c e

pub pending_of-without_cid :
    (k j : ℕ) (ps : List (ℕ × Option Ack))
    → pending_of k (without_cid j ps) ≡ (if j == k then none else pending_of k ps)
unfolding pending_of without_cid
pending_of-without_cid k j [] = ground arith
pending_of-without_cid k j ((i, a) ∷ ps) = ground (arith, pending_of-without_cid k j ps)

-- The channel after an answer is offered to it.
abbrev pub offered_to : Ack → Option (Option Ack) → Option (Option Ack)
offered_to a none = none
offered_to a (some o) = some (offered a o)

pub pending_of-resolved :
    (k : ℕ) (a : Ack) (ps : List (ℕ × Option Ack))
    → pending_of k (resolved a ps)
      ≡ (if a.cid == k then offered_to a (pending_of k ps) else pending_of k ps)
unfolding pending_of
pending_of-resolved k a [] = ground arith
pending_of-resolved k a ((i, b) ∷ ps) = ground (arith, pending_of-resolved k a ps)

-- An answer on the channel of a request is one to its cid.
abbrev pub Carries : ℕ → Option Ack → Type 0
Carries cid none = Unit {0}
Carries cid (some a) = a.cid ≡ cid

-- The request is pending, and its channel holds `o`.
pub record IsPending (cid : ℕ) (o : Option Ack) (c : Conn) : Type 0 where
  pub holds : pending_of cid c.pending ≡ some o
  pub carries : Carries cid o
  pub begun : cid ≤ c.ping_cid

-- What a channel may hold later: an answer stays.
abbrev pub Keeps : Option Ack → Option Ack → Type 0
Keeps none o = Unit {0}
Keeps (some a) o = o ≡ some a

abbrev pub StillPending : ℕ → Option Ack → Conn → Type 0
StillPending cid o d = (p : Option Ack) × (IsPending cid p d × Keeps o p)

abbrev same : (o : Option Ack) → Keeps o o
same none = tt
same (some a) = refl

Keeps-trans : (o p q : Option Ack) → Keeps o p → Keeps p q → Keeps o q
Keeps-trans none p q h k = tt
Keeps-trans (some a) none q h k = ground (arith, h)
Keeps-trans (some a) (some b) q h k = ground (arith, h, k)

offered-Carries : (a : Ack) (o : Option Ack) → Carries a.cid o → Carries a.cid (offered a o)
offered-Carries a none h = refl
offered-Carries a (some b) h = h

offered-Keeps : (a : Ack) (o : Option Ack) → Keeps o (offered a o)
offered-Keeps a none = tt
offered-Keeps a (some b) = refl

-- The request stays as it is where its entry does and the cids only grow.
unchanged :
    (cid : ℕ) (o : Option Ack) (c d : Conn)
    → pending_of cid d.pending ≡ pending_of cid c.pending
    → c.ping_cid ≤ d.ping_cid
    → IsPending cid o c
    → StillPending cid o d
unchanged cid o c d e l h = (
  o,
  (record { holds = e ∙ h.holds; carries = h.carries; begun = omega (arith, h.begun) }, same o),
)

begin_request-StillPending :
    (cid : ℕ) (o : Option Ack) (c : Conn)
    → c.ping_cid + 1 < 2 ^ 64
    → IsPending cid o c
    → StillPending cid o (begin_request c)
unfolding begin_request next_cid pending_of
begin_request-StillPending cid o c l h =
    unchanged cid o c (begin_request c)
      (ground (arith, l, h.begun, pending_of-without_cid cid (c.ping_cid + 1) c.pending))
      (omega arith) h

resolve-StillPending :
    (cid : ℕ) (o : Option Ack) (a : Ack) (c : Conn)
    → IsPending cid o c
    → StillPending cid o (resolve a c)
unfolding resolve
resolve-StillPending cid o a c h = elim (Bool-cases (a.cid == cid)) [
  | inl mine ↦
      let e : a.cid ≡ cid = ground (arith, mine) in
      (
        offered a o,
        (
          record {
            holds = pending_of-resolved cid a c.pending ∙ rw (mine, h.holds) refl;
            carries =
                subst (λ k. Carries k (offered a o)) e
                  (offered-Carries a o (subst (λ k. Carries k o) (sym e) h.carries));
            begun = h.begun;
          },
          offered-Keeps a o,
        ),
      )
  | inr other ↦
      unchanged cid o c (resolve a c) (pending_of-resolved cid a c.pending ∙ rw other refl)
        (omega arith) h
]

module _ ⦃w : ProtoWire⦄ where
  pub receive-StillPending :
      (cid : ℕ) (o : Option Ack) (frame : Bytes) (c : Conn)
      → IsPending cid o c
      → StillPending cid o (receive frame c).0
  unfolding receive
  receive-StillPending cid o frame c h =
      elim (Bool-cases (has_pending c.pending && (decode_ack frame).1)) [
        | inl reply ↦ rw reply (resolve-StillPending cid o (decode_ack frame).0 c h)
        | inr other ↦ rw other (o, (h, same o))
      ]

  Step-StillPending :
      (cid : ℕ) (o : Option Ack) {c d : Conn} (st : Step c d)
      → IsOther cid st
      → IsPending cid o c
      → StillPending cid o d
  Step-StillPending cid o {c} (begins l) other h = begin_request-StillPending cid o c l h
  Step-StillPending cid o {c} (ends k) other h =
      unfold end_request in
      unchanged cid o c (end_request k c) (pending_of-without_cid cid k c.pending ∙ rw other refl)
        (omega arith) h
  Step-StillPending cid o {c} (receives frame) other h = receive-StillPending cid o frame c h
  Step-StillPending cid o {c} (pings l) other h =
      unfold next_cid in
      unchanged cid o c (record c { ping_cid = next_cid c }) refl (omega (arith, l)) h
  Step-StillPending cid o {c} (notes id) other h =
      unchanged cid o c (record c { joined = id ∷ c.joined }) refl (omega arith) h
  Step-StillPending cid o {c} shuts other h =
      unfold close in unchanged cid o c (close c) refl (omega arith) h

  -- While others use the connection, a request stays pending, and keeps an answer that it has.
  pub Others-StillPending :
      (cid : ℕ) (o : Option Ack) {c d : Conn}
      → Others cid c d
      → IsPending cid o c
      → StillPending cid o d
  Others-StillPending cid o now h = (o, (h, same o))
  Others-StillPending cid o (then_step r st other) h =
      let (p, (q, kept)) = Others-StillPending cid o r h in
      let (p', (q', kept')) = Step-StillPending cid p st other q in
      (p', (q', Keeps-trans o p p' kept kept'))

-- A request that begins is pending, with no answer.
pub begin_request-IsPending :
    (c : Conn) → c.ping_cid + 1 < 2 ^ 64 → IsPending (next_cid c) none (begin_request c)
unfolding begin_request pending_of
begin_request-IsPending c l = record { holds = ground arith; carries = tt; begun = omega arith }
