-- ===== src/Ws/Conn/Own.antt =====
-- lib/ws/conn.go: what `request` answers.
use mezon_go_sdk_turbo.Prelude.{
  ℕ, ◌+◌, ◌^◌, ◌<◌, ◌≡◌, refl, sym, ap, subst, ◌∙◌, ◌⊎◌, inl, inr, String, Bool, true, false, List,
  [], ◌∷◌, Option, none, some, Bytes, arith, if◌then◌else◌,
}
use mezon_go_sdk_turbo.Proto.{ProtoWire}
use mezon_go_sdk_turbo.Ws.Ack.{Ack, decode_ack, with_cid}
use mezon_go_sdk_turbo.Ws.Conn.{
  Conn, Wire, Failure, close_sent, no_ack, rejected, panicked, write_failed, next_cid, pending_of,
  begin_request, end_request, answer_of, receive, resolve, has_pending, send, written,
}
use mezon_go_sdk_turbo.Ws.Conn.Acked.{request, awaited}
use mezon_go_sdk_turbo.Ws.Conn.Requests.{
  Others, IsPending, Carries, begin_request-IsPending, Others-StillPending, pending_of-without_cid,
  pending_of-resolved,
}

-- An answer to the request `cid`: a reply to that cid, and an error only where it says so.
abbrev pub IsOwn : ℕ → Ack ⊎ (Failure × Ack) → Type 0
IsOwn cid (inl a) = (a.cid ≡ cid) × (a.err ≡ false)
IsOwn cid (inr (rejected, a)) = (a.cid ≡ cid) × (a.err ≡ true)
IsOwn cid (inr (close_sent, a)) = Unit {0}
IsOwn cid (inr (no_ack, a)) = Unit {0}
IsOwn cid (inr (panicked, a)) = ⊥
IsOwn cid (inr (write_failed e, a)) = Unit {0}

-- What the request answers when it has its reply.
abbrev pub reply : Ack → Ack ⊎ (Failure × Ack)
reply a = if a.err then inr (rejected, a) else inl a

reply-IsOwn :
    (cid : ℕ) (a : Ack) (e : Bool)
    → a.cid ≡ cid
    → a.err ≡ e
    → IsOwn cid (if e then inr (rejected, a) else inl a)
reply-IsOwn cid a true h s = (h, s)
reply-IsOwn cid a false h s = (h, s)

answer_of-IsOwn :
    (cid : ℕ) (o : Option Ack) (late : Bool) → Carries cid o → IsOwn cid (answer_of (some o) late)
unfolding answer_of
answer_of-IsOwn cid none late h = tt
answer_of-IsOwn cid (some a) true h = tt
answer_of-IsOwn cid (some a) false h = reply-IsOwn cid a a.err h refl

end_request_pending : (cid : ℕ) (c : Conn) → pending_of cid (end_request cid c).pending ≡ none
unfolding end_request
end_request_pending cid c = pending_of-without_cid cid cid c.pending ∙ ground arith

module _ ⦃w : ProtoWire⦄ {W : Type 0} (write : Bytes → W → Option String × W) where
  -- A request that was sent, or not.
  abbrev SentFor : ℕ → Option Failure × Wire W → Type 0
  SentFor cid (none, x) = IsPending cid none x.conn
  SentFor cid (some e, x) = IsOwn cid (inr (e, record { cid = 0; message_id = []; err = false }))

  written-SentFor :
      (cid : ℕ) (c : Conn) (r : Option String × W)
      → IsPending cid none c
      → SentFor cid (written write c r)
  written-SentFor cid c (none, far) h = h
  written-SentFor cid c (some e, far) h = tt

  unless_closed-SentFor :
      (cid : ℕ) (closed : Bool) (x : Wire W) (r : Option Failure × Wire W)
      → SentFor cid r
      → SentFor cid (if closed then (some close_sent, x) else r)
  unless_closed-SentFor cid true x r h = tt
  unless_closed-SentFor cid false x r h = h

  send-SentFor :
      (cid : ℕ) (env : Bytes) (x : Wire W)
      → IsPending cid none x.conn
      → SentFor cid (send write env x)
  unfolding send
  send-SentFor cid env x h =
      unless_closed-SentFor cid x.conn.closed x (written write x.conn (write env x.far))
        (written-SentFor cid x.conn (write env x.far) h)

  awaited-IsOwn :
      (wait : Wire W → Wire W) (late : Bool) (cid : ℕ) (r : Option Failure × Wire W)
      → ((y : Wire W) → Others cid y.conn (wait y).conn)
      → SentFor cid r
      → IsOwn cid (awaited write wait late cid r).0
        × (pending_of cid (awaited write wait late cid r).1.conn.pending ≡ none)
  awaited-IsOwn wait late cid (some e, x) others h = (h, end_request_pending cid x.conn)
  awaited-IsOwn wait late cid (none, x) others h =
      let (o, (p, kept)) = Others-StillPending cid none (others x) h in
      (rw (p.holds) (answer_of-IsOwn cid o late p.carries), end_request_pending cid (wait x).conn)

  -- Whatever other goroutines do with the connection while a request waits, it never answers with
  -- the reply to another request: its reply is one to its own cid, and is an error exactly if the
  -- server says so. Otherwise the send failed or the answer is ErrNoAck. And the request is not
  -- pending any more.
  pub request-IsOwn :
      (wait : Wire W → Wire W) (late : Bool) (env : Bytes) (x : Wire W)
      → x.conn.ping_cid + 1 < 2 ^ 64
      → ((y : Wire W) → Others (next_cid x.conn) y.conn (wait y).conn)
      → IsOwn (next_cid x.conn) (request write wait late env x).0
        × (pending_of (next_cid x.conn) (request write wait late env x).1.conn.pending ≡ none)
  unfolding request
  request-IsOwn wait late env x l others = awaited-IsOwn wait late (next_cid x.conn) _ others (
      send-SentFor (next_cid x.conn) (with_cid (next_cid x.conn) env)
        (record x { conn = begin_request x.conn }) (begin_request-IsPending x.conn l))

  if_false : {A : Type 0} (b : Bool) (x y : A) → b ≡ false → (if b then x else y) ≡ y
  if_false true x y h = cc
  if_false false x y h = refl

  has_pending_lem :
      (cid : ℕ) (o : Option Ack) (ps : List (ℕ × Option Ack))
      → pending_of cid ps ≡ some o
      → has_pending ps ≡ true
  unfolding pending_of
  has_pending_lem cid o [] h = ground (arith, h)
  has_pending_lem cid o (p ∷ ps) h = refl

  receive-reply :
      (frame : Bytes) (a : Ack) (c : Conn)
      → decode_ack frame ≡ (a, true)
      → IsPending a.cid none c
      → IsPending a.cid (some a) (receive frame c).0
  unfolding receive resolve
  receive-reply frame a c d h =
      rw (d, has_pending_lem a.cid none c.pending h.holds)
        (record {
          holds = pending_of-resolved a.cid a c.pending ∙ (rw h.holds (ground arith));
          carries = refl;
          begun = h.begun;
        })

  send_open :
      (env : Bytes) (x : Wire W) (far : W)
      → x.conn.closed ≡ false
      → write env x.far ≡ (none, far)
      → send write env x ≡ (none, record { conn = x.conn; far = far })
  unfolding send
  send_open env x far up wrote =
      if_false x.conn.closed (some close_sent, x) (written write x.conn (write env x.far)) up
      ∙ ap (written write x.conn) wrote

  -- The first reply to the request is its answer, whatever the other goroutines do before and after
  -- it, if it is there in time.
  pub request-reply :
      (wait : Wire W → Wire W) (env : Bytes) (x : Wire W) (far : W) (c : Conn) (frame : Bytes)
      (a : Ack)
      → x.conn.ping_cid + 1 < 2 ^ 64
      → x.conn.closed ≡ false
      → write (with_cid a.cid env) x.far ≡ (none, far)
      → a.cid ≡ next_cid x.conn
      → Others a.cid (begin_request x.conn) c
      → pending_of a.cid c.pending ≡ some none
      → decode_ack frame ≡ (a, true)
      → Others a.cid
          (receive frame c).0
          (wait (record { conn = begin_request x.conn; far = far })).conn
      → (request write wait false env x).0 ≡ reply a
  unfolding request
  request-reply wait env x far c frame a l up wrote mine before waits d after =
      let begun : IsPending a.cid none (begin_request x.conn) =
        subst (λ k. IsPending k none (begin_request x.conn)) (sym mine)
          (begin_request-IsPending x.conn l) in
      let (o, (p, kept)) = Others-StillPending a.cid none before begun in
      let here : IsPending a.cid none c = record { holds = waits; carries = tt; begun = p.begun } in
      let (q, (p', kept')) =
        Others-StillPending a.cid (some a) after (receive-reply frame a c d here) in
      rw
        (
          ← mine,
          send_open (with_cid a.cid env) (record x { conn = begin_request x.conn }) far
              (unfold begin_request in up) wrote,
          p'.holds,
          kept',
        )
        (unfold answer_of in refl)
