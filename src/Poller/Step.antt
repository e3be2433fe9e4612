-- ===== src/Poller/Step.antt =====
-- lib/poller/poller.go: how often PollOnce emits a message, by what the store remembers.
use mezon_go_sdk_turbo.Prelude.{
  ℕ, ◌+◌, ◌*◌, ◌∙◌, ◌++◌, if◌then◌else◌, ◌≤◌, ◌≡◌, refl, ap, subst, inl, inr, String, Bool, true,
  false, not, ◌&&◌, List, [], ◌∷◌, Option, none, some, Bytes, is_empty, bytes_eq, bytes_eq-eq, ltb,
  arith, count_if, Bool-cases, Option-cases,
}
use mezon_go_sdk_turbo.Types.{BotRef, Message}
use mezon_go_sdk_turbo.State.{Result, ok, err}
use mezon_go_sdk_turbo.Poller.{
  Poller, Progress, each, emit, by_seen, poll_message, poll_messages, advance, after_messages,
  on_page, on_cursor, on_wait, poll_channel, poll_channels, finish, on_channels, poll_once,
}

-- From `s` to `t` no id comes nearer to its end, and at most `news` ids are recorded for each bot.
abbrev pub Keeps : {S : Type 0} → (String → S → ℕ) → (String → Bytes → S → ℕ) → ℕ → S → S → Type 0
Keeps recorded until news s t =
    (k : String) (y : Bytes) → (until k y s ≤ until k y t) × (recorded k t ≤ recorded k s + news)

-- `recorded key s` is how many message ids the store of the state `s` has recorded for a bot, and
-- `until key x s` how many it will have recorded when it may forget `x`: at most `limit` more. A Seen
-- records one id at most; where it answers false it records an id that is not held, for the next
-- `limit` ids. No other call records an id, and none forgets one earlier.
pub record Remembers {S : Type 0} (p : Poller S) (limit : ℕ) (recorded : String → S → ℕ)
    (until : String → Bytes → S → ℕ) : Type 0 where
  pub bounded : (key : String) (x : Bytes) (s : S) → until key x s ≤ recorded key s + limit
  pub fresh :
      (key : String) (x : Bytes) (s t : S)
      → is_empty x ≡ false
      → p.store.seen key x s ≡ (ok false, t)
      → until key x s + limit ≤ until key x t
  pub seen : (key : String) (x : Bytes) (s : S) → Keeps recorded until 1 s (p.store.seen key x s).1
  pub channels : (key : String) (s : S) → Keeps recorded until 0 s (p.store.channels key s).1
  pub cursor :
      (key : String) (ch : Bytes) (s : S) → Keeps recorded until 0 s (p.store.cursor key ch s).1
  pub set_cursor :
      (key : String) (ch c : Bytes) (s : S)
      → Keeps recorded until 0 s (p.store.set_cursor key ch c s).1
  pub bump_activity :
      (key : String) (at : ℕ) (s : S) → Keeps recorded until 0 s (p.store.bump_activity key at s).1
  pub list_since :
      (token ch clan c : Bytes) (page : ℕ) (s : S)
      → Keeps recorded until 0 s (p.remote.list_since token ch clan c page s).1
  pub wait : (s : S) → Keeps recorded until 0 s (p.remote.wait s).1

abbrev pub times : Bytes → List Message → ℕ
times x ms = count_if (λ m. bytes_eq m.message_id x) ms

-- So many times `limit`.
abbrev pub cost : ℕ → Bytes → List Message → ℕ
cost limit x [] = 0
cost limit x (m ∷ ms) = (if bytes_eq m.message_id x then limit else 0) + cost limit x ms

pub cost-append :
    (limit : ℕ) (x : Bytes) (ms ns : List Message)
    → cost limit x (ms ++ ns) ≡ cost limit x ms + cost limit x ns
cost-append limit x [] ns = omega arith
cost-append limit x (m ∷ ms) ns = omega (arith, cost-append limit x ms ns)

suc_times : (n limit : ℕ) → (1 + n) * limit ≡ limit + n * limit
suc_times n limit = omega arith

zero_times : (n limit : ℕ) → (0 + n) * limit ≡ n * limit
zero_times n limit = omega arith

pub cost-times : (limit : ℕ) (x : Bytes) (ms : List Message) → times x ms * limit ≡ cost limit x ms
cost-times limit x [] = omega arith
cost-times limit x (m ∷ ms) = elim (Bool-cases (bytes_eq m.message_id x)) [
  | inl same ↦ rw same (suc_times (times x ms) limit ∙ ap (λ n. limit + n) (cost-times limit x ms))
  | inr other ↦ rw other (zero_times (times x ms) limit ∙ cost-times limit x ms ∙ omega arith)
]

module _ {S : Type 0} (p : Poller S) (limit : ℕ) (recorded : String → S → ℕ)
    (until : String → Bytes → S → ℕ) (laws : Remembers p limit recorded until) (bot : BotRef)
    (x : Bytes) (named : is_empty x ≡ false) where
  abbrev held : S → ℕ
  held s = until bot.key_id x s

  -- From `g` to `h`, each emission of `x` is paid for by `limit` ids.
  abbrev Once : Progress S → Progress S → Type 0
  Once g h = cost limit x h.emitted + held g.state ≤ cost limit x g.emitted + held h.state

  each_returns :
      {A : Type 0} (round : A → Progress S → Progress S × Option String) (a : A) (rest : List A)
      (g : Progress S) (e : String)
      → (round a g).1 ≡ some e
      → each round (a ∷ rest) g ≡ ((round a g).0, some e)
  unfolding each
  each_returns round a rest g e h = rw (each, h) refl

  each_goes :
      {A : Type 0} (round : A → Progress S → Progress S × Option String) (a : A) (rest : List A)
      (g : Progress S)
      → (round a g).1 ≡ none
      → each round (a ∷ rest) g ≡ each round rest (round a g).0
  unfolding each
  each_goes round a rest g h = rw (each, h) refl

  each-Once :
      {A : Type 0} (round : A → Progress S → Progress S × Option String)
      → ((a : A) (g : Progress S) → Once g (round a g).0)
      → (rounds : List A) (g : Progress S) → Once g (each round rounds g).0
  each-Once round one [] g = unfold each in omega arith
  each-Once round one (a ∷ rest) g = elim (Option-cases (round a g).1) [
    | inl none_yet ↦
        rw (each_goes round a rest g none_yet)
          (omega (arith, one a g, each-Once round one rest (round a g).0))
    | inr (e, stop) ↦ rw (each_returns round a rest g e stop) (one a g)
  ]

  seen_state :
      (m : Message) (g : Progress S) (r : Result Bool) (s : S)
      → p.store.seen bot.key_id m.message_id g.state ≡ (r, s)
      → held g.state ≤ held s
  seen_state m g r s h =
      omega
        (arith, (laws.seen bot.key_id m.message_id g.state bot.key_id x).0, ap (λ o. held o.1) h)

  cost-emit :
      (m : Message) (s : S) (g : Progress S)
      → cost limit x (emit p bot m s g).emitted
        ≤ cost limit x g.emitted + (if bytes_eq m.message_id x then limit else 0)
  unfolding emit
  cost-emit m s g = elim (Bool-cases p.on_message) [
    | inl handled ↦ rw handled (omega (arith, cost-append limit x g.emitted (m ∷ [])))
    | inr unhandled ↦ rw unhandled (omega arith)
  ]

  emit-Once :
      (m : Message) (g : Progress S) (s : S)
      → p.store.seen bot.key_id m.message_id g.state ≡ (ok false, s)
      → Once g (emit p bot m s g)
  unfolding emit
  emit-Once m g s h = elim (Bool-cases (bytes_eq m.message_id x)) [
    | inl same ↦
        let id_x = bytes_eq-eq m.message_id x same in
        let news =
          laws.fresh bot.key_id x g.state s named
            (subst (λ y. p.store.seen bot.key_id y g.state ≡ (ok false, s)) id_x h) in
        omega (arith, cost-emit m s g, ap (λ b. if b then limit else 0) same, news)
    | inr other ↦ omega (
      arith,
      cost-emit m s g,
      ap (λ b. if b then limit else 0) other,
      seen_state m g (ok false) s h,
    )
  ]

  by_seen-Once :
      (m : Message) (g : Progress S) (r : Result Bool × S)
      → p.store.seen bot.key_id m.message_id g.state ≡ r
      → Once g (by_seen p bot m g r).0
  unfolding by_seen
  by_seen-Once m g (err e, s) h = omega (arith, seen_state m g (err e) s h)
  by_seen-Once m g (ok true, s) h = omega (arith, seen_state m g (ok true) s h)
  by_seen-Once m g (ok false, s) h = emit-Once m g s h

  poll_message-Once : (m : Message) (g : Progress S) → Once g (poll_message p bot m g).0
  unfolding poll_message
  poll_message-Once m g = elim (Bool-cases (bytes_eq m.sender_id bot.bot_user_id)) [
    | inl own ↦ rw own (omega arith)
    | inr other ↦ rw other (by_seen-Once m g (p.store.seen bot.key_id m.message_id g.state) refl)
  ]

  poll_messages-Once : (ms : List Message) (g : Progress S) → Once g (poll_messages p bot ms g).0
  unfolding poll_messages
  poll_messages-Once ms g = each-Once (poll_message p bot) poll_message-Once ms g

  advance-Once : (ch c new : Bytes) (g : Progress S) → Once g (advance p bot ch c new g).0
  unfolding advance
  advance-Once ch c new g =
      let keeps = (laws.set_cursor bot.key_id ch new g.state bot.key_id x).0 in
      elim (Bool-cases (not (is_empty new) && not (bytes_eq new c))) [
        | inl moved ↦ rw moved (omega (arith, keeps))
        | inr same ↦ rw same (omega arith)
      ]

  after_messages-Once :
      (ch c new : Bytes) (f : Progress S) (r : Progress S × Option String)
      → Once f r.0
      → Once f (after_messages p bot ch c new r).0
  unfolding after_messages
  after_messages-Once ch c new f (g, some e) h = h
  after_messages-Once ch c new f (g, none) h = omega (arith, h, advance-Once ch c new g)

  on_page-Once :
      (ch c : Bytes) (g : Progress S) (r : Result (List Message × Bytes) × S)
      → held g.state ≤ held r.1
      → Once g (on_page p bot ch c g r).0
  unfolding on_page
  on_page-Once ch c g (err e, s) h = omega (arith, h)
  on_page-Once ch c g (ok (ms, new), s) h =
      let from = record g { state = s } in
      omega (
        arith,
        h,
        after_messages-Once ch c new from (poll_messages p bot ms from)
            (poll_messages-Once ms from),
      )

  on_cursor-Once :
      (token ch : Bytes) (g : Progress S) (r : Result Bytes × S)
      → held g.state ≤ held r.1
      → Once g (on_cursor p bot token ch g r).0
  unfolding on_cursor
  on_cursor-Once token ch g (err e, s) h = omega (arith, h)
  on_cursor-Once token ch g (ok c, s) h =
      on_page-Once ch c g (p.remote.list_since token ch [] c p.page_limit s)
        (omega (arith, h, (laws.list_since token ch [] c p.page_limit s bot.key_id x).0))

  on_wait-Once :
      (token ch : Bytes) (g : Progress S) (r : Option String × S)
      → held g.state ≤ held r.1
      → Once g (on_wait p bot token ch g r).0
  unfolding on_wait
  on_wait-Once token ch g (some e, s) h = omega (arith, h)
  on_wait-Once token ch g (none, s) h =
      on_cursor-Once token ch g (p.store.cursor bot.key_id ch s)
        (omega (arith, h, (laws.cursor bot.key_id ch s bot.key_id x).0))

  poll_channel-Once : (token ch : Bytes) (g : Progress S) → Once g (poll_channel p bot token ch g).0
  unfolding poll_channel
  poll_channel-Once token ch g =
      on_wait-Once token ch g (p.remote.wait g.state) (laws.wait g.state bot.key_id x).0

  poll_channels-Once :
      (token : Bytes) (chs : List Bytes) (g : Progress S)
      → Once g (poll_channels p bot token chs g).0
  unfolding poll_channels
  poll_channels-Once token chs g =
      each-Once (poll_channel p bot token) (poll_channel-Once token) chs g

  finish-Once :
      (f : Progress S) (r : Progress S × Option String) → Once f r.0 → Once f (finish p bot r).0
  unfolding finish
  finish-Once f (g, some e) h = h
  finish-Once f (g, none) h =
      let keeps = (laws.bump_activity bot.key_id p.now g.state bot.key_id x).0 in
      elim (Bool-cases (ltb 0 g.found)) [
        | inl some_found ↦ rw some_found (omega (arith, h, keeps))
        | inr nothing ↦ rw nothing h
      ]

  on_channels-Once :
      (token : Bytes) (s : S) (r : Result (List Bytes) × S)
      → held s ≤ held r.1
      → cost limit x (on_channels p bot token r).0.emitted + held s
        ≤ held (on_channels p bot token r).0.state
  unfolding on_channels
  on_channels-Once token s (err e, t) h = omega (arith, h)
  on_channels-Once token s (ok chs, t) h =
      let start : Progress S = record { state = t; found = 0; emitted = [] } in
      omega (
        arith,
        h,
        finish-Once start (poll_channels p bot token chs start)
            (poll_channels-Once token chs start),
      )

  pub poll_once-Once :
      (token : Bytes) (s : S)
      → cost limit x (poll_once p bot token s).0.emitted + held s
        ≤ held (poll_once p bot token s).0.state
  unfolding poll_once
  poll_once-Once token s =
      on_channels-Once token s (p.store.channels bot.key_id s)
        (laws.channels bot.key_id s bot.key_id x).0
