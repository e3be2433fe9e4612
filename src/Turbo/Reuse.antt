-- ===== src/Turbo/Reuse.antt =====
-- lib/turbo/turbo.go: a call of session after another for the same bot.
use mezon_go_sdk_turbo.Prelude.{
  ℕ, ◌≤◌, ◌≡◌, refl, sym, ap, ◌∙◌, Bool, true, false, Option, none, some, Bytes, [], arith,
  update_self, if◌then◌else◌,
}
use mezon_go_sdk_turbo.Types.{BotRef}
use mezon_go_sdk_turbo.State.{Result, ok, err}
use mezon_go_sdk_turbo.Rest.Session.{Session}
use mezon_go_sdk_turbo.Turbo.{CachedSession, Engine}
use mezon_go_sdk_turbo.Turbo.Session.{
  Client, Routed, Route, is_fresh, route_of, exchanged, cached, with_auth, session,
}

is_fresh_mono :
    (now later : ℕ) (c : CachedSession)
    → now ≤ later
    → is_fresh later c ≡ true
    → is_fresh now c ≡ true
unfolding is_fresh
is_fresh_mono now later c l h = ground (arith, l, h)

no_route : Route
no_route = record { token = []; ws_host = []; clan_ids = [] }

abbrev route_found : Option CachedSession → Route
route_found none = no_route
route_found (some c) = route_of c

fresh_found : ℕ → Option CachedSession → Bool
fresh_found now none = false
fresh_found now (some c) = is_fresh now c

module _ {F : Type 0} (cl : Client F) (bot : BotRef) where
  exchanged_route :
      (fetched : ℕ) (e : Engine) (r : Result Session × F) (c : CachedSession)
      → (e.sessions bot.key_id ≡ some c → ⊥)
      → (exchanged cl bot fetched e r).engine.sessions bot.key_id ≡ some c
      → (exchanged cl bot fetched e r).route ≡ route_of c
  unfolding exchanged
  exchanged_route fetched e (err x, s) c old h = absurd (old h)
  exchanged_route fetched e (ok sess, s) c old h =
      ap route_found (sym (update_self e.sessions bot.key_id _) ∙ h)

  module _ (auth : Bytes → Bytes → F → Result Session × F) (now fetched later : ℕ) (e : Engine)
      (s : F) (c : CachedSession) (l : now ≤ later) (fresh : is_fresh later c ≡ true) where
    held_route :
        (d : CachedSession) (b : Bool)
        → e.sessions bot.key_id ≡ some d
        → is_fresh now d ≡ b
        → (if b
              then record { route = route_of d; engine = e; far = s }
              else exchanged cl bot fetched e
                  (auth bot.bot_user_id bot.bot_token s)).engine.sessions
            bot.key_id
          ≡ some c
        → (if b
            then record { route = route_of d; engine = e; far = s }
            else exchanged cl bot fetched e (auth bot.bot_user_id bot.bot_token s)).route
          ≡ route_of c
    held_route d true held same h = ap route_found (sym held ∙ h)
    held_route d false held stale h =
        exchanged_route fetched e (auth bot.bot_user_id bot.bot_token s) c
          (λ p.
            unfold fresh_found in
            (let again = ap (fresh_found now) (sym held ∙ p) in
              let still = is_fresh_mono now later c l fresh in cc))
          h

    cached_route :
        (o : Option CachedSession)
        → e.sessions bot.key_id ≡ o
        → (cached cl bot auth now fetched e s o).engine.sessions bot.key_id ≡ some c
        → (cached cl bot auth now fetched e s o).route ≡ route_of c
    unfolding cached
    cached_route none held h =
        exchanged_route fetched e (auth bot.bot_user_id bot.bot_token s) c (λ p. cc) h
    cached_route (some d) held h = held_route d (is_fresh now d) held refl h

  again :
      (auth : Bytes → Bytes → F → Result Session × F) (later fetched : ℕ) (r : Routed F)
      (c : CachedSession)
      → r.engine.sessions bot.key_id ≡ some c
      → is_fresh later c ≡ true
      → r.route ≡ route_of c
      → cached cl bot auth later fetched r.engine r.far (r.engine.sessions bot.key_id) ≡ r
  unfolding cached
  again auth later fetched r c held fresh same =
      rw (held, cached, fresh)
        (ap (λ (t : Route). record { route = t; engine = r.engine; far = r.far }) (sym same))

  auth_again :
      (auth : Option (Bytes → Bytes → F → Result Session × F)) (now fetched later refetched : ℕ)
      (e : Engine) (s : F) (c : CachedSession)
      → now ≤ later
      → is_fresh later c ≡ true
      → (with_auth cl bot auth now fetched e s).engine.sessions bot.key_id ≡ some c
      → with_auth cl bot auth later refetched
          (with_auth cl bot auth now fetched e s).engine
          (with_auth cl bot auth now fetched e s).far
        ≡ with_auth cl bot auth now fetched e s
  auth_again none now fetched later refetched e s c l fresh h = refl
  auth_again (some auth) now fetched later refetched e s c l fresh h =
      again auth later refetched _ c h fresh
        (cached_route auth now fetched later e s c l fresh (e.sessions bot.key_id) refl h)

  -- After a call of `session` for a bot, a later call gives the same token, host and clans, without
  -- a request and without a change, as long as the cached session is fresh.
  pub session-session :
      (now fetched later refetched : ℕ) (e : Engine) (s : F) (c : CachedSession)
      → now ≤ later
      → (session cl bot now fetched e s).engine.sessions bot.key_id ≡ some c
      → is_fresh later c ≡ true
      → session cl bot later refetched
          (session cl bot now fetched e s).engine
          (session cl bot now fetched e s).far
        ≡ session cl bot now fetched e s
  unfolding session
  session-session now fetched later refetched e s c l h fresh =
      auth_again cl.auth now fetched later refetched e s c l fresh h
