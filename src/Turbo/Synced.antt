-- ===== src/Turbo/Synced.antt =====
-- lib/turbo/turbo.go: what SyncClans returns, and what a later dial joins.
use mezon_go_sdk_turbo.Prelude.{
  ℕ, ◌==◌, ◌≡◌, refl, ap, ◌∙◌, inl, inr, String, Bool, true, false, ◌||◌, List, [], ◌∷◌, ◌++◌,
  Option, none, some, Bytes, bytes_eq_self, is_empty, update, update_self, arith, All, Bool-cases,
  if◌then◌else◌,
}
use mezon_go_sdk_turbo.Types.{BotRef}
use mezon_go_sdk_turbo.State.{Result, ok}
use mezon_go_sdk_turbo.Proto.{ProtoWire}
use mezon_go_sdk_turbo.Rest.{Clan, Channel}
use mezon_go_sdk_turbo.Turbo.{CachedSession, Engine}
use mezon_go_sdk_turbo.Turbo.Session.{Client, session}
use mezon_go_sdk_turbo.Turbo.Sync.{
  ClanSnapshot, Listing, listed, http_error, failed, Directory, Host, Pass, may_list, unknown,
  on_listing, snapshot, snapshots, is_known, remember, remembered, join_live, after_loop, on_clans,
  with_session, sync_clans, routed, has_auth,
}

abbrev no_channel : List Channel → Bool
no_channel [] = true
no_channel (c ∷ cs) = false

-- A snapshot of a clan, without channels unless they are known.
abbrev pub Shows : Clan → ClanSnapshot → Type 0
Shows cl s =
    (s.id ≡ cl.id) × (s.name ≡ cl.name) × ((s.channels_known || no_channel s.channels) ≡ true)

abbrev pub Matches : List Clan → List ClanSnapshot → Type 0
Matches [] [] = Unit {0}
Matches [] (s ∷ ss) = ⊥
Matches (cl ∷ cls) [] = ⊥
Matches (cl ∷ cls) (s ∷ ss) = Shows cl s × Matches cls ss

module _ {F : Type 0} (dir : Directory F) where
  on_listing-Shows :
      (now : ℕ) (cl : Clan) (p : Pass F) (r : Listing × F) → Shows cl (on_listing dir now cl p r).0
  unfolding on_listing
  on_listing-Shows now cl p (listed chans, s) = (refl, refl, refl)
  on_listing-Shows now cl p (http_error status, s) = elim (Bool-cases (status == 403)) [
    | inl refused ↦ rw refused (refl, refl, refl)
    | inr other ↦ rw other (refl, refl, refl)
  ]
  on_listing-Shows now cl p (failed e, s) = (refl, refl, refl)

  snapshot_if :
      (lists : Bool) (cl : Clan) (p : Pass F) (r : ClanSnapshot × Pass F)
      → Shows cl r.0
      → Shows cl (if lists then r else (unknown cl, p)).0
  snapshot_if true cl p r h = h
  snapshot_if false cl p r h = (refl, refl, refl)

  snapshots-Matches :
      (now : ℕ) (c : CachedSession) (cls : List Clan) (p : Pass F)
      → Matches cls (snapshots dir now c cls p).0
  unfolding snapshots snapshot
  snapshots-Matches now c [] p = tt
  snapshots-Matches now c (cl ∷ cls) p = (
    snapshot_if p.lists cl p
        (on_listing dir now cl p (dir.list_channels c.api_url c.token cl.id p.far))
        (on_listing-Shows now cl p (dir.list_channels c.api_url c.token cl.id p.far)),
    snapshots-Matches now c cls (snapshot dir now c cl p).1,
  )

is_known-append :
    (ids more : List Bytes) (j : Bytes)
    → is_known (ids ++ more) j ≡ (is_known ids j || is_known more j)
is_known-append [] more j = refl
is_known-append (i ∷ ids) more j = ground (arith, is_known-append ids more j)

abbrev also : List Bytes → List Bytes → Bytes → List Bytes
also known ids j = if is_known known j then ids else ids ++ (j ∷ [])

is_known-also :
    (known ids : List Bytes) (j k : Bytes)
    → is_known ids k ≡ true
    → is_known (also known ids j) k ≡ true
is_known-also known ids j k h = ground (arith, h, is_known-append ids (j ∷ []) k)

is_known-remember :
    (known : List Bytes) (cls : List Clan) (ids : List Bytes) (k : Bytes)
    → is_known ids k ≡ true
    → is_known (remember known cls ids) k ≡ true
unfolding remember
is_known-remember known [] ids k h = h
is_known-remember known (cl ∷ cls) ids k h =
    is_known-remember known cls (also known ids cl.id) k (is_known-also known ids cl.id k h)

remember_all :
    (known : List Bytes) (cls : List Clan) (ids : List Bytes)
    → ((k : Bytes) → is_known known k ≡ true → is_known ids k ≡ true)
    → All (λ cl. is_known (remember known cls ids) cl.id ≡ true) cls
unfolding remember
remember_all known [] ids h = tt
remember_all known (cl ∷ cls) ids h =
    let ids' = also known ids cl.id in
    (
      is_known-remember known cls ids' cl.id
          (ground (arith, h cl.id, is_known-append ids (cl.id ∷ []) cl.id, bytes_eq_self cl.id)),
      remember_all known cls ids' (λ k known_k. is_known-also known ids cl.id k (h k known_k)),
    )

module _ ⦃w : ProtoWire⦄ {F : Type 0} (write : ℕ → Bytes → F → Option String × F) where
  join_live_engine :
      (cls : List Clan) (o : Option ℕ) (h : Host F) → (join_live write cls o h).engine ≡ h.engine
  unfolding join_live
  join_live_engine cls none h = refl
  join_live_engine cls (some c) h = ground arith

  -- Snapshots of the clans, and a session of the bot that joins them all.
  abbrev pub IsSynced : String → List Clan → Result (List ClanSnapshot) × Host F → Type 0
  IsSynced key cls r =
      ((snaps : List ClanSnapshot) × ((r.0 ≡ ok snaps) × Matches cls snaps))
      × ((c : CachedSession) × ((r.1.engine.sessions key ≡ some c)
            × All (λ cl. is_known c.clan_ids cl.id ≡ true) cls))

  module _ (dir : Directory F) (bot : BotRef) (now : ℕ) where
    on_clans-IsSynced :
        (c : CachedSession) (h : Host F) (cls : List Clan) (s : F)
        → h.engine.sessions bot.key_id ≡ some c
        → IsSynced bot.key_id cls (on_clans write dir bot now c h (ok cls, s))
    unfolding on_clans after_loop remembered
    on_clans-IsSynced c h cls s held =
        let p : Pass F = record {
          lists = may_list now (h.engine.no_channels bot.key_id);
          no_channels = h.engine.no_channels bot.key_id;
          far = s;
        } in
        let r = snapshots dir now c cls p in
        let sessions =
          update h.engine.sessions bot.key_id (remembered cls (h.engine.sessions bot.key_id)) in
        let e : Engine = record h.engine {
          no_channels = update h.engine.no_channels bot.key_id r.1.no_channels;
          sessions = sessions;
        } in
        let same =
          join_live_engine cls (e.hot bot.key_id) (record h { engine = e; far = r.1.far }) in
        (
          (r.0, (refl, snapshots-Matches dir now c cls p)),
          (
            record c { clan_ids = remember c.clan_ids cls c.clan_ids },
            (
              ap (λ (e' : Engine). e'.sessions bot.key_id) same
                  ∙ update_self h.engine.sessions bot.key_id
                      (remembered cls (h.engine.sessions bot.key_id))
                  ∙ ap (remembered cls) held,
              remember_all c.clan_ids cls c.clan_ids (λ k x. x),
            ),
          ),
        )

  session_set :
      (dir : Directory F) (bot : BotRef) (now : ℕ) (c : CachedSession) (h : Host F)
      (cls : List Clan) (s : F)
      → h.engine.sessions bot.key_id ≡ some c
      → is_empty c.api_url ≡ false
      → dir.list_clans c.api_url c.token h.far ≡ (ok cls, s)
      → with_session write dir bot now (h.engine.sessions bot.key_id) h
        ≡ on_clans write dir bot now c h (ok cls, s)
  unfolding with_session
  session_set dir bot now c h cls s held url answer =
      let asked : with_session write dir bot now (some c) h
          ≡ on_clans write dir bot now c h (ok cls, s) =
        rw (url, answer) refl in
      ap (λ o. with_session write dir bot now o h) held ∙ asked

  -- SyncClans, where the bot has a session with an API URL and ListClans answers, gives one snapshot
  -- of each clan in their order, with no channels unless they are known, and leaves a session that
  -- joins every one of them at the next dial.
  pub sync_clans-IsSynced :
      (dir : Directory F) (cl : Client F) (bot : BotRef) (now fetched : ℕ) (h : Host F)
      (c : CachedSession) (cls : List Clan) (s : F)
      → has_auth cl.auth ≡ true
      → (session cl bot now fetched h.engine h.far).engine.sessions bot.key_id ≡ some c
      → is_empty c.api_url ≡ false
      → dir.list_clans c.api_url c.token (session cl bot now fetched h.engine h.far).far
        ≡ (ok cls, s)
      → IsSynced bot.key_id cls (sync_clans write (some dir) cl bot now fetched h)
  unfolding sync_clans
  sync_clans-IsSynced dir cl bot now fetched h c cls s auth held url answer =
      let h' = routed h (session cl bot now fetched h.engine h.far) in
      rw (auth, session_set dir bot now c h' cls s held url answer)
        (on_clans-IsSynced dir bot now c h' cls s held)
