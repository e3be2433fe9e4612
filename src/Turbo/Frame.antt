-- ===== src/Turbo/Frame.antt =====
-- lib/turbo/turbo.go: what a call to send leaves alone.
use mezon_go_sdk_turbo.Prelude.{
  ℕ, ◌==◌, ◌≡◌, not, ◌⊎◌, String, Bool, true, false, Option, none, some, Bytes,
}
use mezon_go_sdk_turbo.State.{Result}
use mezon_go_sdk_turbo.Proto.{ProtoWire}
use mezon_go_sdk_turbo.Rest.Session.{Session}
use mezon_go_sdk_turbo.Turbo.{Engine}
use mezon_go_sdk_turbo.Turbo.Sync.{Host}

-- The sockets of an engine are those of another.
abbrev pub SameSockets : Engine → Engine → Type 0
SameSockets d e = (d.hot ≡ e.hot) × (d.opening ≡ e.opening) × (d.wheel ≡ e.wheel)

-- The Conn that is registered for a key, if any.
abbrev pub is_the_conn : Option ℕ → ℕ → Bool
is_the_conn none d = false
is_the_conn (some c) d = c == d

module _ ⦃w : ProtoWire⦄ {F : Type 0} (write : ℕ → Bytes → F → Option String × F) (ssl : Bool)
    (handshake : Bytes → F → Result ℕ × F) where
  -- Whether the Conn of the bot, if any, is open.
  abbrev pub is_live : Option ℕ → Host F → Bool
  is_live none h = false
  is_live (some c) h = not (h.conns c).closed

  -- The sockets of the engine are as they were, and at most one Conn is not: the open Conn `o` of
  -- the bot, or else, where the bot has no open Conn, one that is closed in the end.
  pub record Spares (o : Option ℕ) (h k : Host F) : Type 0 where
    pub sockets : SameSockets k.engine h.engine
    pub used : Option ℕ
    pub spared : (d : ℕ) → is_the_conn used d ≡ false → k.conns d ≡ h.conns d
    pub shut :
        (c : ℕ)
        → used ≡ some c
        → ((is_live o h ≡ true) × (o ≡ some c))
          ⊎ ((is_live o h ≡ false) × ((k.conns c).closed ≡ true))
