-- ===== src/State/Answers.antt =====
-- lib/state/state.go: what RedisStore answers, on a server that keeps the documented behaviour of
-- the commands.
use mezon_go_sdk_turbo.Prelude.{
  ℕ, zero, suc, ◌≤◌, ◌≡◌, refl, ap, sym, ◌∙◌, String, Bool, true, false, [], ◌∷◌, Option, none,
  some, Bytes, is_empty, bytes_eq, ascii, arith, one_if, if◌then◌else◌,
}
use mezon_go_sdk_turbo.Prelude.Int.{ℤ, pos_part}
use mezon_go_sdk_turbo.Types.{Tier, cold, warm, hot, to_string}
use mezon_go_sdk_turbo.State.{Result, ok, err}
use mezon_go_sdk_turbo.State.RedisStore.{
  Redis, RedisStore, new_redis_store, expire, h_set, k, seen, added, trimmed, cursor, or_no_cursor,
  set_cursor, tier, or_cold, tier_of_text, set_tier,
}

-- `hash` is the value of a field of a hash, and `member` says whether a sorted set holds a member.
-- HGet answers the value; a pipeline of HSet and Expire with a positive time sets it and leaves the
-- other fields of the hash; ZAddNX adds a member that is not there and answers how many it added.
pub record IsRedis {S : Type 0} (r : Redis S) (hash : String → Bytes → S → Option Bytes)
    (member : String → Bytes → S → Bool) : Type 0 where
  pub get :
      (key : String) (f : Bytes) (s t : S) (v : Option Bytes)
      → r.h_get key f s ≡ (ok v, t)
      → v ≡ hash key f s
  pub set :
      (key : String) (f g v : Bytes) (ttl : ℤ) (s t : S)
      → 1 ≤ pos_part ttl
      → r.exec (h_set key f v ∷ expire key ttl ∷ []) s ≡ (none, t)
      → hash key g t ≡ (if bytes_eq g f then some v else hash key g s)
  pub add :
      (key : String) (at n : ℕ) (x : Bytes) (s t : S)
      → r.z_add_nx key at x s ≡ (ok n, t)
      → n ≡ one_if (if member key x s then false else true)

abbrev pub cursor_of_value : Option Bytes → Bytes
cursor_of_value none = []
cursor_of_value (some v) = v

-- An answer that is `a`, or an error.
abbrev pub OrError : {A : Type 0} → A → Result A → Type 0
OrError a (ok b) = b ≡ a
OrError a (err e) = Unit {0}

or_error : {A : Type 0} (a : A) (o : Result A) → ((b : A) → o ≡ ok b → b ≡ a) → OrError a o
or_error a (ok b) h = h b refl
or_error a (err e) h = tt

pair_of : {A B : Type 0} (o : A × B) (a : A) → o.0 ≡ a → o ≡ (a, o.1)
pair_of (x, y) a h = ap (λ z. (z, y)) h

module _ {S : Type 0} (r : Redis S) (hash : String → Bytes → S → Option Bytes)
    (member : String → Bytes → S → Bool) (laws : IsRedis r hash member) (ttl dedup_cap : ℤ) where
  abbrev store : RedisStore
  store = new_redis_store ttl dedup_cap

  ttl_positive : 1 ≤ pos_part store.ttl
  unfolding new_redis_store
  ttl_positive = ground arith

  tier_of_text-to_string : (t : Tier) → tier_of_text (ascii (to_string t)) ≡ t
  unfolding tier_of_text to_string ascii
  tier_of_text-to_string hot = refl
  tier_of_text-to_string warm = refl
  tier_of_text-to_string cold = refl

  abbrev tier_of_value : Option Bytes → Tier
  tier_of_value none = cold
  tier_of_value (some v) = tier_of_text v

  tier_answer :
      (o : Result (Option Bytes) × S) (u : Tier) (t : S)
      → or_cold r store o ≡ (ok u, t)
      → (v : Option Bytes) × ((o ≡ (ok v, t)) × (u ≡ tier_of_value v))
  unfolding or_cold
  tier_answer (err e, s) u t h = cc
  tier_answer (ok none, s) u t h = (none, (cc, cc))
  tier_answer (ok (some v), s) u t h = (some v, (cc, cc))

  tier_after :
      (key_id : String) (t u : Tier) (s s' s'' : S)
      → set_tier r store key_id t s ≡ (none, s')
      → tier r store key_id s' ≡ (ok u, s'')
      → u ≡ t
  unfolding set_tier tier
  tier_after key_id t u s s' s'' h a =
      let (v, (got, is_u)) = tier_answer (r.h_get (k key_id "meta") (ascii "tier") s') u s'' a in
      let value = laws.get (k key_id "meta") (ascii "tier") s' s'' v got in
      let stored =
        laws.set (k key_id "meta") (ascii "tier") (ascii "tier") (ascii (to_string t)) store.ttl s
          s' ttl_positive h in
      is_u ∙ ap tier_of_value (value ∙ stored) ∙ tier_of_text-to_string t

  -- After SetTier has succeeded, Tier answers that tier, or an error.
  pub tier-set_tier :
      (key_id : String) (t : Tier) (s : S)
      → (set_tier r store key_id t s).0 ≡ none
      → OrError t (tier r store key_id (set_tier r store key_id t s).1).0
  tier-set_tier key_id t s h =
      let s' = (set_tier r store key_id t s).1 in
      or_error t (tier r store key_id s').0 (λ u a.
        tier_after key_id t u s s' (tier r store key_id s').1
          (pair_of (set_tier r store key_id t s) none h)
          (pair_of (tier r store key_id s') (ok u) a))

  cursor_answer :
      (o : Result (Option Bytes) × S) (c : Bytes) (t : S)
      → or_no_cursor r store o ≡ (ok c, t)
      → (v : Option Bytes) × ((o ≡ (ok v, t)) × (c ≡ cursor_of_value v))
  unfolding or_no_cursor
  cursor_answer (err e, s) c t h = cc
  cursor_answer (ok none, s) c t h = (none, (cc, cc))
  cursor_answer (ok (some v), s) c t h = (some v, (cc, cc))

  cursor_after :
      (key_id : String) (ch c other d : Bytes) (s s' s'' : S)
      → set_cursor r store key_id ch c s ≡ (none, s')
      → cursor r store key_id other s' ≡ (ok d, s'')
      → d ≡ (if bytes_eq other ch then c else cursor_of_value (hash (k key_id "cur") other s))
  unfolding set_cursor cursor
  cursor_after key_id ch c other d s s' s'' h a =
      let (v, (got, is_d)) = cursor_answer (r.h_get (k key_id "cur") other s') d s'' a in
      let value = laws.get (k key_id "cur") other s' s'' v got in
      let stored = laws.set (k key_id "cur") ch other c store.ttl s s' ttl_positive h in
      is_d ∙ ap cursor_of_value (value ∙ stored) ∙ chosen (bytes_eq other ch)
    where
      chosen :
          (same : Bool)
          → cursor_of_value (if same then some c else hash (k key_id "cur") other s)
            ≡ (if same then c else cursor_of_value (hash (k key_id "cur") other s))
      chosen true = refl
      chosen false = refl

  -- After SetCursor has succeeded, Cursor answers the new cursor for that channel, and for another
  -- channel of the bot what the server held before, or the empty string where it held none; or it
  -- answers an error.
  pub cursor-set_cursor :
      (key_id : String) (ch c other : Bytes) (s : S)
      → (set_cursor r store key_id ch c s).0 ≡ none
      → OrError
          (if bytes_eq other ch then c else cursor_of_value (hash (k key_id "cur") other s))
          (cursor r store key_id other (set_cursor r store key_id ch c s).1).0
  cursor-set_cursor key_id ch c other s h =
      let s' = (set_cursor r store key_id ch c s).1 in
      or_error _ (cursor r store key_id other s').0 (λ d a.
        cursor_after key_id ch c other d s s' (cursor r store key_id other s').1
          (pair_of (set_cursor r store key_id ch c s) none h)
          (pair_of (cursor r store key_id other s') (ok d) a))

  trimmed_answer :
      (o : Option String × S) (b : Bool) (t : S) → trimmed r store o ≡ (ok b, t) → b ≡ false
  unfolding trimmed
  trimmed_answer (some e, s) b t h = cc
  trimmed_answer (none, s) b t h = cc

  added_answer :
      (key : String) (o : Result ℕ × S) (held b : Bool) (t : S)
      → ((n : ℕ) (u : S) → o ≡ (ok n, u) → n ≡ one_if (if held then false else true))
      → added r store key o ≡ (ok b, t)
      → b ≡ held
  unfolding added
  added_answer key (err e, s) held b t law h = cc
  added_answer key (ok zero, s) true b t law h = cc
  added_answer key (ok zero, s) false b t law h = absurd (omega (arith, law 0 s refl))
  added_answer key (ok (suc n), s) true b t law h = absurd (omega (arith, law (suc n) s refl))
  added_answer key (ok (suc n), s) false b t law h = trimmed_answer _ b t h

  seen_named :
      (now : ℕ) (key_id : String) (x : Bytes) (s : S)
      → is_empty x ≡ false
      → seen r store now key_id x s
        ≡ added r store (k key_id "dedup") (r.z_add_nx (k key_id "dedup") now x s)
  unfolding seen
  seen_named now key_id x s named = rw named refl

  -- Seen of an id that is not empty answers whether the set held it, or an error.
  pub seen-member :
      (now : ℕ) (key_id : String) (x : Bytes) (s : S)
      → is_empty x ≡ false
      → OrError (member (k key_id "dedup") x s) (seen r store now key_id x s).0
  seen-member now key_id x s named = or_error _ (seen r store now key_id x s).0 (λ b a.
      added_answer (k key_id "dedup") (r.z_add_nx (k key_id "dedup") now x s)
        (member (k key_id "dedup") x s) b (seen r store now key_id x s).1
        (λ n u e. laws.add (k key_id "dedup") now n x s u e)
        (sym (seen_named now key_id x s named) ∙ pair_of (seen r store now key_id x s) (ok b) a))
