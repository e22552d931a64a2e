-- ===== src/Discord.antt =====
-- roles/discord_guild/_archive/discord_reconcile.py: what the script reads and asks for, and `api`.
-- Discord, with the HTTP library before it, is the parameter `Remote` over its `World`.
pub mod Reconcile
pub mod Counted
pub mod Overwrites
pub mod Guild
pub mod Unchanged
pub mod Idempotent
pub mod Retries
use ansible_platform.Prelude.{
  ℕ, zero, suc, ◌+◌, ◌=ℕ◌, ◌<>◌, String, ◌==◌, Bool, true, false, not, ◌&&◌, ◌||◌, Option, none,
  some, List, [], ◌∷◌, ◌++◌, any, all, String-discrete, if◌then◌else◌,
}
use Prim.Native.Nat.{◌^◌}
use ansible_platform.Prelude.Dict
use ansible_platform.Prelude.Dict.{Dict}
use ansible_platform.Prelude.Exec.{
  Raised, Result, ok, err, system_exit, key_error, Exec, pure, ◌>>=◌, ◌>>◌,
}

-- One entry of `permission_overwrites`. `allow` and `deny` are the numbers that their texts are.
pub record Overwrite : Type 0 where
  pub id : String
  pub allow : ℕ
  pub deny : ℕ

pub record Role : Type 0 where
  pub name : String
  pub id : String

-- `type` is 4 for a category and 0 for a text channel.
pub record Channel : Type 0 where
  pub id : String
  pub name : String
  pub kind : ℕ
  pub parent_id : Option String
  pub topic : Option String
  pub permission_overwrites : List Overwrite

pub record Webhook : Type 0 where
  pub id : String
  pub name : Option String
  pub kind : ℕ
  pub channel_id : Option String
  pub token : Option String

-- The body of a PATCH of a channel: the keys that are set
pub record Patch : Type 0 where
  pub parent_id : Option String
  pub topic : Option String
  pub permission_overwrites : Option (List Overwrite)

-- The requests of the script, with their bodies
pub data Request : Type 0 where
  get_guild get_roles get_me get_channels get_webhooks : Request
  get_webhook : String → Request
  create_role : String → ℕ → Bool → Request
  create_category : String → Request
  create_channel : String → String → String → Option (List Overwrite) → Request
  edit_channel : String → Patch → Request
  move_webhook : String → String → Request
  create_webhook : String → String → Request
  post_message : String → String → Request

-- The JSON that answers a request: the keys that the script reads
abbrev pub Reply : Request → Type 0
Reply get_guild = Unit {0}
Reply get_roles = List Role
Reply get_me = String
Reply get_channels = List Channel
Reply get_webhooks = List Webhook
Reply (get_webhook w) = Webhook
Reply (create_role name color hoist) = Role
Reply (create_category name) = Channel
Reply (create_channel name parent topic ow) = Channel
Reply (edit_channel c p) = Unit {0}
Reply (move_webhook w c) = Unit {0}
Reply (create_webhook c name) = Webhook
Reply (post_message c who) = Unit {0}

-- The method is POST or PATCH.
abbrev pub is_write : Request → Bool
is_write get_guild = false
is_write get_roles = false
is_write get_me = false
is_write get_channels = false
is_write get_webhooks = false
is_write (get_webhook w) = false
is_write (create_role name color hoist) = true
is_write (create_category name) = true
is_write (create_channel name parent topic ow) = true
is_write (edit_channel c p) = true
is_write (move_webhook w c) = true
is_write (create_webhook c name) = true
is_write (post_message c who) = true

-- What a request comes to: a reply, an HTTP status that `urlopen` raises, or another exception
pub data Answer (A : Type 0) : Type 0 where
  answered : A → Answer A
  http_error : ℕ → Answer A
  failed : Answer A

-- `urlopen` with the reading of its JSON, and `time.sleep` after a 429
pub record Remote : Type 1 where
  pub World : Type 0
  pub send : (q : Request) → World → Answer (Reply q) × World
  pub sleep : World → World

-- A parsed `DISCORD_DESIRED`. A missing key that has a default is `none`.
pub record DesiredRole : Type 0 where
  pub name : String
  pub color : Option ℕ
  pub hoist : Option Bool

pub record DesiredChannel : Type 0 where
  pub name : String
  pub announce : Bool
  pub topic : Option String
  pub webhook : Option String

pub record Category : Type 0 where
  pub name : String
  pub channels : List DesiredChannel

pub record Desired : Type 0 where
  pub guild_id : String
  pub roles : List DesiredRole
  pub bot_role : Option String
  pub admin_role : String
  pub categories : List Category
  pub post_ready_message : Bool

-- `by_name_type`: the newest entry first, as the script only looks keys up
abbrev pub Chans : Type 0
Chans = List ((String × ℕ) × Channel)

unfoldable pub chan_at : Chans → String → ℕ → Option Channel
chan_at [] name kind = none
chan_at (((n, k), c) ∷ cs) name kind =
    let rest = chan_at cs name kind in if (n == name) && (k =ℕ kind) then some c else rest

-- The globals of the script, and what stands in the guild
pub record Run (W : Type 0) : Type 0 where
  pub world : W
  pub changes : ℕ
  pub roles : Dict Role
  pub by_name_type : Chans
  pub created_announce : Option Channel
  pub out : Dict (String × (String × String))

abbrev pub or_else {ℓ} : {A : Type ℓ} → Option A → A → A
or_else none a = a
or_else (some b) a = b

abbrev pub bit : ℕ → ℕ
bit n = 2 ^ n

-- `P`, combined: its flags are different bits, so `|` adds them.
abbrev pub read_only : ℕ
read_only = bit 10 + (bit 16 + bit 6)

abbrev pub speak : ℕ
speak = bit 11

abbrev pub moderate : ℕ
moderate = bit 11 + bit 13

abbrev pub role_overwrite : Option Role → List Overwrite
role_overwrite none = []
role_overwrite (some r) = record { id = r.id; allow = moderate; deny = 0 } ∷ []

-- `overwrites_for`, with `everyone_id`, `admin_role` and `bot_role`
unfoldable pub overwrites_for :
    String → Option Role → Option Role → DesiredChannel → Option (List Overwrite)
overwrites_for everyone admin bot ch =
    if not ch.announce
    then none
    else some (
        record { id = everyone; allow = read_only; deny = speak }
        ∷ (role_overwrite admin ++ role_overwrite bot))

abbrev pub same_overwrite : Overwrite → Overwrite → Bool
same_overwrite o p = (o.id == p.id) && ((o.allow =ℕ p.allow) && (o.deny =ℕ p.deny))

abbrev pub subset : List Overwrite → List Overwrite → Bool
subset os ps = all (λ o. any (λ p. same_overwrite o p) ps) os

-- `ow_equal`: the two lists are the same set
unfoldable pub ow_equal : List Overwrite → List Overwrite → Bool
ow_equal current wanted = subset current wanted && subset wanted current

module _ (d : Remote) where
  abbrev pub Script : Type 0 → Type 0
  Script A = Exec (Run (Remote.World d)) A

  -- One turn of the loop of `api`, with the turns after it
  abbrev pub answer_or_again :
      {A : Type 0}
      → (Remote.World d → Result A × Remote.World d)
      → Answer A × Remote.World d
      → Result A × Remote.World d
  answer_or_again again (answered r, w) = (ok r, w)
  answer_or_again again (http_error code, w) =
      if code =ℕ 429 then again (d.sleep w) else (err (system_exit "API"), w)
  answer_or_again again (failed, w) = (err Raised.api_error, w)

  -- `api`, with the attempts that are left
  unfoldable pub attempts : ℕ → (q : Request) → Exec (Remote.World d) (Reply q)
  attempts zero q w = (err (system_exit "rate limited too long"), w)
  attempts (suc left) q w = answer_or_again (attempts left q) (d.send q w)

  abbrev pub in_run :
      {A : Type 0}
      → Run (Remote.World d)
      → Result A × Remote.World d
      → Result A × Run (Remote.World d)
  in_run s (r, w) = (r, record s { world = w })

  -- `api`: five attempts
  unfoldable pub api : (q : Request) → Script (Reply q)
  api q s = in_run s (attempts 5 q s.world)

  -- `log`; what it prints is not modelled
  unfoldable pub log : Script (Unit {0})
  log s = (ok tt, record s { changes = suc s.changes })

  unfoldable pub globals : Script (Run (Remote.World d))
  globals s = (ok s, s)

  unfoldable pub change : (Run (Remote.World d) → Run (Remote.World d)) → Script (Unit {0})
  change f s = (ok tt, f s)
