-- ===== src/Tests/Guild.antt =====
-- roles/discord_guild/_archive/discord_reconcile.py on a small guild.
use ansible_platform.Prelude.{
  ℕ, zero, suc, ◌≤◌, ◌<◌, ltb, String, ◌≡◌, refl, sym, subst, true, false, Option, none, some, List,
  [], ◌∷◌, In, here, there, String-discrete, if◌then◌else◌, arith,
}
use mathlib.Core.Option.{some-injective}
use ansible_platform.Prelude.Dict
use ansible_platform.Prelude.Dict.{Dict}
use ansible_platform.Prelude.Exec.{ok, ◌>>=◌, pure, when, each, lift}
use ansible_platform.Discord.{
  Overwrite, Role, Channel, Webhook, Request, Reply, get_guild, get_roles, get_me, get_channels,
  get_webhooks, get_webhook, create_role, create_category, create_channel, edit_channel,
  move_webhook, create_webhook, post_message, answered, http_error, Remote, DesiredRole,
  DesiredChannel, Category, Desired, chan_at, overwrites_for, attempts, api, log, globals, change,
}
use ansible_platform.Discord.Reconcile.{
  roles_by_name, chans_by_name, webhooks_by_name, truthy_text, patch_for, ensure_role,
  ensure_category, ensure_channel, ensure_channels, moved, made, with_token, named, ensure_webhook,
  announce, reconcile, report, main, start,
}
use ansible_platform.Discord.Counted.{counting, changes_counted}
use ansible_platform.Discord.Retries.{tallying, after_waits, api_bounded, api_gets_through}
use ansible_platform.Discord.Guild.{Guild, Serves, IsAsWanted, IsHooked, IsDesired}
use ansible_platform.Discord.Idempotent.{main_idempotent}

abbrev admins : Role
admins = record { name = "admins"; id = "7" }

abbrev category : Channel
category = record {
  id = "10";
  name = "ops";
  kind = 4;
  parent_id = none;
  topic = none;
  permission_overwrites = [];
}

abbrev channel : Channel
channel = record {
  id = "11";
  name = "alerts";
  kind = 0;
  parent_id = some "10";
  topic = none;
  permission_overwrites = [];
}

abbrev hook : Webhook
hook = record {
  id = "12";
  name = some "grafana";
  kind = 1;
  channel_id = some "11";
  token = some "t";
}

abbrev guild : Guild
guild = record {
  roles = admins ∷ [];
  me = "bot";
  channels = category ∷ channel ∷ [];
  webhooks = hook ∷ [];
}

-- A guild that answers every request; the world counts the sleeps, and the first `limit` attempts
-- are answered by 429.
abbrev answer_of : Guild → (q : Request) → Reply q
answer_of g get_guild = tt
answer_of g get_roles = g.roles
answer_of g get_me = g.me
answer_of g get_channels = g.channels
answer_of g get_webhooks = g.webhooks
answer_of g (get_webhook w) = hook
answer_of g (create_role name color hoist) = record { name = name; id = "8" }
answer_of g (create_category name) = category
answer_of g (create_channel name parent topic ow) = channel
answer_of g (edit_channel c p) = tt
answer_of g (move_webhook w c) = tt
answer_of g (create_webhook c name) = hook
answer_of g (post_message c who) = tt

abbrev remote : ℕ → Guild → Remote
remote limit g = record {
  World = ℕ;
  send = λ q w. (if ltb w limit then http_error 429 else answered (answer_of g q), w);
  sleep = suc;
}

-- The same guild, without a limit
abbrev quiet : Guild → Remote
quiet g = record { World = ℕ; send = λ q w. (answered (answer_of g q), w); sleep = suc }

abbrev alerts : DesiredChannel
alerts = record { name = "alerts"; announce = false; topic = none; webhook = some "grafana" }

abbrev ops : Category
ops = record { name = "ops"; channels = alerts ∷ [] }

abbrev desired : Desired
desired = record {
  guild_id = "1";
  roles = record { name = "admins"; color = none; hoist = none } ∷ [];
  bot_role = none;
  admin_role = "admins";
  categories = ops ∷ [];
  post_ready_message = true;
}

abbrev bare : Guild
bare = record { roles = []; me = "bot"; channels = category ∷ []; webhooks = hook ∷ [] }

changes_counted_example :
    (main (counting (quiet bare)) desired (start (counting (quiet bare)) (0, 0))).1.world.1 ≡ 2
unfolding main reconcile report ensure_role ensure_channels ensure_category ensure_channel patch_for
    ensure_webhook named moved made with_token announce api attempts log globals change
    roles_by_name chans_by_name webhooks_by_name chan_at overwrites_for Dict.get Dict.put Dict.has
    pure lift when each ◌>>=◌ String-discrete
changes_counted_example =
    changes_counted (quiet bare) desired 0 (2, ("grafana", ("12", ("t", "alerts"))) ∷ []) refl

api_bounded_example :
    (api (tallying (remote 9 guild)) get_roles (start (tallying (remote 9 guild)) (0, 0))).1.world.1
    ≤ 5
unfolding api
api_bounded_example =
    api_bounded (remote 9 guild) get_roles (start (tallying (remote 9 guild)) (0, 0))

limited :
    (j : ℕ)
    → j < 2
    → (Remote.send (remote 2 guild) get_roles (after_waits (remote 2 guild) get_roles j 0)).0
      ≡ http_error 429
limited zero h = refl
limited (suc zero) h = refl
limited (suc (suc j)) h = absurd (omega arith)

api_gets_through_example :
    (api (remote 2 guild) get_roles (start (remote 2 guild) 0)).0 ≡ ok (admins ∷ [])
api_gets_through_example =
    api_gets_through (remote 2 guild) 2 get_roles (start (remote 2 guild) 0) (admins ∷ [])
      (omega arith) limited refl

serves : Serves (quiet guild) guild
serves = record {
  serves_guild = λ w. refl;
  serves_roles = λ w. refl;
  serves_me = λ w. refl;
  serves_channels = λ w. refl;
  serves_webhooks = λ w. refl;
}

-- What is in a list of one element
In-only : {A : Type 0} (a b : A) → In b (a ∷ []) → a ≡ b
In-only a _ here = refl
In-only a b (there h) = elim h [ ]

role_there :
    (r : DesiredRole) → In r desired.roles → Dict.has (roles_by_name [] guild.roles) r.name ≡ true
unfolding roles_by_name Dict.put Dict.has Dict.get String-discrete
role_there r m =
    subst (λ r. Dict.has (roles_by_name [] guild.roles) r.name ≡ true) (In-only _ r m) refl

category_there :
    (cat : Category)
    → In cat (ops ∷ [])
    → (c : Channel) × (chan_at (chans_by_name [] guild.channels) cat.name 4 ≡ some c)
unfolding chan_at chans_by_name String-discrete
category_there cat m =
    subst
      (λ (cat : Category).
        (c : Channel) × (chan_at (chans_by_name [] guild.channels) cat.name 4 ≡ some c))
      (In-only ops cat m) (category, refl)

alerts_only :
    (cat : Category) (ch : DesiredChannel) → In cat (ops ∷ []) → In ch cat.channels → alerts ≡ ch
alerts_only cat ch m k =
    In-only alerts ch (subst (λ (cat : Category). In ch cat.channels) (sym (In-only ops cat m)) k)

channel_there :
    (cat : Category) (ch : DesiredChannel)
    → In cat (ops ∷ [])
    → In ch cat.channels
    → (t : Channel) × (chan_at (chans_by_name [] guild.channels) ch.name 0 ≡ some t)
unfolding chan_at chans_by_name String-discrete
channel_there cat ch m k =
    subst
      (λ (ch : DesiredChannel).
        (t : Channel) × (chan_at (chans_by_name [] guild.channels) ch.name 0 ≡ some t))
      (alerts_only cat ch m k) (channel, refl)

found_category :
    (cat : Category) (c : Channel)
    → In cat (ops ∷ [])
    → chan_at (chans_by_name [] guild.channels) cat.name 4 ≡ some c
    → category ≡ c
unfolding chan_at chans_by_name String-discrete
found_category cat c m h = some-injective category c (
    subst (λ (cat : Category). chan_at (chans_by_name [] guild.channels) cat.name 4 ≡ some c)
      (sym (In-only ops cat m)) h)

found_channel :
    (cat : Category) (ch : DesiredChannel) (t : Channel)
    → In cat (ops ∷ [])
    → In ch cat.channels
    → chan_at (chans_by_name [] guild.channels) ch.name 0 ≡ some t
    → channel ≡ t
unfolding chan_at chans_by_name String-discrete
found_channel cat ch t m k h = some-injective channel t (
    subst (λ (ch : DesiredChannel). chan_at (chans_by_name [] guild.channels) ch.name 0 ≡ some t)
      (sym (alerts_only cat ch m k)) h)

abbrev wanted : DesiredChannel → Option (List Overwrite)
wanted =
    overwrites_for "1" (Dict.get (roles_by_name [] guild.roles) "admins")
      (Dict.get (roles_by_name [] guild.roles) "")

alerts_set : IsAsWanted (wanted alerts) category channel alerts
unfolding overwrites_for
alerts_set = record { in_category = refl; has_topic = refl; has_overwrites = λ ow h. absurd (cc) }

alerts-IsHooked : IsHooked (webhooks_by_name [] guild.webhooks) channel "grafana"
unfolding webhooks_by_name Dict.get Dict.put String-discrete
alerts-IsHooked = record {
  hook = hook;
  is_there = refl;
  in_channel = refl;
  token = "t";
  has_token = refl;
  token_given = λ h. absurd (cc);
}

hook_name :
    (cat : Category) (ch : DesiredChannel) (name : String)
    → In cat (ops ∷ [])
    → In ch cat.channels
    → truthy_text ch.webhook ≡ some name
    → "grafana" ≡ name
unfolding String-discrete
hook_name cat ch name m k e = some-injective "grafana" name (
    subst (λ (ch : DesiredChannel). truthy_text ch.webhook ≡ some name)
      (sym (alerts_only cat ch m k)) e)

guild-IsDesired : IsDesired desired guild
guild-IsDesired = record {
  role_there = role_there;
  category_there = category_there;
  channel_there = λ cat ch. channel_there cat ch;
  channel_set = λ cat ch c t m k h l.
      subst (λ ch. IsAsWanted (wanted ch) c t ch) (alerts_only cat ch m k)
        (subst (λ c. IsAsWanted (wanted alerts) c t alerts) (found_category cat c m h)
          (subst (λ t. IsAsWanted (wanted alerts) category t alerts) (found_channel cat ch t m k l)
            alerts_set));
  hook_set = λ cat ch t name m k h e.
      subst (λ t. IsHooked (webhooks_by_name [] guild.webhooks) t name)
        (found_channel cat ch t m k h)
        (subst (λ name. IsHooked (webhooks_by_name [] guild.webhooks) channel name)
          (hook_name cat ch name m k e) alerts-IsHooked);
}

main_idempotent_example :
    (out : Dict (String × (String × String))) × ((main
        (quiet guild)
        desired
        (start (quiet guild) 0)).0
      ≡ ok (0, out))
main_idempotent_example = main_idempotent (quiet guild) desired guild serves guild-IsDesired 0
