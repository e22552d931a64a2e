-- ===== src/Discord/Guild.antt =====
-- roles/discord_guild/_archive/discord_reconcile.py: a guild, and when it is as desired.
use ansible_platform.Prelude.{String, ◌≡◌, ◌≢◌, true, Option, some, List, [], In}
use ansible_platform.Prelude.Dict
use ansible_platform.Prelude.Dict.{Dict}
use ansible_platform.Discord.{
  Overwrite, Role, Channel, Webhook, get_guild, get_roles, get_me, get_channels, get_webhooks,
  answered, Remote, DesiredRole, DesiredChannel, Category, Desired, chan_at, or_else,
  overwrites_for,
}
use ansible_platform.Discord.Reconcile.{
  roles_by_name, chans_by_name, webhooks_by_name, truthy_text, role_at,
}

-- What stands in a guild
pub record Guild : Type 0 where
  pub roles : List Role
  pub me : String
  pub channels : List Channel
  pub webhooks : List Webhook

-- Every reading request is answered by what stands in the guild.
pub record Serves (d : Remote) (g : Guild) : Type 0 where
  pub serves_guild : (w : Remote.World d) → (d.send get_guild w).0 ≡ answered tt
  pub serves_roles : (w : Remote.World d) → (d.send get_roles w).0 ≡ answered g.roles
  pub serves_me : (w : Remote.World d) → (d.send get_me w).0 ≡ answered g.me
  pub serves_channels : (w : Remote.World d) → (d.send get_channels w).0 ≡ answered g.channels
  pub serves_webhooks : (w : Remote.World d) → (d.send get_webhooks w).0 ≡ answered g.webhooks

-- The channel `t` is as `ch` of the category `c` wants it.
pub record IsAsWanted (wanted : Option (List Overwrite)) (c t : Channel) (ch : DesiredChannel)
    : Type 0 where
  pub in_category : t.parent_id ≡ some c.id
  pub has_topic : or_else t.topic "" ≡ or_else ch.topic ""
  pub has_overwrites :
      (ow : List Overwrite)
      → wanted ≡ some ow
      → ((o : Overwrite) → In o t.permission_overwrites → In o ow)
        × ((o : Overwrite) → In o ow → In o t.permission_overwrites)

-- The webhook of a name is there, in the channel, with its token.
pub record IsHooked (hooks : Dict Webhook) (t : Channel) (name : String) : Type 0 where
  pub hook : Webhook
  pub is_there : Dict.get hooks name ≡ some hook
  pub in_channel : hook.channel_id ≡ some t.id
  pub token : String
  pub has_token : hook.token ≡ some token
  pub token_given : token ≢ ""

pub record IsDesired (desired : Desired) (g : Guild) : Type 0 where
  pub role_there :
      (r : DesiredRole) → In r desired.roles → Dict.has (roles_by_name [] g.roles) r.name ≡ true
  pub category_there :
      (cat : Category)
      → In cat desired.categories
      → (c : Channel) × (chan_at (chans_by_name [] g.channels) cat.name 4 ≡ some c)
  pub channel_there :
      (cat : Category) (ch : DesiredChannel)
      → In cat desired.categories
      → In ch cat.channels
      → (t : Channel) × (chan_at (chans_by_name [] g.channels) ch.name 0 ≡ some t)
  pub channel_set :
      (cat : Category) (ch : DesiredChannel) (c t : Channel)
      → In cat desired.categories
      → In ch cat.channels
      → chan_at (chans_by_name [] g.channels) cat.name 4 ≡ some c
      → chan_at (chans_by_name [] g.channels) ch.name 0 ≡ some t
      → IsAsWanted
          (overwrites_for desired.guild_id
            (Dict.get (roles_by_name [] g.roles) desired.admin_role)
            (role_at (roles_by_name [] g.roles) desired.bot_role)
            ch)
          c
          t
          ch
  pub hook_set :
      (cat : Category) (ch : DesiredChannel) (t : Channel) (name : String)
      → In cat desired.categories
      → In ch cat.channels
      → chan_at (chans_by_name [] g.channels) ch.name 0 ≡ some t
      → truthy_text ch.webhook ≡ some name
      → IsHooked (webhooks_by_name [] g.webhooks) t name
