-- ===== src/Discord/Reconcile.antt =====
-- roles/discord_guild/_archive/discord_reconcile.py: the passes over roles, channels and webhooks.
use ansible_platform.Prelude.{
  ℕ, ◌=ℕ◌, String, ◌==◌, Bool, true, false, not, ◌&&◌, Option, none, some, List, [], ◌∷◌,
  if◌then◌else◌,
}
use ansible_platform.Prelude.Dict
use ansible_platform.Prelude.Dict.{Dict}
use ansible_platform.Prelude.Exec.{Result, ok, err, key_error, pure, lift, when, each, ◌>>=◌, ◌>>◌}
use ansible_platform.Discord.{
  Overwrite, Role, Channel, Webhook, Patch, get_guild, get_roles, get_me, get_channels,
  get_webhooks, get_webhook, create_role, create_category, create_channel, edit_channel,
  move_webhook, create_webhook, post_message, Remote, DesiredRole, DesiredChannel, Category,
  Desired, Chans, chan_at, Run, or_else, overwrites_for, ow_equal, Script, api, log, globals,
  change,
}

-- `{r["name"]: r for r in ...}`
unfoldable pub roles_by_name : Dict Role → List Role → Dict Role
unfolding Dict.put
roles_by_name d [] = d
roles_by_name d (r ∷ rs) = roles_by_name (Dict.put r.name r d) rs

-- `{(c["name"], c["type"]): c for c in chans}`
unfoldable pub chans_by_name : Chans → List Channel → Chans
chans_by_name d [] = d
chans_by_name d (c ∷ cs) = chans_by_name (((c.name, c.kind), c) ∷ d) cs

-- `{w["name"]: w for w in ... if w.get("type") == 1}`; a name that is null is never looked up.
abbrev pub named_webhook : Option String → Webhook → Dict Webhook → Dict Webhook
named_webhook none w d = d
named_webhook (some name) w d = Dict.put name w d

unfoldable pub webhooks_by_name : Dict Webhook → List Webhook → Dict Webhook
unfolding Dict.put
webhooks_by_name d [] = d
webhooks_by_name d (w ∷ ws) =
    webhooks_by_name (if w.kind =ℕ 1 then named_webhook w.name w d else d) ws

abbrev pub is_text : Option String → String → Bool
is_text none s = false
is_text (some r) s = r == s

-- The keys of `patch`
unfoldable pub patch_for : Channel → Channel → DesiredChannel → Option (List Overwrite) → Patch
patch_for t c ch wanted = record {
  parent_id = if is_text t.parent_id c.id then none else some c.id;
  topic =
      let topic = or_else ch.topic "" in if or_else t.topic "" == topic then none else some topic;
  permission_overwrites = elim wanted [
    | none ↦ none
    | some ow ↦ if ow_equal t.permission_overwrites ow then none else some ow
  ];
}

abbrev pub is_set {ℓ} : {A : Type ℓ} → Option A → Bool
is_set none = false
is_set (some a) = true

-- `if patch`
abbrev pub has_keys : Patch → Bool
has_keys p =
    not (not (is_set p.parent_id) && (not (is_set p.topic) && not (is_set p.permission_overwrites)))

-- The text, unless it is missing or empty
abbrev pub truthy_text : Option String → Option String
truthy_text none = none
truthy_text (some s) = if s == "" then none else some s

abbrev pub role_at : Dict Role → Option String → Option Role
role_at roles name = Dict.get roles (or_else name "")

module _ (d : Remote) where
  -- One turn of the loop over the roles
  unfoldable pub ensure_role : DesiredRole → Script d (Unit {0})
  unfolding Dict.put
  ensure_role r = do
    s ← globals d
    when (not (Dict.has s.roles r.name)) (do
      new ← api d (create_role r.name (or_else r.color 0) (or_else r.hoist false))
      change d (λ t. record t { roles = Dict.put r.name new t.roles })
      log d)

  -- `by_name_type[(name, kind)] = c`
  abbrev pub remember : String → ℕ → Channel → Script d (Unit {0})
  remember name kind c =
      change d (λ t. record t { by_name_type = ((name, kind), c) ∷ t.by_name_type })

  abbrev pub category_found : Category → Option Channel → Script d Channel
  category_found cat (some c) = pure c
  category_found cat none = do
    c ← api d (create_category cat.name)
    remember cat.name 4 c
    log d
    pure c

  -- The category of one turn of the loop over the categories
  unfoldable pub ensure_category : Category → Script d Channel
  ensure_category cat = do s ← globals d; category_found cat (chan_at s.by_name_type cat.name 4)

  abbrev pub channel_found :
      Channel → DesiredChannel → Option (List Overwrite) → Option Channel → Script d (Unit {0})
  channel_found c ch wanted none = do
    t ← api d (create_channel ch.name c.id (or_else ch.topic "") wanted)
    remember ch.name 0 t
    log d
    when (ch.name == "announcements") (change d (λ s. record s { created_announce = some t }))
  channel_found c ch wanted (some t) =
      let patch = patch_for t c ch wanted in
      when (has_keys patch) (do _ ← api d (edit_channel t.id patch); log d)

  -- One turn of the loop over the channels of a category
  unfoldable pub ensure_channel :
      (DesiredChannel → Option (List Overwrite)) → Channel → DesiredChannel → Script d (Unit {0})
  unfolding patch_for
  ensure_channel wanted c ch = do
    s ← globals d
    channel_found c ch (wanted ch) (chan_at s.by_name_type ch.name 0)

  unfoldable pub ensure_channels :
      (DesiredChannel → Option (List Overwrite)) → Category → Script d (Unit {0})
  ensure_channels wanted cat = do
    c ← ensure_category cat
    each (ensure_channel wanted c) cat.channels

  -- `if w and w.get("channel_id") != chan["id"]`
  unfoldable pub moved : Channel → Option Webhook → Script d (Option Webhook)
  moved chan none = pure none
  moved chan (some w) = if is_text w.channel_id chan.id then pure (some w) else (do
    _ ← api d (move_webhook w.id chan.id)
    log d
    v ← api d (get_webhook w.id)
    pure (some v))

  -- `if not w`
  unfoldable pub made : Channel → String → Option Webhook → Script d Webhook
  made chan name (some w) = pure w
  made chan name none = do w ← api d (create_webhook chan.id name); log d; pure w

  abbrev pub token_found : Webhook → Option String → Script d Webhook
  token_found w none = api d (get_webhook w.id)
  token_found w (some t) = pure w

  -- `if not w.get("token")`
  unfoldable pub with_token : Webhook → Script d Webhook
  with_token w = token_found w (truthy_text w.token)

  -- `w['token']`
  abbrev pub token_of : Option String → Result String
  token_of none = err key_error
  token_of (some t) = ok t

  abbrev pub chan_of : Option Channel → Result Channel
  chan_of none = err key_error
  chan_of (some c) = ok c

  unfoldable pub named : Dict Webhook → String → DesiredChannel → Script d (Unit {0})
  unfolding moved made with_token Dict.put
  named existing name ch = do
    s ← globals d
    chan ← lift (chan_of (chan_at s.by_name_type ch.name 0))
    found ← moved chan (Dict.get existing name)
    w ← made chan name found
    v ← with_token w
    token ← lift (token_of v.token)
    change d (λ t. record t { out = Dict.put name (v.id, (token, ch.name)) t.out })

  abbrev pub named_maybe : Dict Webhook → DesiredChannel → Option String → Script d (Unit {0})
  named_maybe existing ch none = pure tt
  named_maybe existing ch (some name) = named existing name ch

  -- One turn of the loop over the webhooks
  unfoldable pub ensure_webhook : Dict Webhook → DesiredChannel → Script d (Unit {0})
  unfolding named
  ensure_webhook existing ch = named_maybe existing ch (truthy_text ch.webhook)

  unfoldable pub announce : Bool → String → Option Channel → Script d (Unit {0})
  announce ready me none = pure tt
  announce ready me (some c) = when ready (do _ ← api d (post_message c.id me); log d)

  -- What the script does before its last two lines
  unfoldable pub reconcile : Desired → Script d (Unit {0})
  unfolding roles_by_name chans_by_name webhooks_by_name overwrites_for ensure_role ensure_channels
      ensure_webhook announce
  reconcile desired = do
    _ ← api d get_guild
    roles ← api d get_roles
    change d (λ t. record t { roles = roles_by_name [] roles })
    me ← api d get_me
    each ensure_role desired.roles
    chans ← api d get_channels
    change d (λ t. record t { by_name_type = chans_by_name [] chans })
    s ← globals d
    let wanted =
        overwrites_for desired.guild_id (Dict.get s.roles desired.admin_role)
          (role_at s.roles desired.bot_role)
    each (ensure_channels wanted) desired.categories
    hooks ← api d get_webhooks
    each (λ (cat : Category). each (ensure_webhook (webhooks_by_name [] hooks)) cat.channels)
        desired.categories
    t ← globals d
    announce desired.post_ready_message me t.created_announce

  -- Its last two lines
  unfoldable pub report : Script d (ℕ × Dict (String × (String × String)))
  report s = (ok (s.changes, s.out), s)

  -- The script, with the changes and the webhooks that it prints at its end
  unfoldable pub main : Desired → Script d (ℕ × Dict (String × (String × String)))
  main desired = do reconcile desired; report

  -- Where the script starts
  abbrev pub start : Remote.World d → Run (Remote.World d)
  start w = record {
    world = w;
    changes = 0;
    roles = [];
    by_name_type = [];
    created_announce = none;
    out = [];
  }
