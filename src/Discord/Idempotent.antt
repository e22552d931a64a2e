-- ===== src/Discord/Idempotent.antt =====
-- roles/discord_guild/_archive/discord_reconcile.py: the whole run on a guild that is as desired.
use ansible_platform.Prelude.{String, ◌≡◌, refl, Bool, Option, none, some, [], In}
use ansible_platform.Prelude.Dict
use ansible_platform.Prelude.Dict.{Dict}
use ansible_platform.Prelude.Exec.{ok, each, ◌>>=◌, ◌>>◌, >>=-ok}
use ansible_platform.Prelude.Ends.{Ends, Ends-bind, Ends-pure, Ends-each}
use ansible_platform.Discord.{
  Role, Channel, Webhook, get_guild, get_roles, get_me, get_channels, get_webhooks, Remote,
  DesiredChannel, Category, Desired, Chans, chan_at, Run, overwrites_for, Script, change,
}
use ansible_platform.Discord.Reconcile.{
  roles_by_name, chans_by_name, webhooks_by_name, truthy_text, role_at, ensure_channels,
  named_maybe, ensure_webhook, announce, reconcile, report, main, start,
}
use ansible_platform.Discord.Guild.{Guild, Serves, IsHooked, IsDesired}
use ansible_platform.Discord.Unchanged.{
  Rests, Ends-ask, Ends-look, ensure_role-Ends, ensure_channels-Ends, named-Ends,
}

module _ (d : Remote) where
  Ends-change :
      {B : Type 0} (R S : Dict Role) (C D : Chans) (After : B → Run (Remote.World d) → Type 0)
      (f : Run (Remote.World d) → Run (Remote.World d)) (m : Script d B)
      → ((s : Run (Remote.World d)) → Rests d R C s → Rests d S D (f s))
      → Ends (Rests d S D) After m
      → Ends (Rests d R C) After (change d f >> m)
  unfolding change ◌>>=◌
  Ends-change R S C D After f m h next = record { ends = λ s k. next.ends (f s) (h s k) }

  named_maybe-Ends :
      (R : Dict Role) (C : Chans) (hooks : Dict Webhook) (ch : DesiredChannel) (t : Channel)
      (name : Option String)
      → chan_at C ch.name 0 ≡ some t
      → ((n : String) → name ≡ some n → IsHooked hooks t n)
      → Ends (Rests d R C) (λ _. Rests d R C) (named_maybe d hooks ch name)
  named_maybe-Ends R C hooks ch t none h hooked = Ends-pure (Rests d R C) tt
  named_maybe-Ends R C hooks ch t (some n) h hooked =
      named-Ends d R C hooks n ch t h (hooked n refl)

  announce-Ends :
      (R : Dict Role) (C : Chans) (ready : Bool) (me : String) (c : Option Channel)
      → c ≡ none
      → Ends (Rests d R C) (λ _. Rests d R C) (announce d ready me c)
  unfolding announce
  announce-Ends R C ready me none h = Ends-pure (Rests d R C) tt
  announce-Ends R C ready me (some c) h = absurd (cc)

  module _ (desired : Desired) (g : Guild) (serves : Serves d g)
      (is_desired : IsDesired desired g) where
    abbrev R : Dict Role
    R = roles_by_name [] g.roles

    abbrev C : Chans
    C = chans_by_name [] g.channels

    abbrev Calm : Run (Remote.World d) → Type 0
    Calm = Rests d R C

    categories-Ends :
        (cat : Category)
        → In cat desired.categories
        → Ends Calm
            (λ _. Calm)
            (ensure_channels d
              (overwrites_for desired.guild_id
                (Dict.get R desired.admin_role)
                (role_at R desired.bot_role))
              cat)
    categories-Ends cat m =
        let (c, there_c) = is_desired.category_there cat m in
        ensure_channels-Ends d R C _ cat c there_c (λ ch k.
          let (t, there_t) = is_desired.channel_there cat ch m k in
          (t, there_t, is_desired.channel_set cat ch c t m k there_c there_t))

    webhooks-Ends :
        (cat : Category)
        → In cat desired.categories
        → Ends Calm
            (λ _. Calm)
            (each (ensure_webhook d (webhooks_by_name [] g.webhooks)) cat.channels)
    unfolding ensure_webhook
    webhooks-Ends cat m = Ends-each Calm _ cat.channels (λ ch k.
        let (t, there_t) = is_desired.channel_there cat ch m k in
        named_maybe-Ends R C _ ch t (truthy_text ch.webhook) there_t
          (λ n e. is_desired.hook_set cat ch t n m k there_t e))

    reconcile-Ends : Ends (Rests d [] []) (λ _. Calm) (reconcile d desired)
    unfolding reconcile
    reconcile-Ends = Ends-ask d [] [] _ get_guild tt _ serves.serves_guild (
        Ends-ask d [] [] _ get_roles g.roles _ serves.serves_roles (
          Ends-change [] R [] [] _ _ _
            (λ s k. record {
              no_change = k.no_change;
              with_roles = refl;
              with_chans = k.with_chans;
              not_created = k.not_created;
            })
            (Ends-ask d R [] _ get_me g.me _ serves.serves_me (
              Ends-bind (Rests d R []) (λ _. Rests d R []) _ _ _
                (Ends-each _ _ desired.roles
                  (λ r m. ensure_role-Ends d R [] r (is_desired.role_there r m)))
                λ _. Ends-ask d R [] _ get_channels g.channels _ serves.serves_channels (
                  Ends-change R R [] C _ _ _
                    (λ s k. record {
                      no_change = k.no_change;
                      with_roles = k.with_roles;
                      with_chans = refl;
                      not_created = k.not_created;
                    })
                    (Ends-look d R C _ _ λ s k. rw (k.with_roles) (
                      Ends-bind Calm (λ _. Calm) _ _ _
                        (Ends-each Calm _ desired.categories categories-Ends)
                        λ _. Ends-ask d R C _ get_webhooks g.webhooks _ serves.serves_webhooks (
                          Ends-bind Calm (λ _. Calm) _ _ _
                            (Ends-each Calm _ desired.categories webhooks-Ends)
                            λ _. Ends-look d R C _ _ λ s k.
                              announce-Ends R C _ g.me s.created_announce (k.not_created)))))))))

    -- If every reading request is answered by what stands in the guild, and that is as desired, then
    -- the run ends well and reports no change.
    pub main_idempotent :
        (w : Remote.World d)
        → (out : Dict (String × (String × String))) × ((main d desired (start d w)).0 ≡ ok (0, out))
    unfolding main report
    main_idempotent w =
        let (a, p, k) =
          reconcile-Ends.ends (start d w) (record {
            no_change = refl;
            with_roles = refl;
            with_chans = refl;
            not_created = refl;
          }) in
        (
          (reconcile d desired (start d w)).1.out,
          rw (>>=-ok (reconcile d desired) (λ _. report d) (start d w) a p, k.no_change) refl,
        )
