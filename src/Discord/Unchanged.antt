-- ===== src/Discord/Unchanged.antt =====
-- roles/discord_guild/_archive/discord_reconcile.py: the passes on a guild that is as desired.
use ansible_platform.Prelude.{
  String, ◌==◌, ◌≡◌, ◌≢◌, refl, subst, sym, Bool-cases, inl, inr, true, false, Option, none, some,
  List, In, arith, ==_refl, ==_sound,
}
use ansible_platform.Prelude.Dict
use ansible_platform.Prelude.Dict.{Dict}
use ansible_platform.Prelude.Exec.{Result, ok, pure, lift, ◌>>=◌}
use ansible_platform.Prelude.Ends.{Ends, Ends-bind, Ends-each, Ends-when, Ends-given}
use ansible_platform.Discord.{
  Overwrite, Role, Channel, Webhook, Request, Reply, answered, Answer, Remote, DesiredRole,
  DesiredChannel, Category, Chans, chan_at, Run, or_else, Script, answer_or_again, attempts, api,
  globals, change,
}
use ansible_platform.Discord.Reconcile.{
  patch_for, has_keys, ensure_role, ensure_category, ensure_channel, ensure_channels, moved, made,
  with_token, chan_of, token_of, named,
}
use ansible_platform.Discord.Overwrites.{ow_equal_exact}
use ansible_platform.Discord.Guild.{IsAsWanted, IsHooked}

module _ (d : Remote) where
  -- No change so far, and the dictionaries that the passes read
  pub record Rests (roles : Dict Role) (chans : Chans) (s : Run (Remote.World d)) : Type 0 where
    pub no_change : s.changes ≡ 0
    pub with_roles : s.roles ≡ roles
    pub with_chans : s.by_name_type ≡ chans
    pub not_created : s.created_announce ≡ none

  turn-served :
      {A : Type 0} (again : Remote.World d → Result A × Remote.World d)
      (t : Answer A × Remote.World d) (r : A)
      → t.0 ≡ answered r
      → (answer_or_again d again t).0 ≡ ok r
  turn-served again (answered x, v) r e = grind (arith, e)
  turn-served again (Answer.http_error code, v) r e = absurd (cc)
  turn-served again (Answer.failed, v) r e = absurd (cc)

  api-served :
      (q : Request) (s : Run (Remote.World d)) (r : Reply q)
      → (d.send q s.world).0 ≡ answered r
      → (api d q s).0 ≡ ok r
  unfolding api attempts
  api-served q s r e = turn-served (attempts d 4 q) (d.send q s.world) r e

  module _ (R : Dict Role) (C : Chans) where
    Ends-asked :
        (q : Request) (r : Reply q)
        → ((w : Remote.World d) → (d.send q w).0 ≡ answered r)
        → Ends (Rests R C) (λ a s. (a ≡ r) × Rests R C s) (api d q)
    unfolding api
    Ends-asked q r h = record {
      ends = λ s k. (
        r,
        api-served q s r (h s.world),
        (
          refl,
          record {
            no_change = k.no_change;
            with_roles = k.with_roles;
            with_chans = k.with_chans;
            not_created = k.not_created;
          },
        ),
      );
    }

    -- A request that is answered by the same reply in every world
    pub Ends-ask :
        {B : Type 0} (After : B → Run (Remote.World d) → Type 0) (q : Request) (r : Reply q)
        (f : Reply q → Script d B)
        → ((w : Remote.World d) → (d.send q w).0 ≡ answered r)
        → Ends (Rests R C) After (f r)
        → Ends (Rests R C) After (api d q >>= f)
    Ends-ask After q r f h next =
        Ends-bind (Rests R C) (λ a s. (a ≡ r) × Rests R C s) After (api d q) f (Ends-asked q r h)
          (λ a.
            Ends-given (a ≡ r) (Rests R C) After (f a)
              (λ e. subst (λ b. Ends (Rests R C) After (f b)) (sym e) next))

    pub Ends-look :
        {B : Type 0} (After : B → Run (Remote.World d) → Type 0)
        (f : Run (Remote.World d) → Script d B)
        → ((s : Run (Remote.World d)) → Rests R C s → Ends (Rests R C) After (f s))
        → Ends (Rests R C) After (globals d >>= f)
    unfolding globals ◌>>=◌
    Ends-look After f h = record { ends = λ s k. (h s k).ends s k }

    pub ensure_role-Ends :
        (r : DesiredRole)
        → Dict.has R r.name ≡ true
        → Ends (Rests R C) (λ _. Rests R C) (ensure_role d r)
    unfolding ensure_role
    ensure_role-Ends r h =
        Ends-look _ _ λ s k. Ends-when (Rests R C) _ _ (rw (k.with_roles, h) refl)

    has_keys-IsAsWanted :
        (c t : Channel) (ch : DesiredChannel) (wanted : Option (List Overwrite))
        → IsAsWanted wanted c t ch
        → has_keys (patch_for t c ch wanted) ≡ false
    unfolding patch_for
    has_keys-IsAsWanted c t ch none h =
        rw (h.in_category, h.has_topic, ==_refl c.id, ==_refl (or_else ch.topic "")) refl
    has_keys-IsAsWanted c t ch (some ow) h =
        rw
          (
            h.in_category,
            h.has_topic,
            ==_refl c.id,
            ==_refl (or_else ch.topic ""),
            (ow_equal_exact t.permission_overwrites ow).1 (h.has_overwrites ow refl),
          )
          refl

    Ends-value : {A : Type 0} (a : A) → Ends (Rests R C) (λ b s. (b ≡ a) × Rests R C s) (pure a)
    unfolding pure
    Ends-value a = record { ends = λ s k. (a, refl, (refl, k)) }

    ensure_category-Ends :
        (cat : Category) (c : Channel)
        → chan_at C cat.name 4 ≡ some c
        → Ends (Rests R C) (λ a s. (a ≡ c) × Rests R C s) (ensure_category d cat)
    unfolding ensure_category
    ensure_category-Ends cat c h = Ends-look _ _ λ s k. rw (k.with_chans, h) (Ends-value c)

    ensure_channel-Ends :
        (wanted : DesiredChannel → Option (List Overwrite)) (c t : Channel) (ch : DesiredChannel)
        → chan_at C ch.name 0 ≡ some t
        → IsAsWanted (wanted ch) c t ch
        → Ends (Rests R C) (λ _. Rests R C) (ensure_channel d wanted c ch)
    unfolding ensure_channel
    ensure_channel-Ends wanted c t ch h set = Ends-look _ _ λ s k.
        rw (k.with_chans, h)
          (Ends-when (Rests R C) _ _ (has_keys-IsAsWanted c t ch (wanted ch) set))

    pub ensure_channels-Ends :
        (wanted : DesiredChannel → Option (List Overwrite)) (cat : Category) (c : Channel)
        → chan_at C cat.name 4 ≡ some c
        → ((ch : DesiredChannel)
            → In ch cat.channels
            → (t : Channel) × (chan_at C ch.name 0 ≡ some t) × IsAsWanted (wanted ch) c t ch)
        → Ends (Rests R C) (λ _. Rests R C) (ensure_channels d wanted cat)
    unfolding ensure_channels
    ensure_channels-Ends wanted cat c h sets =
        Ends-bind (Rests R C) (λ a s. (a ≡ c) × Rests R C s) (λ _. Rests R C)
          (ensure_category d cat) _ (ensure_category-Ends cat c h)
          (λ a.
            Ends-given (a ≡ c) (Rests R C) (λ _. Rests R C) _
              (λ e. Ends-each (Rests R C) _ cat.channels (λ ch m.
                let (t, there_t, set) = sets ch m in
                ensure_channel-Ends wanted a t ch there_t
                  (subst (λ b. IsAsWanted (wanted ch) b t ch) (sym e) set))))

    not_empty : (t : String) → t ≢ "" → (t == "") ≡ false
    not_empty t h = elim (Bool-cases (t == "")) [ inl e ↦ absurd (h (==_sound t "" e)) | inr e ↦ e ]

    moved-same :
        (t : Channel) (w : Webhook) → w.channel_id ≡ some t.id → moved d t (some w) ≡ pure (some w)
    unfolding moved
    moved-same t w h = rw (h, ==_refl t.id) refl

    with_token-same :
        (w : Webhook) (token : String) → w.token ≡ some token → token ≢ "" → with_token d w ≡ pure w
    unfolding with_token
    with_token-same w token h k = rw (h, not_empty token k) refl

    -- A statement that only returns a value
    Ends-step :
        {A B : Type 0} (m : Script d A) (f : A → Script d B) (a : A)
        (After : B → Run (Remote.World d) → Type 0)
        → m ≡ pure a
        → Ends (Rests R C) After (f a)
        → Ends (Rests R C) After (m >>= f)
    unfolding pure ◌>>=◌
    Ends-step m f a After h next = rw h (record { ends = λ s k. next.ends s k })

    chan_of-some :
        (t : Channel) (o : Option Channel)
        → o ≡ some t
        → lift (chan_of d o) ≡ pure {S = Run (Remote.World d)} t
    unfolding lift pure
    chan_of-some t o h = rw h refl

    token_of-some :
        (t : String) (o : Option String)
        → o ≡ some t
        → lift (token_of d o) ≡ pure {S = Run (Remote.World d)} t
    unfolding lift pure
    token_of-some t o h = rw h refl

    made-same : (t : Channel) (name : String) (w : Webhook) → made d t name (some w) ≡ pure w
    unfolding made
    made-same t name w = refl

    pub named-Ends :
        (existing : Dict Webhook) (name : String) (ch : DesiredChannel) (t : Channel)
        → chan_at C ch.name 0 ≡ some t
        → IsHooked existing t name
        → Ends (Rests R C) (λ _. Rests R C) (named d existing name ch)
    unfolding named change
    named-Ends existing name ch t h hooked = Ends-look _ _ λ s k.
        Ends-step _ _ t _ (chan_of-some t _ (rw (k.with_chans) h)) (
          Ends-step _ _ (some hooked.hook) _
            (rw (hooked.is_there) (moved-same t hooked.hook hooked.in_channel))
            (Ends-step _ _ hooked.hook _ (made-same t name hooked.hook) (
              Ends-step _ _ hooked.hook _
                (with_token-same hooked.hook hooked.token hooked.has_token hooked.token_given)
                (Ends-step _ _ hooked.token _ (token_of-some hooked.token _ hooked.has_token)
                  (record {
                    ends = λ s k. (
                      tt,
                      refl,
                      record {
                        no_change = k.no_change;
                        with_roles = k.with_roles;
                        with_chans = k.with_chans;
                        not_created = k.not_created;
                      },
                    );
                  })))))
