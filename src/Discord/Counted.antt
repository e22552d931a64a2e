-- ===== src/Discord/Counted.antt =====
-- roles/discord_guild/_archive/discord_reconcile.py: the counter `changes` beside what was asked of Discord.
use ansible_platform.Prelude.{
  ℕ, zero, suc, ◌+◌, String, ◌≡◌, refl, Bool, true, false, ◌&&◌, Option, none, some, List,
  if◌then◌else◌, arith,
}
use ansible_platform.Prelude.Dict.{Dict}
use ansible_platform.Prelude.Exec.{Result, ok, ◌>>=◌, ◌>>◌, >>=-eq-ok}
use ansible_platform.Prelude.Owes.{
  Owes, Owes-bind, Owes-pure, Owes-lift, Owes-when, Owes-if, Owes-each,
}
use ansible_platform.Discord.{
  Overwrite, Channel, Webhook, Request, Reply, get_guild, get_roles, get_me, get_channels,
  get_webhooks, get_webhook, create_role, create_category, create_channel, edit_channel,
  move_webhook, create_webhook, post_message, is_write, Answer, answered, http_error, failed,
  Remote, DesiredRole, DesiredChannel, Category, Desired, Run, Script, or_else, answer_or_again,
  attempts, api, log, globals, change,
}
use ansible_platform.Discord.Reconcile.{
  ensure_role, category_found, ensure_category, channel_found, ensure_channel, ensure_channels,
  moved, made, with_token, token_found, named_maybe, named, patch_for, ensure_webhook, announce,
  reconcile, report, main, start,
}

abbrev pub is_answered : {A : Type 0} → Answer A → Bool
is_answered (answered r) = true
is_answered (http_error code) = false
is_answered failed = false

-- Discord with a counter of the POST and PATCH requests that it answered
abbrev pub counting : Remote → Remote
counting d = record {
  World = Remote.World d × ℕ;
  send = λ q w.
      let (a, v) = d.send q w.0 in (a, (v, if is_write q && is_answered a then suc w.1 else w.1));
  sleep = λ w. (d.sleep w.0, w.1);
}

module _ (d : Remote) where
  abbrev Counts : Type 0
  Counts = Run (Remote.World d × ℕ)

  abbrev writes : Counts → ℕ
  writes s = s.world.1

  abbrev counted : Counts → ℕ
  counted s = s.changes

  abbrev Balance : ℕ → ℕ → {A : Type 0} → Script (counting d) A → Type 0
  Balance owed left step = Owes writes counted owed (λ _. left) step

  Owes-globals : (k : ℕ) → Balance k k (globals (counting d))
  unfolding globals
  Owes-globals k = record { after = λ s b h e. h }

  Owes-log : (k : ℕ) → Balance (suc k) k (log (counting d))
  unfolding log
  Owes-log k = record { after = λ s b h e. omega arith }

  turn-counts :
      {A : Type 0} (write : Bool) (again : Remote.World d × ℕ → Result A × (Remote.World d × ℕ))
      (answer : Answer A) (v : Remote.World d) (n : ℕ) (r : A)
      → ((w : Remote.World d × ℕ)
          → (again w).0 ≡ ok r
          → (again w).1.1 ≡ (if write then suc w.1 else w.1))
      → (answer_or_again
          (counting d)
          again
          (answer, (v, if write && is_answered answer then suc n else n))).0
        ≡ ok r
      → (answer_or_again
          (counting d)
          again
          (answer, (v, if write && is_answered answer then suc n else n))).1.1
        ≡ (if write then suc n else n)
  turn-counts write again (answered x) v n r ih e = ground arith
  turn-counts true again (http_error code) v n r ih e = ground (arith, ih (d.sleep v, n), e)
  turn-counts false again (http_error code) v n r ih e = ground (arith, ih (d.sleep v, n), e)
  turn-counts write again failed v n r ih e = absurd (cc)

  attempts-counts :
      (left : ℕ) (q : Request) (w : Remote.World d × ℕ) (r : Reply q)
      → (attempts (counting d) left q w).0 ≡ ok r
      → (attempts (counting d) left q w).1.1 ≡ (if is_write q then suc w.1 else w.1)
  unfolding attempts
  attempts-counts zero q w r e = absurd (cc)
  attempts-counts (suc left) q w r e =
      turn-counts (is_write q) (attempts (counting d) left q) (d.send q w.0).0 (d.send q w.0).1 w.1
        r (λ v. attempts-counts left q v r) e

  Owes-read : (k : ℕ) (q : Request) → is_write q ≡ false → Balance k k (api (counting d) q)
  unfolding api
  Owes-read k q h = record {
    after = λ s a i e. ground (arith, attempts-counts 5 q s.world a e, h, i);
  }

  Owes-write : (k : ℕ) (q : Request) → is_write q ≡ true → Balance k (suc k) (api (counting d) q)
  unfolding api
  Owes-write k q h = record {
    after = λ s a i e. ground (arith, attempts-counts 5 q s.world a e, h, i);
  }

  Owes-change :
      (k : ℕ) (f : Counts → Counts)
      → ((s : Counts) → ((f s).changes ≡ s.changes) × ((f s).world ≡ s.world))
      → Balance k k (change (counting d) f)
  unfolding change
  Owes-change k f h = record { after = λ s a i e. rw ((h s).0, (h s).1) i }

  -- A request that writes, and what follows it, which begins with a count
  Owes-then :
      {B : Type 0} (q : Request) (f : Reply q → Script (counting d) B)
      → is_write q ≡ true
      → ((r : Reply q) → Balance 1 0 (f r))
      → Balance 0 0 (api (counting d) q >>= f)
  Owes-then q f h next = Owes-bind 0 1 0 _ f (Owes-write 0 q h) next

  Owes-logged :
      {B : Type 0} (m : Script (counting d) B) → Balance 0 0 m → Balance 1 0 (log (counting d) >> m)
  Owes-logged m h = Owes-bind 1 0 0 _ _ (Owes-log 0) (λ _. h)

  Owes-changed :
      {B : Type 0} (k l : ℕ) (f : Counts → Counts) (m : Script (counting d) B)
      → ((s : Counts) → ((f s).changes ≡ s.changes) × ((f s).world ≡ s.world))
      → Balance k l m
      → Balance k l (change (counting d) f >> m)
  Owes-changed k l f m h next = Owes-bind k k l _ _ (Owes-change k f h) (λ _. next)

  ensure_role-Owes : (r : DesiredRole) → Balance 0 0 (ensure_role (counting d) r)
  unfolding ensure_role
  ensure_role-Owes r = Owes-bind 0 0 0 _ _ (Owes-globals 0) λ s. Owes-when 0 _ _ (
      Owes-then (create_role r.name (or_else r.color 0) (or_else r.hoist false)) _ refl
        λ x. Owes-changed 1 0 _ _ (λ t. (refl, refl)) (Owes-log 0))

  category_found-Owes :
      (cat : Category) (c : Option Channel) → Balance 0 0 (category_found (counting d) cat c)
  category_found-Owes cat (some c) = Owes-pure 0 c
  category_found-Owes cat none =
      Owes-then (create_category cat.name) _ refl
        λ x. Owes-changed 1 0 _ _ (λ t. (refl, refl)) (Owes-logged _ (Owes-pure 0 x))

  ensure_category-Owes : (cat : Category) → Balance 0 0 (ensure_category (counting d) cat)
  unfolding ensure_category
  ensure_category-Owes cat = Owes-bind 0 0 0 _ _ (Owes-globals 0) λ s. category_found-Owes cat _

  channel_found-Owes :
      (c : Channel) (ch : DesiredChannel) (wanted : Option (List Overwrite))
      (found : Option Channel)
      → Balance 0 0 (channel_found (counting d) c ch wanted found)
  channel_found-Owes c ch wanted none =
      Owes-then (create_channel ch.name c.id (or_else ch.topic "") wanted) _ refl λ x.
        Owes-changed 1 0 _ _ (λ t. (refl, refl))
          (Owes-logged _ (Owes-when 0 _ _ (Owes-change 0 _ (λ t. (refl, refl)))))
  channel_found-Owes c ch wanted (some t) =
      Owes-when 0 _ _
        (Owes-then (edit_channel t.id (patch_for t c ch wanted)) _ refl λ _. Owes-log 0)

  ensure_channels-Owes :
      (wanted : DesiredChannel → Option (List Overwrite)) (cat : Category)
      → Balance 0 0 (ensure_channels (counting d) wanted cat)
  unfolding ensure_channels ensure_channel
  ensure_channels-Owes wanted cat = Owes-bind 0 0 0 _ _ (ensure_category-Owes cat) λ c.
      Owes-each 0 _ cat.channels
        λ ch. Owes-bind 0 0 0 _ _ (Owes-globals 0) λ s. channel_found-Owes c ch (wanted ch) _

  moved-Owes : (chan : Channel) (w : Option Webhook) → Balance 0 0 (moved (counting d) chan w)
  unfolding moved
  moved-Owes chan none = Owes-pure 0 none
  moved-Owes chan (some w) = Owes-if 0 _ _ _ _ (Owes-pure 0 (some w)) (
      Owes-then (move_webhook w.id chan.id) _ refl λ _.
        Owes-logged _
          (Owes-bind 0 0 0 _ _ (Owes-read 0 (get_webhook w.id) refl) λ v. Owes-pure 0 (some v)))

  made-Owes :
      (chan : Channel) (name : String) (w : Option Webhook)
      → Balance 0 0 (made (counting d) chan name w)
  unfolding made
  made-Owes chan name (some w) = Owes-pure 0 w
  made-Owes chan name none =
      Owes-then (create_webhook chan.id name) _ refl λ w. Owes-logged _ (Owes-pure 0 w)

  token_found-Owes : (w : Webhook) (t : Option String) → Balance 0 0 (token_found (counting d) w t)
  token_found-Owes w none = Owes-read 0 (get_webhook w.id) refl
  token_found-Owes w (some t) = Owes-pure 0 w

  named-Owes :
      (existing : Dict Webhook) (name : String) (ch : DesiredChannel)
      → Balance 0 0 (named (counting d) existing name ch)
  unfolding named with_token
  named-Owes existing name ch = Owes-bind 0 0 0 _ _ (Owes-globals 0) λ s.
      Owes-bind 0 0 0 _ _ (Owes-lift 0 _) λ chan. Owes-bind 0 0 0 _ _ (moved-Owes chan _) λ found.
        Owes-bind 0 0 0 _ _ (made-Owes chan name found) λ w.
          Owes-bind 0 0 0 _ _ (token_found-Owes w _)
            λ v. Owes-bind 0 0 0 _ _ (Owes-lift 0 _) λ token. Owes-change 0 _ (λ t. (refl, refl))

  named_maybe-Owes :
      (existing : Dict Webhook) (ch : DesiredChannel) (name : Option String)
      → Balance 0 0 (named_maybe (counting d) existing ch name)
  named_maybe-Owes existing ch none = Owes-pure 0 tt
  named_maybe-Owes existing ch (some name) = named-Owes existing name ch

  announce-Owes :
      (ready : Bool) (me : String) (c : Option Channel)
      → Balance 0 0 (announce (counting d) ready me c)
  unfolding announce
  announce-Owes ready me none = Owes-pure 0 tt
  announce-Owes ready me (some c) =
      Owes-when 0 ready _ (Owes-then (post_message c.id me) _ refl λ _. Owes-log 0)

  reconcile-Owes : (desired : Desired) → Balance 0 0 (reconcile (counting d) desired)
  unfolding reconcile ensure_webhook
  reconcile-Owes desired = Owes-bind 0 0 0 _ _ (Owes-read 0 get_guild refl) λ _.
      Owes-bind 0 0 0 _ _ (Owes-read 0 get_roles refl) λ rs.
        Owes-changed 0 0 _ _ (λ t. (refl, refl))
          (Owes-bind 0 0 0 _ _ (Owes-read 0 get_me refl) λ me.
            Owes-bind 0 0 0 _ _ (Owes-each 0 _ desired.roles ensure_role-Owes) λ _.
              Owes-bind 0 0 0 _ _ (Owes-read 0 get_channels refl) λ cs.
                Owes-changed 0 0 _ _ (λ t. (refl, refl))
                  (Owes-bind 0 0 0 _ _ (Owes-globals 0) λ s.
                    Owes-bind 0 0 0 _ _ (Owes-each 0 _ desired.categories (ensure_channels-Owes _))
                      λ _. Owes-bind 0 0 0 _ _ (Owes-read 0 get_webhooks refl) λ ws.
                        Owes-bind 0 0 0 _ _
                          (Owes-each 0 _ desired.categories
                            (λ cat. Owes-each 0 _ cat.channels (λ ch. named_maybe-Owes _ ch _)))
                          λ _.
                            Owes-bind 0 0 0 _ _ (Owes-globals 0)
                              λ t. announce-Owes _ me t.created_announce))

  report-count :
      (s : Counts) (r : ℕ × Dict (String × (String × String)))
      → (report (counting d) s).0 ≡ ok r
      → s.world.1 ≡ s.changes + 0
      → (report (counting d) s).1.world.1 ≡ r.0
  unfolding report
  report-count s r e h = grind (arith, e, h)

  -- The number that a run reports in its last two lines is the number of POST and PATCH requests
  -- that Discord answered in it.
  pub changes_counted :
      (desired : Desired) (w : Remote.World d) (r : ℕ × Dict (String × (String × String)))
      → (main (counting d) desired (start (counting d) (w, 0))).0 ≡ ok r
      → (main (counting d) desired (start (counting d) (w, 0))).1.world.1 ≡ r.0
  unfolding main
  changes_counted desired w r e =
      let (a, p, q) = >>=-eq-ok (reconcile (counting d) desired) _ (start (counting d) (w, 0)) e in
      rw q (
        report-count _ r (rw q at e)
          ((reconcile-Owes desired).after (start (counting d) (w, 0)) a refl p))
