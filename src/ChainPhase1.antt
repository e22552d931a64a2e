-- ===== src/ChainPhase1.antt =====
-- scripts/fw_chain_phase1_apply.py: the steps that put dnscrypt-proxy behind Unbound. The firewall
-- and the hypervisor are the parameter `Remote` over its `World`: a request may raise. What the
-- steps print, and how long they sleep, is not modelled; `diff_show` only prints.
pub mod Laws
pub mod Dot
use ansible_platform.Prelude.{
  ℕ, zero, suc, ◌=ℕ◌, ◌<>◌, String, ◌==◌, Bool, true, false, not, ◌&&◌, ◌||◌, Option, none, some,
  List, [], ◌∷◌, map, is_empty, contains, String-discrete, if◌then◌else◌,
}
use ansible_platform.Prelude.Text.{join}
use ansible_platform.Prelude.Value.{Value, Scalar, items, scalar, text, Entry}
use ansible_platform.Prelude.Dict
use ansible_platform.Prelude.Dict.{Dict}
use ansible_platform.Prelude.Exec.{
  Raised, Result, ok, err, system_exit, key_error, type_error, then_result, Exec, pure, lift, when,
  each, ◌>>=◌, ◌>>◌,
}

-- A row of `searchDot`: its texts
abbrev pub Row : Type 0
Row = Dict String

-- The JSON body of a request to the firewall
pub data Body : Type 0 where
  nothing : Body
  general : Entry → Body
  forwarding : String → Body

-- `r.status_code` and `r.json().get("result")`
pub record Reply : Type 0 where
  pub status_code : ℕ
  pub result : String

-- One answer of `exec-status`: no 200, not exited yet, or the two outputs.
pub data Poll : Type 0 where
  no_answer running : Poll
  exited : String → String → Poll

pub record Remote : Type 1 where
  pub World : Type 0
  -- GET /unbound/settings/get (its port and its forwarding), /unbound/settings/searchDot, /dnscryptproxy/general/get and
  -- /dnscryptproxy/service/status, as far as the steps use their answers
  pub unbound_port : World → Result (Option String)
  pub search_dot : World → Result (List Row)
  pub forwarding_enabled : World → Result (Option String)
  pub dnscrypt_general : World → Result Entry
  pub dnscrypt_status : World → Result (Option String)
  pub post : String → Body → World → Result Reply × World
  -- GET /unbound/diagnostics/dumpInfra
  pub dump_infra : World → Result (Unit {0})
  -- the guest agent: `exec` runs a command on the firewall, which may change it, and answers the number
  -- of the process, `none` for a status other than 200; then its polls
  pub agent_exec : List String → World → Result (Option ℕ) × World
  pub agent_poll : ℕ → ℕ → World → Result Poll

-- The polling loop of `qm_exec`, with the number of polls that are left
unfoldable pub poll_loop : (ℕ → Result Poll) → ℕ → Result (Option String)
poll_loop ask zero = ok none
poll_loop ask (suc left) =
    let rest = poll_loop ask left in
    then_result (ask left) (λ p. elim p [ exited out e ↦ ok (some (out <> e)) | _ ↦ rest ])

-- `",".join(v)`: a list that holds anything but texts raises.
unfoldable pub join_texts : List Scalar → Result (List String)
join_texts [] = ok []
join_texts (Scalar.text s ∷ xs) = then_result (join_texts xs) (λ ws. ok (s ∷ ws))
join_texts (x ∷ xs) = err type_error

abbrev pub listen_value : Value → Result Value
listen_value (Value.items xs) = then_result (join_texts xs) (λ ws. ok (scalar (text (join "," ws))))
listen_value v = ok v

-- The loop that builds `body_general`
unfoldable pub general_body : Entry → Result Entry
unfolding join_texts join
general_body [] = ok []
general_body ((k, v) ∷ target) =
    then_result (if k == "listen_addresses" then listen_value v else ok v)
      (λ w. then_result (general_body target) (λ rest. ok ((k, w) ∷ rest)))

abbrev pub accepted : Reply → Bool
accepted r = (r.status_code =ℕ 200) && ((r.result == "saved") || (r.result == "ok"))

-- `catalog["opn_dnscrypt_proxy"]`, whose two keys must be there
pub record Dnscrypt : Type 0 where
  pub general_target : Entry
  pub serverlist : Option (List String)

-- `r.get("port") == "853"` and `r.get("enabled") == "1"`
abbrev pub text_at : Row → String → String
text_at r k = elim (Dict.get r k) [ none ↦ "" | some s ↦ s ]

abbrev pub is_live_dot : Row → Bool
is_live_dot r = (text_at r "port" == "853") && (text_at r "enabled" == "1")

-- The uuids of the entries to disable; a row of theirs without a uuid raises.
unfoldable pub dot_uuids : List Row → Result (List String)
unfolding Dict.get
dot_uuids [] = ok []
dot_uuids (r ∷ rows) =
    let rest = dot_uuids rows in
    if is_live_dot r
    then elim (Dict.get r "uuid") [
      | none ↦ err key_error
      | some u ↦ then_result rest (λ us. ok (u ∷ us))
    ]
    else rest

-- The command of step 7
abbrev pub drill_unbound : List String
drill_unbound = "/usr/local/bin/drill" ∷ "@127.0.0.1" ∷ "-p" ∷ "53" ∷ "example.com" ∷ []

-- The line that step 1 prints of an entry: it reads three keys, and formats a server that must be a text.
unfoldable pub snapshot_rows : List Row → Result (Unit {0})
unfolding Dict.has
snapshot_rows [] = ok tt
snapshot_rows (r ∷ rows) =
    let rest = snapshot_rows rows in
    if not (Dict.has r "uuid")
    then err key_error
    else if not (Dict.has r "server")
    then err type_error
    else if Dict.has r "port" && Dict.has r "enabled"
    then rest
    else err key_error

module _ (r : Remote) where
  unfoldable pub read : {A : Type 0} → (Remote.World r → Result A) → Exec (Remote.World r) A
  read f w = (f w, w)

  abbrev pub is_absent : Option String → Bool
  is_absent none = true
  is_absent (some s) = false

  unfoldable pub step1_snapshot : Exec (Remote.World r) (Unit {0})
  step1_snapshot = do
    port ← read r.unbound_port
    when (is_absent port) (lift (err key_error))
    rows ← read r.search_dot
    lift (snapshot_rows rows)
    _ ← read r.dnscrypt_general
    _ ← read r.dnscrypt_status
    pure tt

  -- `qm_exec`: 15 polls
  unfoldable pub qm_exec : List String → Exec (Remote.World r) (Option String)
  unfolding poll_loop
  qm_exec argv = do
    pid ← r.agent_exec argv
    elim pid [
      | none ↦ pure none
      | some n ↦ read (λ w. poll_loop (λ left. r.agent_poll n left w) 15)
    ]

  -- `gate`, then what follows it
  unfoldable pub gated : Bool → Exec (Remote.World r) (Unit {0}) → Exec (Remote.World r) (Unit {0})
  gated apply m = when apply m

  unfoldable pub post_serverlist : Option (List String) → Exec (Remote.World r) (Unit {0})
  unfolding join
  post_serverlist none = lift (err key_error)
  post_serverlist (some sl) = do
    _ ←
        r.post "/dnscryptproxy/general/set"
          (general (("serverlist", scalar (text (join "," sl))) ∷ []))
    pure tt

  unfoldable pub step2_dnscrypt_general : Dnscrypt → Bool → Exec (Remote.World r) (Unit {0})
  step2_dnscrypt_general catalog apply = do
    _ ← read r.dnscrypt_general
    body ← lift (general_body catalog.general_target)
    when (not (Dict.has catalog.general_target "listen_addresses")) (lift (err key_error))
    gated apply (do
      reply ← r.post "/dnscryptproxy/general/set" (general body)
      when (not (accepted reply)) (lift (err (system_exit "FAIL: dnscrypt general/set")))
      post_serverlist catalog.serverlist)

  abbrev pub is_running : Option String → Bool
  is_running none = false
  is_running (some s) = s == "running"

  abbrev pub has_output : Option String → Bool
  has_output none = false
  has_output (some s) = not (s == "")

  unfoldable pub step3_dnscrypt_start_verify : Bool → Exec (Remote.World r) (Unit {0})
  step3_dnscrypt_start_verify apply = gated apply (do
    _ ← r.post "/dnscryptproxy/service/reconfigure" nothing
    st ← read r.dnscrypt_status
    when (not (is_running st))
        (do _ ← r.post "/dnscryptproxy/service/start" nothing; _ ← read r.dnscrypt_status; pure tt)
    out ← qm_exec ("/usr/local/bin/drill" ∷ "@127.0.0.1" ∷ "-p" ∷ "53531" ∷ "google.com" ∷ [])
    when (not (has_output out))
        (do _ ← qm_exec ("/usr/bin/nc" ∷ "-z" ∷ "-w2" ∷ "127.0.0.1" ∷ "53531" ∷ []); pure tt))

  abbrev pub is_zero : Option String → Bool
  is_zero none = false
  is_zero (some s) = s == "0"

  unfoldable pub step4_unbound_forwarding_enable : Bool → Exec (Remote.World r) (Unit {0})
  step4_unbound_forwarding_enable apply = do
    cur ← read r.forwarding_enabled
    when (not (is_zero cur))
        (gated apply (do _ ← r.post "/unbound/settings/set" (forwarding "0"); pure tt))

  abbrev pub toggled : Reply → Bool
  toggled reply = (reply.status_code =ℕ 200) && (reply.result == "Disabled")

  abbrev pub delete_dot : String → Exec (Remote.World r) (Unit {0})
  delete_dot u = do _ ← r.post ("/unbound/settings/delDot/" <> u) nothing; pure tt

  -- One entry of step 5: the toggle, and the deletion if it did not take
  unfoldable pub disable_dot : String → Exec (Remote.World r) (Unit {0})
  disable_dot u = do
    reply ← r.post ("/unbound/settings/toggleDot/" <> (u <> "/0")) nothing
    when (not (toggled reply)) (delete_dot u)

  unfoldable pub step5_drop_dot : Bool → Exec (Remote.World r) (Unit {0})
  step5_drop_dot apply = do
    rows ← read r.search_dot
    uuids ← lift (dot_uuids rows)
    when (not (is_empty uuids)) (gated apply (each disable_dot uuids))

  unfoldable pub step6_apply_unbound_reconfigure : Bool → Exec (Remote.World r) (Unit {0})
  step6_apply_unbound_reconfigure apply =
      gated apply (do _ ← r.post "/unbound/service/reconfigure" nothing; pure tt)

  unfoldable pub step7_verify_chain : Exec (Remote.World r) (Unit {0})
  step7_verify_chain = do _ ← read r.dump_infra; _ ← qm_exec drill_unbound; pure tt

  -- `args.only in (None, number, group)`
  unfoldable pub selected : Option String → String → String → Bool
  selected none number group = true
  selected (some only) number group = (only == number) || (only == group)

  unfoldable pub main : Dnscrypt → Bool → Option String → Exec (Remote.World r) (Unit {0})
  main catalog apply only = do
    when (selected only "1" "snapshot") step1_snapshot
    when (selected only "2" "dnscrypt") (step2_dnscrypt_general catalog apply)
    when (selected only "3" "dnscrypt") (step3_dnscrypt_start_verify apply)
    when (selected only "4" "unbound") (step4_unbound_forwarding_enable apply)
    when (selected only "5" "unbound") (step5_drop_dot apply)
    when (selected only "6" "unbound") (step6_apply_unbound_reconfigure apply)
    when (selected only "7" "verify") step7_verify_chain
