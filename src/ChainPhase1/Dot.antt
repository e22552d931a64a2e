-- ===== src/ChainPhase1/Dot.antt =====
-- scripts/fw_chain_phase1_apply.py: the DoT entries behind step 5.
use ansible_platform.Prelude.{
  ◌=ℕ◌, ◌<>◌, String, ◌==◌, ◌≡◌, Bool, true, false, ◌&&◌, ◌⊎◌, List, any,
}
use ansible_platform.Prelude.Exec.{Result, ok, err}
use ansible_platform.ChainPhase1.{Remote, Row, Reply, nothing, is_live_dot, text_at, toggled}

-- Among the rows, an entry of this uuid is a DoT entry that is on.
abbrev pub live_in : List Row → String → Bool
live_in rows u = any (λ row. is_live_dot row && (text_at row "uuid" == u)) rows

abbrev pub live_of : Result (List Row) → String → Bool
live_of (ok rows) u = live_in rows u
live_of (err e) u = false

abbrev pub live : (r : Remote) → Remote.World r → String → Bool
live r w u = live_of (r.search_dot w) u

-- The answer of a deletion that has been carried out
abbrev pub deleted : Reply → Bool
deleted reply = (reply.status_code =ℕ 200) && (reply.result == "deleted")

-- What the firewall's API says of the two requests: a toggle that is answered by "Disabled" and a
-- deletion that is answered by "deleted" have their effect, and neither turns an entry on.
pub record Disables (r : Remote) : Type 0 where
  pub toggle :
      (u : String) (w : Remote.World r) (reply : Reply)
      → (r.post ("/unbound/settings/toggleDot/" <> (u <> "/0")) nothing w).0 ≡ ok reply
      → toggled r reply ≡ true
      → live r (r.post ("/unbound/settings/toggleDot/" <> (u <> "/0")) nothing w).1 u ≡ false
  pub delete :
      (u : String) (w : Remote.World r) (reply : Reply)
      → (r.post ("/unbound/settings/delDot/" <> u) nothing w).0 ≡ ok reply
      → deleted reply ≡ true
      → live r (r.post ("/unbound/settings/delDot/" <> u) nothing w).1 u ≡ false
  pub toggle_others :
      (u v : String) (w : Remote.World r)
      → live r w v ≡ false
      → live r (r.post ("/unbound/settings/toggleDot/" <> (u <> "/0")) nothing w).1 v ≡ false
  pub delete_others :
      (u v : String) (w : Remote.World r)
      → live r w v ≡ false
      → live r (r.post ("/unbound/settings/delDot/" <> u) nothing w).1 v ≡ false

-- The toggle of the entry did not take, and the firewall has answered the deletion after it with
-- something else than "deleted".
pub record Refused (r : Remote) (u : String) : Type 0 where
  pub before : Remote.World r
  pub toggle_reply : Reply
  pub is_toggle_reply :
      (r.post ("/unbound/settings/toggleDot/" <> (u <> "/0")) nothing before).0 ≡ ok toggle_reply
  pub is_not_toggled : toggled r toggle_reply ≡ false
  pub reply : Reply
  pub is_reply :
      (r.post
        ("/unbound/settings/delDot/" <> u)
        nothing
        (r.post ("/unbound/settings/toggleDot/" <> (u <> "/0")) nothing before).1).0
      ≡ ok reply
  pub is_not_deleted : deleted reply ≡ false

module _ (r : Remote) (d : Disables r) where
  abbrev OffOrRefused : Remote.World r → String → Type 0
  OffOrRefused w u = (live r w u ≡ false) ⊎ Refused r u
