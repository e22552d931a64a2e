-- ===== src/Tests/Chain.antt =====
-- Runs of the DNS-chain bridge on a firewall with two DoT entries.
use ansible_platform.Prelude.{
  ℕ, ◌=ℕ◌, ◌<>◌, String, ◌==◌, ◌≡◌, ◌<◌, refl, Bool, false, not, ◌&&◌, ◌⊎◌, none, some, List, [],
  ◌∷◌, keep, arith, if◌then◌else◌,
}
use ansible_platform.Prelude.Dict
use ansible_platform.Prelude.Exec.{Result, ok}
use ansible_platform.ChainPhase1.{
  Remote, drill_unbound, Row, Poll, no_answer, running, exited, Dnscrypt, poll_loop, text_at, main,
}
use ansible_platform.ChainPhase1.Laws.{main_unapplied, poll_loop_exits}

abbrev uuid : Row → String
uuid row = text_at row "uuid"

-- A request to toggle or to delete an entry removes it.
abbrev untouched : String → Row → Bool
untouched path row =
    not (path == "/unbound/settings/toggleDot/" <> (uuid row <> "/0"))
    && not (path == "/unbound/settings/delDot/" <> uuid row)

abbrev box : Remote
box = record {
  World = List Row;
  unbound_port = λ rows. ok (some "53");
  search_dot = λ rows. ok rows;
  forwarding_enabled = λ rows. ok (some "1");
  dnscrypt_general = λ rows. ok [];
  dnscrypt_status = λ rows. ok (some "running");
  post = λ path body rows.
      (ok (record { status_code = 200; result = "Disabled" }), keep (untouched path) rows);
  dump_infra = λ rows. ok tt;
  agent_exec = λ argv rows. (ok (some 7), rows);
  agent_poll = λ pid left rows. ok (exited "resolved" "");
}

abbrev entry : String → Row
entry u = ("uuid", u) ∷ ("port", "853") ∷ ("enabled", "1") ∷ []

abbrev two_entries : List Row
two_entries = entry "a1" ∷ entry "b2" ∷ []

abbrev catalog : Dnscrypt
catalog = record { general_target = []; serverlist = none }

main_unapplied_example :
    ((main box catalog false none two_entries).1 ≡ two_entries)
    ⊎ ((main box catalog false none two_entries).1 ≡ (box.agent_exec drill_unbound two_entries).1)
main_unapplied_example = main_unapplied box catalog none two_entries

-- The process is seen to exit in the third poll.
abbrev third : ℕ → Result Poll
third left =
    if left =ℕ 12 then ok (exited "yes" "!") else ok (if left =ℕ 14 then running else no_answer)

quiet_before : (j : ℕ) → 12 < j → j < 15 → (third j ≡ ok no_answer) ⊎ (third j ≡ ok running)
quiet_before j h k = ground arith

poll_loop_exits_example : poll_loop third 15 ≡ ok (some ("yes" <> "!"))
poll_loop_exits_example = poll_loop_exits third 15 12 "yes" "!" (omega arith) refl quiet_before
